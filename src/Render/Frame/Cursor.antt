-- ===== src/Render/Frame/Cursor.antt =====
-- The cursor and the pen of a terminal that reads the bytes of one cell of dosshd/render.c.
use dossh.Base.{
  ℕ, ◌+◌, ◌/◌, ◌%◌, ◌<◌, true, false, not, ◌||◌, ◌++◌, Option, none, some, ◌≡◌, ◌≢◌, arith, inl,
  inr, ◌==◌, Bool-cases,
}
use dossh.Render.State.{Render}
use dossh.Render.Emit.{char_bytes}
use dossh.Render.Emit.Room.{sgr_params}
use dossh.Render.Frame.{follows, has_sgr}
use dossh.Render.Terminal.{plain, Terminal, write_char, reads}
use dossh.Render.Terminal.Reads.{reads-append, reads-cup, reads-sgr, reads-char}
use dossh.Render.Frame.Cells.{place_bytes, ink_bytes, cell_bytes}

-- The cursor stands where the cell `c` goes, unless a position is sent.
abbrev pub IsPlaced : Option ℕ → ℕ → Terminal → Type 0
IsPlaced none cols t = Unit {0}
IsPlaced (some last) cols t =
    (last + 1) % cols ≢ 0 → (t.row ≡ (last + 1) / cols) × (t.col ≡ (last + 1) % cols)

-- The pen is the attribute that was sent last.
abbrev pub IsInked : Option ℕ → Terminal → Type 0
IsInked none t = Unit {0}
IsInked (some at) t = t.pen ≡ sgr_params at

-- Where no position is sent, the cursor is there already.
stands :
    (last : Option ℕ) (cols c : ℕ) (t : Terminal)
    → IsPlaced last cols t
    → not (follows last c) || c % cols == 0 ≡ false
    → (t.row ≡ c / cols) × (t.col ≡ c % cols)
stands none cols c t placed stay = absurd (ground arith)
stands (some last) cols c t placed stay =
    let next : c ≡ last + 1 = ground arith in
    let inside : (last + 1) % cols ≢ 0 = ground (arith, next) in
    let (row, col) = placed inside in (ground (arith, row, next), ground (arith, col, next))

reads-place :
    (width c : ℕ) (t : Terminal) (r : Render)
    → t.reading ≡ plain
    → c / r.f_cols + 1 < 100000
    → c % r.f_cols + 1 < 100000
    → IsPlaced r.last_emit r.f_cols t
    → reads width t (place_bytes c r) ≡ record t { row = c / r.f_cols; col = c % r.f_cols }
unfolding reads
reads-place width c t r idle small narrow placed =
    let moved = reads-cup width t (c / r.f_cols) (c % r.f_cols) idle small narrow in
    elim (Bool-cases (not (follows r.last_emit c) || c % r.f_cols == 0)) [
      | inl move ↦ ground (arith, moved)
      | inr stay ↦
          let (row, col) = stands r.last_emit r.f_cols c t placed stay in ground (arith, row, col)
    ]

holds_pen :
    (sgr : Option ℕ) (at : ℕ) (t : Terminal)
    → IsInked sgr t
    → has_sgr sgr at ≡ true
    → t.pen ≡ sgr_params at
holds_pen none at t inked same = absurd (ground arith)
holds_pen (some sgr) at t inked same = let e : at ≡ sgr = ground arith in rw e inked

reads-ink :
    (width at : ℕ) (t : Terminal) (r : Render)
    → t.reading ≡ plain
    → IsInked r.cur_sgr t
    → reads width t (ink_bytes at r) ≡ record t { pen = sgr_params at }
unfolding reads
reads-ink width at t r idle inked =
    let sgr = reads-sgr width t at idle in
    elim (Bool-cases (has_sgr r.cur_sgr at)) [
      | inl same ↦ let pen = holds_pen r.cur_sgr at t inked same in ground (arith, pen)
      | inr other ↦ ground (arith, sgr)
    ]

IsInked-move :
    (sgr : Option ℕ) (t : Terminal) (row col : ℕ)
    → IsInked sgr t
    → IsInked sgr (record t { row = row; col = col })
IsInked-move none t row col inked = inked
IsInked-move (some sgr) t row col inked = inked

-- A terminal that is placed and inked as the renderer assumes writes the cell at its row and column with
-- its attribute.
pub reads-cell :
    (width c ch at : ℕ) (t : Terminal) (r : Render)
    → t.reading ≡ plain
    → ch < 256
    → c / r.f_cols + 1 < 100000
    → c % r.f_cols + 1 < 100000
    → IsPlaced r.last_emit r.f_cols t
    → IsInked r.cur_sgr t
    → reads width t (cell_bytes c ch at r)
      ≡ write_char width
          (char_bytes ch)
          (record t { row = c / r.f_cols; col = c % r.f_cols; pen = sgr_params at })
reads-cell width c ch at t r idle h small narrow placed inked =
    let t1 : Terminal = record t { row = c / r.f_cols; col = c % r.f_cols } in
    let t2 : Terminal = record t1 { pen = sgr_params at } in
    ground (
      arith,
      reads-append width t (place_bytes c r) (ink_bytes at r ++ char_bytes ch),
      reads-place width c t r idle small narrow placed,
      reads-append width t1 (ink_bytes at r) (char_bytes ch),
      reads-ink width at t1 r idle (IsInked-move r.cur_sgr t (c / r.f_cols) (c % r.f_cols) inked),
      reads-char width t2 ch idle h,
    )
