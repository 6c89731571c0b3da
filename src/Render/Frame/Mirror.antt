-- ===== src/Render/Frame/Mirror.antt =====
-- A terminal that follows the stream of dosshd/render.c shows the screen.
use dossh.Base.{
  ℕ, ◌+◌, ◌*◌, ◌/◌, ◌%◌, ◌<◌, ◌≤◌, true, false, ◌||◌, List, [], some, ◌≡◌, ◌≢◌, refl, ◌⊎◌, arith,
  inl, inr, ◌==◌, if◌then◌else◌, length, Bool-cases, update,
}
use native.Mathlib.Nat.{mod-lt, div-le_self}
use dossh.Render.State.{Render, obuf_sz}
use dossh.Render.Emit.{char_bytes}
use dossh.Render.Emit.Room.{with_bytes, sgr_params}
use dossh.Render.Frame.{differs, fill_cell}
use dossh.Render.Frame.Grid.{next_cell, same_cell}
use dossh.Render.Frame.Cells.{cell_bytes, emit_cell-append}
use dossh.Render.Frame.Cursor.{IsPlaced, IsInked, reads-cell}
use dossh.Render.Terminal.{plain, Terminal, Cell, write_char, reads}

-- What a terminal shows for a character and an attribute of the video memory.
abbrev pub image : ℕ → ℕ → Cell
image ch at = (char_bytes ch, sgr_params at)

-- The terminal shows the cell `k` of a video memory.
abbrev pub Shows : Terminal → ℕ → (ℕ → ℕ) → ℕ → Type 0
Shows t cols v k = t.grid (k / cols) (k % cols) ≡ image (v (k * 2)) (v (k * 2 + 1))

-- The cells whose image the terminal is known to have: in a repaint those that were walked over.
abbrev pub IsKnown : Render → ℕ → Type 0
IsKnown r k = (k < r.total_cells) × ((r.is_repaint ≡ false) ⊎ (k < r.walk_cell))

-- In the midst of a frame that has a shadow, the terminal agrees with the renderer's notes: cursor,
-- pen, and the shadow's cells. The terminal is at least as wide as the frame.
pub record IsMirrored (width : ℕ) (t : Terminal) (r : Render) : Type 0 where
  pub idle : t.reading ≡ plain
  pub some_cols : 0 < r.f_cols
  pub wide : r.f_cols ≤ width
  pub narrow : r.f_cols < 1000
  pub small : r.total_cells < 10000
  pub shadowed : r.is_toobig ≡ false
  pub placed : IsPlaced r.last_emit r.f_cols t
  pub inked : IsInked r.cur_sgr t
  pub shown : (k : ℕ) → IsKnown r k → Shows t r.f_cols r.shadow k

-- Video memory holds bytes.
abbrev pub IsMemory : (ℕ → ℕ) → Type 0
IsMemory v = (i : ℕ) → v i < 256

-- The loop's body: the cell at `walk_cell`, and on to the next.
abbrev pub walk : (ℕ → ℕ) → Render → Render
walk v r = record (fill_cell v r.walk_cell r) { walk_cell = r.walk_cell + 1 }

-- The bytes that it sends.
abbrev pub sent_bytes : (ℕ → ℕ) → Render → List ℕ
sent_bytes v r =
    if r.is_repaint || differs v r.shadow r.walk_cell
    then cell_bytes r.walk_cell (v (r.walk_cell * 2)) (v (r.walk_cell * 2 + 1)) r
    else []

-- The state behind a cell that is sent.
abbrev pub sent : (ℕ → ℕ) → Render → Render
sent v r =
    let c = r.walk_cell in
    let ch = v (c * 2) in
    let at = v (c * 2 + 1) in
    record (with_bytes r (cell_bytes c ch at r)) {
      cur_sgr = some at;
      shadow = update (update r.shadow (c * 2) ch) (c * 2 + 1) at;
      last_emit = some c;
      walk_cell = c + 1;
    }

pub walk-sent :
    (v : ℕ → ℕ) (r : Render)
    → IsMemory v
    → r.is_toobig ≡ false
    → length r.o + 31 ≤ obuf_sz
    → r.is_repaint || differs v r.shadow r.walk_cell ≡ true
    → walk v r ≡ sent v r
unfolding fill_cell
walk-sent v r bytes shadowed room changes =
    let c : ℕ = r.walk_cell in
    let emitted = emit_cell-append c (v (c * 2)) (v (c * 2 + 1)) r (bytes (c * 2)) room in
    ground (arith, emitted)

pub walk-stays :
    (v : ℕ → ℕ) (r : Render)
    → r.is_toobig ≡ false
    → r.is_repaint || differs v r.shadow r.walk_cell ≡ false
    → walk v r ≡ record r { walk_cell = r.walk_cell + 1 }
unfolding fill_cell
walk-stays v r shadowed same = ground arith

-- The cursor behind a cell that was written.
sent-IsPlaced :
    (width cols c : ℕ) (t : Terminal) (text : List ℕ)
    → 0 < cols
    → cols ≤ width
    → t.row ≡ c / cols
    → t.col ≡ c % cols
    → IsPlaced (some c) cols (write_char width text t)
unfolding write_char
sent-IsPlaced width cols c t text pos wide row col ne =
    let (same_row, next_col, inside) = next_cell cols c pos ne in
    (ground (arith, same_row), ground (arith, next_col, inside))

-- One cell is written, the shadow takes it, and the others stay as they were.
sent_shown :
    (width cols c ch at k : ℕ) (t : Terminal) (shadow : ℕ → ℕ)
    → t.row ≡ c / cols
    → t.col ≡ c % cols
    → t.pen ≡ sgr_params at
    → (k ≢ c → Shows t cols shadow k)
    → Shows
        (write_char width (char_bytes ch) t)
        cols
        (update (update shadow (c * 2) ch) (c * 2 + 1) at)
        k
unfolding write_char
sent_shown width cols c ch at k t shadow row col pen others = elim (Bool-cases (k == c)) [
  | inl same ↦ let e : k ≡ c = ground arith in ground (arith, e, row, col, pen)
  | inr other ↦
      let ne : k ≢ c = ground arith in
      let apart = same_cell cols k c in ground (arith, row, col, apart, others ne)
]

-- A cell that is sent leaves the terminal mirrored, the cell included.
pub sent-IsMirrored :
    (width : ℕ) (v : ℕ → ℕ) (t : Terminal) (r : Render)
    → IsMirrored width t r
    → IsMemory v
    → r.walk_cell < r.total_cells
    → let c = r.walk_cell in
      IsMirrored width (reads width t (cell_bytes c (v (c * 2)) (v (c * 2 + 1)) r)) (sent v r)
unfolding write_char
sent-IsMirrored width v t r m bytes inside =
    let c : ℕ = r.walk_cell in
    let cols : ℕ = r.f_cols in
    let ch : ℕ = v (c * 2) in
    let at : ℕ = v (c * 2 + 1) in
    let t2 : Terminal = record t { row = c / cols; col = c % cols; pen = sgr_params at } in
    let run : reads width t (cell_bytes c ch at r) ≡ write_char width (char_bytes ch) t2 =
      reads-cell width c ch at t r m.idle (bytes (c * 2))
        (omega (arith, div-le_self c cols, inside, m.small))
        (omega (arith, mod-lt c m.some_cols, m.narrow)) m.placed m.inked in
    let others : (k : ℕ) → IsKnown (sent v r) k → k ≢ c → Shows t cols r.shadow k =
      λ k known ne. m.shown k (ground arith) in
    rw run (record {
      idle = refl;
      some_cols = m.some_cols;
      wide = m.wide;
      narrow = m.narrow;
      small = m.small;
      shadowed = m.shadowed;
      placed = sent-IsPlaced width cols c t2 (char_bytes ch) m.some_cols m.wide refl refl;
      inked = refl;
      shown =
          λ k known. sent_shown width cols c ch at k t2 r.shadow refl refl refl (others k known);
    })
