-- ===== src/Render/Frame/Start.antt =====
-- How a frame of dosshd/render.c starts, and the terminal behind its first bytes.
use dossh.Base.{
  ℕ, ◌*◌, ◌<◌, ◌≤◌, Bool, true, false, List, [], ◌∷◌, ◌++◌, none, ◌≡◌, refl, sym, ap, ◌∙◌, ◌⊎◌,
  arith, inl, inr, if◌then◌else◌, append-nil, Bool-cases,
}
use mathlib.Core.Path.{subst}
use dossh.Render.State.{Video, Render}
use dossh.Render.Emit.{e_s}
use dossh.Render.Emit.Room.{with_bytes, e_s-append}
use dossh.Render.Frame.{begin_frame, frame_head, clear_screen, frame_cols, frame_rows}
use dossh.Render.Frame.Mirror.{Shows, IsKnown, IsMirrored}
use dossh.Render.Terminal.{plain, Terminal, reads, perform, blank}
use dossh.Render.Terminal.Reads.{reads-append, reads-control}

-- What a frame's first bytes are.
abbrev pub start_bytes : Bool → List ℕ
start_bytes clear = frame_head ++ (if clear then clear_screen else [])

-- The state that a frame starts in, its first bytes apart.
abbrev pub started : Video → Bool → Render → Render
started m repaint r = record r {
  f_cols = frame_cols m;
  total_cells = frame_cols m * frame_rows m;
  is_repaint = repaint;
  walk_cell = 0;
  last_emit = none;
  cur_sgr = none;
  frame_active = true;
  sh_cols = if repaint then frame_cols m else r.sh_cols;
  sh_rows = if repaint then frame_rows m else r.sh_rows;
}

pub begin_frame-started :
    (m : Video) (repaint clear : Bool) (r : Render)
    → r.o ≡ []
    → begin_frame m repaint clear r ≡ with_bytes (started m repaint r) (start_bytes clear)
unfolding begin_frame
begin_frame-started m repaint clear r empty =
    let r1 : Render = record r {
      f_cols = frame_cols m;
      total_cells = frame_cols m * frame_rows m;
      is_repaint = repaint;
      walk_cell = 0;
      last_emit = none;
      cur_sgr = none;
      frame_active = true;
    } in
    let head : e_s frame_head r1 ≡ with_bytes r1 frame_head =
      e_s-append frame_head r1 refl (ground (arith, empty)) in
    let cleared = e_s-append clear_screen (with_bytes r1 frame_head) refl (ground (arith, empty)) in
    ground (arith, head, cleared, empty)

pub frame_cols-bounds : (m : Video) → (0 < frame_cols m) × (frame_cols m < 133)
frame_cols-bounds m = (ground arith, ground arith)

pub frame_rows-pos : (m : Video) → 0 < frame_rows m
frame_rows-pos m = ground arith

-- The terminal behind a frame's first bytes: no line wraps and no cursor shows, and a cleared screen
-- is blank.
reads-head :
    (width : ℕ) (t : Terminal)
    → t.reading ≡ plain
    → reads width t frame_head ≡ record t { wraps = false; cursor_shown = false }
unfolding perform
reads-head width t idle =
    let ps : List ℕ = b'?' ∷ b'7' ∷ [] in
    let wrap = reads-control width t ps b'l' idle refl (omega arith) in
    let t1 : Terminal = record t { wraps = false } in
    let hide = reads-control width t1 (b'?' ∷ b'2' ∷ b'5' ∷ []) b'l' idle refl (omega arith) in
    let split =
      reads-append width t (0x1B ∷ b'[' ∷ (ps ++ (b'l' ∷ [])))
        (0x1B ∷ b'[' ∷ b'?' ∷ b'2' ∷ b'5' ∷ b'l' ∷ []) in
    ground (arith, split, wrap, hide)

reads-clear :
    (width : ℕ) (t : Terminal)
    → t.reading ≡ plain
    → reads width t clear_screen ≡ record t { grid = λ r c. blank; row = 0; col = 0 }
unfolding perform
reads-clear width t idle =
    let wipe = reads-control width t (b'2' ∷ []) b'J' idle refl (omega arith) in
    let t1 : Terminal = record t { grid = λ r c. blank } in
    let home = reads-control width t1 [] b'H' idle refl (omega arith) in
    let split = reads-append width t (0x1B ∷ b'[' ∷ b'2' ∷ b'J' ∷ []) (0x1B ∷ b'[' ∷ b'H' ∷ []) in
    ground (arith, split, wipe, home)

reads-start :
    (width : ℕ) (clear : Bool) (t : Terminal)
    → t.reading ≡ plain
    → ((reads width t (start_bytes clear)).reading ≡ plain)
      × ((clear ≡ false) → (reads width t (start_bytes clear)).grid ≡ t.grid)
reads-start width clear t idle =
    let t1 : Terminal = record t { wraps = false; cursor_shown = false } in
    let head = reads-head width t idle in
    let wipe = reads-clear width t1 idle in
    let split = reads-append width t frame_head (if clear then clear_screen else []) in
    elim (Bool-cases clear) [
      | inl on ↦ (ground (arith, head, wipe, split, idle), λ off. absurd (ground (arith, on, off)))
      | inr off ↦ (
        ground (arith, off, head, append-nil frame_head, idle),
        λ _. ground (arith, off, head, append-nil frame_head),
      )
    ]

-- A frame of a screen that the shadow has room for starts mirrored: it repaints, or the terminal shows
-- the shadow already.
pub begin_frame-IsMirrored :
    (width : ℕ) (m : Video) (repaint clear : Bool) (t : Terminal) (r : Render)
    → r.o ≡ []
    → r.is_toobig ≡ false
    → t.reading ≡ plain
    → 132 ≤ width
    → frame_cols m * frame_rows m < 10000
    → (repaint ≡ true)
      ⊎ ((clear ≡ false)
          × ((k : ℕ) → k < frame_cols m * frame_rows m → Shows t (frame_cols m) r.shadow k))
    → let q = begin_frame m repaint clear r in IsMirrored width (reads width t q.o) q
begin_frame-IsMirrored width m repaint clear t r empty shadowed idle wide small covered =
    let (some_cols, narrow) = frame_cols-bounds m in
    let (still, kept) = reads-start width clear t idle in
    let q : Render = record (started m repaint r) { o = start_bytes clear } in
    let begun : begin_frame m repaint clear r ≡ q =
      begin_frame-started m repaint clear r empty
      ∙ ap (λ o. record (started m repaint r) { o = o ++ start_bytes clear }) empty in
    let shown : (k : ℕ) → IsKnown q k → Shows (reads width t q.o) q.f_cols q.shadow k =
      λ k (inside, known). elim covered [
        | inl repaints ↦ absurd (ground (arith, repaints, known))
        | inr (unclear, shows) ↦ rw (kept unclear) (shows k inside)
      ] in
    subst (λ x. IsMirrored width (reads width t x.o) x) (sym begun)
      (record {
        idle = still;
        some_cols = some_cols;
        wide = omega (arith, wide, narrow);
        narrow = omega (arith, narrow);
        small = small;
        shadowed = shadowed;
        placed = tt;
        inked = tt;
        shown = shown;
      })
