-- ===== src/Render/Frame/Complete.antt =====
-- One call of `frame_fill` of dosshd/render.c, the frame's tail included, followed by a terminal.
use dossh.Base.{
  ℕ, ◌+◌, ◌-◌, ◌/◌, ◌<◌, ◌≤◌, true, false, List, [], ◌∷◌, ◌++◌, ◌≡◌, refl, ◌∙◌, arith, inl, inr,
  leb, if◌then◌else◌, length, all, length-append, append_assoc, Bool-cases, u8,
}
use dossh.Render.State.{Video, Render, obuf_sz, scr_base, cursor_visible}
use dossh.Render.Emit.{num_bytes}
use dossh.Render.Emit.Numbers.{num_bytes-small}
use dossh.Render.Emit.Room.{with_bytes, e_s-append, e_cup-e_s, cup_bytes}
use dossh.Render.Frame.{fill_loop, frame_fill, finish_frame, show_cursor, hide_cursor}
use dossh.Render.Frame.Cells.{cup_bytes-all}
use dossh.Render.Frame.Mirror.{Shows, IsKnown, IsMirrored, IsMemory}
use dossh.Render.Frame.Fill.{IsSame, IsFilled, fill_loop-IsFilled}
use dossh.Render.Terminal.{plain, Terminal, reads, perform}
use dossh.Render.Terminal.Reads.{reads-append, reads-cup, reads-control}

abbrev pub cursor_bytes : Video → List ℕ
cursor_bytes m = if cursor_visible m then show_cursor else hide_cursor

-- The tail of a frame: the DOS cursor's position, and whether it is shown.
abbrev pub tail_bytes : Video → List ℕ
tail_bytes m = cup_bytes (u8 (m.cursor / 256)) (u8 m.cursor) ++ cursor_bytes m

short_cup : (row col : ℕ) → row < 256 → col < 256 → length (cup_bytes row col) ≤ 10
short_cup row col h k =
    let cs : List ℕ = num_bytes (col + 1) in
    omega (
      arith,
      num_bytes-small (row + 1) (omega (arith, h)),
      num_bytes-small (col + 1) (omega (arith, k)),
      length-append (num_bytes (row + 1)) (b';' ∷ (cs ++ (b'H' ∷ []))),
      length-append cs (b'H' ∷ []),
    )

-- The frame is complete: the tail fits, and the frame is no more being sent.
finish_frame-tail :
    (m : Video) (r : Render)
    → length r.o + 17 ≤ obuf_sz
    → ((finish_frame m r).o ≡ r.o ++ tail_bytes m)
      × ((finish_frame m r).frame_active ≡ false)
      × ((finish_frame m r).shadow ≡ r.shadow)
unfolding finish_frame
finish_frame-tail m r room =
    let row : ℕ = u8 (m.cursor / 256) in
    let col : ℕ = u8 m.cursor in
    let short = short_cup row col (omega arith) (omega arith) in
    let cup = e_cup-e_s row col r in
    let cup' =
      e_s-append (cup_bytes row col) r (cup_bytes-all row col) (omega (arith, room, short)) in
    let show =
      e_s-append (cursor_bytes m) (with_bytes r (cup_bytes row col)) (ground arith)
        (ground (arith, length-append r.o (cup_bytes row col))) in
    (
      ground (arith, cup, cup', show, append_assoc r.o (cup_bytes row col) (cursor_bytes m)),
      refl,
      ground (arith, cup, cup', show),
    )

-- The terminal behind the tail: the grid is as it was, the cursor is where DOS has it.
pub record IsParked (m : Video) (t t' : Terminal) : Type 0 where
  pub same_grid : t'.grid ≡ t.grid
  pub at_row : t'.row ≡ u8 (m.cursor / 256)
  pub at_col : t'.col ≡ u8 m.cursor
  pub visible : t'.cursor_shown ≡ cursor_visible m
  pub idle : t'.reading ≡ plain

reads-cursor :
    (width : ℕ) (m : Video) (t : Terminal)
    → t.reading ≡ plain
    → reads width t (cursor_bytes m) ≡ record t { cursor_shown = cursor_visible m }
unfolding perform
reads-cursor width m t idle =
    let shows = reads-control width t (b'?' ∷ b'2' ∷ b'5' ∷ []) b'h' idle refl (omega arith) in
    let hides = reads-control width t (b'?' ∷ b'2' ∷ b'5' ∷ []) b'l' idle refl (omega arith) in
    elim (Bool-cases (cursor_visible m)) [
      | inl on ↦ ground (arith, shows)
      | inr off ↦ ground (arith, hides)
    ]

tail-IsParked :
    (width : ℕ) (m : Video) (t : Terminal)
    → t.reading ≡ plain
    → IsParked m t (reads width t (tail_bytes m))
tail-IsParked width m t idle =
    let row : ℕ = u8 (m.cursor / 256) in
    let col : ℕ = u8 m.cursor in
    let t1 : Terminal = record t { row = row; col = col } in
    ground (
      arith,
      reads-append width t (cup_bytes row col) (cursor_bytes m),
      reads-cup width t row col idle (omega arith) (omega arith),
      reads-cursor width m t1 idle,
    )

-- One call of `frame_fill` on the way from `r` to `r'`: the cells that it walked over are those of the
-- screen. While the frame is not complete, the terminal stays mirrored; once it is, the terminal shows
-- the whole shadow, and its cursor is parked. With an empty enough buffer the call gets on.
pub record IsSent (width : ℕ) (m : Video) (t : Terminal) (r r' : Render) : Type 0 where
  pub bytes : List ℕ
  pub appended : r'.o ≡ r.o ++ bytes
  pub fresh : (k : ℕ) → r.walk_cell ≤ k → k < r'.walk_cell → IsSame r'.shadow (scr_base m) k
  pub kept : (k : ℕ) → k < r.walk_cell → IsSame r'.shadow r.shadow k
  pub ahead : r.walk_cell ≤ r'.walk_cell
  pub same_total : r'.total_cells ≡ r.total_cells
  pub same_cols : r'.f_cols ≡ r.f_cols
  pub goes_on :
      (r'.frame_active ≡ true)
      → IsMirrored width (reads width t bytes) r' × (r'.walk_cell < r'.total_cells)
  pub shows :
      (r'.frame_active ≡ false)
      → (k : ℕ) → k < r'.total_cells
      → Shows (reads width t bytes) r'.f_cols r'.shadow k
  pub whole : (r'.frame_active ≡ false) → r'.total_cells ≤ r'.walk_cell
  pub parked :
      (r'.frame_active ≡ false)
      → ((reads width t bytes).row ≡ u8 (m.cursor / 256))
        × ((reads width t bytes).col ≡ u8 m.cursor)
        × ((reads width t bytes).cursor_shown ≡ cursor_visible m)
        × ((reads width t bytes).reading ≡ plain)
  pub gets_on : length r.o + 48 ≤ obuf_sz → r.walk_cell < r.total_cells → r.walk_cell < r'.walk_cell

-- The fields that completion leaves alone.
finish_frame-keeps :
    (m : Video) (r : Render)
    → length r.o + 17 ≤ obuf_sz
    → ((finish_frame m r).walk_cell ≡ r.walk_cell)
      × ((finish_frame m r).total_cells ≡ r.total_cells)
      × ((finish_frame m r).f_cols ≡ r.f_cols)
unfolding finish_frame
finish_frame-keeps m r room =
    let row : ℕ = u8 (m.cursor / 256) in
    let col : ℕ = u8 m.cursor in
    let short = short_cup row col (omega arith) (omega arith) in
    let cup = e_cup-e_s row col r in
    let cup' =
      e_s-append (cup_bytes row col) r (cup_bytes-all row col) (omega (arith, room, short)) in
    let show =
      e_s-append (cursor_bytes m) (with_bytes r (cup_bytes row col)) (ground arith)
        (ground (arith, length-append r.o (cup_bytes row col))) in
    (
      ground (arith, cup, cup', show),
      ground (arith, cup, cup', show),
      ground (arith, cup, cup', show),
    )

finished-IsSent :
    (width : ℕ) (m : Video) (t : Terminal) (r q : Render)
    → (f : IsFilled width (scr_base m) t r q) → length q.o + 17 ≤ obuf_sz
    → q.total_cells ≤ q.walk_cell
    → (length r.o + 48 ≤ obuf_sz → r.walk_cell < r.total_cells → r.walk_cell < q.walk_cell)
    → IsSent width m t r (finish_frame m q)
finished-IsSent width m t r q f room all gets_on =
    let (appended, inactive, same_shadow) = finish_frame-tail m q room in
    let (walk, total, cols) = finish_frame-keeps m q room in
    let mid : Terminal = reads width t f.bytes in
    let parked = tail-IsParked width m mid f.mirrored.idle in
    let joined = reads-append width t f.bytes (tail_bytes m) in
    record {
      bytes = f.bytes ++ tail_bytes m;
      appended = ground (arith, appended, f.appended, append_assoc r.o f.bytes (tail_bytes m));
      fresh = λ k lo hi.
          let (ch, at) = f.fresh k lo (omega (arith, hi, walk)) in rw same_shadow (ch, at);
      kept = λ k lt. rw same_shadow (f.kept k lt);
      ahead = omega (arith, walk, f.ahead);
      same_total = total ∙ f.same_total;
      same_cols = cols ∙ f.same_cols;
      goes_on = λ active. absurd (ground (arith, active, inactive));
      shows = λ done k lt.
          let known : IsKnown q k =
            (omega (arith, lt, total), inr (omega (arith, lt, total, all))) in
          let before = f.mirrored.shown k known in
          rw (joined, cols, same_shadow, parked.same_grid) before;
      whole = λ done. omega (arith, walk, total, all);
      parked = λ done. rw joined (parked.at_row, parked.at_col, parked.visible, parked.idle);
      gets_on = λ free some_left. rw walk (gets_on free some_left);
    }

pub frame_fill-IsSent :
    (width : ℕ) (m : Video) (t : Terminal) (r : Render)
    → IsMirrored width t r
    → IsMemory (scr_base m)
    → r.frame_active ≡ true
    → r.walk_cell ≤ r.total_cells
    → length r.o + 17 ≤ obuf_sz
    → IsSent width m t r (frame_fill m r)
unfolding frame_fill
frame_fill-IsSent width m t r mirrored memory active inside room =
    let left : ℕ = r.total_cells - r.walk_cell in
    let q : Render = fill_loop left (scr_base m) r in
    let (f, room', ends, gets_on) =
      fill_loop-IsFilled left width (scr_base m) t r mirrored memory (omega (arith, inside)) room in
    elim (Bool-cases (leb q.total_cells q.walk_cell)) [
      | inl all ↦ rw all (
          finished-IsSent width m t r q f room' (ground arith)
            (λ free some_left. gets_on (omega (arith, some_left)) free))
      | inr more ↦ rw more (record {
        bytes = f.bytes;
        appended = f.appended;
        fresh = f.fresh;
        kept = f.kept;
        ahead = f.ahead;
        same_total = f.same_total;
        same_cols = f.same_cols;
        goes_on = λ still. (f.mirrored, ground arith);
        shows = λ done. absurd (ground (arith, done, f.same_active, active));
        whole = λ done. absurd (ground (arith, done, f.same_active, active));
        parked = λ done. absurd (ground (arith, done, f.same_active, active));
        gets_on = λ free some_left. gets_on (omega (arith, some_left)) free;
      })
    ]
