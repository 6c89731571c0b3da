-- ===== src/Render/Frame.antt =====
-- The frames of dosshd/render.c: whether one starts, of what kind, and its cells.
pub mod Grid
pub mod Cells
pub mod Cursor
pub mod Mirror
pub mod Fill
pub mod Complete
pub mod Screen
pub mod Start
pub mod Decide
pub mod Refresh
use dossh.Base.{
  ℕ, zero, suc, ◌+◌, ◌-◌, ◌*◌, ◌/◌, ◌%◌, Bool, true, false, not, ◌&&◌, ◌||◌, List, [], ◌∷◌, ◌++◌,
  Option, none, some, ltb, leb, ◌==◌, if◌then◌else◌, length, get_or, u8, sub32, is_negative, update,
}
use dossh.Render.State.{
  Video, Render, scr_cols, scr_rows, scr_base, cursor_visible, obuf_sz, shadow_bytes,
}
use dossh.Render.Emit.{e_s, e_cup, e_sgr, e_char}

abbrev pub cadence_ticks : ℕ
cadence_ticks = 36

abbrev pub heal_ticks : ℕ
heal_ticks = 72

-- `(long)( now - then ) >= k` for a small k.
abbrev since : ℕ → ℕ → ℕ → Bool
since now earlier k = not (is_negative (sub32 now earlier)) && leb k (sub32 now earlier)

abbrev pub frame_cols : Video → ℕ
frame_cols m = if scr_cols m == 0 || ltb 132 (scr_cols m) then 80 else scr_cols m

abbrev pub frame_rows : Video → ℕ
frame_rows m = if scr_rows m == 0 || ltb 60 (scr_rows m) then 25 else scr_rows m

abbrev pub differs : (ℕ → ℕ) → (ℕ → ℕ) → ℕ → Bool
differs v shadow c = not (v (c * 2) == shadow (c * 2)) || not (v (c * 2 + 1) == shadow (c * 2 + 1))

-- How many of `left` cells from `c` differ from the shadow.
unfoldable pub count_changed : ℕ → ℕ → (ℕ → ℕ) → (ℕ → ℕ) → ℕ
count_changed zero c v shadow = 0
count_changed (suc left) c v shadow =
    let rest = count_changed left (c + 1) v shadow in if differs v shadow c then rest + 1 else rest

-- `ESC[?7l ESC[?25l` and `ESC[2J ESC[H`
abbrev pub frame_head : List ℕ
frame_head = 0x1B ∷ b'[' ∷ b'?' ∷ b'7' ∷ b'l' ∷ 0x1B ∷ b'[' ∷ b'?' ∷ b'2' ∷ b'5' ∷ b'l' ∷ []

abbrev pub clear_screen : List ℕ
clear_screen = 0x1B ∷ b'[' ∷ b'2' ∷ b'J' ∷ 0x1B ∷ b'[' ∷ b'H' ∷ []

unfoldable pub begin_frame : Video → Bool → Bool → Render → Render
begin_frame m repaint clear r =
    let started = record r {
      f_cols = frame_cols m;
      total_cells = frame_cols m * frame_rows m;
      is_repaint = repaint;
      walk_cell = 0;
      last_emit = none;
      cur_sgr = none;
      frame_active = true;
    } in
    let headed = e_s frame_head started in
    let cleared = if clear then e_s clear_screen headed else headed in
    if repaint then record cleared { sh_cols = frame_cols m; sh_rows = frame_rows m } else cleared

-- No repaint is due: a frame of the differences, if the screen or the cursor changed.
unfoldable pub decide_diff : Video → Render → Render
decide_diff m r =
    let cells = frame_cols m * frame_rows m in
    let changed = count_changed cells 0 (scr_base m) r.shadow in
    let armed = if changed == 0 then r else record r { heal_kf = m.ticks } in
    if changed == 0 && (u8 (m.cursor / 256) == r.last_cur_r && u8 m.cursor == r.last_cur_c)
    then r
    else begin_frame m (ltb (cells * 3) (changed * 4)) false armed

unfoldable pub wants_clear : Video → Render → Bool
wants_clear m r =
    r.force_kf
    || (not r.shadow_valid || (not (frame_cols m == r.sh_cols) || not (frame_rows m == r.sh_rows)))

unfoldable pub wants_heal : Bool → Video → Render → Bool
wants_heal serial m r =
    since m.ticks r.last_kf cadence_ticks && (serial || not (since m.ticks r.heal_kf heal_ticks))

unfoldable pub frame_decide : Bool → Video → Render → Render
frame_decide serial m r =
    let big = ltb shadow_bytes (frame_cols m * frame_rows m * 2) in
    let sized = record r { is_toobig = big } in
    let due = r.force_kf || since m.ticks r.last_kf cadence_ticks in
    if big
    then if due then begin_frame m true true sized else sized
    else if wants_clear m r
    then begin_frame m true true sized
    else if wants_heal serial m r
    then begin_frame m true false sized
    else decide_diff m sized

abbrev pub follows : Option ℕ → ℕ → Bool
follows none c = false
follows (some last) c = c == last + 1

abbrev pub has_sgr : Option ℕ → ℕ → Bool
has_sgr none at = false
has_sgr (some sgr) at = at == sgr

-- The cell's position, attribute and character, as far as the terminal does not have them.
unfoldable pub emit_cell : ℕ → ℕ → ℕ → Render → Render
emit_cell c ch at r =
    let col = c % r.f_cols in
    let placed =
      if not (follows r.last_emit c) || col == 0 then e_cup (c / r.f_cols) col r else r in
    let inked =
      if has_sgr r.cur_sgr at then placed else record (e_sgr at placed) { cur_sgr = some at } in
    e_char ch inked

abbrev pub mark_shadow : ℕ → ℕ → ℕ → Render → Render
mark_shadow c ch at r =
    if r.is_toobig
    then r
    else record r { shadow = update (update r.shadow (c * 2) ch) (c * 2 + 1) at }

unfoldable pub fill_cell : (ℕ → ℕ) → ℕ → Render → Render
fill_cell v c r =
    let ch = v (c * 2) in
    let at = v (c * 2 + 1) in
    if r.is_repaint || (r.is_toobig || differs v r.shadow c)
    then record (mark_shadow c ch at (emit_cell c ch at r)) { last_emit = some c }
    else r

-- The loop over `left` cells from `walk_cell`.
unfoldable pub fill_loop : ℕ → (ℕ → ℕ) → Render → Render
fill_loop zero v r = r
fill_loop (suc left) v r =
    let rest =
      fill_loop left v (record (fill_cell v r.walk_cell r) { walk_cell = r.walk_cell + 1 }) in
    if ltb obuf_sz (length r.o + 48) then r else rest

abbrev pub show_cursor : List ℕ
show_cursor = 0x1B ∷ b'[' ∷ b'?' ∷ b'2' ∷ b'5' ∷ b'h' ∷ []

abbrev pub hide_cursor : List ℕ
hide_cursor = 0x1B ∷ b'[' ∷ b'?' ∷ b'2' ∷ b'5' ∷ b'l' ∷ []

unfoldable pub finish_frame : Video → Render → Render
finish_frame m r =
    let row = u8 (m.cursor / 256) in
    let col = u8 m.cursor in
    let parked = e_s (if cursor_visible m then show_cursor else hide_cursor) (e_cup row col r) in
    record parked {
      last_cur_r = row;
      last_cur_c = col;
      frame_active = false;
      shadow_valid = if r.is_toobig then r.shadow_valid else true;
      force_kf = if r.is_repaint then false else r.force_kf;
      last_kf = if r.is_repaint || r.is_toobig then m.ticks else r.last_kf;
    }

unfoldable pub frame_fill : Video → Render → Render
frame_fill m r =
    let filled = fill_loop (r.total_cells - r.walk_cell) (scr_base m) r in
    if leb filled.total_cells filled.walk_cell then finish_frame m filled else filled

-- The buffer is empty: a new frame if none is being sent, and its next cells.
unfoldable pub refill : Bool → Video → Render → Render
refill serial m r =
    let emptied = record r { o = []; o_off = 0 } in
    let decided = if r.frame_active then emptied else frame_decide serial m emptied in
    if decided.frame_active then frame_fill m decided else decided

abbrev pub next_of_buffer : Render → Render × Option ℕ
next_of_buffer r =
    if ltb r.o_off (length r.o)
    then (record r { o_off = r.o_off + 1 }, some (get_or r.o r.o_off 0))
    else (r, none)

-- `none` is -1.
unfoldable pub render_next_byte : Bool → Video → Render → Render × Option ℕ
render_next_byte serial m r = elim r.pushed [
  | some b ↦ (record r { pushed = none }, some b)
  | none ↦ if ltb r.o_off (length r.o) then next_of_buffer r else next_of_buffer (refill serial m r)
]

unfoldable pub render_pushback : ℕ → Render → Render
render_pushback b r = record r { pushed = some b }
