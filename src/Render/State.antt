-- ===== src/Render/State.antt =====
-- What dosshd/render.c reads of the machine, and its own state.
use dossh.Base.{
  ℕ, ◌+◌, ◌/◌, Bool, true, false, List, [], Option, none, ◌==◌, if◌then◌else◌, has_bit,
}

-- The BIOS data area and the video memory at one tick: `bda[0x4A]`, `bda[0x84]`, `bda[0x49]`, the
-- words at 0x50 and 0x60, the tick count at 0x6C, and the text buffers at B800 and B000.
pub record Video : Type 0 where
  pub columns : ℕ
  pub last_row : ℕ
  pub mode : ℕ
  pub cursor : ℕ
  pub cursor_type : ℕ
  pub ticks : ℕ
  pub colour : ℕ → ℕ
  pub mono : ℕ → ℕ

abbrev pub scr_cols : Video → ℕ
scr_cols m = m.columns

abbrev pub scr_rows : Video → ℕ
scr_rows m = m.last_row + 1

abbrev pub scr_base : Video → ℕ → ℕ
scr_base m = if m.mode == 7 then m.mono else m.colour

abbrev pub cursor_visible : Video → Bool
cursor_visible m = if has_bit (m.cursor_type / 256) 5 then false else true

-- `obuf[0..o_len)` is the list `o`. `last_emit` and `cur_sgr` are `none` for -2 and -1, `pushed` for
-- -1.
pub record Render : Type 0 where
  pub o : List ℕ
  pub o_off : ℕ
  pub pushed : Option ℕ
  pub shadow : ℕ → ℕ
  pub shadow_valid : Bool
  pub sh_cols : ℕ
  pub sh_rows : ℕ
  pub force_kf : Bool
  pub last_kf : ℕ
  pub heal_kf : ℕ
  pub frame_active : Bool
  pub is_repaint : Bool
  pub is_toobig : Bool
  pub walk_cell : ℕ
  pub total_cells : ℕ
  pub f_cols : ℕ
  pub last_emit : Option ℕ
  pub cur_sgr : Option ℕ
  pub last_cur_r : ℕ
  pub last_cur_c : ℕ

abbrev pub obuf_sz : ℕ
obuf_sz = 2048

abbrev pub shadow_bytes : ℕ
shadow_bytes = 4000

unfoldable pub render_reset : ℕ → Render → Render
render_reset ticks r = record r {
  shadow_valid = false;
  force_kf = true;
  frame_active = false;
  o = [];
  o_off = 0;
  pushed = none;
  cur_sgr = none;
  last_emit = none;
  last_cur_r = 255;
  last_cur_c = 255;
  heal_kf = ticks;
}
