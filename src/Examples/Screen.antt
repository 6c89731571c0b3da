-- ===== src/Examples/Screen.antt =====
-- A blank text screen, sent to a terminal by dosshd/render.c.
use dossh.Base.{◌%◌, true, false, [], ◌∷◌, none, ◌≡◌, refl, ◌⊎◌, arith, ◌==◌, if◌then◌else◌}
use dossh.Render.State.{Video, Render, scr_base, render_reset}
use dossh.Render.Frame.{refill, wants_clear}
use dossh.Render.Frame.Mirror.{IsMemory}
use dossh.Render.Frame.Screen.{sending, ShowsScreen}
use dossh.Render.Frame.Decide.{IsSettled, IsRefreshed}
use dossh.Render.Frame.Refresh.{refill-IsRefreshed}
use dossh.Render.Terminal.{plain, Terminal, reads}

-- 80 columns and 25 rows of grey spaces, the cursor in the fourth row.
abbrev pub screen : Video
screen = record {
  columns = 80;
  last_row = 24;
  mode = 3;
  cursor = 0x0302;
  cursor_type = 0x0607;
  ticks = 5000;
  colour = λ i. if i % 2 == 0 then 32 else 7;
  mono = λ i. 0;
}

abbrev pub fresh : Render
fresh = record {
  o = [];
  o_off = 0;
  pushed = none;
  shadow = λ i. 0;
  shadow_valid = false;
  sh_cols = 0;
  sh_rows = 0;
  force_kf = true;
  last_kf = 0;
  heal_kf = 0;
  frame_active = false;
  is_repaint = false;
  is_toobig = false;
  walk_cell = 0;
  total_cells = 0;
  f_cols = 0;
  last_emit = none;
  cur_sgr = none;
  last_cur_r = 255;
  last_cur_c = 255;
}

-- A terminal that shows something else.
abbrev terminal : Terminal
terminal = record {
  reading = plain;
  row = 7;
  col = 9;
  pen = b'1' ∷ [];
  wraps = true;
  cursor_shown = true;
  grid = λ r c. (b'x' ∷ [], []);
}

fresh-IsSettled : IsSettled screen terminal (render_reset 4990 fresh)
unfolding render_reset wants_clear
fresh-IsSettled = record {
  inactive = refl;
  idle = refl;
  sent = refl;
  covered = λ clears. absurd (ground (arith, clears));
}

screen-IsMemory : IsMemory (scr_base screen)
screen-IsMemory i = ground arith

refill-IsRefreshed_example :
    let s = sending 2000 false screen (refill false screen (render_reset 4990 fresh)) in
    IsRefreshed screen (reads 132 terminal s.0) s.1
    × ((s.0 ≡ []) ⊎ ShowsScreen screen 80 2000 (reads 132 terminal s.0))
refill-IsRefreshed_example =
    refill-IsRefreshed 132 false screen terminal (render_reset 4990 fresh) fresh-IsSettled
      screen-IsMemory (omega arith) (omega arith)
