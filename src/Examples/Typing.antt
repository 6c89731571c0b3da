-- ===== src/Examples/Typing.antt =====
-- Keystrokes of a client: dosshd/ansikey.c.
use dossh.Base.{false, [], ◌∷◌, ◌≡◌, refl, inr, arith, leb, ◌==◌, ◌||◌, ◌&&◌, any}
use dossh.Keys.{Keys, start, ansi_key_byte, ansi_key_tick, feed}
use dossh.Keys.Sentinel.{is_reboot, carets, feed-reboot}
use dossh.Keys.Escape.{IsWellFormed, ansi_key-IsWellFormed}

-- The state behind `ESC [ 1`.
abbrev in_home : Keys
in_home = record { pend = 0x1B ∷ b'[' ∷ b'1' ∷ []; pend_age = 1; swallow = false; rb_state = 2 }

-- The state behind a lone ESC.
abbrev after_escape : Keys
after_escape = record { pend = 0x1B ∷ []; pend_age = 0; swallow = false; rb_state = 0 }

in_home-IsWellFormed : IsWellFormed in_home
in_home-IsWellFormed = record {
  fits = omega arith;
  escape = inr refl;
  age = inr (omega arith);
  sentinel = omega arith;
}

feed-reboot_example :
    any is_reboot (ansi_key_byte (feed start (b'x' ∷ 0x1E ∷ 0x1E ∷ 0x1E ∷ [])).0 b'Y').1
    ≡ (leb 3 (carets 0 (b'x' ∷ 0x1E ∷ 0x1E ∷ 0x1E ∷ [])) && (b'Y' == b'Y' || b'Y' == b'y'))
feed-reboot_example = feed-reboot (b'x' ∷ 0x1E ∷ 0x1E ∷ 0x1E ∷ []) b'Y'

ansi_key-IsWellFormed_example :
    IsWellFormed (ansi_key_byte in_home b'5').0 × IsWellFormed (ansi_key_tick in_home).0
ansi_key-IsWellFormed_example = ansi_key-IsWellFormed in_home b'5' in_home-IsWellFormed
