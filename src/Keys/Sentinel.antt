-- ===== src/Keys/Sentinel.antt =====
-- The warm-reboot sentinel of dosshd/ansikey.c: three Ctrl-^ and then Y or y.
use dossh.Base.{
  ℕ, ◌+◌, ◌≤◌, min, Bool, true, false, ◌&&◌, ◌||◌, List, [], ◌∷◌, ◌≡◌, ◌≢◌, refl, arith, leb, ◌==◌,
  if◌then◌else◌, any,
}
use dossh.Keys.{
  Keys, start, map_byte, inject_if, finish_csi, csi_byte, idle_byte, pending_byte, unswallowed_byte,
  key_body, unnested_byte, ansi_key_byte, feed,
}
use dossh.Keys.Tables.{KeyEvent, inject, reboot, ss3_final}

abbrev pub is_reboot : KeyEvent → Bool
is_reboot (inject s a) = false
is_reboot reboot = true

-- How many Ctrl-^ stand at the end of the bytes, `n` of them read before.
abbrev pub carets : ℕ → List ℕ → ℕ
carets n [] = n
carets n (b ∷ bs) = carets (if b == 0x1E then n + 1 else 0) bs

abbrev Quiet : List KeyEvent → Type 0
Quiet es = any is_reboot es ≡ false

inject_if-Quiet : (sc a : ℕ) → Quiet (inject_if sc a)
unfolding inject_if
inject_if-Quiet sc a = ground arith

map_byte-Quiet : (b : ℕ) → Quiet (map_byte b)
unfolding map_byte
map_byte-Quiet b = ground arith

csi_byte-Quiet :
    (s : Keys) (b : ℕ) → ((csi_byte s b).0.rb_state ≡ s.rb_state) × Quiet (csi_byte s b).1
unfolding csi_byte finish_csi inject_if
csi_byte-Quiet s b = ground arith

-- Away from the sentinel a call keeps the count at 0 and asks for no reboot.
abbrev Calm : (Keys → ℕ → Keys × List KeyEvent) → Type 0
Calm f = (s : Keys) (b : ℕ) → s.rb_state ≡ 0 → b ≢ 0x1E → ((f s b).0.rb_state ≡ 0) × Quiet (f s b).1

module _ (again : Keys → ℕ → Keys × List KeyEvent) (calm : Calm again) where
  pending_byte-Calm : Calm (pending_byte again)
  unfolding pending_byte
  pending_byte-Calm s b zero_rb other = ground (
    arith,
    calm (record s { pend = [] }) b zero_rb other,
    csi_byte-Quiet s b,
    inject_if-Quiet (ss3_final b) 0,
  )

  unswallowed_byte-Calm : Calm (unswallowed_byte again)
  unfolding unswallowed_byte idle_byte
  unswallowed_byte-Calm s b zero_rb other = ground (
    arith,
    pending_byte-Calm (record s { swallow = false; pend_age = 0 }) b zero_rb other,
    map_byte-Quiet b,
  )

  key_body-Calm : Calm (key_body again)
  unfolding key_body
  key_body-Calm s b zero_rb other =
      ground (arith, unswallowed_byte-Calm (record s { rb_state = 0 }) b refl other)

  key_body-rb_state :
      (s : Keys) (b : ℕ)
      → s.rb_state ≤ 3
      → (key_body again s b).0.rb_state ≡ (if b == 0x1E then min 3 (s.rb_state + 1) else 0)
  unfolding key_body
  key_body-rb_state s b le =
      ground (arith, unswallowed_byte-Calm (record s { rb_state = 0 }) b refl)

  key_body-reboot :
      (s : Keys) (b : ℕ)
      → any is_reboot (key_body again s b).1 ≡ (leb 3 s.rb_state && (b == b'Y' || b == b'y'))
  unfolding key_body
  key_body-reboot s b = ground (arith, unswallowed_byte-Calm (record s { rb_state = 0 }) b refl)

unnested_byte-Calm : Calm unnested_byte
unnested_byte-Calm = key_body-Calm (λ s b. (s, [])) (λ s b zero_rb other. (zero_rb, refl))

ansi_key_byte-rb_state :
    (s : Keys) (b : ℕ)
    → s.rb_state ≤ 3
    → (ansi_key_byte s b).0.rb_state ≡ (if b == 0x1E then min 3 (s.rb_state + 1) else 0)
unfolding ansi_key_byte
ansi_key_byte-rb_state = key_body-rb_state unnested_byte unnested_byte-Calm

ansi_key_byte-reboot :
    (s : Keys) (b : ℕ)
    → any is_reboot (ansi_key_byte s b).1 ≡ (leb 3 s.rb_state && (b == b'Y' || b == b'y'))
unfolding ansi_key_byte
ansi_key_byte-reboot = key_body-reboot unnested_byte unnested_byte-Calm

feed-rb_state :
    (s : Keys) (bs : List ℕ) (n : ℕ)
    → s.rb_state ≡ min 3 n
    → (feed s bs).0.rb_state ≡ min 3 (carets n bs)
unfolding feed
feed-rb_state s [] n h = h
feed-rb_state s (b ∷ bs) n h =
    feed-rb_state (ansi_key_byte s b).0 bs (if b == 0x1E then n + 1 else 0)
      (ground (arith, ansi_key_byte-rb_state s b))

-- After any bytes from the load-time state, the next byte asks for a warm reboot exactly when at
-- least three Ctrl-^ were the last bytes read and it is Y or y.
pub feed-reboot :
    (bs : List ℕ) (b : ℕ)
    → any is_reboot (ansi_key_byte (feed start bs).0 b).1
      ≡ (leb 3 (carets 0 bs) && (b == b'Y' || b == b'y'))
feed-reboot bs b =
    ground (arith, ansi_key_byte-reboot (feed start bs).0 b, feed-rb_state start bs 0 refl)
