-- ===== src/Resident/Pump.antt =====
-- The loops of dosshd/dosshd.c that move the renderer's bytes to the transport, a budget of bytes in
-- each tick.
pub mod Stream
use dossh.Base.{ℕ, zero, suc, Bool, true, false, Option, none, some, if◌then◌else◌}
use dossh.Net.Ip.{Net}
use dossh.Net.Link.{net_tx_putc}
use dossh.Render.State.{Video, Render}
use dossh.Render.Frame.{render_next_byte, render_pushback}
use dossh.Ssh.State.{Ssh}
use dossh.Ssh.Channel.{ssh_channel_putc}

abbrev pub tx_budget : ℕ
tx_budget = 512

-- The body of both loops, with `put` as the call that takes a byte or refuses it.
unfoldable pub pump : {S : Type 0} → (S → ℕ → S × Bool) → ℕ → Video → S → Render → S × Render
pump put zero m s r = (s, r)
pump put (suc budget) m s r =
    let (r', next) = render_next_byte false m r in
    elim next [
      | none ↦ (s, r')
      | some b ↦
          let (s', taken) = put s b in
          let rest = pump put budget m s' r' in if taken then rest else (s', render_pushback b r')
    ]

-- `tx_pump` in network mode.
unfoldable pub tx_pump : Video → Net → Render → Net × Render
tx_pump m net r = pump net_tx_putc tx_budget m net r

unfoldable pub ssh_tx_pump : Video → Ssh → Render → Ssh × Render
ssh_tx_pump m c r = pump (λ c' b. ssh_channel_putc b c') tx_budget m c r
