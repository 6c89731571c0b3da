-- ===== src/Resident/Broadcast.antt =====
-- The SSH side of dosshd/dosshd.c: `ssh_net_broadcast` gives each client the screen under its own keys,
-- and `ssh_net_worker` runs a tick.
pub mod Pacing
pub mod Delivery
pub mod Turns
pub mod Round
use dossh.Base.{
  ℕ, zero, suc, ◌+◌, ◌-◌, ◌*◌, ◌%◌, min, Bool, true, false, not, ◌&&◌, ◌||◌, List, [], ◌∷◌, ◌++◌,
  Option, none, some, ltb, ◌==◌, if◌then◌else◌, length, get_or, set, u8,
}
use dossh.Net.Ip.{Net}
use dossh.Net.Stack.{net_poll, net_tx_flush}
use dossh.Net.Link.{net_slot_connected, net_tx_room_slot, net_slot_stalled}
use dossh.Render.State.{Video, Render}
use dossh.Render.Frame.{render_next_byte}
use dossh.Resident.Pump.{tx_budget}
use dossh.Resident.Worker.{
  SshServer, SshSetting, with_net, is_active, slot_conn, set_slot, stir, put_bytes, accept_loop,
  serve_loop, drop_slot,
}
use dossh.Ssh.State.{Ssh}
use dossh.Ssh.Channel.{ssh_channel_ready, ssh_channel_avail, ssh_channel_emit, chan_chunk}

abbrev pub ring_reserve : ℕ
ring_reserve = 512

-- The slot takes part in the broadcast.
abbrev pub is_ready : SshServer → ℕ → Bool
is_ready s i =
    is_active s i && (net_slot_connected s.base.net i && ssh_channel_ready (slot_conn s i))

-- The most plaintext that the slot can take now: its window and packet size, and its ring's room.
unfoldable pub slot_cap : SshServer → ℕ → ℕ
slot_cap s i =
    let room = net_tx_room_slot s.base.net i in
    let netcap = if ltb (ring_reserve + 40) room then room - ring_reserve - 40 else 0 in
    min netcap (ssh_channel_avail (slot_conn s i))

-- The scan of `left` slots from `i`: the chunk's size so far, and whether anyone is ready. A slot that can
-- take nothing and has stopped acknowledging is dropped.
unfoldable pub scan_loop : ℕ → SshSetting → ℕ → ℕ → Bool → SshServer → (ℕ × Bool) × SshServer
scan_loop zero w i cap found s = ((cap, found), s)
scan_loop (suc left) w i cap found s =
    let a = slot_cap s i in
    let skipped = scan_loop left w (i + 1) cap found s in
    let evicted = scan_loop left w (i + 1) cap true (drop_slot w i s) in
    let counted = scan_loop left w (i + 1) (min a cap) true s in
    if not (is_ready s i)
    then skipped
    else if a == 0 && net_slot_stalled s.base.net i
    then evicted
    else counted

-- At most `cap` bytes of the stream.
unfoldable pub draw_bytes : ℕ → Video → Render → List ℕ × Render
draw_bytes zero m r = ([], r)
draw_bytes (suc cap) m r =
    let (r', next) = render_next_byte false m r in
    elim next [
      | none ↦ ([], r')
      | some b ↦ let (bs, last) = draw_bytes cap m r' in (u8 b ∷ bs, last)
    ]

-- The chunk as one packet for the slot, on its send ring.
unfoldable pub emit_slot : SshSetting → List ℕ → ℕ → SshServer → SshServer
emit_slot w text i s =
    let (c, wire) = ssh_channel_emit w.crypto text (chan_chunk + 40) (slot_conn s i) in
    if is_ready s i then set_slot i c (with_net (put_bytes i wire s.base.net) s) else s

unfoldable pub emit_loop : ℕ → SshSetting → List ℕ → ℕ → SshServer → SshServer
emit_loop zero w text i s = s
emit_loop (suc left) w text i s = emit_loop left w text (i + 1) (emit_slot w text i s)

-- The loop of `ssh_net_broadcast` with a budget of bytes; every round that goes on sends one at least.
unfoldable pub broadcast_loop : ℕ → ℕ → SshSetting → SshServer → SshServer
broadcast_loop zero budget w s = s
broadcast_loop (suc rounds) budget w s =
    let slots = length s.base.net.conns in
    let ((cap, found), scanned) = scan_loop slots w 0 chan_chunk false s in
    let (text, render) = draw_bytes (min cap budget) w.plain.video scanned.base.render in
    let drawn = record scanned { base = record scanned.base { render = render } } in
    let emitted = emit_loop slots w text 0 drawn in
    let rest = broadcast_loop rounds (budget - length text) w emitted in
    if not found || (cap == 0 || budget == 0)
    then scanned
    else if length text == 0
    then drawn
    else if budget == length text
    then emitted
    else rest

unfoldable pub ssh_net_broadcast : SshSetting → SshServer → SshServer
ssh_net_broadcast w s = broadcast_loop tx_budget tx_budget w s

-- A tick.
unfoldable pub ssh_net_worker : SshSetting → Option ((ℕ → ℕ) × ℕ) → SshServer → SshServer
ssh_net_worker w staged s =
    let now = w.plain.video.ticks in
    let (net, frames) = net_poll w.plain.host now s.base.net staged in
    let polled = record s {
      base = record s.base { net = net; frames = s.base.frames ++ frames };
    } in
    let accepted = accept_loop (length net.conns) w polled in
    let served = serve_loop (length accepted.base.net.conns) w 0 accepted in
    let shown = ssh_net_broadcast w served in
    let (flushed, sent) = net_tx_flush w.plain.host now shown.base.net in
    stir w 0 (record shown {
      base = record shown.base { net = flushed; frames = shown.base.frames ++ sent };
    })
