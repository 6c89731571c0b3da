-- ===== src/Resident/Tick.antt =====
-- `net_tick` of dosshd/dosshd.c: one timer tick of the telnet server.
pub mod Arrivals
pub mod Backlog
use dossh.Base.{
  ℕ, zero, suc, ◌+◌, ◌-◌, Bool, true, false, List, [], ◌∷◌, ◌++◌, Option, none, some, if◌then◌else◌,
  length, get_or, set,
}
use dossh.Keys.{Keys, ansi_key_byte}
use dossh.Keys.Tables.{KeyEvent, inject, reboot}
use dossh.Telnet.{
  Event, put, ready, drop_slot, key, repaint, Iac, in_data, Auth, au_ok, Slot, Config, telnet_begin,
  telnet_in,
}
use dossh.Net.Conn.{Conn, Host, Outgoing}
use dossh.Net.Ip.{Net}
use dossh.Net.Stack.{net_poll, net_tx_flush}
use dossh.Net.Link.{
  net_connected, net_take_new_slot, net_slot_ready, net_slot_drop, net_tx_putc_slot, net_rx_getc,
}
use dossh.Render.State.{Video, Render, render_reset}
use dossh.Resident.Ring.{Bios, inject_key}
use dossh.Resident.Pump.{tx_pump}

-- All that a tick acts on, and the frames that it sent.
pub record Server : Type 0 where
  pub net : Net
  pub slots : List Slot
  pub keys : Keys
  pub bios : Bios
  pub g_reboot : Bool
  pub render : Render
  pub frames : List (List ℕ)

-- What a tick reads: the addresses, the variables of the command line, and the machine.
pub record Setting : Type 0 where
  pub host : Host
  pub config : Config
  pub video : Video

unfoldable pub key_event : KeyEvent → Server → Server
key_event (inject scan ascii) s = record s { bios = inject_key scan ascii s.bios }
key_event reboot s = record s { g_reboot = true }

unfoldable pub key_events : List KeyEvent → Server → Server
key_events [] s = s
key_events (e ∷ es) s = key_events es (key_event e s)

unfoldable pub type_byte : ℕ → Server → Server
type_byte b s =
    let (keys, events) = ansi_key_byte s.keys b in key_events events (record s { keys = keys })

-- A call that dosshd/telnet.c makes for the slot `i`.
unfoldable pub slot_event : Setting → ℕ → Event → Server → Server
slot_event w i (put b) s = record s { net = (net_tx_putc_slot s.net i b).0 }
slot_event w i ready s = record s { net = net_slot_ready s.net i true }
slot_event w i drop_slot s =
    let (net, frames) = net_slot_drop w.host s.net i in
    record s { net = net; frames = s.frames ++ frames }
slot_event w i (key b) s = type_byte b s
slot_event w i repaint s = record s { render = render_reset w.video.ticks s.render }

unfoldable pub slot_events : Setting → ℕ → List Event → Server → Server
slot_events w i [] s = s
slot_events w i (e ∷ es) s = slot_events w i es (slot_event w i e s)

-- What `slots[i]` reads past the end, where no operation goes.
abbrev pub no_slot : Slot
no_slot = record {
  iac = in_data;
  verb = 0;
  willed = 0;
  doed = 0;
  sb_buf = [];
  naws_w = 0;
  naws_h = 0;
  au_state = au_ok;
  au_buf = [];
  au_tries = 0;
}

-- `telnet_begin( i )` and `telnet_in( i, b )`, with the calls that they make.
unfoldable pub begin_slot : Setting → ℕ → Server → Server
begin_slot w i s =
    let (slot, events) = telnet_begin w.config (get_or s.slots i no_slot) in
    slot_events w i events (record s { slots = set s.slots i slot })

unfoldable pub slot_byte : Setting → ℕ → ℕ → Server → Server
slot_byte w i b s =
    let (slot, events) = telnet_in w.config (get_or s.slots i no_slot) b in
    slot_events w i events (record s { slots = set s.slots i slot })

-- The loop over the connections that have just been established.
unfoldable pub begin_loop : ℕ → Setting → Server → Server
begin_loop zero w s = s
begin_loop (suc rounds) w s =
    let (net, new) = net_take_new_slot s.net in
    elim new [
      | none ↦ record s { net = net }
      | some i ↦ begin_loop rounds w (begin_slot w i (record s { net = net }))
    ]

-- The loop over the bytes that the slot `i` received.
unfoldable pub byte_loop : ℕ → Setting → ℕ → Server → Server
byte_loop zero w i s = s
byte_loop (suc rounds) w i s =
    let (net, byte) = net_rx_getc s.net i in
    elim byte [
      | none ↦ record s { net = net }
      | some b ↦ byte_loop rounds w i (slot_byte w i b (record s { net = net }))
    ]

-- The loop over `left` slots from `i`; a ring holds at most 511 bytes.
unfoldable pub slot_loop : ℕ → Setting → ℕ → Server → Server
slot_loop zero w i s = s
slot_loop (suc left) w i s = slot_loop left w (i + 1) (byte_loop 512 w i s)

-- The screen goes out if anyone is connected.
unfoldable pub send_screen : Setting → Server → Server
send_screen w s =
    let (net, render) = tx_pump w.video s.net s.render in
    let (flushed, frames) = net_tx_flush w.host w.video.ticks net in
    if net_connected s.net
    then record s { net = flushed; render = render; frames = s.frames ++ frames }
    else s

unfoldable pub net_tick : Setting → Option ((ℕ → ℕ) × ℕ) → Server → Server
net_tick w staged s =
    let (net, frames) = net_poll w.host w.video.ticks s.net staged in
    let polled = record s { net = net; frames = s.frames ++ frames } in
    let begun = begin_loop (length net.conns) w polled in
    send_screen w (slot_loop (length begun.net.conns) w 0 begun)
