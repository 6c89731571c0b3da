-- ===== src/Resident/Worker.antt =====
-- The SSH side of dosshd/dosshd.c over the network: `ssh_net_worker` and what it calls.
pub mod Output
pub mod KeyRing
use dossh.Base.{
  ℕ, zero, suc, ◌+◌, ◌-◌, ◌*◌, ◌%◌, min, Bool, true, false, not, ◌&&◌, ◌||◌, List, [], ◌∷◌, ◌++◌,
  Option, none, some, ltb, ◌==◌, if◌then◌else◌, length, get_or, set, u8, u16,
}
use Prim.Native.Nat.{bit_xor}
use dossh.Net.Ip.{Net}
use dossh.Net.Stack.{net_poll, net_tx_flush}
use dossh.Net.Link.{
  net_take_new_slot, net_slot_drop, net_tx_putc_slot, net_rx_getc, net_slot_connected,
  net_tx_room_slot, net_slot_stalled,
}
use dossh.Render.State.{Render, render_reset}
use dossh.Render.Frame.{render_next_byte}
use dossh.Resident.Pump.{tx_budget}
use dossh.Resident.Tick.{Server, Setting, type_byte}
use dossh.Rng.{Source, Rng, rng_stir}
use dossh.Ssh.State.{Crypto, Gate, Ssh, st_closed, Stage, is_error}
use dossh.Ssh.Channel.{
  ssh_channel_ready, ssh_channel_getc, ssh_channel_avail, ssh_channel_emit, ssh_channel_close,
  chan_chunk,
}
use dossh.Ssh.Input.{cleared, ssh_input, ssh_output, ssh_winsize, ssh_reset, ssh_set_password}

-- The buffers that dosshd/ssh.c has once for all slots: `g_ob`, `g_cin`, `g_cout`, and the random
-- bytes drawn.
pub record Shared : Type 0 where
  pub ob : List ℕ
  pub cin : ℕ → ℕ
  pub cin_head : ℕ
  pub cin_tail : ℕ
  pub cout : List ℕ
  pub drawn : ℕ

-- A slot's connection with the shared buffers, and the buffers of a connection.
abbrev pub enter : Shared → Ssh → Ssh
enter b c = record c {
  ob = b.ob;
  cin = b.cin;
  cin_head = b.cin_head;
  cin_tail = b.cin_tail;
  cout = b.cout;
  drawn = b.drawn;
}

abbrev pub shared_of : Ssh → Shared
shared_of c = record {
  ob = c.ob;
  cin = c.cin;
  cin_head = c.cin_head;
  cin_tail = c.cin_tail;
  cout = c.cout;
  drawn = c.drawn;
}

-- The state of the SSH server; `ssh_slots`, `ssh_active` and `ssh_ready_seen` are lists by slot.
pub record SshServer : Type 0 where
  pub base : Server
  pub ssh_slots : List Ssh
  pub shared : Shared
  pub ssh_active : List Bool
  pub ssh_ready_seen : List Bool
  pub gate : Gate
  pub g_ssh_cols : ℕ
  pub g_ssh_rows : ℕ
  pub g_ssh_stir : ℕ
  pub rng : Rng

-- What a tick reads besides: the primitives, the entropy's sources, and the configuration.
pub record SshSetting : Type 0 where
  pub plain : Setting
  pub crypto : Crypto
  pub source : Source
  pub hostkey_sk : List ℕ
  pub hostkey_pk : List ℕ
  pub g_ssh_pw : List ℕ
  pub g_ssh_have_pw : Bool
  pub g_authkeys : List (List ℕ)

abbrev pub with_net : Net → SshServer → SshServer
with_net net s = record s { base = record s.base { net = net } }

abbrev pub is_active : SshServer → ℕ → Bool
is_active s i = get_or s.ssh_active i false

-- The connection that a call on `&ssh_slots[i]` sees.
abbrev pub slot_conn : SshServer → ℕ → Ssh
slot_conn s i = enter s.shared (get_or s.ssh_slots i (cleared 0))

abbrev pub set_slot : ℕ → Ssh → SshServer → SshServer
set_slot i c s = record s { ssh_slots = set s.ssh_slots i c; shared = shared_of c }

unfoldable pub stir : SshSetting → ℕ → SshServer → SshServer
stir w sample s = record s {
  rng = rng_stir w.source (bit_xor sample s.g_ssh_stir) s.rng;
  g_ssh_stir = u16 (s.g_ssh_stir + 1);
}

unfoldable pub put_bytes : ℕ → List ℕ → Net → Net
put_bytes i [] net = net
put_bytes i (b ∷ bs) net = put_bytes i bs (net_tx_putc_slot net i b).0

-- The loop of `ssh_pump_output`; every round that goes on takes a byte at least.
unfoldable pub pump_loop : ℕ → ℕ → Net → Ssh → Net × Ssh
pump_loop zero i net c = (net, c)
pump_loop (suc rounds) i net c =
    let room = net_tx_room_slot net i in
    let (c', bytes) = ssh_output (min room 128) c in
    let rest = pump_loop rounds i (put_bytes i bytes net) c' in
    if room == 0 || length bytes == 0 then (net, c) else rest

unfoldable pub ssh_pump_output : ℕ → SshServer → SshServer
ssh_pump_output i s =
    let c = slot_conn s i in
    let (net, c') = pump_loop (length c.ob) i s.base.net c in set_slot i c' (with_net net s)

-- `ssh_reset`, with the password and the keys that are configured.
unfoldable pub reset_session : SshSetting → ℕ → SshServer → SshServer
reset_session w i s =
    let keyed = record s.gate { hostkey_sk = w.hostkey_sk; hostkey_pk = w.hostkey_pk } in
    let secured = if w.g_ssh_have_pw then ssh_set_password w.g_ssh_pw keyed else keyed in
    let gate =
      if length w.g_authkeys == 0 then secured else record secured { authkeys = w.g_authkeys } in
    record (set_slot i (ssh_reset w.crypto s.shared.drawn) s) {
      gate = gate;
      g_ssh_cols = 80;
      g_ssh_rows = 25;
    }

-- A fresh session on a slot whose client has just connected.
unfoldable pub start_session : SshSetting → ℕ → SshServer → SshServer
start_session w i s = ssh_pump_output i (record (reset_session w i s) {
  ssh_active = set s.ssh_active i true;
  ssh_ready_seen = set s.ssh_ready_seen i false;
})

unfoldable pub accept_loop : ℕ → SshSetting → SshServer → SshServer
accept_loop zero w s = s
accept_loop (suc rounds) w s =
    let (net, new) = net_take_new_slot s.base.net in
    elim new [
      | none ↦ with_net net s
      | some i ↦ accept_loop rounds w (start_session w i (with_net net s))
    ]

-- At most `room` bytes from the slot's receive ring, each stirred into the pool.
unfoldable pub read_bytes : ℕ → SshSetting → ℕ → SshServer → List ℕ × SshServer
read_bytes zero w i s = ([], s)
read_bytes (suc room) w i s =
    let (net, byte) = net_rx_getc s.base.net i in
    elim byte [
      | none ↦ ([], with_net net s)
      | some b ↦ let (bs, last) = read_bytes room w i (stir w b (with_net net s)) in (b ∷ bs, last)
    ]

unfoldable pub feed_slot : SshSetting → ℕ → SshServer → SshServer
feed_slot w i s =
    let (bytes, got) = read_bytes 512 w i s in
    if length bytes == 0
    then got
    else set_slot i (ssh_input w.crypto got.gate bytes (slot_conn got i)) got

-- With `/EOF`, a Ctrl-D closes the channel and sends what that queued.
unfoldable pub close_slot : SshSetting → ℕ → SshServer → SshServer
close_slot w i s =
    let pumped = ssh_pump_output i (set_slot i (ssh_channel_close w.crypto (slot_conn s i)) s) in
    let (net, frames) = net_tx_flush w.plain.host w.plain.video.ticks pumped.base.net in
    record pumped { base = record pumped.base { net = net; frames = pumped.base.frames ++ frames } }

-- The loop over the slot's keystrokes; the ring holds at most 255.
unfoldable pub key_loop : ℕ → SshSetting → ℕ → SshServer → SshServer
key_loop zero w i s = s
key_loop (suc rounds) w i s =
    let (c, byte) = ssh_channel_getc (slot_conn s i) in
    let taken = set_slot i c s in
    elim byte [
      | none ↦ taken
      | some b ↦
          let rest = key_loop rounds w i (record taken { base = type_byte b taken.base }) in
          if w.plain.config.eof_exit && b == 4 then close_slot w i taken else rest
    ]

unfoldable pub repaint_all : SshSetting → SshServer → SshServer
repaint_all w s = record s {
  base = record s.base { render = render_reset w.plain.video.ticks s.base.render };
}

-- A shell that came up, or a client that was resized, wants the whole screen.
unfoldable pub watch_slot : SshSetting → ℕ → SshServer → SshServer
watch_slot w i s =
    let shown =
      if get_or s.ssh_ready_seen i false
      then s
      else repaint_all w (record s { ssh_ready_seen = set s.ssh_ready_seen i true }) in
    let (cols, rows) = ssh_winsize (slot_conn s i) in
    let resized = repaint_all w (record shown { g_ssh_cols = cols; g_ssh_rows = rows }) in
    if not (ssh_channel_ready (slot_conn s i))
    then s
    else if not (cols == shown.g_ssh_cols) || not (rows == shown.g_ssh_rows)
    then resized
    else shown

abbrev pub is_closed : Stage → Bool
is_closed st_closed = true
is_closed x = false

-- `ssh_discard_output`
unfoldable pub ssh_discard_output : SshServer → SshServer
ssh_discard_output s = record s { shared = record s.shared { ob = [] } }

unfoldable pub drop_slot : SshSetting → ℕ → SshServer → SshServer
drop_slot w i s =
    let (net, frames) = net_slot_drop w.plain.host s.base.net i in
    record s {
      base = record s.base { net = net; frames = s.base.frames ++ frames };
      ssh_active = set s.ssh_active i false;
    }

unfoldable pub reap_slot : SshSetting → ℕ → SshServer → SshServer
reap_slot w i s =
    let c = slot_conn s i in
    if c.chan_closed || (is_error c.state || is_closed c.state)
    then drop_slot w i (ssh_discard_output (ssh_pump_output i s))
    else s

-- One slot of `ssh_net_worker`.
unfoldable pub serve_slot : SshSetting → ℕ → SshServer → SshServer
serve_slot w i s =
    if not (is_active s i)
    then s
    else if not (net_slot_connected s.base.net i)
    then record s { ssh_active = set s.ssh_active i false }
    else reap_slot w i (watch_slot w i (key_loop 256 w i (ssh_pump_output i (feed_slot w i s))))

unfoldable pub serve_loop : ℕ → SshSetting → ℕ → SshServer → SshServer
serve_loop zero w i s = s
serve_loop (suc left) w i s = serve_loop left w (i + 1) (serve_slot w i s)
