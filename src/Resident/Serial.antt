-- ===== src/Resident/Serial.antt =====
-- The serial line and the timer tick of dosshd/dosshd.c. COM1 is the bytes that have arrived and the
-- bytes that were sent; the waits for the transmitter are left out, but for what arrives meanwhile.
use dossh.Base.{
  ℕ, zero, suc, ◌-◌, min, Bool, true, not, ◌&&◌, ◌||◌, List, [], ◌∷◌, ◌++◌, Option, none, some,
  ◌==◌, if◌then◌else◌, length, take, u8,
}
use dossh.Keys.{ansi_key_tick}
use dossh.Render.State.{Video}
use dossh.Render.Frame.{render_next_byte}
use dossh.Resident.Pump.{tx_budget, ssh_tx_pump}
use dossh.Resident.Tick.{Server, type_byte, key_events, net_tick}
use dossh.Resident.Worker.{
  SshServer, SshSetting, slot_conn, set_slot, stir, reset_session, repaint_all, is_closed,
}
use dossh.Resident.Broadcast.{ssh_net_worker}
use dossh.Ssh.State.{Ssh, is_error}
use dossh.Ssh.Channel.{ssh_channel_ready, ssh_channel_getc, ssh_channel_flush, ssh_channel_close}
use dossh.Ssh.Input.{ssh_input, ssh_output, ssh_winsize}

-- The server over COM1; `wire` is what was sent.
pub record Line : Type 0 where
  pub ssh : SshServer
  pub g_ssh_ser_started : Bool
  pub wire : List ℕ

-- `pump_rx` on the bytes that have arrived.
unfoldable pub pump_rx : List ℕ → Server → Server
pump_rx [] s = s
pump_rx (b ∷ bs) s = pump_rx bs (type_byte b s)

-- `tx_pump` on COM1: `arrived` is what arrives while a byte waits, by the budget that is left.
unfoldable pub serial_pump : ℕ → Video → (ℕ → List ℕ) → Server → List ℕ × Server
serial_pump zero m arrived s = ([], s)
serial_pump (suc budget) m arrived s =
    let (r, next) = render_next_byte true m s.render in
    let drawn = record s { render = r } in
    elim next [
      | none ↦ ([], drawn)
      | some b ↦
          let (bs, last) = serial_pump budget m arrived (pump_rx (arrived budget) drawn) in
          (u8 b ∷ bs, last)
    ]

-- The loop of `ssh_serial_pump_output` with a budget of bytes.
unfoldable pub serial_output : ℕ → ℕ → Ssh → Ssh × List ℕ
serial_output zero budget c = (c, [])
serial_output (suc rounds) budget c =
    let (c', bytes) = ssh_output (min budget 128) c in
    let (last, more) = serial_output rounds (budget - length bytes) c' in
    if budget == 0 || length bytes == 0 then (c, []) else (last, bytes ++ more)

unfoldable pub ssh_serial_pump_output : Line → Line
ssh_serial_pump_output l =
    let c = slot_conn l.ssh 0 in
    let (c', bytes) = serial_output (length c.ob) 1024 c in
    record l { ssh = set_slot 0 c' l.ssh; wire = l.wire ++ bytes }

unfoldable pub stir_bytes : SshSetting → List ℕ → SshServer → SshServer
stir_bytes w [] s = s
stir_bytes w (b ∷ bs) s = stir_bytes w bs (stir w b s)

-- The first bytes of a client start a session, and so do bytes behind one that is over.
unfoldable pub serial_start : SshSetting → Line → Line
serial_start w l =
    let c = slot_conn l.ssh 0 in
    if not l.g_ssh_ser_started || (is_error c.state || is_closed c.state)
    then record l { ssh = repaint_all w (reset_session w 0 l.ssh); g_ssh_ser_started = true }
    else l

unfoldable pub serial_feed : SshSetting → List ℕ → Line → Line
serial_feed w bytes l =
    let started = serial_start w l in
    let fed = ssh_input w.crypto started.ssh.gate bytes (slot_conn started.ssh 0) in
    if length bytes == 0 then l else record started { ssh = set_slot 0 fed started.ssh }

unfoldable pub serial_resize : SshSetting → Line → Line
serial_resize w l =
    let (cols, rows) = ssh_winsize (slot_conn l.ssh 0) in
    let resized = repaint_all w (record l.ssh { g_ssh_cols = cols; g_ssh_rows = rows }) in
    if not (cols == l.ssh.g_ssh_cols) || not (rows == l.ssh.g_ssh_rows)
    then record l { ssh = resized }
    else l

-- The loop over the keystrokes.
unfoldable pub serial_keys : ℕ → SshSetting → Line → Line
serial_keys zero w l = l
serial_keys (suc rounds) w l =
    let (c, byte) = ssh_channel_getc (slot_conn l.ssh 0) in
    let taken = set_slot 0 c l.ssh in
    elim byte [
      | none ↦ record l { ssh = taken }
      | some b ↦
          let closed = set_slot 0 (ssh_channel_close w.crypto (slot_conn taken 0)) taken in
          let rest =
            serial_keys rounds w
              (record l { ssh = record taken { base = type_byte b taken.base } }) in
          if w.plain.config.eof_exit && b == 4
          then ssh_serial_pump_output (record l { ssh = closed })
          else rest
    ]

-- `ssh_tx_pump` and `ssh_channel_flush`
unfoldable pub serial_screen : SshSetting → Line → Line
serial_screen w l =
    let (c, r) = ssh_tx_pump w.plain.video (slot_conn l.ssh 0) l.ssh.base.render in
    let pumped = set_slot 0 (ssh_channel_flush w.crypto c) l.ssh in
    record l { ssh = record pumped { base = record pumped.base { render = r } } }

-- A tick over COM1; `received` are the bytes that have arrived, of which it takes 256.
unfoldable pub ssh_serial_worker : SshSetting → List ℕ → Line → Line
ssh_serial_worker w received l =
    let bytes = take 256 received in
    let fed = serial_feed w bytes (record l { ssh = stir_bytes w bytes l.ssh }) in
    let replied = ssh_serial_pump_output fed in
    let served =
      ssh_serial_pump_output (serial_screen w (serial_keys 256 w (serial_resize w replied))) in
    let last = if ssh_channel_ready (slot_conn replied.ssh 0) then served else replied in
    if not fed.g_ssh_ser_started then fed else record last { ssh = stir w 0 last.ssh }

-- The transport that the command line chose.
pub data Mode : Type 0 where
  ssh_net ssh_serial telnet_net telnet_serial : Mode

-- What the hardware has at a tick: the frame of the packet driver, and the bytes of COM1.
pub record Arrival : Type 0 where
  pub staged : Option ((ℕ → ℕ) × ℕ)
  pub received : List ℕ
  pub meanwhile : ℕ → List ℕ

abbrev with_base : Server → Line → Line
with_base b l = record l { ssh = record l.ssh { base = b } }

unfoldable pub serial_tick : SshSetting → Arrival → Line → Line
serial_tick w a l =
    let typed = pump_rx a.received l.ssh.base in
    let (bytes, sent) = serial_pump tx_budget w.plain.video a.meanwhile typed in
    record (with_base sent l) { wire = l.wire ++ bytes }

unfoldable pub by_mode : Mode → SshSetting → Arrival → Line → Line
by_mode ssh_net w a l = record l { ssh = ssh_net_worker w a.staged l.ssh }
by_mode ssh_serial w a l = ssh_serial_worker w a.received l
by_mode telnet_net w a l = with_base (net_tick w.plain a.staged l.ssh.base) l
by_mode telnet_serial w a l = serial_tick w a l

-- `tick_isr` when no tick is running: whether the machine is to be rebooted is read behind it.
unfoldable pub tick_isr : Mode → SshSetting → Arrival → Line → Line × Bool
tick_isr mode w a l =
    let (keys, events) = ansi_key_tick l.ssh.base.keys in
    let ticked = key_events events (record l.ssh.base { keys = keys }) in
    let last = by_mode mode w a (with_base ticked l) in (last, last.ssh.base.g_reboot)
