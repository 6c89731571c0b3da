-- ===== src/Net/Link.antt =====
-- The byte-stream calls of dosshd/net.c that the framing code makes on the connection slots.
pub mod Broadcast
pub mod Admission
use dossh.Base.{
  ℕ, zero, suc, ◌+◌, ◌-◌, Bool, true, false, ◌&&◌, List, [], ◌∷◌, ◌++◌, Option, none, some, length,
  get_or, ltb, leb, if◌then◌else◌,
}
use dossh.Net.Conn.{is_estab, snd_sz, Conn, Host, Outgoing, tcp_reset_listen, tcp_send_seg}
use dossh.Net.Tcp.{used, push_byte, putc, getc}
use dossh.Net.Ip.{Net, send_all}
use dossh.Net.Stack.{no_conn, find_index, set_conn}

unfoldable pub net_connected : Net → Bool
unfolding find_index
net_connected net = elim (find_index (λ c. is_estab c.tstate) 0 net.conns) [
  | none ↦ false
  | some i ↦ true
]

-- The slot that has just been established, if any, with its flag cleared.
unfoldable pub net_take_new_slot : Net → Net × Option ℕ
unfolding find_index
net_take_new_slot net = elim (find_index (λ c. c.just_estab) 0 net.conns) [
  | none ↦ (net, none)
  | some i ↦ (set_conn net i (record (get_or net.conns i no_conn) { just_estab = false }), some i)
]

-- Who receives the broadcast.
abbrev pub is_viewer : Conn → Bool
is_viewer c = is_estab c.tstate && c.ready

-- The first loop of `net_tx_putc`: a full viewer that is dead is dropped, one that is alive stops
-- the broadcast (`false`) with what was dropped before it.
unfoldable pub make_room : List Conn → List Conn × Bool
unfolding used tcp_reset_listen
make_room [] = ([], true)
make_room (c ∷ cs) =
    let (cs', room) = make_room cs in
    if is_viewer c && leb (snd_sz - 1) (used c)
    then (if ltb 0 c.rexmit_count then (tcp_reset_listen c ∷ cs', room) else (c ∷ cs, false))
    else (c ∷ cs', room)

-- The second loop: every viewer gets the byte.
unfoldable pub push_viewers : ℕ → List Conn → List Conn
unfolding push_byte
push_viewers ch [] = []
push_viewers ch (c ∷ cs) = (if is_viewer c then push_byte c ch else c) ∷ push_viewers ch cs

unfoldable pub net_tx_putc : Net → ℕ → Net × Bool
unfolding make_room push_viewers
net_tx_putc net ch =
    let (cs, room) = make_room net.conns in
    if room
    then (record net { conns = push_viewers ch cs }, true)
    else (record net { conns = cs }, false)

-- `if( i < 0 || i >= NCONN )` of the calls on one slot.
abbrev pub in_table : Net → ℕ → Bool
in_table net i = ltb i (length net.conns)

unfoldable pub net_slot_ready : Net → ℕ → Bool → Net
net_slot_ready net i v =
    if in_table net i
    then set_conn net i (record (get_or net.conns i no_conn) { ready = v })
    else net

unfoldable pub net_slot_drop : Host → Net → ℕ → Net × List (List ℕ)
unfolding send_all tcp_reset_listen
net_slot_drop h net i =
    let c = get_or net.conns i no_conn in
    let (net', frames) =
      send_all h net (if is_estab c.tstate then tcp_send_seg h c 0x14 false 0 0 ∷ [] else []) in
    if in_table net i then (set_conn net' i (tcp_reset_listen c), frames) else (net, [])

unfoldable pub net_tx_putc_slot : Net → ℕ → ℕ → Net × Bool
unfolding putc
net_tx_putc_slot net i ch =
    let (c, queued) = putc (get_or net.conns i no_conn) ch in
    if in_table net i then (set_conn net i c, queued) else (net, false)

unfoldable pub net_rx_getc : Net → ℕ → Net × Option ℕ
unfolding getc
net_rx_getc net i =
    let (c, ch) = getc (get_or net.conns i no_conn) in
    if in_table net i then (set_conn net i c, ch) else (net, none)

-- The SSH build's calls on one slot.
unfoldable pub net_slot_connected : Net → ℕ → Bool
net_slot_connected net i = in_table net i && is_estab (get_or net.conns i no_conn).tstate

unfoldable pub net_tx_room_slot : Net → ℕ → ℕ
unfolding used
net_tx_room_slot net i =
    if in_table net i then snd_sz - 1 - used (get_or net.conns i no_conn) else 0

unfoldable pub net_slot_stalled : Net → ℕ → Bool
unfolding used
net_slot_stalled net i =
    let c = get_or net.conns i no_conn in
    in_table net i && is_estab c.tstate && leb (snd_sz - 1) (used c) && ltb 0 c.rexmit_count

-- The table that `net_open` leaves: every slot listening and no handshake reported.
unfoldable pub close_all : List Conn → List Conn
unfolding tcp_reset_listen
close_all [] = []
close_all (c ∷ cs) = record (tcp_reset_listen c) { just_estab = false } ∷ close_all cs
