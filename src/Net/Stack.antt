-- ===== src/Net/Stack.antt =====
-- The connection table of dosshd/net.c: the match of a segment to its slot, the frame dispatch and
-- `net_poll`.
use dossh.Base.{
  ℕ, ◌+◌, ◌-◌, ◌*◌, ◌/◌, ◌%◌, Bool, false, not, ◌&&◌, List, [], ◌∷◌, ◌++◌, Option, none, some, u32,
  sub16, set, get_or, same_bytes, ltb, ◌==◌, if◌then◌else◌,
}
use dossh.Net.Wire.{rd16, rd32, wr16, wr32, sum16, fin16}
use dossh.Net.Conn.{ts_listen, is_listen, Conn, Host, Outgoing, tcp_reset_listen, pseudo_sum}
use dossh.Net.Tcp.{Segment, syn_flag, rst_flag, open_conn, conn_in, tcp_timer, tcp_output}
use dossh.Net.Ip.{Net, slice, send_all, arp_in}

-- What `conns[i]` reads past the end, where no operation goes.
abbrev pub no_conn : Conn
no_conn = record {
  tstate = ts_listen;
  peer_mac = [];
  peer_ip = [];
  peer_port = 0;
  snd_una = 0;
  snd_nxt = 0;
  rcv_nxt = 0;
  sbuf = λ i. 0;
  s_una = 0;
  s_nxt = 0;
  s_end = 0;
  rbuf = λ i. 0;
  r_head = 0;
  r_tail = 0;
  rexmit_at = 0;
  rexmit_count = 0;
  just_estab = false;
  ready = false;
}

-- The first index at which a test holds.
unfoldable pub find_index : (Conn → Bool) → ℕ → List Conn → Option ℕ
find_index p i [] = none
find_index p i (c ∷ cs) = let rest = find_index p (i + 1) cs in if p c then some i else rest

unfoldable pub find_conn : List Conn → ℕ → List ℕ → Option ℕ
unfolding find_index
find_conn cs sport srcip =
    find_index (λ c. not (is_listen c.tstate) && c.peer_port == sport && same_bytes c.peer_ip srcip)
      0 cs

abbrev pub or_else : Option ℕ → Option ℕ → Option ℕ
or_else none o = o
or_else (some i) o = some i

unfoldable pub alloc_conn : List Conn → List ℕ → Option ℕ
unfolding find_index
alloc_conn cs srcip =
    let stalled =
      find_index
        (λ c. not (is_listen c.tstate) && ltb 0 c.rexmit_count && same_bytes c.peer_ip srcip) 0
        cs in
    let free = find_index (λ c. is_listen c.tstate) 0 cs in
    let same_host = find_index (λ c. same_bytes c.peer_ip srcip) 0 cs in
    or_else stalled (or_else free same_host)

-- `send_rst`: RST|ACK to a SYN that there is no room for.
unfoldable pub send_rst : Host → List ℕ → List ℕ → ℕ → ℕ → Outgoing
unfolding wr16 wr32
send_rst h srcmac srcip sport seq =
    let before =
      wr16 h.port
      ++ (wr16 sport ++ (wr32 0 ++ (wr32 (u32 (seq + 1)) ++ (80 ∷ 0x14 ∷ 0 ∷ 0 ∷ [])))) in
    let sum = sum16 (before ++ (0 ∷ 0 ∷ 0 ∷ 0 ∷ [])) (pseudo_sum h srcip 20) in
    record {
      dst_mac = srcmac;
      dst_ip = srcip;
      bytes = before ++ (wr16 (fin16 sum) ++ (0 ∷ 0 ∷ []));
    }

-- Where the TCP header stands in the frame, by the IP header's length field.
abbrev pub tcp_at : (ℕ → ℕ) → ℕ
tcp_at f = 14 + f 14 % 16 * 4

-- `tcplen` wraps if the total length is less than the header's.
unfoldable pub tcp_len : (ℕ → ℕ) → ℕ
unfolding rd16
tcp_len f = sub16 (rd16 f 16) (f 14 % 16 * 4)

abbrev pub data_offset : (ℕ → ℕ) → ℕ
data_offset f = f (tcp_at f + 12) / 16 * 4

unfoldable pub read_segment : (ℕ → ℕ) → Segment
unfolding tcp_len
read_segment f = record {
  flags = f (tcp_at f + 13);
  seq = rd32 f (tcp_at f + 4);
  ack = rd32 f (tcp_at f + 8);
  dlen = tcp_len f - data_offset f;
  payload = λ i. f (tcp_at f + data_offset f + i);
}

abbrev pub set_conn : Net → ℕ → Conn → Net
set_conn net i c = record net { conns = set net.conns i c }

-- A SYN that matches no connection.
unfoldable pub syn_in : Host → ℕ → Net → (ℕ → ℕ) → Net × List Outgoing
unfolding open_conn
syn_in h now net f =
    let srcip = slice f 26 4 in
    let sport = rd16 f (tcp_at f) in
    let seq = rd32 f (tcp_at f + 4) in
    elim (alloc_conn net.conns srcip) [
      | none ↦ (net, send_rst h (slice f 6 6) srcip sport seq ∷ [])
      | some i ↦
          let (c, out) =
            open_conn h now i (get_or net.conns i no_conn) (slice f 6 6) srcip sport seq in
          (set_conn net i c, out ∷ [])
    ]

-- A segment for the connection that it was matched to, if any.
unfoldable pub matched_in : Host → ℕ → Net → (ℕ → ℕ) → Option ℕ → Net × List Outgoing
unfolding syn_in conn_in read_segment
matched_in h now net f found =
    let seg = read_segment f in
    let update_slot : (Conn → Conn × List Outgoing) → Net × List Outgoing = λ step. elim found [
      | none ↦ (net, [])
      | some i ↦ let (c, outs) = step (get_or net.conns i no_conn) in (set_conn net i c, outs)
    ] in
    let opened : Net × List Outgoing = elim found [
      | none ↦ syn_in h now net f
      | some i ↦ (net, [])
    ] in
    if rst_flag seg.flags
    then update_slot (λ c. (tcp_reset_listen c, []))
    else if syn_flag seg.flags
    then opened
    else update_slot (λ c. conn_in h now c seg)

unfoldable pub tcp_in : Host → ℕ → Net → (ℕ → ℕ) → Net × List Outgoing
unfolding matched_in tcp_len
tcp_in h now net f =
    if not (rd16 f (tcp_at f + 2) == h.port)
    then (net, [])
    else if ltb (tcp_len f) (data_offset f)
    then (net, [])
    else matched_in h now net f (find_conn net.conns (rd16 f (tcp_at f)) (slice f 26 4))

-- The frames that one handler sends.
unfoldable pub handle_frame : Host → ℕ → Net → (ℕ → ℕ) → ℕ → Net × List (List ℕ)
unfolding arp_in tcp_in send_all
handle_frame h now net f n =
    let (net', outs) = tcp_in h now net f in
    if ltb n 14
    then (net, [])
    else if rd16 f 12 == 0x0806
    then (net, arp_in h f n)
    else if not (rd16 f 12 == 0x0800)
    then (net, [])
    else if ltb n 34
    then (net, [])
    else if not (f 14 / 16 == 4)
    then (net, [])
    else if not (same_bytes (slice f 30 4) h.ip)
    then (net, [])
    else if f 23 == 6
    then send_all h net' outs
    else (net, [])

-- `for( i = 0; i < NCONN; i++ )` over the connections, with the segments sent.
unfoldable pub each_conn : (Conn → Conn × List Outgoing) → List Conn → List Conn × List Outgoing
each_conn step [] = ([], [])
each_conn step (c ∷ cs) =
    let (c', outs) = step c in let (cs', rest) = each_conn step cs in (c' ∷ cs', outs ++ rest)

unfoldable pub for_conns : Host → Net → (Conn → Conn × List Outgoing) → Net × List (List ℕ)
unfolding each_conn send_all
for_conns h net step =
    let (cs, outs) = each_conn step net.conns in send_all h (record net { conns = cs }) outs

unfoldable pub net_tx_flush : Host → ℕ → Net → Net × List (List ℕ)
unfolding for_conns tcp_output
net_tx_flush h now net = for_conns h net (tcp_output h now)

-- The frame that the driver has staged, if any, with its length clipped to the work buffer.
unfoldable pub net_poll : Host → ℕ → Net → Option ((ℕ → ℕ) × ℕ) → Net × List (List ℕ)
unfolding for_conns tcp_timer handle_frame net_tx_flush
net_poll h now net staged =
    let (net1, timed) = for_conns h net (tcp_timer h now) in
    let handled : Net × List (List ℕ) = elim staged [
      | none ↦ (net1, [])
      | some (f, n) ↦ handle_frame h now net1 f (if ltb 1600 n then 1600 else n)
    ] in
    let (net3, sent) = net_tx_flush h now handled.0 in (net3, timed ++ (handled.1 ++ sent))
