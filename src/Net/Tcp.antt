-- ===== src/Net/Tcp.antt =====
-- What the handlers of dosshd/net.c do to one connection: arriving segments, the timer, the output
-- loop and the byte-stream calls. `now` is `ticks()`: the handlers run inside the timer interrupt,
-- where the BIOS counter stands still.
pub mod Output
pub mod Windows
pub mod Receive
pub mod Handshake
use dossh.Base.{
  ℕ, zero, suc, ◌+◌, ◌-◌, ◌*◌, ◌/◌, ◌%◌, ◌^◌, Bool, true, false, not, ◌&&◌, ◌||◌, List, [], ◌∷◌,
  ◌++◌, Option, none, some, u8, u16, u32, sub16, sub32, has_bit, is_negative, update, ltb, leb,
  ◌==◌, if◌then◌else◌,
}
use dossh.Net.Conn.{
  TcpState, ts_listen, ts_synrcvd, ts_estab, is_listen, is_estab, snd_sz, mss_tx, rexmit_ticks,
  max_rexmit, snd_mask, rcv_mask, Conn, Host, Outgoing, tcp_reset_listen, tcp_send_seg,
}

-- One round of the loop of `tcp_output`, of `n` bytes.
unfoldable pub send_chunk : Host → ℕ → Conn → ℕ → Conn × Outgoing
send_chunk h now c n =
    let armed = if c.snd_una == c.snd_nxt then u32 (now + rexmit_ticks) else c.rexmit_at in
    (
      record c { rexmit_at = armed; s_nxt = snd_mask (c.s_nxt + n); snd_nxt = u32 (c.snd_nxt + n) },
      tcp_send_seg h c 0x18 false c.s_nxt n,
    )

-- `while( unsent )`: a round takes at least one byte, so `unsent` rounds are enough fuel
-- (`Send.tcp_output-sends_all`).
unfoldable pub output_loop : ℕ → Host → ℕ → Conn → ℕ → Conn × List Outgoing
unfolding send_chunk
output_loop zero h now c unsent = (c, [])
output_loop (suc fuel) h now c unsent =
    let n = if ltb mss_tx unsent then mss_tx else unsent in
    let (c', seg) = send_chunk h now c n in
    let (c'', segs) = output_loop fuel h now c' (unsent - n) in
    let sent : Conn × List Outgoing = (c'', seg ∷ segs) in if unsent == 0 then (c, []) else sent

unfoldable pub tcp_output : Host → ℕ → Conn → Conn × List Outgoing
unfolding output_loop
tcp_output h now c =
    let unsent = snd_mask (sub16 c.s_end c.s_nxt) in
    if is_estab c.tstate then output_loop unsent h now c unsent else (c, [])

-- What `tcp_in` reads of a segment for a connection: flags, numbers, and the payload by index.
pub record Segment : Type 0 where
  pub flags : ℕ
  pub seq : ℕ
  pub ack : ℕ
  pub dlen : ℕ
  pub payload : ℕ → ℕ

abbrev pub fin_flag : ℕ → Bool
fin_flag flags = has_bit flags 0

abbrev pub syn_flag : ℕ → Bool
syn_flag flags = has_bit flags 1

abbrev pub rst_flag : ℕ → Bool
rst_flag flags = has_bit flags 2

abbrev pub ack_flag : ℕ → Bool
ack_flag flags = has_bit flags 4

-- A fresh SYN takes the slot `i` over.
unfoldable pub open_conn : Host → ℕ → ℕ → Conn → List ℕ → List ℕ → ℕ → ℕ → Conn × Outgoing
open_conn h now i c mac ip sport seq =
    let iss = u32 (u32 (0x00013700 + now) + i) in
    let fresh = record c {
      peer_mac = mac;
      peer_ip = ip;
      peer_port = sport;
      snd_una = iss;
      snd_nxt = iss;
      rcv_nxt = u32 (seq + 1);
      tstate = ts_synrcvd;
      s_una = 0;
      s_nxt = 0;
      s_end = 0;
      r_head = 0;
      r_tail = 0;
      rexmit_count = 0;
    } in
    (
      record fresh { snd_nxt = u32 (fresh.snd_nxt + 1); rexmit_at = u32 (now + rexmit_ticks) },
      tcp_send_seg h fresh 0x12 true 0 0,
    )

-- `TS_SYNRCVD`: only the ACK of our SYN goes on; `none` is the early return.
unfoldable pub accept_syn_ack : Conn → Segment → Option Conn
accept_syn_ack c seg =
    if ack_flag seg.flags && seg.ack == c.snd_nxt
    then some
        (record c { snd_una = seg.ack; tstate = ts_estab; just_estab = true; rexmit_count = 0 })
    else none

-- `(long)(ack - snd_una) > 0 && (long)(ack - snd_nxt) <= 0`
unfoldable pub ack_advances : Conn → ℕ → Bool
ack_advances c ack =
    let ahead = sub32 ack c.snd_una in
    let beyond = sub32 ack c.snd_nxt in
    not (is_negative ahead) && not (ahead == 0) && (is_negative beyond || beyond == 0)

unfoldable pub take_ack : ℕ → Conn → Segment → Conn
unfolding ack_advances
take_ack now c seg =
    let freed = u16 (sub32 seg.ack c.snd_una) in
    if ack_flag seg.flags && ack_advances c seg.ack
    then record c {
      s_una = snd_mask (u16 (c.s_una + freed));
      snd_una = seg.ack;
      rexmit_at = u32 (now + rexmit_ticks);
      rexmit_count = 0;
    }
    else c

-- The loop over the payload from index `i`, `left` bytes to go, with the count of stored bytes.
unfoldable pub store_bytes : ℕ → ℕ → Segment → Conn → ℕ → Conn × ℕ
store_bytes zero i seg c stored = (c, stored)
store_bytes (suc left) i seg c stored =
    let nh = rcv_mask (c.r_head + 1) in
    let c' = record c { rbuf = update c.rbuf c.r_head (seg.payload i); r_head = nh } in
    let rest = store_bytes left (i + 1) seg c' (stored + 1) in
    if nh == c.r_tail then (c, stored) else rest

unfoldable pub take_data : Host → Conn → Segment → Conn × List Outgoing
unfolding store_bytes
take_data h c seg =
    let (filled, stored) = store_bytes seg.dlen 0 seg c 0 in
    let kept = record filled { rcv_nxt = u32 (filled.rcv_nxt + stored) } in
    let c' = if seg.seq == c.rcv_nxt then kept else c in
    if seg.dlen == 0 then (c, []) else (c', tcp_send_seg h c' 0x10 false 0 0 ∷ [])

unfoldable pub take_fin : Host → Conn → Segment → Conn × List Outgoing
take_fin h c seg =
    let c' = record c { rcv_nxt = u32 (c.rcv_nxt + 1) } in
    if fin_flag seg.flags
    then (tcp_reset_listen c', tcp_send_seg h c' 0x10 false 0 0 ∷ [])
    else (c, [])

-- The end of `tcp_in` for an established connection.
unfoldable pub estab_in : Host → ℕ → Conn → Segment → Conn × List Outgoing
unfolding take_ack take_data take_fin
estab_in h now c seg =
    let (c2, acks) = take_data h (take_ack now c seg) seg in
    let (c3, fins) = take_fin h c2 seg in (c3, acks ++ fins)

-- A segment other than SYN and RST for a connection that is not listening.
unfoldable pub conn_in : Host → ℕ → Conn → Segment → Conn × List Outgoing
unfolding accept_syn_ack estab_in
conn_in h now c seg = elim c.tstate [
  | ts_listen ↦ (c, [])
  | ts_synrcvd ↦ elim (accept_syn_ack c seg) [ none ↦ (c, []) | some c' ↦ estab_in h now c' seg ]
  | ts_estab ↦ estab_in h now c seg
]

-- `(long)(snd_nxt - snd_una) > 0 && (long)(ticks() - rexmit_at) >= 0`
unfoldable pub timer_due : ℕ → Conn → Bool
timer_due now c =
    let in_flight = sub32 c.snd_nxt c.snd_una in
    not (is_negative in_flight) && not (in_flight == 0) && not (is_negative (sub32 now c.rexmit_at))

unfoldable pub tcp_timer : Host → ℕ → Conn → Conn × List Outgoing
unfolding timer_due tcp_reset_listen
tcp_timer h now c =
    let counted = record c { rexmit_count = u16 (c.rexmit_count + 1) } in
    let back = record counted { s_nxt = c.s_una; snd_nxt = c.snd_una } in
    let again : List Outgoing = elim c.tstate [
      | ts_listen ↦ []
      | ts_synrcvd ↦ tcp_send_seg h back 0x12 true 0 0 ∷ []
      | ts_estab ↦ []
    ] in
    if is_listen c.tstate || not (timer_due now c)
    then (c, [])
    else if ltb max_rexmit counted.rexmit_count
    then (tcp_reset_listen counted, [])
    else (record back { rexmit_at = u32 (now + rexmit_ticks) }, again)

-- The bytes waiting in the send ring, and its free room.
unfoldable pub used : Conn → ℕ
used c = snd_mask (sub16 c.s_end c.s_una)

unfoldable pub push_byte : Conn → ℕ → Conn
push_byte c ch = record c { sbuf = update c.sbuf c.s_end (u8 ch); s_end = snd_mask (c.s_end + 1) }

-- `net_tx_putc_slot` on the slot's connection; the result says whether the byte was queued.
unfoldable pub putc : Conn → ℕ → Conn × Bool
unfolding used push_byte
putc c ch = if leb (snd_sz - 1) (used c) then (c, false) else (push_byte c ch, true)

-- `net_rx_getc` on the slot's connection; `none` is -1.
unfoldable pub getc : Conn → Conn × Option ℕ
getc c =
    if c.r_tail == c.r_head
    then (c, none)
    else (record c { r_tail = rcv_mask (c.r_tail + 1) }, some (c.rbuf c.r_tail))
