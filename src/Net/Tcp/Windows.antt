-- ===== src/Net/Tcp/Windows.antt =====
-- The send and receive windows of one connection of dosshd/net.c.
use dossh.Base.{
  ℕ, zero, suc, ◌+◌, ◌-◌, ◌^◌, ◌<◌, ◌≤◌, true, false, ◌||◌, List, some, Option-cases, Bool-cases,
  inl, inr, ◌≡◌, ◌≢◌, refl, arith, sub16, sub32, is_negative, ltb, ◌==◌, if◌then◌else◌, update,
}
use dossh.Net.Conn.{
  TcpState, ts_listen, ts_synrcvd, ts_estab, Conn, Host, snd_mask, rcv_mask, mss_tx,
  tcp_reset_listen,
}
use dossh.Net.Tcp.{
  send_chunk, output_loop, tcp_output, Segment, open_conn, accept_syn_ack, ack_advances, take_ack,
  store_bytes, take_data, take_fin, estab_in, conn_in, tcp_timer, used, push_byte, putc, getc,
}

-- The bytes that were sent and not acknowledged, by the ring's indices.
abbrev pub in_flight : Conn → ℕ
in_flight c = snd_mask (sub16 c.s_nxt c.s_una)

abbrev pub sent_seq : Conn → ℕ
sent_seq c = sub32 c.snd_nxt c.snd_una

-- How the sequence numbers match the ring: a SYN in flight has a number but no byte.
abbrev pub NumbersMatch : TcpState → Conn → Type 0
NumbersMatch ts_listen c = (c.s_una ≡ 0) × (c.s_nxt ≡ 0)
NumbersMatch ts_synrcvd c = (c.s_una ≡ 0) × (c.s_nxt ≡ 0) × (sent_seq c ≤ 1)
NumbersMatch ts_estab c = sent_seq c ≡ in_flight c

-- The indices lie in the rings, the sequence numbers are 32-bit words, what is in flight is part
-- of what the ring holds, and the numbers match the ring.
pub record IsConn (c : Conn) : Type 0 where
  pub una_lt : c.s_una < 2 ^ 12
  pub nxt_lt : c.s_nxt < 2 ^ 12
  pub end_lt : c.s_end < 2 ^ 12
  pub head_lt : c.r_head < 2 ^ 9
  pub tail_lt : c.r_tail < 2 ^ 9
  pub snd_una_lt : c.snd_una < 2 ^ 32
  pub snd_nxt_lt : c.snd_nxt < 2 ^ 32
  pub within : in_flight c ≤ snd_mask (sub16 c.s_end c.s_una)
  pub numbers : NumbersMatch c.tstate c

pub reset-IsConn : {c : Conn} → IsConn c → IsConn (tcp_reset_listen c)
unfolding tcp_reset_listen
reset-IsConn v = ground arith

open_conn-IsConn :
    (h : Host) (now i : ℕ) (c : Conn) (mac ip : List ℕ) (sport seq : ℕ)
    → IsConn (open_conn h now i c mac ip sport seq).0
unfolding open_conn
open_conn-IsConn h now i c mac ip sport seq = ground arith

accept-IsConn :
    {c c' : Conn} (seg : Segment)
    → IsConn c
    → c.tstate ≡ ts_synrcvd
    → accept_syn_ack c seg ≡ some c'
    → IsConn c' × (c'.tstate ≡ ts_estab)
unfolding accept_syn_ack
accept-IsConn seg v e h = ground arith

-- An acknowledgement that is accepted frees no more than is in flight.
ack-le-in_flight :
    (una nxt ack : ℕ)
    → una < 2 ^ 32
    → nxt < 2 ^ 32
    → ack < 2 ^ 32
    → sub32 nxt una < 2 ^ 12
    → is_negative (sub32 ack una) ≡ false
    → (is_negative (sub32 ack nxt) || sub32 ack nxt == 0) ≡ true
    → (sub32 ack una ≤ sub32 nxt una) × (sub32 nxt ack ≡ sub32 nxt una - sub32 ack una)
ack-le-in_flight una nxt ack p q r few pos le = ground arith

take_ack-IsConn :
    {c : Conn} (now : ℕ) (seg : Segment)
    → IsConn c
    → c.tstate ≡ ts_estab
    → seg.ack < 2 ^ 32
    → IsConn (take_ack now c seg) × ((take_ack now c seg).tstate ≡ ts_estab)
unfolding take_ack ack_advances
take_ack-IsConn {c} now seg v e small = ground (arith, ack-le-in_flight c.snd_una c.snd_nxt seg.ack)

store_bytes-IsConn :
    (left i : ℕ) (seg : Segment) {c : Conn} (stored : ℕ)
    → IsConn c
    → IsConn (store_bytes left i seg c stored).0
      × ((store_bytes left i seg c stored).0.tstate ≡ c.tstate)
unfolding store_bytes
store_bytes-IsConn zero i seg stored v = (v, refl)
store_bytes-IsConn (suc left) i seg {c} stored v =
    let c' : Conn = record c {
      rbuf = update c.rbuf c.r_head (seg.payload i);
      r_head = rcv_mask (c.r_head + 1);
    } in
    let v' : IsConn c' = ground arith in
    ground (arith, store_bytes-IsConn left (i + 1) seg {c = c'} (stored + 1) v')

take_data-IsConn :
    (h : Host) {c : Conn} (seg : Segment)
    → IsConn c
    → c.tstate ≡ ts_estab
    → IsConn (take_data h c seg).0 × ((take_data h c seg).0.tstate ≡ ts_estab)
unfolding take_data
take_data-IsConn h {c} seg v e = ground (arith, store_bytes-IsConn seg.dlen 0 seg {c = c} 0 v)

estab_in-IsConn :
    (h : Host) (now : ℕ) {c : Conn} (seg : Segment)
    → IsConn c
    → c.tstate ≡ ts_estab
    → seg.ack < 2 ^ 32
    → IsConn (estab_in h now c seg).0
unfolding estab_in take_fin tcp_reset_listen
estab_in-IsConn h now {c} seg v e small =
    let (v1, e1) = take_ack-IsConn {c = c} now seg v e small in
    let (v2, e2) = take_data-IsConn h {c = take_ack now c seg} seg v1 e1 in ground arith

conn_in-IsConn :
    (h : Host) (now : ℕ) {c : Conn} (seg : Segment)
    → IsConn c
    → seg.ack < 2 ^ 32
    → IsConn (conn_in h now c seg).0
unfolding conn_in
conn_in-IsConn h now {c} seg v small = elim (Option-cases (accept_syn_ack c seg)) [
  | inl refused ↦ ground (arith, estab_in-IsConn h now {c = c} seg v)
  | inr (c', accepted) ↦ ground (
    arith,
    estab_in-IsConn h now {c = c} seg v,
    accept-IsConn {c = c} {c' = c'} seg v,
    estab_in-IsConn h now {c = c'} seg,
  )
]

tcp_timer-IsConn : (h : Host) (now : ℕ) {c : Conn} → IsConn c → IsConn (tcp_timer h now c).0
unfolding tcp_timer tcp_reset_listen
tcp_timer-IsConn h now v = ground arith

send_chunk-IsConn :
    (h : Host) (now : ℕ) {c : Conn} (n : ℕ)
    → IsConn c
    → c.tstate ≡ ts_estab
    → n ≤ snd_mask (sub16 c.s_end c.s_nxt)
    → IsConn (send_chunk h now c n).0
      × ((send_chunk h now c n).0.tstate ≡ ts_estab)
      × (snd_mask (sub16 (send_chunk h now c n).0.s_end (send_chunk h now c n).0.s_nxt)
          ≡ snd_mask (sub16 c.s_end c.s_nxt) - n)
unfolding send_chunk
send_chunk-IsConn h now v n e le = ground arith

-- Each round of the output loop keeps the invariant, and with a unit of fuel for each unsent byte
-- the loop sends to the end of the ring.
pub output_loop-IsConn :
    (fuel : ℕ) (h : Host) (now : ℕ) (c : Conn) (unsent : ℕ)
    → IsConn c
    → c.tstate ≡ ts_estab
    → unsent ≡ snd_mask (sub16 c.s_end c.s_nxt)
    → unsent ≤ fuel
    → IsConn (output_loop fuel h now c unsent).0
      × ((output_loop fuel h now c unsent).0.tstate ≡ ts_estab)
      × ((output_loop fuel h now c unsent).0.s_nxt ≡ c.s_end)
unfolding output_loop
output_loop-IsConn zero h now c unsent v e all enough = ground arith
output_loop-IsConn (suc fuel) h now c unsent v e all enough =
    let n : ℕ = if ltb mss_tx unsent then mss_tx else unsent in
    let n_le : n ≤ unsent = ground arith in
    let n_pos : unsent ≢ 0 → 0 < n = ground arith in
    let (v', e', left) = send_chunk-IsConn h now {c = c} n v e (omega arith) in
    elim (Bool-cases (unsent == 0)) [
      | inl done ↦ rw done (v, e, ground arith)
      | inr more ↦ rw more (
          output_loop-IsConn fuel h now (send_chunk h now c n).0 (unsent - n) v' e' (omega arith)
            (ground arith))
    ]

-- Everything that can happen to a connection keeps the invariant: a fresh SYN, any segment, the
-- timer, the output loop, a byte queued or read, a reset. The ring indices stay in the rings, the
-- numbers in flight match the ring, and an acknowledgement frees no byte that was not sent.
pub conn-IsConn :
    (h : Host) (now i : ℕ) (c : Conn) (mac ip : List ℕ) (sport seq ch : ℕ) (seg : Segment)
    → IsConn c
    → seg.ack < 2 ^ 32
    → IsConn (open_conn h now i c mac ip sport seq).0
      × IsConn (conn_in h now c seg).0
      × IsConn (tcp_timer h now c).0
      × IsConn (tcp_output h now c).0
      × IsConn (putc c ch).0
      × IsConn (getc c).0
      × IsConn (tcp_reset_listen c)
unfolding tcp_output putc getc used push_byte
conn-IsConn h now i c mac ip sport seq ch seg v small = (
  open_conn-IsConn h now i c mac ip sport seq,
  conn_in-IsConn h now {c = c} seg v small,
  tcp_timer-IsConn h now {c = c} v,
  ground (
    arith,
    output_loop-IsConn (snd_mask (sub16 c.s_end c.s_nxt)) h now c (snd_mask (sub16 c.s_end c.s_nxt))
        v,
  ),
  ground arith,
  ground arith,
  reset-IsConn {c = c} v,
)
