-- ===== src/Net/Tcp/Handshake.antt =====
-- The three-way handshake of dosshd/net.c, with and without a lost SYN|ACK.
use dossh.Base.{
  ℕ, ◌+◌, ◌*◌, ◌^◌, ◌<◌, true, false, List, [], none, ◌≡◌, arith, get_or, u16, u32, sub32,
  is_negative,
}
use dossh.Net.Wire.{wr16, wr32}
use dossh.Net.Conn.{
  ts_synrcvd, ts_estab, Conn, Host, Outgoing, tcp_send_seg, seg_before, seg_after, max_rexmit,
  rexmit_ticks, tcp_reset_listen,
}
use dossh.Net.Tcp.{Segment, open_conn, accept_syn_ack, ack_advances, conn_in, timer_due, tcp_timer}

-- A bare ACK: no data and no FIN.
abbrev pub bare_ack : ℕ → ℕ → Segment
bare_ack seq ack = record { flags = 0x10; seq = seq; ack = ack; dlen = 0; payload = λ i. 0 }

-- Four bytes of a segment from an offset, the high byte first: the sequence number stands at 4 and the
-- acknowledgement number at 8 (RFC 793).
abbrev pub number_at : ℕ → Outgoing → ℕ
number_at i out =
    get_or out.bytes i 0 * 2 ^ 24
    + get_or out.bytes (i + 1) 0 * 2 ^ 16
    + get_or out.bytes (i + 2) 0 * 2 ^ 8
    + get_or out.bytes (i + 3) 0

-- The ACK of a client that goes by the segment it was sent: it expects the byte behind the SYN.
abbrev pub ack_of : Outgoing → Segment
ack_of out = bare_ack (number_at 8 out) (u32 (number_at 4 out + 1))

-- A fresh SYN, then the ACK of a client that takes both numbers from our SYN|ACK: the SYN|ACK has
-- its flags and acknowledges the SYN; and the connection is established with that client, flagged as
-- new to the framing code, with nothing in flight and the client's next byte expected.
pub open_conn-establishes :
    (h : Host) (now later i : ℕ) (c : Conn) (mac ip : List ℕ) (sport seq : ℕ)
    → let opened = open_conn h now i c mac ip sport seq in
      let done = (conn_in h later opened.0 (ack_of opened.1)).0 in
      (get_or opened.1.bytes 13 0 ≡ 0x12)
      × (number_at 8 opened.1 ≡ u32 (seq + 1))
      × (done.tstate ≡ ts_estab)
      × (done.just_estab ≡ true)
      × (done.snd_una ≡ done.snd_nxt)
      × (done.rcv_nxt ≡ u32 (seq + 1))
      × (done.peer_ip ≡ ip)
      × (done.peer_port ≡ sport)
unfolding open_conn conn_in ack_advances tcp_reset_listen tcp_send_seg seg_before seg_after wr16
    wr32
open_conn-establishes h now later i c mac ip sport seq =
    let opened = open_conn h now i c mac ip sport seq in
    let iss : ℕ = u32 (u32 (0x00013700 + now) + i) in
    let first : number_at 4 opened.1 ≡ iss = omega arith in
    let second : number_at 8 opened.1 ≡ u32 (seq + 1) = omega arith in ground (arith, first, second)

-- A half-open connection whose SYN|ACK is in flight and whose retransmission is due.
pub record IsSynDue (now : ℕ) (c : Conn) : Type 0 where
  pub half_open : c.tstate ≡ ts_synrcvd
  pub una_lt : c.snd_una < 2 ^ 32
  pub in_flight : c.snd_nxt ≡ u32 (c.snd_una + 1)
  pub due : is_negative (sub32 now c.rexmit_at) ≡ false
  pub budget : c.rexmit_count < max_rexmit

-- Half open with nothing in flight by the sequence numbers.
record IsStuck (c : Conn) : Type 0 where
  half_open : c.tstate ≡ ts_synrcvd
  nothing_sent : c.snd_nxt ≡ c.snd_una
  una_lt : c.snd_una < 2 ^ 32

stuck_refuses :
    (c : Conn) (seg : Segment)
    → IsStuck c
    → seg.ack ≡ u32 (c.snd_una + 1)
    → accept_syn_ack c seg ≡ none
unfolding accept_syn_ack
stuck_refuses c seg v e = ground arith

stuck_ignores :
    (h : Host) (later : ℕ) (c : Conn) (seg : Segment)
    → IsStuck c
    → seg.ack ≡ u32 (c.snd_una + 1)
    → conn_in h later c seg ≡ (c, [])
unfolding conn_in
stuck_ignores h later c seg v e = ground (arith, stuck_refuses c seg v e)

stuck_silent : (h : Host) (later : ℕ) (c : Conn) → IsStuck c → tcp_timer h later c ≡ (c, [])
unfolding tcp_timer
stuck_silent h later c v =
    let idle : timer_due later c ≡ false = unfold timer_due in ground arith in ground arith

-- The connection as the timer leaves it.
abbrev pub rewound : ℕ → Conn → Conn
rewound now c = record c {
  rexmit_count = u16 (c.rexmit_count + 1);
  s_nxt = c.s_una;
  snd_nxt = c.snd_una;
  rexmit_at = u32 (now + rexmit_ticks);
}

due-rewound :
    (h : Host) (now : ℕ) (c : Conn) → IsSynDue now c → (tcp_timer h now c).0 ≡ rewound now c
unfolding tcp_timer
due-rewound h now c v = ground arith

-- Once the SYN|ACK of a half-open connection has been retransmitted, the ACK that a client sends to
-- it, with or without data, is ignored: the connection stays exactly as the timer left it, half
-- open, and no later tick retransmits again.
pub tcp_timer-wedges :
    (h : Host) (now later : ℕ) (c : Conn) (seg : Segment)
    → IsSynDue now c
    → seg.ack ≡ u32 (c.snd_una + 1)
    → ((tcp_timer h now c).0 ≡ rewound now c)
      × (conn_in h later (rewound now c) seg ≡ (rewound now c, []))
      × (tcp_timer h later (rewound now c) ≡ (rewound now c, []))
tcp_timer-wedges h now later c seg v e =
    let stuck : IsStuck (rewound now c) = ground arith in
    (
      due-rewound h now c v,
      stuck_ignores h later (rewound now c) seg stuck e,
      stuck_silent h later (rewound now c) stuck,
    )
