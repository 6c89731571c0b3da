-- ===== src/Examples/Peer.antt =====
-- One client's connection and the broadcast to all: dosshd/net.c.
use dossh.Base.{
  ℕ, ◌+◌, ◌-◌, ◌^◌, true, false, List, [], ◌∷◌, ◌++◌, ◌≡◌, refl, arith, u32, ◌==◌, if◌then◌else◌,
  get_or,
}
use dossh.Net.Conn.{Conn, Host, ts_estab, ts_synrcvd, tcp_send_seg, tcp_reset_listen, window}
use dossh.Net.Tcp.{Segment, open_conn, conn_in, tcp_timer, tcp_output, putc, getc, take_data}
use dossh.Net.Tcp.Windows.{IsConn, conn-IsConn}
use dossh.Net.Tcp.Receive.{
  InRing, queue, queue_len, accepted, payload_from, take_data-queue, window-queue,
}
use dossh.Net.Tcp.Handshake.{
  bare_ack, number_at, ack_of, open_conn-establishes, IsSynDue, rewound, tcp_timer-wedges,
}
use dossh.Net.Ip.{Net}
use dossh.Net.Stack.{no_conn}
use dossh.Net.Link.{is_viewer, net_tx_putc}
use dossh.Net.Link.Admission.{open_conn-keeps_ready}
use dossh.Net.Link.Broadcast.{Each, Outcome, net_tx_putc-all_or_none}

abbrev pub host : Host
host = record { mac = 82 ∷ 84 ∷ 0 ∷ 18 ∷ 52 ∷ 86 ∷ []; ip = 10 ∷ 0 ∷ 2 ∷ 15 ∷ []; port = 2323 }

abbrev mac : List ℕ
mac = 82 ∷ 85 ∷ 10 ∷ 0 ∷ 2 ∷ 2 ∷ []

abbrev ip : List ℕ
ip = 10 ∷ 0 ∷ 2 ∷ 2 ∷ []

-- An admitted client with two bytes unread across the end of the receive ring.
abbrev pub client : Conn
client = record no_conn {
  tstate = ts_estab;
  peer_mac = mac;
  peer_ip = ip;
  peer_port = 40000;
  snd_una = 100;
  snd_nxt = 100;
  rcv_nxt = 2 ^ 32 - 1;
  rbuf = λ i. 120;
  r_head = 1;
  r_tail = 511;
  ready = true;
}

-- A segment of two bytes in order.
abbrev typed : Segment
typed = record { flags = 0x18; seq = 2 ^ 32 - 1; ack = 100; dlen = 2; payload = λ i. i + 97 }

-- A half-open connection whose SYN|ACK is in flight and due again.
abbrev half_open : Conn
half_open = record no_conn {
  tstate = ts_synrcvd;
  snd_una = 2 ^ 32 - 1;
  snd_nxt = 0;
  rcv_nxt = 8;
  rexmit_at = 20;
}

client-InRing : InRing client
client-InRing = record { head_lt = omega arith; tail_lt = omega arith }

client-IsConn : IsConn client
client-IsConn = record {
  una_lt = omega arith;
  nxt_lt = omega arith;
  end_lt = omega arith;
  head_lt = omega arith;
  tail_lt = omega arith;
  snd_una_lt = omega arith;
  snd_nxt_lt = omega arith;
  within = ground arith;
  numbers = ground arith;
}

half_open-IsSynDue : IsSynDue 25 half_open
half_open-IsSynDue = record {
  half_open = refl;
  una_lt = omega arith;
  in_flight = refl;
  due = refl;
  budget = omega arith;
}

conn-IsConn_example :
    IsConn (open_conn host 5 1 client mac ip 40001 7).0
    × IsConn (conn_in host 5 client typed).0
    × IsConn (tcp_timer host 5 client).0
    × IsConn (tcp_output host 5 client).0
    × IsConn (putc client 65).0
    × IsConn (getc client).0
    × IsConn (tcp_reset_listen client)
conn-IsConn_example =
    conn-IsConn host 5 1 client mac ip 40001 7 65 typed client-IsConn (omega arith)

take_data-queue_example :
    let c' = (take_data host client typed).0 in
    (queue c' ≡ queue client ++ payload_from typed 0 (accepted client typed))
    × (c' ≡ (
        if typed.seq == client.rcv_nxt
        then record client {
          rbuf = c'.rbuf;
          r_head = c'.r_head;
          rcv_nxt = u32 (client.rcv_nxt + accepted client typed);
        }
        else client))
    × ((take_data host client typed).1 ≡ tcp_send_seg host c' 0x10 false 0 0 ∷ [])
take_data-queue_example = take_data-queue host client typed client-InRing (omega arith)

window-queue_example :
    (window client + queue_len client ≡ 511)
    × (queue (take_data host client typed).0 ≡ queue client ++ payload_from typed 0 typed.dlen)
    × ((take_data host client typed).0.rcv_nxt ≡ u32 (client.rcv_nxt + typed.dlen))
unfolding window
window-queue_example =
    window-queue host client typed client-InRing refl (omega arith) (ground arith)

open_conn-establishes_example :
    let opened = open_conn host 5 1 no_conn mac ip 40001 7 in
    let done = (conn_in host 6 opened.0 (ack_of opened.1)).0 in
    (get_or opened.1.bytes 13 0 ≡ 0x12)
    × (number_at 8 opened.1 ≡ u32 (7 + 1))
    × (done.tstate ≡ ts_estab)
    × (done.just_estab ≡ true)
    × (done.snd_una ≡ done.snd_nxt)
    × (done.rcv_nxt ≡ u32 (7 + 1))
    × (done.peer_ip ≡ ip)
    × (done.peer_port ≡ 40001)
open_conn-establishes_example = open_conn-establishes host 5 6 1 no_conn mac ip 40001 7

tcp_timer-wedges_example :
    ((tcp_timer host 25 half_open).0 ≡ rewound 25 half_open)
    × (conn_in host 99 (rewound 25 half_open) (bare_ack 8 0) ≡ (rewound 25 half_open, []))
    × (tcp_timer host 99 (rewound 25 half_open) ≡ (rewound 25 half_open, []))
tcp_timer-wedges_example =
    tcp_timer-wedges host 25 99 half_open (bare_ack 8 0) half_open-IsSynDue refl

open_conn-keeps_ready_example :
    let syn = (open_conn host 5 1 client mac ip 40001 7).0 in
    let done = (conn_in host 6 syn (bare_ack (u32 (7 + 1)) syn.snd_nxt)).0 in
    (is_viewer done ≡ true) × (done.just_estab ≡ true)
open_conn-keeps_ready_example = open_conn-keeps_ready host 5 6 1 client mac ip 40001 7

-- The first client and a free slot.
abbrev pub table : Net
table = record { conns = client ∷ no_conn ∷ []; ip_id = 3 }

net_tx_putc-all_or_none_example :
    Each (Outcome (net_tx_putc table 65).1 65) table.conns (net_tx_putc table 65).0.conns
net_tx_putc-all_or_none_example = net_tx_putc-all_or_none table 65 (ground arith)
