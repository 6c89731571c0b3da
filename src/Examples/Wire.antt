-- ===== src/Examples/Wire.antt =====
-- Checksums and segments: dosshd/net.c.
use dossh.Base.{
  true, false, [], ◌∷◌, ◌++◌, ◌≡◌, refl, arith, sub16, length, get_or, drop, u16, ◌+◌, ◌*◌, ◌^◌,
}
use dossh.Net.Wire.Checksum.{words, ones}
use dossh.Net.Conn.{Conn, Host, ts_estab, tcp_send_seg, ring_bytes, snd_mask}
use dossh.Net.Conn.Segments.{pseudo_header, tcp_send_seg-verifies}
use dossh.Net.Ip.{ip_header}
use dossh.Net.Ip.Header.{ip_header-verifies}
use dossh.Net.Tcp.{tcp_output}
use dossh.Net.Tcp.Windows.{IsConn}
use dossh.Net.Tcp.Output.{payloads, all_short, tcp_output-sends_all}
use dossh.Net.Stack.{no_conn}

-- The host 10.0.2.15, port 2323.
abbrev host : Host
host = record { mac = 82 ∷ 84 ∷ 0 ∷ 18 ∷ 52 ∷ 86 ∷ []; ip = 10 ∷ 0 ∷ 2 ∷ 15 ∷ []; port = 2323 }

-- A client at 10.0.2.2 with three bytes of the ring not yet sent, across the ring's end.
abbrev client : Conn
client = record no_conn {
  tstate = ts_estab;
  peer_mac = 82 ∷ 85 ∷ 10 ∷ 0 ∷ 2 ∷ 2 ∷ [];
  peer_ip = 10 ∷ 0 ∷ 2 ∷ 2 ∷ [];
  peer_port = 40000;
  snd_una = 100;
  snd_nxt = 104;
  sbuf = λ i. 65;
  s_una = 4090;
  s_nxt = 4094;
  s_end = 1;
}

client-IsConn : IsConn client
client-IsConn = record {
  una_lt = omega arith;
  nxt_lt = omega arith;
  end_lt = omega arith;
  head_lt = omega arith;
  tail_lt = omega arith;
  snd_una_lt = omega arith;
  snd_nxt_lt = omega arith;
  within = ground arith;
  numbers = ground arith;
}

tcp_send_seg-verifies_example :
    let out = (tcp_send_seg host client 0x18 false 4094 3).bytes in
    ones (words (pseudo_header host.ip client.peer_ip (length out) ++ out)) ≡ 65535
tcp_send_seg-verifies_example =
    tcp_send_seg-verifies host client 0x18 false 4094 3 refl refl refl refl (λ i. omega arith)
      (omega arith) (omega arith)

tcp_output-sends_all_example :
    (payloads (tcp_output host 5 client).1
      ≡ ring_bytes client.sbuf client.s_nxt (snd_mask (sub16 client.s_end client.s_nxt)))
    × (all_short (tcp_output host 5 client).1 ≡ true)
    × ((tcp_output host 5 client).0.s_nxt ≡ client.s_end)
tcp_output-sends_all_example = tcp_output-sends_all host 5 client client-IsConn refl

ip_header-verifies_example :
    let header = ip_header host 7 6 (10 ∷ 0 ∷ 2 ∷ 2 ∷ []) 24 in
    (length header ≡ 20)
    × (ones (words header) ≡ 65535)
    × (get_or header 2 0 * 2 ^ 8 + get_or header 3 0 ≡ u16 (20 + 24))
    × (get_or header 9 0 ≡ 6)
    × (drop 12 header ≡ host.ip ++ (10 ∷ 0 ∷ 2 ∷ 2 ∷ []))
ip_header-verifies_example =
    ip_header-verifies host 7 6 (10 ∷ 0 ∷ 2 ∷ 2 ∷ []) 24 refl refl refl refl (omega arith)
