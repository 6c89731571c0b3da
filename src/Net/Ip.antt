-- ===== src/Net/Ip.antt =====
-- The IP and ARP layer of dosshd/net.c. A frame that is received is the work buffer `f` with its
-- length `n`; a frame that is sent is the list of its bytes. The packet driver's send is an output;
-- `pkt_send` is never entered twice, as one tick handler runs at a time.
pub mod Header
use dossh.Base.{
  ℕ, zero, suc, ◌+◌, Bool, not, List, [], ◌∷◌, ◌++◌, u16, length, same_bytes, ltb, ◌==◌,
  if◌then◌else◌,
}
use dossh.Net.Wire.{rd16, wr16, sum16, fin16}
use dossh.Net.Conn.{Conn, Host, Outgoing}

-- `conns`, whose length is NCONN, and `g_ip_id`. The statistics counters, which nothing reads, are
-- left out.
pub record Net : Type 0 where
  pub conns : List Conn
  pub ip_id : ℕ

-- A received frame's bytes `f[i..i+n)`, as `memcmp` and `memcpy` read them.
unfoldable pub slice : (ℕ → ℕ) → ℕ → ℕ → List ℕ
slice f i zero = []
slice f i (suc n) = f i ∷ slice f (i + 1) n

-- The IP header up to its checksum field, and from there on.
unfoldable pub ip_before : ℕ → ℕ → ℕ → List ℕ
unfolding wr16
ip_before id proto l4len =
    0x45 ∷ 0x00 ∷ (wr16 (20 + l4len) ++ (wr16 id ++ (wr16 0x4000 ++ (64 ∷ proto ∷ []))))

unfoldable pub ip_header : Host → ℕ → ℕ → List ℕ → ℕ → List ℕ
unfolding ip_before
ip_header h id proto dst_ip l4len =
    let before = ip_before id proto l4len in
    let sum = sum16 (before ++ (wr16 0 ++ (h.ip ++ dst_ip))) 0 in
    before ++ (wr16 (fin16 sum) ++ (h.ip ++ dst_ip))

-- One frame; the identification counts up.
unfoldable pub ip_send : Host → Net → ℕ → Outgoing → Net × List ℕ
unfolding ip_header
ip_send h net proto out =
    let id = u16 (net.ip_id + 1) in
    (
      record net { ip_id = id },
      out.dst_mac
          ++ (h.mac
              ++ (wr16 0x0800
                  ++ (ip_header h id proto out.dst_ip (length out.bytes) ++ out.bytes))),
    )

-- The segments of one handler, in order; IPP_TCP is 6.
unfoldable pub send_all : Host → Net → List Outgoing → Net × List (List ℕ)
unfolding ip_send
send_all h net [] = (net, [])
send_all h net (out ∷ outs) =
    let (net1, frame) = ip_send h net 6 out in
    let (net2, frames) = send_all h net1 outs in (net2, frame ∷ frames)

-- `arp_in`: the reply frame, if the frame asks for our address.
unfoldable pub arp_in : Host → (ℕ → ℕ) → ℕ → List (List ℕ)
unfolding slice wr16 rd16
arp_in h f n =
    let reply =
      slice f 14 6 ++ (wr16 0x0002 ++ (h.mac ++ (h.ip ++ (slice f 22 6 ++ slice f 28 4)))) in
    if ltb n 42
    then []
    else if not (rd16 f 14 == 0x0001)
    then []
    else if not (rd16 f 16 == 0x0800)
    then []
    else if not (rd16 f 20 == 0x0001)
    then []
    else if not (same_bytes (slice f 38 4) h.ip)
    then []
    else (slice f 22 6 ++ (h.mac ++ (wr16 0x0806 ++ reply))) ∷ []
