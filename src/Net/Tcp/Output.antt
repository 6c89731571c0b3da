-- ===== src/Net/Tcp/Output.antt =====
-- What `tcp_output` of dosshd/net.c puts on the wire.
use mathlib.Core.Path.{ap₂}
use dossh.Base.{
  ℕ, zero, suc, ◌+◌, ◌-◌, ◌<◌, ◌≤◌, Bool, true, false, List, [], ◌∷◌, ◌++◌, ◌≡◌, ◌&&◌, refl, ◌∙◌,
  arith, sub16, ltb, ◌==◌, if◌then◌else◌, length, drop,
}
use dossh.Net.Wire.{wr16, wr32}
use dossh.Net.Conn.{
  ts_estab, is_estab, Conn, Host, Outgoing, snd_mask, mss_tx, ring_bytes, seg_before, seg_after,
  tcp_send_seg,
}
use dossh.Net.Conn.Segments.{ring_bytes-add, ring_bytes-mask, length-ring_bytes}
use dossh.Net.Tcp.Windows.{IsConn, output_loop-IsConn}
use dossh.Net.Tcp.{send_chunk, output_loop, tcp_output}

-- The payload of a segment with no options, behind its 20 header bytes.
abbrev pub payload : Outgoing → List ℕ
payload out = drop 20 out.bytes

abbrev pub payloads : List Outgoing → List ℕ
payloads [] = []
payloads (out ∷ outs) = payload out ++ payloads outs

abbrev pub all_short : List Outgoing → Bool
all_short [] = true
all_short (out ∷ outs) = ltb (length (payload out)) 1401 && all_short outs

payload-tcp_send_seg :
    (h : Host) (c : Conn) (flags doff dlen : ℕ)
    → payload (tcp_send_seg h c flags false doff dlen) ≡ ring_bytes c.sbuf doff dlen
unfolding tcp_send_seg seg_before seg_after wr16 wr32
payload-tcp_send_seg h c flags doff dlen = refl

payload-send_chunk :
    (h : Host) (now : ℕ) (c : Conn) (n : ℕ)
    → payload (send_chunk h now c n).1 ≡ ring_bytes c.sbuf c.s_nxt n
unfolding send_chunk
payload-send_chunk h now c n = payload-tcp_send_seg h c 0x18 c.s_nxt n

chunks_join :
    (buf : ℕ → ℕ) (d n m u : ℕ)
    → n + m ≡ u
    → ring_bytes buf d n ++ ring_bytes buf (snd_mask (d + n)) m ≡ ring_bytes buf d u
chunks_join buf d n m u e =
    rw (
      ← e,
      ring_bytes-add buf d n m,
      ring_bytes-mask buf (snd_mask (d + n)) (d + n) m (omega arith),
    )

chunk_short :
    (h : Host) (now : ℕ) (c : Conn) (n : ℕ)
    → n ≤ 1400
    → ltb (length (payload (send_chunk h now c n).1)) 1401 ≡ true
chunk_short h now c n le =
    rw (payload-send_chunk h now c n, length-ring_bytes c.sbuf c.s_nxt n) (ground arith)

output_loop_step :
    (fuel : ℕ) (h : Host) (now : ℕ) (c : Conn) (u : ℕ)
    → let n : ℕ = if ltb mss_tx (suc u) then mss_tx else suc u in
      (output_loop (suc fuel) h now c (suc u)).1
      ≡ (send_chunk h now c n).1 ∷ (output_loop fuel h now (send_chunk h now c n).0 (suc u - n)).1
unfolding output_loop
output_loop_step fuel h now c u = let more : (suc u == 0) ≡ false = ground arith in rw more

-- The loop's segments together carry the unsent bytes, in order.
output_loop-payloads :
    (fuel : ℕ) (h : Host) (now : ℕ) (c : Conn) (unsent : ℕ)
    → unsent ≤ fuel
    → (payloads (output_loop fuel h now c unsent).1 ≡ ring_bytes c.sbuf c.s_nxt unsent)
      × (all_short (output_loop fuel h now c unsent).1 ≡ true)
unfolding output_loop ring_bytes
output_loop-payloads zero h now c zero enough = (refl, refl)
output_loop-payloads zero h now c (suc u) enough = absurd (omega arith)
output_loop-payloads (suc fuel) h now c zero enough = (refl, refl)
output_loop-payloads (suc fuel) h now c (suc u) enough =
    let n : ℕ = if ltb mss_tx (suc u) then mss_tx else suc u in
    let n_ok : (0 < n) × (n ≤ suc u) × (n ≤ 1400) = ground arith in
    let (tail, short) =
      output_loop-payloads fuel h now (send_chunk h now c n).0 (suc u - n) (omega arith) in
    rw (output_loop_step fuel h now c u) (
      ap₂ ◌++◌ (payload-send_chunk h now c n) tail
          ∙ chunks_join c.sbuf c.s_nxt n (suc u - n) (suc u) (omega arith),
      rw (chunk_short h now c n (omega arith)) short,
    )

-- On an established connection `tcp_output` sends everything that is buffered and not yet sent: the
-- payloads of its segments, each at most 1400 bytes long, are in order the bytes of the ring
-- between `s_nxt` and `s_end`, and nothing unsent is left behind.
pub tcp_output-sends_all :
    (h : Host) (now : ℕ) (c : Conn)
    → IsConn c
    → c.tstate ≡ ts_estab
    → (payloads (tcp_output h now c).1
        ≡ ring_bytes c.sbuf c.s_nxt (snd_mask (sub16 c.s_end c.s_nxt)))
      × (all_short (tcp_output h now c).1 ≡ true)
      × ((tcp_output h now c).0.s_nxt ≡ c.s_end)
unfolding tcp_output
tcp_output-sends_all h now c v e =
    let unsent = snd_mask (sub16 c.s_end c.s_nxt) in
    let est : is_estab c.tstate ≡ true = rw e in
    rw est (
      (output_loop-payloads unsent h now c unsent (omega arith)).0,
      (output_loop-payloads unsent h now c unsent (omega arith)).1,
      (output_loop-IsConn unsent h now c unsent v e refl (omega arith)).2,
    )
