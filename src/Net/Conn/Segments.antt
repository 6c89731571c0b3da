-- ===== src/Net/Conn/Segments.antt =====
-- The TCP segments that `tcp_send_seg` of dosshd/net.c builds.
use Prim.Native.Nat.add
use dossh.Base.{
  ℕ, zero, suc, ◌+◌, ◌*◌, ◌/◌, ◌%◌, ◌^◌, ◌<◌, ◌≤◌, Bool, true, false, List, [], ◌∷◌, ◌++◌, ◌≡◌,
  refl, ap, ◌∙◌, arith, length, length-append, all, ltb, if◌then◌else◌,
}
use dossh.Net.Wire.{wr16, wr32, sum16}
use dossh.Net.Wire.Checksum.{words, ones, words-append, checksum-ones, words-le, sum16-words}
use dossh.Net.Conn.{
  Conn, Host, snd_mask, ring_bytes, seg_before, seg_after, pseudo_sum, tcp_send_seg,
}

pub length-ring_bytes : (buf : ℕ → ℕ) (d n : ℕ) → length (ring_bytes buf d n) ≡ n
unfolding ring_bytes
length-ring_bytes buf d zero = refl
length-ring_bytes buf d (suc n) = ap suc (length-ring_bytes buf (d + 1) n)

-- The ring index may be masked before or after counting on.
pub ring_bytes-mask :
    (buf : ℕ → ℕ) (d e n : ℕ) → d % 2 ^ 12 ≡ e % 2 ^ 12 → ring_bytes buf d n ≡ ring_bytes buf e n
unfolding ring_bytes
ring_bytes-mask buf d e zero h = refl
ring_bytes-mask buf d e (suc n) h = rw (h, ring_bytes-mask buf (d + 1) (e + 1) n (omega arith))

pub ring_bytes-add :
    (buf : ℕ → ℕ) (d n m : ℕ)
    → ring_bytes buf d (n + m) ≡ ring_bytes buf d n ++ ring_bytes buf (d + n) m
unfolding ring_bytes
ring_bytes-add buf d zero m = rw add.zero (ring_bytes-mask buf d (d + 0) m (omega arith))
ring_bytes-add buf d (suc n) m = rw (
  add.suc,
  ring_bytes-add buf (d + 1) n m,
  ring_bytes-mask buf (d + 1 + n) (d + suc n) m (omega arith),
)

ring_bytes-small :
    (buf : ℕ → ℕ) (d n : ℕ)
    → ((i : ℕ) → buf i < 256)
    → all (λ b. ltb b 256) (ring_bytes buf d n) ≡ true
unfolding ring_bytes
ring_bytes-small buf d zero h = refl
ring_bytes-small buf d (suc n) h = ground (arith, h (snd_mask d), ring_bytes-small buf (d + 1) n h)

seg_before-words :
    (h : Host) (c : Conn) (flags : ℕ) (with_mss : Bool)
    → flags < 256
    → (length (seg_before h c flags with_mss) ≡ 16)
      × (words (seg_before h c flags with_mss) ≤ 8 * 65536)
unfolding seg_before wr16 wr32
seg_before-words h c flags with_mss small = ground arith

seg_after-words :
    (with_mss : Bool) (payload : List ℕ)
    → all (λ b. ltb b 256) payload ≡ true
    → words (seg_after with_mss payload) ≤ (length payload + 3) * 65536
unfolding seg_after wr16
seg_after-words true payload small = omega (arith, words-le payload small)
seg_after-words false payload small = omega (arith, words-le payload small)

pseudo_sum-small :
    (h : Host) (peer_ip : List ℕ) (len : ℕ)
    → length h.ip ≡ 4
    → length peer_ip ≡ 4
    → all (λ b. ltb b 256) h.ip ≡ true
    → all (λ b. ltb b 256) peer_ip ≡ true
    → len < 2 ^ 16
    → pseudo_sum h peer_ip len ≡ words h.ip + words peer_ip + 6 + len
unfolding pseudo_sum
pseudo_sum-small h peer_ip len mine theirs my_bytes their_bytes short = omega (
  arith,
  sum16-words h.ip 0 (omega arith),
  sum16-words peer_ip (sum16 h.ip 0)
      (omega (arith, sum16-words h.ip 0 (omega arith), words-le h.ip my_bytes)),
  words-le h.ip my_bytes,
  words-le peer_ip their_bytes,
)

-- The pseudo-header of RFC 793: both addresses, a zero byte, the protocol TCP and the segment's length.
abbrev pub pseudo_header : List ℕ → List ℕ → ℕ → List ℕ
pseudo_header src dst len = src ++ (dst ++ (0 ∷ 6 ∷ len / 256 ∷ len % 256 ∷ []))

words-pseudo_header :
    (src dst : List ℕ) (len : ℕ)
    → length src ≡ 4
    → length dst ≡ 4
    → words (pseudo_header src dst len) ≡ words src + words dst + 6 + len
words-pseudo_header src dst len mine theirs = omega (
  arith,
  words-append src (dst ++ (0 ∷ 6 ∷ len / 256 ∷ len % 256 ∷ [])) (omega arith),
  words-append dst (0 ∷ 6 ∷ len / 256 ∷ len % 256 ∷ []) (omega arith),
)

length-pseudo_header :
    (src dst : List ℕ) (len : ℕ)
    → length src ≡ 4
    → length dst ≡ 4
    → length (pseudo_header src dst len) ≡ 12
length-pseudo_header src dst len mine theirs = omega (
  arith,
  length-append src (dst ++ (0 ∷ 6 ∷ len / 256 ∷ len % 256 ∷ [])),
  length-append dst (0 ∷ 6 ∷ len / 256 ∷ len % 256 ∷ []),
)

tcp_send_seg-length :
    (h : Host) (c : Conn) (flags : ℕ) (with_mss : Bool) (doff dlen : ℕ)
    → length (tcp_send_seg h c flags with_mss doff dlen).bytes
      ≡ (if with_mss then 24 else 20) + dlen
unfolding tcp_send_seg seg_before seg_after wr16 wr32
tcp_send_seg-length h c flags true doff dlen = omega (arith, length-ring_bytes c.sbuf doff dlen)
tcp_send_seg-length h c flags false doff dlen = omega (arith, length-ring_bytes c.sbuf doff dlen)

-- The receiver's words are the sum that `pseudo_sum` starts from, and the segment's.
receiver_words :
    (h : Host) (peer_ip out : List ℕ) (len : ℕ)
    → length h.ip ≡ 4
    → length peer_ip ≡ 4
    → all (λ b. ltb b 256) h.ip ≡ true
    → all (λ b. ltb b 256) peer_ip ≡ true
    → len < 2 ^ 16
    → words (pseudo_header h.ip peer_ip len ++ out) ≡ pseudo_sum h peer_ip len + words out
receiver_words h peer_ip out len mine theirs my_bytes their_bytes short = omega (
  arith,
  words-append (pseudo_header h.ip peer_ip len) out
      (omega (arith, length-pseudo_header h.ip peer_ip len mine theirs)),
  words-pseudo_header h.ip peer_ip len mine theirs,
  pseudo_sum-small h peer_ip len mine theirs my_bytes their_bytes short,
)

-- What the words of a segment and its pseudo-header add up to without the checksum is small.
segment-small :
    (h : Host) (c : Conn) (flags : ℕ) (with_mss : Bool) (doff dlen : ℕ)
    → length h.ip ≡ 4
    → length c.peer_ip ≡ 4
    → all (λ b. ltb b 256) h.ip ≡ true
    → all (λ b. ltb b 256) c.peer_ip ≡ true
    → ((i : ℕ) → c.sbuf i < 256)
    → flags < 256
    → dlen ≤ 1400
    → pseudo_sum h c.peer_ip ((if with_mss then 24 else 20) + dlen)
        + words (seg_before h c flags with_mss)
        + words (seg_after with_mss (ring_bytes c.sbuf doff dlen))
        + 65536
      < 2 ^ 32
segment-small h c flags with_mss doff dlen mine theirs my_bytes their_bytes ring small short =
    let hlen : ℕ = if with_mss then 24 else 20 in
    let hlen_small : hlen ≤ 24 = ground arith in
    omega (
      arith,
      hlen_small,
      seg_before-words h c flags with_mss small,
      seg_after-words with_mss (ring_bytes c.sbuf doff dlen)
          (ring_bytes-small c.sbuf doff dlen ring),
      length-ring_bytes c.sbuf doff dlen,
      pseudo_sum-small h c.peer_ip (hlen + dlen) mine theirs my_bytes their_bytes (omega arith),
      words-le h.ip my_bytes,
      words-le c.peer_ip their_bytes,
    )

-- Every segment that goes out with at most 1400 bytes of payload, whatever its flags, options and
-- numbers, between addresses of four bytes and from a ring of bytes, passes the receiver's test of RFC 1071: in one's complement, the 16-bit words of the
-- pseudo-header (both addresses, zero, protocol 6, the segment's length) and of the segment add up
-- to all ones.
pub tcp_send_seg-verifies :
    (h : Host) (c : Conn) (flags : ℕ) (with_mss : Bool) (doff dlen : ℕ)
    → length h.ip ≡ 4
    → length c.peer_ip ≡ 4
    → all (λ b. ltb b 256) h.ip ≡ true
    → all (λ b. ltb b 256) c.peer_ip ≡ true
    → ((i : ℕ) → c.sbuf i < 256)
    → flags < 256
    → dlen ≤ 1400
    → let out = (tcp_send_seg h c flags with_mss doff dlen).bytes in
      ones (words (pseudo_header h.ip c.peer_ip (length out) ++ out)) ≡ 65535
unfolding tcp_send_seg
tcp_send_seg-verifies h c flags with_mss doff dlen mine theirs my_bytes their_bytes ring small
      short =
    let hlen : ℕ = if with_mss then 24 else 20 in
    let hlen_small : hlen ≤ 24 = ground arith in
    let out : List ℕ = (tcp_send_seg h c flags with_mss doff dlen).bytes in
    let before : List ℕ = seg_before h c flags with_mss in
    let after : List ℕ = seg_after with_mss (ring_bytes c.sbuf doff dlen) in
    ap (λ n. ones (words (pseudo_header h.ip c.peer_ip n ++ out)))
      (tcp_send_seg-length h c flags with_mss doff dlen)
    ∙ ap ones (
        receiver_words h c.peer_ip out (hlen + dlen) mine theirs my_bytes their_bytes (omega arith))
    ∙ checksum-ones before after (pseudo_sum h c.peer_ip (hlen + dlen))
        (omega (arith, seg_before-words h c flags with_mss small))
        (segment-small h c flags with_mss doff dlen mine theirs my_bytes their_bytes ring small
          short)
