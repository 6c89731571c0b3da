-- ===== src/Net/Ip/Header.antt =====
-- The IP header that `ip_send` of dosshd/net.c builds.
use dossh.Base.{
  ℕ, ◌+◌, ◌*◌, ◌^◌, ◌<◌, ◌≤◌, true, List, ◌++◌, ◌≡◌, refl, ap, ◌∙◌, arith, length, all, ltb,
  length-append, get_or, drop, u16,
}
use dossh.Net.Wire.{wr16}
use dossh.Net.Wire.Checksum.{words, ones, checksum-ones, words-le, words-append}
use dossh.Net.Conn.{Host}
use dossh.Net.Ip.{ip_before, ip_header}

-- The bytes of an address.
abbrev pub IsBytes : List ℕ → Type 0
IsBytes xs = all (λ b. ltb b 256) xs ≡ true

ip_before-words :
    (id proto l4len : ℕ)
    → proto < 256
    → (length (ip_before id proto l4len) ≡ 10) × (words (ip_before id proto l4len) ≤ 5 * 65536)
unfolding ip_before wr16
ip_before-words id proto l4len h = omega arith

-- Every IP header that goes out, whatever the identification, protocol, payload length and addresses (of
-- four bytes each): it is 20 bytes long and passes the receiver's test of RFC 791, that its 16-bit
-- words add up to all ones in one's complement; its length field counts the header and the payload,
-- modulo 2 ^ 16; and the protocol and both addresses stand where a receiver looks for them.
pub ip_header-verifies :
    (h : Host) (id proto : ℕ) (dst_ip : List ℕ) (l4len : ℕ)
    → length h.ip ≡ 4
    → length dst_ip ≡ 4
    → IsBytes h.ip
    → IsBytes dst_ip
    → proto < 256
    → let header = ip_header h id proto dst_ip l4len in
      (length header ≡ 20)
      × (ones (words header) ≡ 65535)
      × (get_or header 2 0 * 2 ^ 8 + get_or header 3 0 ≡ u16 (20 + l4len))
      × (get_or header 9 0 ≡ proto)
      × (drop 12 header ≡ h.ip ++ dst_ip)
unfolding ip_header ip_before wr16
ip_header-verifies h id proto dst_ip l4len mine theirs my_bytes their_bytes small =
    let checks =
      checksum-ones (ip_before id proto l4len) (h.ip ++ dst_ip) 0
        (omega (arith, ip_before-words id proto l4len small))
        (omega (
          arith,
          ip_before-words id proto l4len small,
          words-append h.ip dst_ip (omega arith),
          words-le h.ip my_bytes,
          words-le dst_ip their_bytes,
        )) in
    let header : List ℕ = ip_header h id proto dst_ip l4len in
    let plus_zero : (n : ℕ) → n ≡ 0 + n = λ n. omega arith in
    let size : length (h.ip ++ dst_ip) ≡ 8 = omega (arith, length-append h.ip dst_ip) in
    (omega (arith, size), ap ones (plus_zero (words header)) ∙ checks, omega arith, refl, refl)
