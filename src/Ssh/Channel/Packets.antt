-- ===== src/Ssh/Channel/Packets.antt =====
-- The size of the packets that dosshd/ssh.c seals for the session channel.
use dossh.Base.{ℕ, ◌+◌, ◌≤◌, List, ◌++◌, ◌≡◌, refl, arith, length, length-append}
use dossh.Ssh.Wire.{bytes_at, put_u32, put_str, seqbuf8}
use dossh.Ssh.State.{Crypto, Ssh, k_main, k_header, pad_len, rng_bytes, seal_body, sealed}
use dossh.Ssh.State.Framing.{length-bytes_at}
use dossh.Ssh.Channel.{data_packet}

-- What crypto.c documents of the cipher and the tag: the cipher keeps the length, and a tag has 16 bytes.
pub record IsCipher (p : Crypto) : Type 0 where
  pub cipher_len :
      (text key nonce : List ℕ) (counter : ℕ)
      → length (p.chacha20 text key nonce counter) ≡ length text
  pub tag_len : (text key : List ℕ) → length (p.poly1305 text key) ≡ 16

length-seal_body :
    (p : Crypto) (payload : List ℕ) (c : Ssh)
    → length (seal_body p payload c) ≡ 1 + length payload + pad_len (1 + length payload)
unfolding seal_body rng_bytes
length-seal_body p payload c =
    let n : ℕ = pad_len (1 + length payload) in
    omega (arith, length-append payload (rng_bytes p n c), length-bytes_at p.random c.drawn n)

length-put_u32 : (x : ℕ) → length (put_u32 x) ≡ 4
unfolding put_u32
length-put_u32 x = refl

pub length-sealed :
    (p : Crypto) (payload : List ℕ) (c : Ssh)
    → IsCipher p
    → length (sealed p payload c) ≡ 21 + length payload + pad_len (1 + length payload)
unfolding sealed
length-sealed p payload c v =
    let body = seal_body p payload c in
    let nonce = seqbuf8 c.send_seq in
    let enc_len = p.chacha20 (put_u32 (length body)) (k_header c.ek_s2c) nonce 0 in
    let enc_body = p.chacha20 body (k_main c.ek_s2c) nonce 1 in
    let polykey = p.chacha20 (bytes_at (λ i. 0) 0 32) (k_main c.ek_s2c) nonce 0 in
    let tag = p.poly1305 (enc_len ++ enc_body) polykey in
    omega (
      arith,
      length-append enc_len (enc_body ++ tag),
      length-append enc_body tag,
      v.cipher_len (put_u32 (length body)) (k_header c.ek_s2c) nonce 0,
      v.cipher_len body (k_main c.ek_s2c) nonce 1,
      v.tag_len (enc_len ++ enc_body) polykey,
      length-seal_body p payload c,
      length-put_u32 (length body),
    )

length-data_packet : (c : Ssh) (text : List ℕ) → length (data_packet c text) ≡ 9 + length text
unfolding put_u32 put_str
length-data_packet c text = omega arith

padding : (n : ℕ) → (4 ≤ pad_len n) × (pad_len n ≤ 11)
unfolding pad_len
padding n = (ground arith, ground arith)

-- The wire bytes of a chunk: 34 to 41 more than its plaintext.
pub length-data_wire :
    (p : Crypto) (text : List ℕ) (c : Ssh)
    → IsCipher p
    → (length text + 34 ≤ length (sealed p (data_packet c text) c))
      × (length (sealed p (data_packet c text) c) ≤ length text + 41)
length-data_wire p text c v =
    let whole = length-sealed p (data_packet c text) c v in
    let plain = length-data_packet c text in
    let (lo, hi) = padding (1 + length (data_packet c text)) in
    (omega (arith, whole, plain, lo), omega (arith, whole, plain, hi))
