-- ===== src/Ssh/State/Framing.antt =====
-- The packets that dosshd/ssh.c frames.
use dossh.Base.{
  ℕ, zero, suc, ◌+◌, ◌%◌, ◌≤◌, List, [], ◌∷◌, ◌++◌, ◌≡◌, refl, arith, length, length-append,
  append_assoc, u8, u32,
}
use dossh.Ssh.Wire.{bytes_at, put_u32}
use dossh.Ssh.State.{Crypto, Ssh, pad_len, rng_bytes, ob_append, ob_sz, send_unenc}

pub length-bytes_at : (f : ℕ → ℕ) (o n : ℕ) → length (bytes_at f o n) ≡ n
unfolding bytes_at
length-bytes_at f o zero = refl
length-bytes_at f o (suc n) = ground (arith, length-bytes_at f (o + 1) n)

-- The frame of a payload: its length, the padding's length, the payload and the padding.
abbrev pub frame : List ℕ → List ℕ → List ℕ
frame payload pad =
    put_u32 (1 + length payload + length pad) ++ (u8 (length pad) ∷ (payload ++ pad))

-- If the output queue has room for it, an unencrypted packet goes out as one frame behind what was
-- queued: the length of the frame is a multiple of 8 and its padding is of 4 to 11 bytes, as
-- RFC 4253 wants it; and the packet is counted.
pub send_unenc-frame :
    (p : Crypto) (payload : List ℕ) (c : Ssh)
    → length c.ob + length payload + 16 ≤ ob_sz
    → let pad = rng_bytes p (pad_len (5 + length payload)) c in
      ((send_unenc p payload c).ob ≡ c.ob ++ frame payload pad)
      × (length (frame payload pad) % 8 ≡ 0)
      × (4 ≤ length pad)
      × (length pad ≤ 11)
      × ((send_unenc p payload c).send_seq ≡ u32 (c.send_seq + 1))
unfolding send_unenc ob_append pad_len rng_bytes put_u32
send_unenc-frame p payload c room =
    let n : ℕ = pad_len (5 + length payload) in
    let padded = length-bytes_at p.random c.drawn n in
    let header : List ℕ = put_u32 (1 + length payload + n) ++ (u8 n ∷ []) in
    let all_fits = length-append c.ob header in
    let more_fits = length-append (c.ob ++ header) payload in
    let last = length-append payload (rng_bytes p n c) in
    (
      ground (
        arith,
        padded,
        all_fits,
        more_fits,
        append_assoc (c.ob ++ header) payload (rng_bytes p n c),
        append_assoc c.ob header (payload ++ rng_bytes p n c),
      ),
      ground (arith, padded, last),
      ground (arith, padded),
      ground (arith, padded),
      ground (arith),
    )
