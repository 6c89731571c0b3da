-- ===== src/Ssh/State.antt =====
-- One connection of dosshd/ssh.c, its output queue and the packets it sends.
pub mod Framing
use dossh.Base.{
  ℕ, zero, suc, ◌+◌, ◌-◌, ◌*◌, ◌/◌, ◌%◌, ◌^◌, Bool, true, false, not, ◌&&◌, ◌||◌, List, [], ◌∷◌,
  ◌++◌, Option, none, some, ltb, leb, ◌==◌, if◌then◌else◌, length, get_or, take, drop, same_bytes,
  u8, u16, u32, codes,
}
use dossh.Ssh.Wire.{bytes_at, put_u32, seqbuf8, put_str}

pub data Stage : Type 0 where
  st_version st_expect_kexinit st_expect_ecdh_init st_expect_client_newkeys
        st_expect_service_request st_auth st_session st_closed st_error :
      Stage

-- The primitives of crypto/, and the random bytes that `rng_bytes` will give out. `chacha20` is
-- `dossh_chacha20_djb` on data, key, nonce and block counter; `sha256` is the digest of all bytes
-- that were streamed into a context.
pub record Crypto : Type 0 where
  pub chacha20 : List ℕ → List ℕ → List ℕ → ℕ → List ℕ
  pub poly1305 : List ℕ → List ℕ → List ℕ
  pub x25519_public_key : List ℕ → List ℕ
  pub x25519 : List ℕ → List ℕ → List ℕ
  pub ed25519_sign : List ℕ → List ℕ → List ℕ
  pub ed25519_verify : List ℕ → List ℕ → List ℕ → Bool
  pub sha256 : List ℕ → List ℕ
  pub random : ℕ → ℕ

-- The configuration that all clients share. `g_have_password` is set with a non-empty password.
pub record Gate : Type 0 where
  pub hostkey_sk : List ℕ
  pub hostkey_pk : List ℕ
  pub password : List ℕ
  pub authkeys : List (List ℕ)

-- `ssh_conn`, the shared buffers `g_ob`, `g_cin` and `g_cout`, and how many random bytes were
-- drawn. `hctx` is what was streamed into the exchange hash.
pub record Ssh : Type 0 where
  pub state : Stage
  pub err_msg : List ℕ
  pub done : Bool
  pub cli_ver : List ℕ
  pub ib : ℕ → ℕ
  pub ib_len : ℕ
  pub i_s : List ℕ
  pub hctx : List ℕ
  pub session_id : List ℕ
  pub have_session_id : Bool
  pub ek_c2s : List ℕ
  pub ek_s2c : List ℕ
  pub recv_encrypted : Bool
  pub send_encrypted : Bool
  pub send_seq : ℕ
  pub recv_seq : ℕ
  pub discard_next : Bool
  pub svc_name : List ℕ
  pub authenticated : Bool
  pub auth_fails : ℕ
  pub auth_user : List ℕ
  pub chan_open : Bool
  pub peer_chan : ℕ
  pub peer_window : ℕ
  pub peer_maxpkt : ℕ
  pub local_window : ℕ
  pub pty : Bool
  pub shell_ready : Bool
  pub term_cols : ℕ
  pub term_rows : ℕ
  pub chan_eof : Bool
  pub chan_sent_eof : Bool
  pub chan_sent_close : Bool
  pub chan_closed : Bool
  pub ob : List ℕ
  pub cin : ℕ → ℕ
  pub cin_head : ℕ
  pub cin_tail : ℕ
  pub cout : List ℕ
  pub drawn : ℕ

abbrev pub is_error : Stage → Bool
is_error st_error = true
is_error x = false

unfoldable pub fail : List ℕ → Ssh → Ssh
fail why c = if is_error c.state then c else record c { state = st_error; err_msg = why }

abbrev pub ob_sz : ℕ
ob_sz = 2048

unfoldable pub ob_append : List ℕ → Ssh → Ssh
ob_append d c =
    if ltb ob_sz (length c.ob + length d)
    then fail (codes "output overflow") c
    else record c { ob = c.ob ++ d }

unfoldable pub ib_consume : ℕ → Ssh → Ssh
ib_consume k c = if leb c.ib_len k then record c { ib_len = 0 } else record c {
  ib = λ i. if ltb i (c.ib_len - k) then c.ib (i + k) else c.ib i;
  ib_len = c.ib_len - k;
}

-- The next `n` random bytes, and the state once they were drawn.
unfoldable pub rng_bytes : Crypto → ℕ → Ssh → List ℕ
rng_bytes p n c = bytes_at p.random c.drawn n

abbrev pub draw : ℕ → Ssh → Ssh
draw n c = record c { drawn = c.drawn + n }

-- The padding that fills `n` bytes up to a multiple of 8, at least 4 of it.
unfoldable pub pad_len : ℕ → ℕ
pad_len n = if ltb (8 - n % 8) 4 then 8 - n % 8 + 8 else 8 - n % 8

abbrev bump_send : Ssh → Ssh
bump_send c = record c { send_seq = u32 (c.send_seq + 1) }

unfoldable pub send_unenc : Crypto → List ℕ → Ssh → Ssh
send_unenc p payload c =
    let padlen = pad_len (4 + 1 + length payload) in
    let pkt_len = 1 + length payload + padlen in
    let pad = rng_bytes p padlen c in
    bump_send (
      ob_append pad
        (draw padlen (ob_append payload (ob_append (put_u32 pkt_len ++ (u8 padlen ∷ [])) c))))

abbrev pub enc_max_plen : ℕ
enc_max_plen = 247

abbrev pub k_main : List ℕ → List ℕ
k_main ek = take 32 ek

abbrev pub k_header : List ℕ → List ℕ
k_header ek = drop 32 ek

-- `padlen | payload | padding`
unfoldable pub seal_body : Crypto → List ℕ → Ssh → List ℕ
seal_body p payload c =
    let padlen = pad_len (1 + length payload) in u8 padlen ∷ (payload ++ rng_bytes p padlen c)

-- The wire bytes of a sealed packet; `aead_seal` also draws the padding and counts the packet.
unfoldable pub sealed : Crypto → List ℕ → Ssh → List ℕ
sealed p payload c =
    let body = seal_body p payload c in
    let nonce = seqbuf8 c.send_seq in
    let enc_len = p.chacha20 (put_u32 (length body)) (k_header c.ek_s2c) nonce 0 in
    let enc_body = p.chacha20 body (k_main c.ek_s2c) nonce 1 in
    let polykey = p.chacha20 (bytes_at (λ i. 0) 0 32) (k_main c.ek_s2c) nonce 0 in
    enc_len ++ (enc_body ++ p.poly1305 (enc_len ++ enc_body) polykey)

unfoldable pub aead_seal : Crypto → List ℕ → Ssh → Ssh × List ℕ
aead_seal p payload c = (bump_send (draw (pad_len (1 + length payload)) c), sealed p payload c)

unfoldable pub send_enc : Crypto → List ℕ → Ssh → Ssh
send_enc p payload c =
    if ltb enc_max_plen (length payload)
    then fail (codes "enc payload too large") c
    else let (c', wire) = aead_seal p payload c in ob_append wire c'

unfoldable pub send_packet : Crypto → List ℕ → Ssh → Ssh
send_packet p payload c = if c.send_encrypted then send_enc p payload c else send_unenc p payload c
