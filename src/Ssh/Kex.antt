-- ===== src/Ssh/Kex.antt =====
-- The key exchange of dosshd/ssh.c: KEXINIT, the exchange hash, the session keys, NEWKEYS and the
-- service request. A payload is `pl[0..plen)`.
use dossh.Base.{
  ℕ, zero, suc, ◌+◌, ◌-◌, Bool, true, false, not, ◌&&◌, ◌||◌, List, [], ◌∷◌, ◌++◌, Option, none,
  some, ltb, leb, ◌==◌, if◌then◌else◌, length, take, all, u16, codes,
}
use dossh.Ssh.Wire.{bytes_at, rd_u32, put_str, nl_has, nl_first, tok_eq, build_kmpint}
use dossh.Ssh.State.{
  st_expect_ecdh_init, st_expect_client_newkeys, st_expect_service_request, st_auth, Crypto, Gate,
  Ssh, fail, rng_bytes, send_packet,
}

abbrev curve25519 : List ℕ
curve25519 = codes "curve25519-sha256"

abbrev curve25519_libssh : List ℕ
curve25519_libssh = codes "curve25519-sha256@libssh.org"

abbrev pub ssh_ed25519 : List ℕ
ssh_ed25519 = codes "ssh-ed25519"

abbrev chacha20_poly1305 : List ℕ
chacha20_poly1305 = codes "chacha20-poly1305@openssh.com"

abbrev pub server_id : List ℕ
server_id = codes "SSH-2.0-DOSSH_0.9"

-- The payload of our KEXINIT, with its cookie.
unfoldable pub our_kexinit : List ℕ → List ℕ
our_kexinit cookie =
    20
    ∷ (cookie
        ++ (put_str (codes "curve25519-sha256,curve25519-sha256@libssh.org")
            ++ (put_str ssh_ed25519
                ++ (put_str chacha20_poly1305
                    ++ (put_str chacha20_poly1305
                        ++ (put_str (codes "none")
                            ++ (put_str (codes "none")
                                ++ (put_str (codes "none")
                                    ++ (put_str (codes "none")
                                        ++ (put_str []
                                            ++ (put_str [] ++ (0 ∷ 0 ∷ 0 ∷ 0 ∷ 0 ∷ []))))))))))))

unfoldable pub build_our_kexinit : Crypto → Ssh → Ssh
build_our_kexinit p c = record c { i_s = our_kexinit (rng_bytes p 16 c); drawn = c.drawn + 16 }

-- The next `n` name-lists from `off` and the offset behind them, if they lie within the payload by
-- 16-bit sums.
unfoldable pub name_lists : ℕ → (ℕ → ℕ) → ℕ → ℕ → Option (List (List ℕ) × ℕ)
name_lists zero p len off = some ([], off)
name_lists (suc n) p len off =
    let l = u16 (rd_u32 p off) in
    let off' = u16 (u16 (off + 4) + l) in
    let rest = name_lists n p len off' in
    if ltb len (u16 (off + 4)) then none else if ltb len off' then none else elim rest [
      | none ↦ none
      | some (lists, behind) ↦ some (bytes_at p (u16 (off + 4)) l ∷ lists, behind)
    ]

abbrev nth_list : List (List ℕ) → ℕ → List ℕ
nth_list [] i = []
nth_list (x ∷ xs) zero = x
nth_list (x ∷ xs) (suc i) = nth_list xs i

-- What `negotiate` returns: -1, -2, or 0 with `discard_next`.
pub data Offer : Type 0 where
  malformed no_common : Offer
  agreed : Bool → Offer

unfoldable pub has_required : List (List ℕ) → Bool
has_required lists =
    (nl_has (nth_list lists 0) curve25519 || nl_has (nth_list lists 0) curve25519_libssh)
    && (nl_has (nth_list lists 1) ssh_ed25519
        && (nl_has (nth_list lists 2) chacha20_poly1305
            && nl_has (nth_list lists 3) chacha20_poly1305))

-- The client's first choices are ours.
unfoldable pub guessed_right : List (List ℕ) → Bool
guessed_right lists =
    let kex = nl_first (nth_list lists 0) in
    (tok_eq kex curve25519 || tok_eq kex curve25519_libssh)
    && tok_eq (nl_first (nth_list lists 1)) ssh_ed25519

unfoldable pub negotiate : (ℕ → ℕ) → ℕ → Offer
negotiate p len = elim (name_lists 10 p len 17) [
  | none ↦ malformed
  | some (lists, off) ↦
      if ltb len (u16 (off + 1))
      then malformed
      else if not (has_required lists)
      then no_common
      else agreed (not (p off == 0) && not (guessed_right lists))
]

unfoldable pub hash_str : List ℕ → List ℕ → List ℕ
hash_str h s = h ++ put_str s

unfoldable pub transcript_start : List ℕ → List ℕ → List ℕ → List ℕ
transcript_start cli_ver i_c i_s =
    hash_str (hash_str (hash_str (hash_str [] cli_ver) server_id) i_c) i_s

unfoldable pub handle_kexinit : (ℕ → ℕ) → ℕ → Ssh → Ssh
handle_kexinit pl plen c = elim (negotiate pl plen) [
  | malformed ↦ fail (codes "malformed KEXINIT") c
  | no_common ↦ fail (codes "no common algorithm") c
  | agreed discard ↦ record c {
    discard_next = discard;
    hctx = transcript_start c.cli_ver (bytes_at pl 0 plen) c.i_s;
    state = st_expect_ecdh_init;
  }
]

unfoldable pub build_ks_blob : Gate → List ℕ
build_ks_blob g = put_str ssh_ed25519 ++ put_str g.hostkey_pk

-- The blocks of key material behind the first, `out` produced so far; `fuel` blocks at most.
unfoldable pub more_key : ℕ → Crypto → List ℕ → List ℕ → List ℕ → ℕ → List ℕ
more_key zero p k h out outlen = out
more_key (suc fuel) p k h out outlen =
    let next = out ++ take (outlen - length out) (p.sha256 (k ++ (h ++ out))) in
    let rest = more_key fuel p k h next outlen in if ltb (length out) outlen then rest else out

unfoldable pub derive_key : Crypto → List ℕ → List ℕ → List ℕ → ℕ → ℕ → List ℕ
derive_key p k h session_id letter outlen =
    more_key outlen p k h (take outlen (p.sha256 (k ++ (h ++ (letter ∷ session_id))))) outlen

abbrev is_zero : ℕ → Bool
is_zero b = b == 0

abbrev key_len : ℕ
key_len = 64

-- The reply, the keys and NEWKEYS, once the exchange hash `h` is known.
unfoldable pub finish_kex : Crypto → Gate → List ℕ → List ℕ → List ℕ → Ssh → Ssh
finish_kex p g q_s kmpint h c =
    let named =
      if c.have_session_id then c else record c { session_id = h; have_session_id = true } in
    let sigblob = put_str ssh_ed25519 ++ put_str (p.ed25519_sign g.hostkey_sk h) in
    let replied =
      send_packet p (31 ∷ (put_str (build_ks_blob g) ++ (put_str q_s ++ put_str sigblob))) named in
    let keyed = record replied {
      ek_c2s = derive_key p kmpint h replied.session_id b'C' key_len;
      ek_s2c = derive_key p kmpint h replied.session_id b'D' key_len;
    } in
    record (send_packet p (21 ∷ []) keyed) {
      send_encrypted = true;
      state = st_expect_client_newkeys;
    }

unfoldable pub run_kex : Crypto → Gate → List ℕ → Ssh → Ssh
run_kex p g q_c c =
    let eph_sk = rng_bytes p 32 c in
    let drew = record c { drawn = c.drawn + 32 } in
    let q_s = p.x25519_public_key eph_sk in
    let k_raw = p.x25519 eph_sk q_c in
    let kmpint = build_kmpint k_raw in
    let transcript = hash_str (hash_str (hash_str drew.hctx (build_ks_blob g)) q_c) q_s ++ kmpint in
    if all is_zero k_raw
    then fail (codes "degenerate shared secret") drew
    else finish_kex p g q_s kmpint (p.sha256 transcript) (record drew { hctx = transcript })

unfoldable pub handle_ecdh_init : Crypto → Gate → (ℕ → ℕ) → ℕ → Ssh → Ssh
handle_ecdh_init p g pl plen c =
    let qlen = u16 (rd_u32 pl 1) in
    if c.discard_next
    then record c { discard_next = false }
    else if ltb plen 5
    then fail (codes "short KEX_ECDH_INIT") c
    else if not (qlen == 32) || ltb plen (1 + 4 + qlen)
    then fail (codes "bad Q_C") c
    else run_kex p g (bytes_at pl 5 32) c

unfoldable pub handle_client_newkeys : Ssh → Ssh
handle_client_newkeys c = record c { recv_encrypted = true; state = st_expect_service_request }

unfoldable pub handle_service_request : Crypto → (ℕ → ℕ) → ℕ → Ssh → Ssh
handle_service_request p pl plen c =
    let slen = u16 (rd_u32 pl 1) in
    let name = bytes_at pl 5 slen in
    if ltb plen 5
    then fail (codes "short SERVICE_REQUEST") c
    else if ltb plen (u16 (1 + 4 + slen)) || leb 64 slen
    then fail (codes "bad service name") c
    else record (send_packet p (6 ∷ put_str name) (record c { svc_name = name; done = true })) {
      state = st_auth;
    }
