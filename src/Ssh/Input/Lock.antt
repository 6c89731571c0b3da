-- ===== src/Ssh/Input/Lock.antt =====
-- No session without authentication in dosshd/ssh.c.
use dossh.Base.{
  ℕ, ◌+◌, Bool, true, false, not, ◌&&◌, List, [], ◌∷◌, ◌++◌, ◌≡◌, refl, inl, inr, arith, ◌==◌,
  if◌then◌else◌, Bool-cases, Option-cases, u16, codes, take, same_bytes,
}
use dossh.Ssh.Wire.{rd_string, found, Found, rd_u32, bytes_at, put_str, build_kmpint}
use dossh.Ssh.State.{
  Stage, st_session, st_version, st_expect_kexinit, st_expect_ecdh_init, st_expect_client_newkeys,
  st_expect_service_request, st_auth, st_closed, st_error, Crypto, Gate, Ssh, fail, ob_append,
  send_packet, send_enc, send_unenc, aead_seal, rng_bytes,
}
use dossh.Ssh.Kex.{
  handle_kexinit, finish_kex, run_kex, handle_ecdh_init, handle_client_newkeys,
  handle_service_request, build_ks_blob, hash_str,
}
use dossh.Ssh.Auth.{
  has_password, has_keys, send_userauth_failure, send_userauth_success, send_disconnect,
  auth_reject, send_pk_ok, signed_request, key_request, handle_pubkey_auth, methods,
  password_request, by_method, handle_userauth_request, ed25519_key_from_blob,
}
use dossh.Ssh.Channel.{handle_global_request}
use dossh.Ssh.Input.{staged_packet, handle_packet}

abbrev pub is_session : Stage → Bool
is_session st_session = true
is_session x = false

-- A connection that was not authenticated is in no session and has no channel.
pub record IsLocked (c : Ssh) : Type 0 where
  pub no_session : (c.authenticated ≡ false) → is_session c.state ≡ false
  pub no_channel : (c.authenticated ≡ false) → c.chan_open ≡ false

send_packet-IsLocked :
    (p : Crypto) (payload : List ℕ) (c : Ssh) → IsLocked c → IsLocked (send_packet p payload c)
unfolding send_packet send_enc send_unenc aead_seal ob_append fail
send_packet-IsLocked p payload c v = ground arith

fail-IsLocked : (why : List ℕ) (c : Ssh) → IsLocked c → IsLocked (fail why c)
unfolding fail
fail-IsLocked why c v = ground arith

handle_kexinit-IsLocked :
    (pl : ℕ → ℕ) (plen : ℕ) (c : Ssh) → IsLocked c → IsLocked (handle_kexinit pl plen c)
unfolding handle_kexinit fail
handle_kexinit-IsLocked pl plen c v = ground arith

finish_kex-IsLocked :
    (p : Crypto) (g : Gate) (q_s kmpint h : List ℕ) (c : Ssh)
    → IsLocked c
    → IsLocked (finish_kex p g q_s kmpint h c)
unfolding finish_kex
finish_kex-IsLocked p g q_s kmpint h c v =
    let named : Ssh =
      if c.have_session_id then c else record c { session_id = h; have_session_id = true } in
    let v1 : IsLocked named = ground arith in
    let v2 = send_packet-IsLocked p _ named v1 in
    let v3 =
      send_packet-IsLocked p (21 ∷ []) _
        (record { no_session = v2.no_session; no_channel = v2.no_channel }) in
    record { no_session = λ e. refl; no_channel = v3.no_channel }

run_kex-IsLocked :
    (p : Crypto) (g : Gate) (q_c : List ℕ) (c : Ssh) → IsLocked c → IsLocked (run_kex p g q_c c)
unfolding run_kex
run_kex-IsLocked p g q_c c v =
    let eph_sk : List ℕ = rng_bytes p 32 c in
    let q_s : List ℕ = p.x25519_public_key eph_sk in
    let kmpint : List ℕ = build_kmpint (p.x25519 eph_sk q_c) in
    let transcript : List ℕ =
      hash_str (hash_str (hash_str c.hctx (build_ks_blob g)) q_c) q_s ++ kmpint in
    let drew : Ssh = record c { drawn = c.drawn + 32 } in
    let hashed : Ssh = record drew { hctx = transcript } in
    let v1 : IsLocked drew = record { no_session = v.no_session; no_channel = v.no_channel } in
    let v2 : IsLocked hashed = record { no_session = v.no_session; no_channel = v.no_channel } in
    ground (
      arith,
      fail-IsLocked (codes "degenerate shared secret") drew v1,
      finish_kex-IsLocked p g q_s kmpint (p.sha256 transcript) hashed v2,
    )

send_disconnect-IsLocked :
    (p : Crypto) (reason : ℕ) (desc : List ℕ) (c : Ssh)
    → IsLocked c
    → IsLocked (send_disconnect p reason desc c)
unfolding send_disconnect
send_disconnect-IsLocked p reason desc c v =
    let sent = send_packet-IsLocked p _ c v in
    record { no_session = λ e. refl; no_channel = sent.no_channel }

auth_reject-IsLocked :
    (p : Crypto) (g : Gate) (count_it : Bool) (c : Ssh)
    → IsLocked c
    → IsLocked (auth_reject p g count_it c)
unfolding auth_reject send_userauth_failure
auth_reject-IsLocked p g count_it c v =
    let c' : Ssh = if count_it then record c { auth_fails = c.auth_fails + 1 } else c in
    let v' : IsLocked c' = ground arith in
    ground (
      arith,
      send_disconnect-IsLocked p 14 (codes "too many authentication failures") c' v',
      send_packet-IsLocked p (51 ∷ (put_str (methods g) ++ (0 ∷ []))) c' v',
    )

send_userauth_success-IsLocked : (p : Crypto) (c : Ssh) → IsLocked (send_userauth_success p c)
unfolding send_userauth_success
send_userauth_success-IsLocked p c = ground arith

-- The two outcomes of a credential that was checked.
password_request-IsLocked :
    (p : Crypto) (g : Gate) (pl : ℕ → ℕ) (plen o : ℕ) (c : Ssh)
    → IsLocked c
    → IsLocked (password_request p g pl plen o c)
unfolding password_request
password_request-IsLocked p g pl plen o c v =
    ground (arith, auth_reject-IsLocked p g true c v, send_userauth_success-IsLocked p c)

signed_request-IsLocked :
    (p : Crypto) (g : Gate) (pl : ℕ → ℕ) (plen o : ℕ) (user service algo blob key : List ℕ)
    → (c : Ssh) → IsLocked c
    → IsLocked (signed_request p g pl plen o user service algo blob key c)
unfolding signed_request
signed_request-IsLocked p g pl plen o user service algo blob key c v =
    ground (arith, auth_reject-IsLocked p g true c v, send_userauth_success-IsLocked p c)

send_pk_ok-IsLocked :
    (p : Crypto) (g : Gate) (algo blob : List ℕ) (c : Ssh)
    → IsLocked c
    → IsLocked (send_pk_ok p g algo blob c)
unfolding send_pk_ok
send_pk_ok-IsLocked p g algo blob c v = ground (
  arith,
  auth_reject-IsLocked p g true c v,
  send_packet-IsLocked p (60 ∷ (put_str algo ++ put_str blob)) c v,
)

key_request-IsLocked :
    (p : Crypto) (g : Gate) (pl : ℕ → ℕ) (plen : ℕ) (have_sig : Bool) (o : ℕ)
    → (user service : List ℕ) (algo blob : Found) (c : Ssh) → IsLocked c
    → IsLocked (key_request p g pl plen have_sig o user service algo blob c)
unfolding key_request
key_request-IsLocked p g pl plen have_sig o user service algo blob c v =
    let refused = auth_reject-IsLocked p g true c v in
    let probed = send_pk_ok-IsLocked p g (found pl algo) (found pl blob) c v in
    elim (Option-cases (ed25519_key_from_blob (λ i. pl (blob.s + i)) blob.slen)) [
      | inl e ↦ ground (arith, refused)
      | inr (key, e) ↦
          let signed =
            signed_request-IsLocked p g pl plen o user service (found pl algo) (found pl blob) key c
              v in
          ground (arith, refused, probed, signed)
    ]

handle_pubkey_auth-IsLocked :
    (p : Crypto) (g : Gate) (pl : ℕ → ℕ) (plen o : ℕ) (user service : List ℕ) (c : Ssh)
    → IsLocked c
    → IsLocked (handle_pubkey_auth p g pl plen o user service c)
unfolding handle_pubkey_auth
handle_pubkey_auth-IsLocked p g pl plen o user service c v =
    let refused = auth_reject-IsLocked p g true c v in
    elim (Option-cases (rd_string pl plen (o + 1))) [
      | inl e ↦ ground (arith, refused)
      | inr (algo, e) ↦ elim (Option-cases (rd_string pl plen algo.po)) [
        | inl f ↦ ground (arith, refused)
        | inr (blob, f) ↦
            let requested =
              key_request-IsLocked p g pl plen (not (pl o == 0)) blob.po user service algo blob c
                v in
            ground (arith, refused, requested)
      ]
    ]

by_method-IsLocked :
    (p : Crypto) (g : Gate) (pl : ℕ → ℕ) (plen : ℕ) (user service method : List ℕ) (o : ℕ)
    → (c : Ssh) → IsLocked c
    → IsLocked (by_method p g pl plen user service method o c)
unfolding by_method
by_method-IsLocked p g pl plen user service method o c v =
    let refused = auth_reject-IsLocked p g true c v in
    elim (Bool-cases (not (has_password g) && not (has_keys g))) [
      | inl open_box ↦ let admitted = send_userauth_success-IsLocked p c in ground (arith, admitted)
      | inr gated ↦ elim (Bool-cases (same_bytes method (codes "publickey"))) [
        | inl by_key ↦
            let requested = handle_pubkey_auth-IsLocked p g pl plen o user service c v in
            ground (arith, refused, requested)
        | inr other ↦ elim (Bool-cases (has_password g && same_bytes method (codes "password"))) [
          | inl by_password ↦
              let requested = password_request-IsLocked p g pl plen o c v in
              ground (arith, requested)
          | inr unknown ↦
              let probed = auth_reject-IsLocked p g (not (same_bytes method (codes "none"))) c v in
              ground (arith, probed)
        ]
      ]
    ]

handle_userauth_request-IsLocked :
    (p : Crypto) (g : Gate) (pl : ℕ → ℕ) (plen : ℕ) (c : Ssh)
    → IsLocked c
    → IsLocked (handle_userauth_request p g pl plen c)
unfolding handle_userauth_request fail
handle_userauth_request-IsLocked p g pl plen c v = elim (Option-cases (rd_string pl plen 1)) [
  | inl e ↦ ground arith
  | inr (user, e) ↦ elim (Option-cases (rd_string pl plen user.po)) [
    | inl f ↦ ground arith
    | inr (service, f) ↦ elim (Option-cases (rd_string pl plen service.po)) [
      | inl h ↦ ground arith
      | inr (method, h) ↦
          let named : Ssh = record c { auth_user = take 63 (found pl user) } in
          let v' : IsLocked named = record {
            no_session = v.no_session;
            no_channel = v.no_channel;
          } in
          let asked =
            by_method-IsLocked p g pl plen (found pl user) (found pl service) (found pl method)
              method.po named v' in
          ground (arith, asked)
    ]
  ]
]

handle_service_request-IsLocked :
    (p : Crypto) (pl : ℕ → ℕ) (plen : ℕ) (c : Ssh)
    → IsLocked c
    → IsLocked (handle_service_request p pl plen c)
unfolding handle_service_request fail
handle_service_request-IsLocked p pl plen c v =
    let name : List ℕ = bytes_at pl 5 (u16 (rd_u32 pl 1)) in
    let named : Ssh = record c { svc_name = name; done = true } in
    let v' : IsLocked named = record { no_session = v.no_session; no_channel = v.no_channel } in
    ground (arith, send_packet-IsLocked p (6 ∷ put_str name) named v')

handle_ecdh_init-IsLocked :
    (p : Crypto) (g : Gate) (pl : ℕ → ℕ) (plen : ℕ) (c : Ssh)
    → IsLocked c
    → IsLocked (handle_ecdh_init p g pl plen c)
unfolding handle_ecdh_init fail
handle_ecdh_init-IsLocked p g pl plen c v =
    ground (arith, run_kex-IsLocked p g (bytes_at pl 5 32) c v)

handle_global_request-IsLocked :
    (p : Crypto) (pl : ℕ → ℕ) (plen : ℕ) (c : Ssh)
    → IsLocked c
    → IsLocked (handle_global_request p pl plen c)
unfolding handle_global_request
handle_global_request-IsLocked p pl plen c v = ground (arith, send_packet-IsLocked p (82 ∷ []) c v)

staged_packet-IsLocked :
    (st : Stage) (p : Crypto) (g : Gate) (msg : ℕ) (pl : ℕ → ℕ) (plen : ℕ) (c : Ssh)
    → is_session st ≡ false
    → IsLocked c
    → IsLocked (staged_packet st p g msg pl plen c)
unfolding staged_packet handle_client_newkeys fail
staged_packet-IsLocked st_version p g msg pl plen c e v = ground arith
staged_packet-IsLocked st_expect_kexinit p g msg pl plen c e v =
    ground (arith, handle_kexinit-IsLocked pl plen c v)
staged_packet-IsLocked st_expect_ecdh_init p g msg pl plen c e v =
    ground (arith, handle_ecdh_init-IsLocked p g pl plen c v)
staged_packet-IsLocked st_expect_client_newkeys p g msg pl plen c e v = ground arith
staged_packet-IsLocked st_expect_service_request p g msg pl plen c e v =
    ground (arith, handle_service_request-IsLocked p pl plen c v)
staged_packet-IsLocked st_auth p g msg pl plen c e v =
    ground (arith, handle_userauth_request-IsLocked p g pl plen c v)
staged_packet-IsLocked st_session p g msg pl plen c e v = absurd (ground arith)
staged_packet-IsLocked st_closed p g msg pl plen c e v = ground arith
staged_packet-IsLocked st_error p g msg pl plen c e v = ground arith

-- Whatever packet reaches a connection that is not authenticated, in whatever state of the protocol:
-- afterwards it is authenticated, or it is still in no session and has no channel.
pub handle_packet-IsLocked :
    (p : Crypto) (g : Gate) (pl : ℕ → ℕ) (plen : ℕ) (c : Ssh)
    → c.authenticated ≡ false
    → IsLocked c
    → IsLocked (handle_packet p g pl plen c)
unfolding handle_packet
handle_packet-IsLocked p g pl plen c out v =
    let msg : ℕ = if plen == 0 then 0 else pl 0 in
    ground (
      arith,
      handle_global_request-IsLocked p pl plen c v,
      staged_packet-IsLocked c.state p g msg pl plen c (v.no_session out) v,
    )
