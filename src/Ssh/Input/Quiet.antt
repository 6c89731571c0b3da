-- ===== src/Ssh/Input/Quiet.antt =====
-- What the messages before the session leave alone in dosshd/ssh.c.
use dossh.Base.{
  ℕ, ◌+◌, Bool, true, false, not, ◌&&◌, List, [], ◌∷◌, ◌++◌, ◌≡◌, refl, ◌∙◌, inl, inr, arith, ◌==◌,
  if◌then◌else◌, Bool-cases, Option-cases, u16, codes, take, same_bytes,
}
use dossh.Ssh.Wire.{rd_string, found, Found, rd_u32, bytes_at, put_str, build_kmpint}
use dossh.Ssh.State.{
  Stage, st_session, st_version, st_expect_kexinit, st_expect_ecdh_init, st_expect_client_newkeys,
  st_expect_service_request, st_auth, st_closed, st_error, Crypto, Gate, Ssh, fail, ob_append,
  send_packet, send_enc, send_unenc, aead_seal, rng_bytes,
}
use dossh.Ssh.Kex.{
  handle_kexinit, finish_kex, run_kex, handle_ecdh_init, handle_client_newkeys,
  handle_service_request, build_ks_blob, hash_str,
}
use dossh.Ssh.Auth.{
  has_password, has_keys, send_userauth_failure, send_userauth_success, send_disconnect,
  auth_reject, send_pk_ok, signed_request, key_request, handle_pubkey_auth, methods,
  password_request, by_method, handle_userauth_request, ed25519_key_from_blob,
}
use dossh.Ssh.Channel.{handle_global_request}
use dossh.Ssh.Input.{staged_packet, handle_packet}
use dossh.Ssh.Input.Lock.{is_session}

-- The input that is held stays, an authenticated client stays authenticated, and no key is typed.
pub record IsQuiet (c c' : Ssh) : Type 0 where
  pub held : c'.ib_len ≡ c.ib_len
  pub admitted : c.authenticated ≡ true → c'.authenticated ≡ true
  pub head : c'.cin_head ≡ c.cin_head
  pub tail : c'.cin_tail ≡ c.cin_tail

pub then-IsQuiet : {c c1 c2 : Ssh} → IsQuiet c c1 → IsQuiet c1 c2 → IsQuiet c c2
then-IsQuiet q r = record {
  held = r.held ∙ q.held;
  admitted = λ e. r.admitted (q.admitted e);
  head = r.head ∙ q.head;
  tail = r.tail ∙ q.tail;
}

pub same-IsQuiet : (c : Ssh) → IsQuiet c c
same-IsQuiet c = record { held = refl; admitted = λ e. e; head = refl; tail = refl }

pub send_packet-IsQuiet :
    (p : Crypto) (payload : List ℕ) (c : Ssh) → IsQuiet c (send_packet p payload c)
unfolding send_packet send_enc send_unenc aead_seal ob_append fail
send_packet-IsQuiet p payload c = ground arith

pub fail-IsQuiet : (why : List ℕ) (c : Ssh) → IsQuiet c (fail why c)
unfolding fail
fail-IsQuiet why c = ground arith

handle_kexinit-IsQuiet : (pl : ℕ → ℕ) (plen : ℕ) (c : Ssh) → IsQuiet c (handle_kexinit pl plen c)
unfolding handle_kexinit fail
handle_kexinit-IsQuiet pl plen c = ground arith

finish_kex-IsQuiet :
    (p : Crypto) (g : Gate) (q_s kmpint h : List ℕ) (c : Ssh)
    → IsQuiet c (finish_kex p g q_s kmpint h c)
unfolding finish_kex
finish_kex-IsQuiet p g q_s kmpint h c =
    let named : Ssh =
      if c.have_session_id then c else record c { session_id = h; have_session_id = true } in
    let v1 : IsQuiet c named = ground arith in
    let v2 = send_packet-IsQuiet p _ named in
    let v3 = send_packet-IsQuiet p (21 ∷ []) _ in
    record {
      held = v3.held ∙ (v2.held ∙ v1.held);
      admitted = λ e. v3.admitted (v2.admitted (v1.admitted e));
      head = v3.head ∙ (v2.head ∙ v1.head);
      tail = v3.tail ∙ (v2.tail ∙ v1.tail);
    }

run_kex-IsQuiet : (p : Crypto) (g : Gate) (q_c : List ℕ) (c : Ssh) → IsQuiet c (run_kex p g q_c c)
unfolding run_kex fail
run_kex-IsQuiet p g q_c c =
    let eph_sk : List ℕ = rng_bytes p 32 c in
    let q_s : List ℕ = p.x25519_public_key eph_sk in
    let kmpint : List ℕ = build_kmpint (p.x25519 eph_sk q_c) in
    let transcript : List ℕ =
      hash_str (hash_str (hash_str c.hctx (build_ks_blob g)) q_c) q_s ++ kmpint in
    let hashed : Ssh = record c { drawn = c.drawn + 32; hctx = transcript } in
    ground (arith, finish_kex-IsQuiet p g q_s kmpint (p.sha256 transcript) hashed)

handle_ecdh_init-IsQuiet :
    (p : Crypto) (g : Gate) (pl : ℕ → ℕ) (plen : ℕ) (c : Ssh)
    → IsQuiet c (handle_ecdh_init p g pl plen c)
unfolding handle_ecdh_init fail
handle_ecdh_init-IsQuiet p g pl plen c = ground (arith, run_kex-IsQuiet p g (bytes_at pl 5 32) c)

handle_service_request-IsQuiet :
    (p : Crypto) (pl : ℕ → ℕ) (plen : ℕ) (c : Ssh) → IsQuiet c (handle_service_request p pl plen c)
unfolding handle_service_request fail
handle_service_request-IsQuiet p pl plen c =
    let name : List ℕ = bytes_at pl 5 (u16 (rd_u32 pl 1)) in
    ground
      (arith, send_packet-IsQuiet p (6 ∷ put_str name) (record c { svc_name = name; done = true }))

send_userauth_success-IsQuiet : (p : Crypto) (c : Ssh) → IsQuiet c (send_userauth_success p c)
unfolding send_userauth_success
send_userauth_success-IsQuiet p c = ground (arith, send_packet-IsQuiet p (52 ∷ []) c)

send_disconnect-IsQuiet :
    (p : Crypto) (reason : ℕ) (desc : List ℕ) (c : Ssh)
    → IsQuiet c (send_disconnect p reason desc c)
unfolding send_disconnect
send_disconnect-IsQuiet p reason desc c =
    let v = send_packet-IsQuiet p _ c in
    record { held = v.held; admitted = v.admitted; head = v.head; tail = v.tail }

auth_reject-IsQuiet :
    (p : Crypto) (g : Gate) (count_it : Bool) (c : Ssh) → IsQuiet c (auth_reject p g count_it c)
unfolding auth_reject send_userauth_failure
auth_reject-IsQuiet p g count_it c =
    let c' : Ssh = if count_it then record c { auth_fails = c.auth_fails + 1 } else c in
    let v : IsQuiet c c' = ground arith in
    ground (
      arith,
      v,
      send_disconnect-IsQuiet p 14 (codes "too many authentication failures") c',
      send_packet-IsQuiet p (51 ∷ (put_str (methods g) ++ (0 ∷ []))) c',
    )

password_request-IsQuiet :
    (p : Crypto) (g : Gate) (pl : ℕ → ℕ) (plen o : ℕ) (c : Ssh)
    → IsQuiet c (password_request p g pl plen o c)
unfolding password_request
password_request-IsQuiet p g pl plen o c =
    ground (arith, auth_reject-IsQuiet p g true c, send_userauth_success-IsQuiet p c)

signed_request-IsQuiet :
    (p : Crypto) (g : Gate) (pl : ℕ → ℕ) (plen o : ℕ) (user service algo blob key : List ℕ)
    → (c : Ssh) → IsQuiet c (signed_request p g pl plen o user service algo blob key c)
unfolding signed_request
signed_request-IsQuiet p g pl plen o user service algo blob key c =
    ground (arith, auth_reject-IsQuiet p g true c, send_userauth_success-IsQuiet p c)

send_pk_ok-IsQuiet :
    (p : Crypto) (g : Gate) (algo blob : List ℕ) (c : Ssh) → IsQuiet c (send_pk_ok p g algo blob c)
unfolding send_pk_ok
send_pk_ok-IsQuiet p g algo blob c = ground (
  arith,
  auth_reject-IsQuiet p g true c,
  send_packet-IsQuiet p (60 ∷ (put_str algo ++ put_str blob)) c,
)

key_request-IsQuiet :
    (p : Crypto) (g : Gate) (pl : ℕ → ℕ) (plen : ℕ) (have_sig : Bool) (o : ℕ)
    → (user service : List ℕ) (algo blob : Found) (c : Ssh)
    → IsQuiet c (key_request p g pl plen have_sig o user service algo blob c)
unfolding key_request
key_request-IsQuiet p g pl plen have_sig o user service algo blob c =
    let refused = auth_reject-IsQuiet p g true c in
    let probed = send_pk_ok-IsQuiet p g (found pl algo) (found pl blob) c in
    elim (Option-cases (ed25519_key_from_blob (λ i. pl (blob.s + i)) blob.slen)) [
      | inl e ↦ ground (arith, refused)
      | inr (key, e) ↦
          let signed =
            signed_request-IsQuiet p g pl plen o user service (found pl algo) (found pl blob) key
              c in
          ground (arith, refused, probed, signed)
    ]

handle_pubkey_auth-IsQuiet :
    (p : Crypto) (g : Gate) (pl : ℕ → ℕ) (plen o : ℕ) (user service : List ℕ) (c : Ssh)
    → IsQuiet c (handle_pubkey_auth p g pl plen o user service c)
unfolding handle_pubkey_auth
handle_pubkey_auth-IsQuiet p g pl plen o user service c =
    let refused = auth_reject-IsQuiet p g true c in
    elim (Option-cases (rd_string pl plen (o + 1))) [
      | inl e ↦ ground (arith, refused)
      | inr (algo, e) ↦ elim (Option-cases (rd_string pl plen algo.po)) [
        | inl f ↦ ground (arith, refused)
        | inr (blob, f) ↦
            let requested =
              key_request-IsQuiet p g pl plen (not (pl o == 0)) blob.po user service algo blob c in
            ground (arith, refused, requested)
      ]
    ]

by_method-IsQuiet :
    (p : Crypto) (g : Gate) (pl : ℕ → ℕ) (plen : ℕ) (user service method : List ℕ) (o : ℕ) (c : Ssh)
    → IsQuiet c (by_method p g pl plen user service method o c)
unfolding by_method
by_method-IsQuiet p g pl plen user service method o c =
    let refused = auth_reject-IsQuiet p g true c in
    elim (Bool-cases (not (has_password g) && not (has_keys g))) [
      | inl open_box ↦ let admitted = send_userauth_success-IsQuiet p c in ground (arith, admitted)
      | inr gated ↦ elim (Bool-cases (same_bytes method (codes "publickey"))) [
        | inl by_key ↦
            let requested = handle_pubkey_auth-IsQuiet p g pl plen o user service c in
            ground (arith, refused, requested)
        | inr other ↦ elim (Bool-cases (has_password g && same_bytes method (codes "password"))) [
          | inl by_password ↦
              let requested = password_request-IsQuiet p g pl plen o c in ground (arith, requested)
          | inr unknown ↦
              let probed = auth_reject-IsQuiet p g (not (same_bytes method (codes "none"))) c in
              ground (arith, probed)
        ]
      ]
    ]

handle_userauth_request-IsQuiet :
    (p : Crypto) (g : Gate) (pl : ℕ → ℕ) (plen : ℕ) (c : Ssh)
    → IsQuiet c (handle_userauth_request p g pl plen c)
unfolding handle_userauth_request fail
handle_userauth_request-IsQuiet p g pl plen c = elim (Option-cases (rd_string pl plen 1)) [
  | inl e ↦ ground arith
  | inr (user, e) ↦ elim (Option-cases (rd_string pl plen user.po)) [
    | inl f ↦ ground arith
    | inr (service, f) ↦ elim (Option-cases (rd_string pl plen service.po)) [
      | inl h ↦ ground arith
      | inr (method, h) ↦
          let asked =
            by_method-IsQuiet p g pl plen (found pl user) (found pl service) (found pl method)
              method.po (record c { auth_user = take 63 (found pl user) }) in
          ground (arith, asked)
    ]
  ]
]

pub handle_global_request-IsQuiet :
    (p : Crypto) (pl : ℕ → ℕ) (plen : ℕ) (c : Ssh) → IsQuiet c (handle_global_request p pl plen c)
unfolding handle_global_request
handle_global_request-IsQuiet p pl plen c = ground (arith, send_packet-IsQuiet p (82 ∷ []) c)

-- A message in any state but that of the session.
pub staged_packet-IsQuiet :
    (st : Stage) (p : Crypto) (g : Gate) (msg : ℕ) (pl : ℕ → ℕ) (plen : ℕ) (c : Ssh)
    → is_session st ≡ false
    → IsQuiet c (staged_packet st p g msg pl plen c)
unfolding staged_packet handle_client_newkeys fail
staged_packet-IsQuiet st_version p g msg pl plen c e = ground arith
staged_packet-IsQuiet st_expect_kexinit p g msg pl plen c e =
    ground (arith, handle_kexinit-IsQuiet pl plen c)
staged_packet-IsQuiet st_expect_ecdh_init p g msg pl plen c e =
    ground (arith, handle_ecdh_init-IsQuiet p g pl plen c)
staged_packet-IsQuiet st_expect_client_newkeys p g msg pl plen c e = ground arith
staged_packet-IsQuiet st_expect_service_request p g msg pl plen c e =
    ground (arith, handle_service_request-IsQuiet p pl plen c)
staged_packet-IsQuiet st_auth p g msg pl plen c e =
    ground (arith, handle_userauth_request-IsQuiet p g pl plen c)
staged_packet-IsQuiet st_session p g msg pl plen c e = absurd (ground arith)
staged_packet-IsQuiet st_closed p g msg pl plen c e = ground arith
staged_packet-IsQuiet st_error p g msg pl plen c e = ground arith

-- A packet that meets no session.
pub handle_packet-IsQuiet :
    (p : Crypto) (g : Gate) (pl : ℕ → ℕ) (plen : ℕ) (c : Ssh)
    → is_session c.state ≡ false
    → IsQuiet c (handle_packet p g pl plen c)
unfolding handle_packet
handle_packet-IsQuiet p g pl plen c e =
    let msg : ℕ = if plen == 0 then 0 else pl 0 in
    ground (
      arith,
      handle_global_request-IsQuiet p pl plen c,
      staged_packet-IsQuiet c.state p g msg pl plen c e,
    )
