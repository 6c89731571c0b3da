-- ===== src/Ssh/Auth/Admission.antt =====
-- Who is let in by the user authentication of dosshd/ssh.c.
use dossh.Base.{
  ℕ, ◌+◌, Bool, true, false, not, ◌&&◌, List, ◌∷◌, ◌++◌, some, ◌≡◌, inl, inr, arith, ◌==◌,
  if◌then◌else◌, same_bytes, same_bytes_sound, Bool-cases, Option-cases, take, codes,
}
use dossh.Ssh.Wire.{Found, found, rd_string, put_str}
use dossh.Ssh.State.{
  Crypto, Gate, Ssh, fail, ob_append, send_packet, send_enc, send_unenc, aead_seal,
}
use dossh.Ssh.Auth.{
  has_password, has_keys, send_userauth_failure, send_disconnect, auth_reject,
  authkey_is_authorized, send_pk_ok, pk_signed_data, build_pk_signed_data, is_signed,
  signed_request, key_request, handle_pubkey_auth, password_request, by_method,
  handle_userauth_request, ed25519_sig_from_blob, ed25519_key_from_blob,
}

-- What lets a client in: no gate is configured; the password, as a string of the packet; or a key of
-- the authorized set with a signature that verifies over the data bound to the session.
pub data Credential (p : Crypto) (g : Gate) (pl : ℕ → ℕ) (plen : ℕ) (session_id : List ℕ)
    : Type 0 where
  no_gate : has_password g ≡ false → has_keys g ≡ false → Credential p g pl plen session_id
  password_typed :
      (o : ℕ) (pw : Found)
      → has_password g ≡ true
      → rd_string pl plen o ≡ some pw
      → found pl pw ≡ g.password
      → Credential p g pl plen session_id
  key_signed :
      (key sig user service algo blob : List ℕ)
      → authkey_is_authorized g key ≡ true
      → p.ed25519_verify sig key (pk_signed_data session_id user service algo blob) ≡ true
      → Credential p g pl plen session_id

send_packet-authenticated :
    (p : Crypto) (payload : List ℕ) (c : Ssh)
    → (send_packet p payload c).authenticated ≡ c.authenticated
unfolding send_packet send_enc send_unenc aead_seal ob_append fail
send_packet-authenticated p payload c = ground arith

send_disconnect-authenticated :
    (p : Crypto) (reason : ℕ) (desc : List ℕ) (c : Ssh)
    → (send_disconnect p reason desc c).authenticated ≡ c.authenticated
unfolding send_disconnect
send_disconnect-authenticated p reason desc c = send_packet-authenticated p _ c

send_userauth_failure-authenticated :
    (p : Crypto) (g : Gate) (c : Ssh)
    → (send_userauth_failure p g c).authenticated ≡ c.authenticated
unfolding send_userauth_failure
send_userauth_failure-authenticated p g c = send_packet-authenticated p _ c

auth_reject-authenticated :
    (p : Crypto) (g : Gate) (count_it : Bool) (c : Ssh)
    → (auth_reject p g count_it c).authenticated ≡ c.authenticated
unfolding auth_reject
auth_reject-authenticated p g count_it c =
    let c' : Ssh = if count_it then record c { auth_fails = c.auth_fails + 1 } else c in
    let kept : c'.authenticated ≡ c.authenticated = ground arith in
    ground (
      arith,
      kept,
      send_disconnect-authenticated p 14 (codes "too many authentication failures") c',
      send_userauth_failure-authenticated p g c',
    )

password_request-Credential :
    (p : Crypto) (g : Gate) (pl : ℕ → ℕ) (plen o : ℕ) (c : Ssh)
    → has_password g ≡ true
    → c.authenticated ≡ false
    → (password_request p g pl plen o c).authenticated ≡ true
    → Credential p g pl plen c.session_id
unfolding password_request
password_request-Credential p g pl plen o c gated out was =
    elim (Option-cases (rd_string pl plen (o + 1))) [
      | inl e ↦ absurd (ground (arith, auth_reject-authenticated p g true c))
      | inr (pw, e) ↦ elim (Bool-cases (same_bytes (found pl pw) g.password)) [
        | inl same ↦
            password_typed (o + 1) pw gated e (same_bytes_sound (found pl pw) g.password same)
        | inr other ↦ absurd (ground (arith, auth_reject-authenticated p g true c))
      ]
    ]

-- A signature that is accepted verifies over the session's data.
is_signed-verify :
    (p : Crypto) (session_id user service algo blob sig key : List ℕ)
    → is_signed p (build_pk_signed_data session_id user service algo blob) sig key ≡ true
    → p.ed25519_verify sig key (pk_signed_data session_id user service algo blob) ≡ true
unfolding build_pk_signed_data is_signed
is_signed-verify p session_id user service algo blob sig key e = ground arith

signed_request-Credential :
    (p : Crypto) (g : Gate) (pl : ℕ → ℕ) (plen o : ℕ) (user service algo blob key : List ℕ)
    → (c : Ssh) → c.authenticated ≡ false
    → (signed_request p g pl plen o user service algo blob key c).authenticated ≡ true
    → Credential p g pl plen c.session_id
unfolding signed_request
signed_request-Credential p g pl plen o user service algo blob key c out was =
    let refusal = auth_reject-authenticated p g true c in
    elim (Option-cases (rd_string pl plen o)) [
      | inl e ↦ absurd (ground (arith, refusal))
      | inr (sigblob, e) ↦
          elim (Option-cases (ed25519_sig_from_blob (λ i. pl (sigblob.s + i)) sigblob.slen)) [
            | inl f ↦ absurd (ground (arith, refusal))
            | inr (sig, f) ↦ elim (Bool-cases (authkey_is_authorized g key)) [
              | inr stranger ↦ absurd (ground (arith, refusal))
              | inl member ↦
                  elim (Bool-cases (
                    is_signed p (build_pk_signed_data c.session_id user service algo blob) sig
                      key)) [
                        | inr bad ↦ absurd (ground (arith, refusal))
                        | inl good ↦
                            key_signed key sig user service algo blob member
                              (is_signed-verify p c.session_id user service algo blob sig key good)
                      ]
            ]
          ]
    ]

send_pk_ok-authenticated :
    (p : Crypto) (g : Gate) (algo blob : List ℕ) (c : Ssh)
    → (send_pk_ok p g algo blob c).authenticated ≡ c.authenticated
unfolding send_pk_ok
send_pk_ok-authenticated p g algo blob c = ground (
  arith,
  auth_reject-authenticated p g true c,
  send_packet-authenticated p (60 ∷ (put_str algo ++ put_str blob)) c,
)

key_request-Credential :
    (p : Crypto) (g : Gate) (pl : ℕ → ℕ) (plen : ℕ) (have_sig : Bool) (o : ℕ)
    → (user service : List ℕ) (algo blob : Found) (c : Ssh) → c.authenticated ≡ false
    → (key_request p g pl plen have_sig o user service algo blob c).authenticated ≡ true
    → Credential p g pl plen c.session_id
unfolding key_request
key_request-Credential p g pl plen have_sig o user service algo blob c out was =
    let refusal = auth_reject-authenticated p g true c in
    elim (Option-cases (ed25519_key_from_blob (λ i. pl (blob.s + i)) blob.slen)) [
      | inl e ↦ absurd (ground (arith, refusal))
      | inr (key, e) ↦
          signed_request-Credential p g pl plen o user service (found pl algo) (found pl blob) key c
            out
            (ground
              (arith, refusal, send_pk_ok-authenticated p g (found pl algo) (found pl blob) c))
    ]

handle_pubkey_auth-Credential :
    (p : Crypto) (g : Gate) (pl : ℕ → ℕ) (plen o : ℕ) (user service : List ℕ) (c : Ssh)
    → c.authenticated ≡ false
    → (handle_pubkey_auth p g pl plen o user service c).authenticated ≡ true
    → Credential p g pl plen c.session_id
unfolding handle_pubkey_auth
handle_pubkey_auth-Credential p g pl plen o user service c out was =
    let refusal = auth_reject-authenticated p g true c in
    elim (Option-cases (rd_string pl plen (o + 1))) [
      | inl e ↦ absurd (ground (arith, refusal))
      | inr (algo, e) ↦ elim (Option-cases (rd_string pl plen algo.po)) [
        | inl f ↦ absurd (ground (arith, refusal))
        | inr (blob, f) ↦
            key_request-Credential p g pl plen (not (pl o == 0)) blob.po user service algo blob c
              out (ground (arith, refusal))
      ]
    ]

by_method-Credential :
    (p : Crypto) (g : Gate) (pl : ℕ → ℕ) (plen : ℕ) (user service method : List ℕ) (o : ℕ)
    → (c : Ssh) → c.authenticated ≡ false
    → (by_method p g pl plen user service method o c).authenticated ≡ true
    → Credential p g pl plen c.session_id
unfolding by_method
by_method-Credential p g pl plen user service method o c out was =
    let kept = auth_reject-authenticated p g true c in
    let probed = auth_reject-authenticated p g (not (same_bytes method (codes "none"))) c in
    elim (Bool-cases (not (has_password g) && not (has_keys g))) [
      | inl open_box ↦ no_gate (ground arith) (ground arith)
      | inr gated ↦ elim (Bool-cases (same_bytes method (codes "publickey"))) [
        | inl by_key ↦
            handle_pubkey_auth-Credential p g pl plen o user service c out (ground (arith, kept))
        | inr other ↦ elim (Bool-cases (has_password g && same_bytes method (codes "password"))) [
          | inl by_password ↦
              password_request-Credential p g pl plen o c (ground arith) out (ground arith)
          | inr unknown ↦ absurd (ground (arith, probed))
        ]
      ]
    ]

-- A client that was not authenticated is so after a USERAUTH_REQUEST, whatever the packet's bytes,
-- only if no gate is configured, or the packet has the password as one of its strings, or a key of
-- the authorized set signed the data that names this session. The primitives are arbitrary.
pub handle_userauth_request-Credential :
    (p : Crypto) (g : Gate) (pl : ℕ → ℕ) (plen : ℕ) (c : Ssh)
    → c.authenticated ≡ false
    → (handle_userauth_request p g pl plen c).authenticated ≡ true
    → Credential p g pl plen c.session_id
unfolding handle_userauth_request fail
handle_userauth_request-Credential p g pl plen c out was =
    elim (Option-cases (rd_string pl plen 1)) [
      | inl e ↦ absurd (ground arith)
      | inr (user, e) ↦ elim (Option-cases (rd_string pl plen user.po)) [
        | inl f ↦ absurd (ground arith)
        | inr (service, f) ↦ elim (Option-cases (rd_string pl plen service.po)) [
          | inl h ↦ absurd (ground arith)
          | inr (method, h) ↦
              by_method-Credential p g pl plen (found pl user) (found pl service) (found pl method)
                method.po (record c { auth_user = take 63 (found pl user) }) out (ground arith)
        ]
      ]
    ]
