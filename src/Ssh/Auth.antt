-- ===== src/Ssh/Auth.antt =====
-- User authentication of dosshd/ssh.c (RFC 4252).
pub mod Admission
use dossh.Base.{
  ℕ, zero, suc, ◌+◌, ◌-◌, ◌*◌, ◌/◌, ◌%◌, ◌^◌, Bool, true, false, not, ◌&&◌, ◌||◌, List, [], ◌∷◌,
  ◌++◌, Option, none, some, ltb, leb, ◌==◌, if◌then◌else◌, length, get_or, take, drop, all, any,
  same_bytes, u8, u16, u32, codes,
}
use dossh.Ssh.Wire.{bytes_at, put_u32, rd_u32, put_str, Found, found, rd_string, b64val, b64_decode}
use dossh.Ssh.State.{Stage, st_session, st_closed, Crypto, Gate, Ssh, fail, send_packet}
use dossh.Ssh.Kex.{ssh_ed25519}

abbrev pub has_password : Gate → Bool
has_password g = not (length g.password == 0)

abbrev pub has_keys : Gate → Bool
has_keys g = not (length g.authkeys == 0)

-- The methods that can still authenticate.
unfoldable pub methods : Gate → List ℕ
methods g =
    if has_keys g
    then if has_password g then codes "publickey,password" else codes "publickey"
    else codes "password"

unfoldable pub send_userauth_failure : Crypto → Gate → Ssh → Ssh
send_userauth_failure p g c = send_packet p (51 ∷ (put_str (methods g) ++ (0 ∷ []))) c

unfoldable pub send_userauth_success : Crypto → Ssh → Ssh
send_userauth_success p c = record (send_packet p (52 ∷ []) c) {
  authenticated = true;
  state = st_session;
}

unfoldable pub send_disconnect : Crypto → ℕ → List ℕ → Ssh → Ssh
send_disconnect p reason desc c =
    record (send_packet p (1 ∷ (put_u32 reason ++ (put_str desc ++ put_str []))) c) {
      state = st_closed;
    }

abbrev pub max_auth_tries : ℕ
max_auth_tries = 3

unfoldable pub auth_reject : Crypto → Gate → Bool → Ssh → Ssh
auth_reject p g count_it c =
    let c' = if count_it then record c { auth_fails = c.auth_fails + 1 } else c in
    if leb max_auth_tries c'.auth_fails
    then send_disconnect p 14 (codes "too many authentication failures") c'
    else send_userauth_failure p g c'

-- A string of the blob behind the name "ssh-ed25519", if it has the length.
unfoldable pub ed25519_part : ℕ → (ℕ → ℕ) → ℕ → Option (List ℕ)
ed25519_part size blob bloblen = elim (rd_string blob bloblen 0) [
  | none ↦ none
  | some name ↦
      if not (same_bytes (found blob name) ssh_ed25519)
      then none
      else elim (rd_string blob bloblen name.po) [
        | none ↦ none
        | some part ↦ if part.slen == size then some (found blob part) else none
      ]
]

abbrev pub ed25519_key_from_blob : (ℕ → ℕ) → ℕ → Option (List ℕ)
ed25519_key_from_blob blob bloblen = ed25519_part 32 blob bloblen

abbrev pub ed25519_sig_from_blob : (ℕ → ℕ) → ℕ → Option (List ℕ)
ed25519_sig_from_blob blob bloblen = ed25519_part 64 blob bloblen

unfoldable pub authkey_is_authorized : Gate → List ℕ → Bool
authkey_is_authorized g key = any (λ k. same_bytes k key) g.authkeys

unfoldable pub send_pk_ok : Crypto → Gate → List ℕ → List ℕ → Ssh → Ssh
send_pk_ok p g algo blob c =
    if ltb 128 (1 + 4 + length algo + 4 + length blob)
    then auth_reject p g true c
    else send_packet p (60 ∷ (put_str algo ++ put_str blob)) c

abbrev scratch_sz : ℕ
scratch_sz = 2048 + 128

-- The bytes that a publickey signature is computed over.
unfoldable pub pk_signed_data : List ℕ → List ℕ → List ℕ → List ℕ → List ℕ → List ℕ
pk_signed_data session_id user service algo blob =
    put_str session_id
    ++ (50
        ∷ (put_str user
            ++ (put_str service
                ++ (put_str (codes "publickey") ++ (1 ∷ (put_str algo ++ put_str blob))))))

-- `none` where the C function returns 0, since the scratch buffer is too small.
unfoldable pub build_pk_signed_data : List ℕ → List ℕ → List ℕ → List ℕ → List ℕ → Option (List ℕ)
build_pk_signed_data session_id user service algo blob =
    let need =
      4
      + 32
      + 1
      + (4 + length user)
      + (4 + length service)
      + (4 + 9)
      + 1
      + (4 + length algo)
      + (4 + length blob) in
    if ltb scratch_sz need then none else some (pk_signed_data session_id user service algo blob)

-- The verdict on a signed request of an authorized key.
unfoldable pub is_signed : Crypto → Option (List ℕ) → List ℕ → List ℕ → Bool
is_signed p none sig key = false
is_signed p (some signed) sig key = p.ed25519_verify sig key signed

-- The signed form of a publickey request, from the offset of the signature blob.
unfoldable pub signed_request :
    Crypto → Gate → (ℕ → ℕ) → ℕ → ℕ → List ℕ → List ℕ → List ℕ → List ℕ → List ℕ → Ssh → Ssh
signed_request p g pl plen o user service algo blob key c = elim (rd_string pl plen o) [
  | none ↦ auth_reject p g true c
  | some sigblob ↦ elim (ed25519_sig_from_blob (λ i. pl (sigblob.s + i)) sigblob.slen) [
    | none ↦ auth_reject p g true c
    | some rawsig ↦
        if not (authkey_is_authorized g key)
        then auth_reject p g true c
        else if is_signed p (build_pk_signed_data c.session_id user service algo blob) rawsig key
        then send_userauth_success p c
        else auth_reject p g true c
  ]
]

-- The request once the algorithm name and the key blob are read, up to the offset `o`.
unfoldable pub key_request :
    Crypto → Gate → (ℕ → ℕ) → ℕ → Bool → ℕ → List ℕ → List ℕ → Found → Found → Ssh → Ssh
key_request p g pl plen have_sig o user service algo blob c =
    if not (same_bytes (found pl algo) ssh_ed25519)
    then auth_reject p g true c
    else elim (ed25519_key_from_blob (λ i. pl (blob.s + i)) blob.slen) [
      | none ↦ auth_reject p g true c
      | some key ↦
          if have_sig
          then signed_request p g pl plen o user service (found pl algo) (found pl blob) key c
          else if not (authkey_is_authorized g key)
          then auth_reject p g true c
          else send_pk_ok p g (found pl algo) (found pl blob) c
    ]

unfoldable pub handle_pubkey_auth : Crypto → Gate → (ℕ → ℕ) → ℕ → ℕ → List ℕ → List ℕ → Ssh → Ssh
handle_pubkey_auth p g pl plen o user service c =
    if ltb plen (o + 1) then auth_reject p g true c else elim (rd_string pl plen (o + 1)) [
      | none ↦ auth_reject p g true c
      | some algo ↦ elim (rd_string pl plen algo.po) [
        | none ↦ auth_reject p g true c
        | some blob ↦ key_request p g pl plen (not (pl o == 0)) blob.po user service algo blob c
      ]
    ]

unfoldable pub password_request : Crypto → Gate → (ℕ → ℕ) → ℕ → ℕ → Ssh → Ssh
password_request p g pl plen o c =
    if ltb plen (o + 1)
    then auth_reject p g true c
    else if not (pl o == 0)
    then auth_reject p g true c
    else elim (rd_string pl plen (o + 1)) [
      | none ↦ auth_reject p g true c
      | some pw ↦
          if same_bytes (found pl pw) g.password
          then send_userauth_success p c
          else auth_reject p g true c
    ]

-- The request by its method, whose parameters start at `o`.
unfoldable pub by_method : Crypto → Gate → (ℕ → ℕ) → ℕ → List ℕ → List ℕ → List ℕ → ℕ → Ssh → Ssh
by_method p g pl plen user service method o c =
    if not (has_password g) && not (has_keys g)
    then send_userauth_success p c
    else if same_bytes method (codes "publickey")
    then if has_keys g
      then handle_pubkey_auth p g pl plen o user service c
      else auth_reject p g true c
    else if has_password g && same_bytes method (codes "password")
    then password_request p g pl plen o c
    else auth_reject p g (not (same_bytes method (codes "none"))) c

unfoldable pub handle_userauth_request : Crypto → Gate → (ℕ → ℕ) → ℕ → Ssh → Ssh
handle_userauth_request p g pl plen c = elim (rd_string pl plen 1) [
  | none ↦ fail (codes "short USERAUTH_REQUEST") c
  | some user ↦ elim (rd_string pl plen user.po) [
    | none ↦ fail (codes "bad USERAUTH_REQUEST") c
    | some service ↦ elim (rd_string pl plen service.po) [
      | none ↦ fail (codes "bad USERAUTH_REQUEST") c
      | some method ↦
          by_method p g pl plen (found pl user) (found pl service) (found pl method) method.po
            (record c { auth_user = take 63 (found pl user) })
    ]
  ]
]
