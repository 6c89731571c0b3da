-- ===== src/Examples/Shell.antt =====
-- An SSH session: dosshd/ssh.c, and a glyph of dosshd/cp437.c.
use dossh.Base.{
  ℕ, zero, suc, ◌+◌, ◌≤◌, ◌%◌, true, false, List, [], ◌∷◌, ◌++◌, some, ◌≡◌, refl, ◌⊎◌, arith,
  length, get_or, codes, u32, ◌-◌,
}
use dossh.Ssh.Wire.{Found, found, rd_string, put_str, put_u32, rd_u32, bytes_at}
use dossh.Ssh.Wire.Strings.{Holds, rd_string-put_str}
use dossh.Ssh.State.{Crypto, Gate, Ssh, st_auth, st_session, send_unenc, rng_bytes, pad_len}
use dossh.Ssh.State.Framing.{frame, send_unenc-frame}
use dossh.Ssh.Auth.{handle_userauth_request, by_method, password_request, send_userauth_success}
use dossh.Ssh.Auth.Admission.{Credential, handle_userauth_request-Credential}
use dossh.Ssh.Channel.{ssh_channel_emit, handle_channel_data}
use dossh.Ssh.Channel.Window.{
  IsSent, ssh_channel_emit-IsSent, IsOpen, handle_channel_data-IsOpen, charged, data_len, IsTold,
}
use dossh.Ssh.Input.{cleared}
use dossh.Ssh.Input.Lock.{IsLocked}
use dossh.Cp437.Glyphs.{glyph, is_utf8, is_printable, code_point, cp437_utf8-is_utf8}

-- Stand-ins for the primitives: no encryption, and constant digests.
abbrev pub crypto : Crypto
crypto = record {
  chacha20 = λ text key nonce ctr. text;
  poly1305 = λ text key. bytes_at (λ i. 7) 0 16;
  x25519_public_key = λ sk. sk;
  x25519 = λ sk pk. pk;
  ed25519_sign = λ sk text. bytes_at (λ i. 9) 0 64;
  ed25519_verify = λ sig key text. false;
  sha256 = λ text. bytes_at (λ i. 5) 0 32;
  random = λ i. 3;
}

abbrev pub gate : Gate
gate = record { hostkey_sk = []; hostkey_pk = []; password = codes "dos"; authkeys = [] }

-- A USERAUTH_REQUEST with the password `dos`.
abbrev request : List ℕ
request =
    50
    ∷ 0
    ∷ 0
    ∷ 0
    ∷ 1
    ∷ b'u'
    ∷ 0
    ∷ 0
    ∷ 0
    ∷ 1
    ∷ b's'
    ∷ 0
    ∷ 0
    ∷ 0
    ∷ 8
    ∷ (codes "password" ++ (0 ∷ 0 ∷ 0 ∷ 0 ∷ 3 ∷ codes "dos"))

abbrev payload : ℕ → ℕ
payload i = get_or request i 0

-- A client that authenticates, and one whose channel is open.
abbrev asking : Ssh
asking = record (cleared 0) { state = st_auth }

abbrev pub attached : Ssh
attached = record (cleared 0) {
  state = st_session;
  authenticated = true;
  send_encrypted = true;
  chan_open = true;
  shell_ready = true;
  peer_window = 100;
  peer_maxpkt = 1000;
  local_window = 20000;
}

request-admits : (handle_userauth_request crypto gate payload 31 asking).authenticated ≡ true
unfolding handle_userauth_request by_method password_request send_userauth_success rd_string rd_u32
    bytes_at
request-admits = refl

user-found : rd_string payload 31 1 ≡ some (record { s = 5; slen = 1; po = 6 })
unfolding rd_string rd_u32
user-found = refl

user-Holds : Holds payload 1 (put_str (codes "u"))
unfolding put_str put_u32
user-Holds zero h = refl
user-Holds (suc zero) h = refl
user-Holds (suc (suc zero)) h = refl
user-Holds (suc (suc (suc zero))) h = refl
user-Holds (suc (suc (suc (suc zero)))) h = refl
user-Holds (suc (suc (suc (suc (suc i))))) h = absurd (omega arith)

handle_userauth_request-Credential_example : Credential crypto gate payload 31 []
handle_userauth_request-Credential_example =
    handle_userauth_request-Credential crypto gate payload 31 asking refl request-admits

rd_string-put_str_example :
    (r : Found) × (rd_string payload 31 1 ≡ some r)
    × (found payload r ≡ codes "u")
    × (r.po ≡ 1 + 4 + length (codes "u"))
rd_string-put_str_example =
    rd_string-put_str payload 31 1 (codes "u") (omega arith) user-Holds (omega arith)

send_unenc-frame_example :
    let pad = rng_bytes crypto (pad_len (5 + length (codes "hi"))) asking in
    ((send_unenc crypto (codes "hi") asking).ob ≡ asking.ob ++ frame (codes "hi") pad)
    × (length (frame (codes "hi") pad) % 8 ≡ 0)
    × (4 ≤ length pad)
    × (length pad ≤ 11)
    × ((send_unenc crypto (codes "hi") asking).send_seq ≡ u32 (asking.send_seq + 1))
send_unenc-frame_example = send_unenc-frame crypto (codes "hi") asking (omega arith)

ssh_channel_emit-IsSent_example :
    (ssh_channel_emit crypto (codes "A:>") 512 attached ≡ (attached, []))
    ⊎ IsSent crypto (codes "A:>") attached (ssh_channel_emit crypto (codes "A:>") 512 attached)
ssh_channel_emit-IsSent_example = ssh_channel_emit-IsSent crypto (codes "A:>") 512 attached

attached-IsOpen : IsOpen attached
attached-IsOpen = record {
  head_lt = omega arith;
  tail_lt = omega arith;
  half = omega arith;
  full = omega arith;
}

handle_channel_data-IsOpen_example :
    let c' = handle_channel_data crypto payload 31 attached in
    IsOpen c' × IsTold crypto (charged (attached.local_window - data_len payload 31) attached c') c'
handle_channel_data-IsOpen_example =
    handle_channel_data-IsOpen crypto payload 31 attached attached-IsOpen

cp437_utf8-is_utf8_example :
    (is_utf8 (glyph 0xDB) ≡ true) × (is_printable (code_point (glyph 0xDB)) ≡ true)
cp437_utf8-is_utf8_example = cp437_utf8-is_utf8 0xDB (omega arith)

asking-IsLocked : IsLocked asking
asking-IsLocked = record { no_session = λ e. refl; no_channel = λ e. refl }
