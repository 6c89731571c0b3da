-- ===== src/Ssh/Input.antt =====
-- The inbound side of dosshd/ssh.c: the version line, packets and their dispatch, and the interface.
pub mod Lock
pub mod Quiet
pub mod Kept
pub mod Loop
pub mod Endless
pub mod Whole
use dossh.Base.{
  ℕ, zero, suc, ◌+◌, ◌-◌, ◌%◌, min, Bool, true, false, not, ◌&&◌, ◌||◌, List, [], ◌∷◌, ◌++◌, Option,
  none, some, ltb, leb, ◌==◌, if◌then◌else◌, length, get_or, take, drop, same_bytes, u16, u32,
  codes,
}
use dossh.Ssh.Wire.{bytes_at, rd_u32, seqbuf8, b64val, b64_decode}
use dossh.Ssh.State.{
  Stage, st_version, st_expect_kexinit, st_expect_ecdh_init, st_expect_client_newkeys,
  st_expect_service_request, st_auth, st_session, st_closed, st_error, is_error, Crypto, Gate, Ssh,
  fail, ob_append, ib_consume, send_unenc, k_main, k_header,
}
use dossh.Ssh.Kex.{
  server_id, build_our_kexinit, handle_kexinit, handle_ecdh_init, handle_client_newkeys,
  handle_service_request, ssh_ed25519,
}
use dossh.Ssh.Auth.{handle_userauth_request, ed25519_key_from_blob}
use dossh.Ssh.Channel.{
  handle_channel_open, handle_channel_request, handle_channel_data, handle_channel_window_adjust,
  handle_global_request, ssh_channel_close,
}

-- A message of the connection protocol.
unfoldable pub session_packet : Crypto → ℕ → (ℕ → ℕ) → ℕ → Ssh → Ssh
session_packet p msg pl plen c =
    if msg == 90
    then handle_channel_open p pl plen c
    else if msg == 98
    then handle_channel_request p pl plen c
    else if msg == 94
    then handle_channel_data p pl plen c
    else if msg == 93
    then handle_channel_window_adjust pl plen c
    else if msg == 96
    then record c { chan_eof = true }
    else if msg == 97
    then record (if c.chan_sent_close then c else ssh_channel_close p c) {
      chan_closed = true;
      state = st_closed;
    }
    else c

-- The `switch` on the state.
unfoldable pub staged_packet : Stage → Crypto → Gate → ℕ → (ℕ → ℕ) → ℕ → Ssh → Ssh
staged_packet st_expect_kexinit p g msg pl plen c =
    if msg == 20 then handle_kexinit pl plen c else fail (codes "expected KEXINIT") c
staged_packet st_expect_ecdh_init p g msg pl plen c =
    if not (msg == 30) && not c.discard_next
    then fail (codes "expected KEX_ECDH_INIT") c
    else handle_ecdh_init p g pl plen c
staged_packet st_expect_client_newkeys p g msg pl plen c =
    if msg == 21 then handle_client_newkeys c else fail (codes "expected NEWKEYS") c
staged_packet st_expect_service_request p g msg pl plen c =
    if msg == 5
    then handle_service_request p pl plen c
    else fail (codes "expected SERVICE_REQUEST") c
staged_packet st_auth p g msg pl plen c =
    if msg == 50 then handle_userauth_request p g pl plen c else c
staged_packet st_session p g msg pl plen c = session_packet p msg pl plen c
staged_packet st_version p g msg pl plen c = fail (codes "unexpected packet") c
staged_packet st_closed p g msg pl plen c = fail (codes "unexpected packet") c
staged_packet st_error p g msg pl plen c = fail (codes "unexpected packet") c

unfoldable pub handle_packet : Crypto → Gate → (ℕ → ℕ) → ℕ → Ssh → Ssh
handle_packet p g pl plen c =
    let msg = if plen == 0 then 0 else pl 0 in
    if msg == 1
    then record c { state = st_closed }
    else if msg == 2 || (msg == 4 || msg == 3)
    then c
    else if msg == 80
    then handle_global_request p pl plen c
    else staged_packet c.state p g msg pl plen c

-- What one round of the input loop returns: 1, 0 or -1.
pub data Progress : Type 0 where
  progressed need_more failed : Progress

abbrev pub goes_on : Progress → Bool
goes_on progressed = true
goes_on x = false

-- The line `ib[0..i)` without its CR.
unfoldable pub line_len : (ℕ → ℕ) → ℕ → ℕ
line_len ib i = if not (i == 0) && ib (i - 1) == 13 then i - 1 else i

-- A complete line that ends at `i`.
unfoldable pub take_line : ℕ → Ssh → Ssh
take_line i c =
    let n = line_len c.ib i in
    let named = record c { cli_ver = bytes_at c.ib 0 (min n 255); state = st_expect_kexinit } in
    ib_consume (i + 1)
      (if leb 4 n && same_bytes (bytes_at c.ib 0 4) (codes "SSH-") then named else c)

-- The scan from `i`, `left` bytes before the end of the input.
unfoldable pub scan_line : ℕ → ℕ → Ssh → Ssh × Progress
scan_line zero i c = (c, need_more)
scan_line (suc left) i c =
    let rest = scan_line left (i + 1) c in
    if c.ib i == 10
    then (take_line i c, progressed)
    else if ltb 300 i
    then (fail (codes "version line too long") c, failed)
    else rest

unfoldable pub try_version : Ssh → Ssh × Progress
try_version c = scan_line c.ib_len 0 c

abbrev pub ib_sz : ℕ
ib_sz = 2048

-- A packet whose `pkt_len` bytes start at `ib[4]`, unpadded and handled; `wire` bytes are consumed.
unfoldable pub open_packet : Crypto → Gate → ℕ → ℕ → Ssh → Ssh × Progress
open_packet p g pkt_len wire c =
    let padlen = c.ib 4 in
    let handled = handle_packet p g (λ i. c.ib (5 + i)) (pkt_len - 1 - padlen) c in
    let consumed = ib_consume wire handled in
    if ltb pkt_len (padlen + 1)
    then (fail (codes "bad padding") c, failed)
    else (record consumed { recv_seq = u32 (consumed.recv_seq + 1) }, progressed)

unfoldable pub try_plain : Crypto → Gate → Ssh → Ssh × Progress
try_plain p g c =
    let pkt_len = u16 (rd_u32 c.ib 0) in
    if ltb c.ib_len 4
    then (c, need_more)
    else if ltb pkt_len 1 || ltb ib_sz (u16 (pkt_len + 4))
    then (fail (codes "packet too large") c, failed)
    else if ltb c.ib_len (u16 (4 + pkt_len))
    then (c, need_more)
    else open_packet p g pkt_len (u16 (4 + pkt_len)) c

-- `ib` with `xs` written over it from `o`.
unfoldable pub write_at : List ℕ → ℕ → (ℕ → ℕ) → ℕ → ℕ
write_at xs o ib i = if leb o i && ltb i (o + length xs) then get_or xs (i - o) 0 else ib i

-- The tag over the encrypted length and body matches the one that follows them.
unfoldable pub has_mac : Crypto → ℕ → Ssh → Bool
has_mac p pkt_len c =
    let polykey = p.chacha20 (bytes_at (λ i. 0) 0 32) (k_main c.ek_c2s) (seqbuf8 c.recv_seq) 0 in
    same_bytes (p.poly1305 (bytes_at c.ib 0 (4 + pkt_len)) polykey) (bytes_at c.ib (4 + pkt_len) 16)

unfoldable pub decrypted : Crypto → ℕ → Ssh → Ssh
decrypted p pkt_len c =
    let body = p.chacha20 (bytes_at c.ib 4 pkt_len) (k_main c.ek_c2s) (seqbuf8 c.recv_seq) 1 in
    record c { ib = write_at body 4 c.ib }

unfoldable pub try_sealed : Crypto → Gate → Ssh → Ssh × Progress
try_sealed p g c =
    let lenbuf = p.chacha20 (bytes_at c.ib 0 4) (k_header c.ek_c2s) (seqbuf8 c.recv_seq) 0 in
    let pkt_len = u16 (rd_u32 (λ i. get_or lenbuf i 0) 0) in
    let need = u16 (4 + pkt_len + 16) in
    if ltb c.ib_len 4
    then (c, need_more)
    else if ltb pkt_len 8 || (not (pkt_len % 8 == 0) || ltb ib_sz need)
    then (fail (codes "bad encrypted length") c, failed)
    else if ltb c.ib_len need
    then (c, need_more)
    else if not (has_mac p pkt_len c)
    then (fail (codes "MAC verification failed") c, failed)
    else open_packet p g pkt_len need (decrypted p pkt_len c)

unfoldable pub try_packet : Crypto → Gate → Ssh → Ssh × Progress
try_packet p g c = if c.recv_encrypted then try_sealed p g c else try_plain p g c

abbrev pub is_version : Stage → Bool
is_version st_version = true
is_version x = false

abbrev pub is_over : Stage → Bool
is_over st_error = true
is_over st_closed = true
is_over x = false

-- One round of the loop of `ssh_input`.
unfoldable pub try_one : Crypto → Gate → Ssh → Ssh × Progress
try_one p g c = if is_version c.state then try_version c else try_packet p g c

unfoldable pub input_loop : ℕ → Crypto → Gate → Ssh → Ssh
input_loop zero p g c = c
input_loop (suc fuel) p g c =
    let r = try_one p g c in
    let rest = input_loop fuel p g r.0 in
    if is_over c.state then c else if goes_on r.1 then rest else r.0

-- Every round that goes on consumes a byte at least, so the bytes held are fuel enough; but for a packet
-- whose size wraps to 0, on which the loop of the source does not end.
unfoldable pub ssh_input : Crypto → Gate → List ℕ → Ssh → Ssh
ssh_input p g text c =
    let got = record c { ib = write_at text c.ib_len c.ib; ib_len = c.ib_len + length text } in
    if is_error c.state
    then c
    else if ltb ib_sz (c.ib_len + length text)
    then fail (codes "input overflow") c
    else input_loop got.ib_len p g got

-- Up to `max` bytes of the output queue.
unfoldable pub ssh_output : ℕ → Ssh → Ssh × List ℕ
ssh_output max c = (record c { ob = drop max c.ob }, take max c.ob)

unfoldable pub ssh_winsize : Ssh → ℕ × ℕ
ssh_winsize c =
    (if c.term_cols == 0 then 80 else c.term_cols, if c.term_rows == 0 then 25 else c.term_rows)

-- A zeroed connection, the random bytes drawn so far counted on.
abbrev pub cleared : ℕ → Ssh
cleared drawn = record {
  state = st_version;
  err_msg = [];
  done = false;
  cli_ver = [];
  ib = λ i. 0;
  ib_len = 0;
  i_s = [];
  hctx = [];
  session_id = [];
  have_session_id = false;
  ek_c2s = [];
  ek_s2c = [];
  recv_encrypted = false;
  send_encrypted = false;
  send_seq = 0;
  recv_seq = 0;
  discard_next = false;
  svc_name = [];
  authenticated = false;
  auth_fails = 0;
  auth_user = [];
  chan_open = false;
  peer_chan = 0;
  peer_window = 0;
  peer_maxpkt = 0;
  local_window = 0;
  pty = false;
  shell_ready = false;
  term_cols = 0;
  term_rows = 0;
  chan_eof = false;
  chan_sent_eof = false;
  chan_sent_close = false;
  chan_closed = false;
  ob = [];
  cin = λ i. 0;
  cin_head = 0;
  cin_tail = 0;
  cout = [];
  drawn = drawn;
}

unfoldable pub ssh_reset : Crypto → ℕ → Ssh
ssh_reset p drawn =
    let c = build_our_kexinit p (ob_append (server_id ++ (13 ∷ 10 ∷ [])) (cleared drawn)) in
    send_unenc p c.i_s c

-- `while (pw[k] && k < 63)` on the password up to its NUL.
unfoldable pub ssh_set_password : List ℕ → Gate → Gate
ssh_set_password pw g = record g { password = take 63 pw }

abbrev is_blank : ℕ → Bool
is_blank ch = ch == 32 || ch == 9

unfoldable pub skip_blanks : List ℕ → List ℕ
skip_blanks [] = []
skip_blanks (ch ∷ rest) =
    let skipped = skip_blanks rest in if is_blank ch then skipped else ch ∷ rest

abbrev is_digit64 : Option ℕ → Bool
is_digit64 none = false
is_digit64 (some v) = true

-- The key blob's text.
unfoldable pub b64_text : List ℕ → List ℕ
b64_text [] = []
b64_text (ch ∷ rest) =
    let more = b64_text rest in if is_digit64 (b64val ch) || ch == b'=' then ch ∷ more else []

-- A line up to its NUL.
unfoldable pub ssh_parse_authkey_line : List ℕ → Option (List ℕ)
ssh_parse_authkey_line line =
    let start = skip_blanks line in
    let behind = drop 11 start in
    let blob = b64_decode (b64_text (skip_blanks behind)) 80 in
    if not (same_bytes (take 11 start) ssh_ed25519)
    then none
    else if not (is_blank (get_or behind 0 0))
    then none
    else ed25519_key_from_blob (λ i. get_or blob i 0) (length blob)
