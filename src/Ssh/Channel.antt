-- ===== src/Ssh/Channel.antt =====
-- The session channel of dosshd/ssh.c (RFC 4254).
pub mod Window
pub mod Packets
use dossh.Base.{
  ℕ, zero, suc, ◌+◌, ◌-◌, ◌*◌, ◌/◌, ◌%◌, ◌^◌, min, Bool, true, false, not, ◌&&◌, ◌||◌, List, [],
  ◌∷◌, ◌++◌, Option, none, some, ltb, leb, ◌==◌, if◌then◌else◌, length, get_or, take, drop,
  same_bytes, update, u8, u16, u32, codes,
}
use dossh.Ssh.Wire.{bytes_at, put_u32, rd_u32, put_str}
use dossh.Ssh.State.{Stage, is_error, Crypto, Ssh, fail, send_packet, aead_seal, ob_sz}

unfoldable pub chan_reply : Crypto → ℕ → Ssh → Ssh
chan_reply p type c = send_packet p (type ∷ put_u32 c.peer_chan) c

abbrev pub full_window : ℕ
full_window = 32768

abbrev pub chan_maxpkt : ℕ
chan_maxpkt = 1024

-- The reply that refuses a channel.
unfoldable pub refuse_open : Crypto → ℕ → Ssh → Ssh
refuse_open p sender c =
    send_packet p
      (92
        ∷ (put_u32 sender
            ++ (put_u32 (if c.chan_open then 1 else 3)
                ++ (put_str (codes "only one session channel") ++ put_str []))))
      c

unfoldable pub accept_open : Crypto → ℕ → ℕ → ℕ → Ssh → Ssh
accept_open p sender iwin maxp c =
    send_packet p
      (91 ∷ (put_u32 sender ++ (put_u32 0 ++ (put_u32 full_window ++ put_u32 chan_maxpkt))))
      (record c {
        peer_chan = sender;
        peer_window = iwin;
        peer_maxpkt = maxp;
        local_window = full_window;
        chan_open = true;
      })

unfoldable pub handle_channel_open : Crypto → (ℕ → ℕ) → ℕ → Ssh → Ssh
handle_channel_open p pl plen c =
    let tlen = u16 (rd_u32 pl 1) in
    let o = u16 (5 + tlen) in
    let sender = rd_u32 pl o in
    if ltb plen 5
    then fail (codes "short CHANNEL_OPEN") c
    else if ltb plen (u16 (o + 12))
    then fail (codes "bad CHANNEL_OPEN") c
    else if c.chan_open || not (same_bytes (bytes_at pl 5 tlen) (codes "session"))
    then refuse_open p sender c
    else accept_open p sender (rd_u32 pl (u16 (o + 4))) (rd_u32 pl (u16 (o + 8))) c

-- The window size at `o`, if it lies within the payload.
unfoldable pub read_size : (ℕ → ℕ) → ℕ → ℕ → Ssh → Ssh
read_size pl plen o c =
    if ltb plen (u16 (o + 8))
    then c
    else record c { term_cols = u16 (rd_u32 pl o); term_rows = u16 (rd_u32 pl (o + 4)) }

unfoldable pub pty_request : (ℕ → ℕ) → ℕ → ℕ → Ssh → Ssh
pty_request pl plen o c =
    let sized =
      if ltb plen (u16 (o + 4)) then c else read_size pl plen (u16 (o + 4 + u16 (rd_u32 pl o))) c in
    record sized { pty = true }

-- The request by its type, and whether it is granted.
unfoldable pub grant : List ℕ → (ℕ → ℕ) → ℕ → ℕ → Ssh → Ssh × Bool
grant rtype pl plen o c =
    if same_bytes rtype (codes "pty-req")
    then (pty_request pl plen o c, true)
    else if same_bytes rtype (codes "shell") || same_bytes rtype (codes "exec")
    then (record c { shell_ready = true }, true)
    else if same_bytes rtype (codes "window-change")
    then (read_size pl plen o c, true)
    else (c, false)

unfoldable pub handle_channel_request : Crypto → (ℕ → ℕ) → ℕ → Ssh → Ssh
handle_channel_request p pl plen c =
    let rtlen = u16 (rd_u32 pl 5) in
    let o = u16 (9 + rtlen) in
    let (c', granted) = grant (bytes_at pl 9 rtlen) pl plen (u16 (o + 1)) c in
    if ltb plen 5 || ltb plen 9
    then c
    else if ltb plen (u16 (o + 1))
    then c
    else if pl o == 0
    then c'
    else chan_reply p (if granted then 99 else 100) c'

unfoldable pub adjust_local_window : Crypto → ℕ → Ssh → Ssh
adjust_local_window p consumed c =
    let left = if leb consumed c.local_window then c.local_window - consumed else 0 in
    if leb (full_window / 2) left
    then record c { local_window = left }
    else record (send_packet p (93 ∷ (put_u32 c.peer_chan ++ put_u32 (full_window - left)))
        (record c { local_window = left })) { local_window = full_window }

abbrev pub cin_sz : ℕ
cin_sz = 256

-- `left` bytes from the index `i`, as far as the ring has room.
unfoldable pub store_keys : ℕ → (ℕ → ℕ) → ℕ → Ssh → Ssh
store_keys zero pl i c = c
store_keys (suc left) pl i c =
    let rest = store_keys left pl (i + 1) (record c {
      cin = update c.cin c.cin_tail (pl (9 + i));
      cin_tail = (c.cin_tail + 1) % cin_sz;
    }) in
    if (c.cin_tail + 1) % cin_sz == c.cin_head then c else rest

unfoldable pub handle_channel_data : Crypto → (ℕ → ℕ) → ℕ → Ssh → Ssh
handle_channel_data p pl plen c =
    let claimed = u16 (rd_u32 pl 5) in
    let dlen = if ltb plen (u16 (9 + claimed)) then plen - 9 else claimed in
    if ltb plen 9 then c else adjust_local_window p dlen (store_keys dlen pl 0 c)

unfoldable pub handle_channel_window_adjust : (ℕ → ℕ) → ℕ → Ssh → Ssh
handle_channel_window_adjust pl plen c =
    if ltb plen 9 then c else record c { peer_window = u32 (c.peer_window + rd_u32 pl 5) }

unfoldable pub handle_global_request : Crypto → (ℕ → ℕ) → ℕ → Ssh → Ssh
handle_global_request p pl plen c =
    let o = u16 (5 + u16 (rd_u32 pl 1)) in
    if ltb plen 5 then c else if ltb o plen && not (pl o == 0) then send_packet p (82 ∷ []) c else c

unfoldable pub ssh_channel_ready : Ssh → Bool
ssh_channel_ready c = c.chan_open && (c.shell_ready && not c.chan_closed)

-- `ssh_channel_getc`; `none` is its -1.
unfoldable pub ssh_channel_getc : Ssh → Ssh × Option ℕ
ssh_channel_getc c =
    if c.cin_head == c.cin_tail
    then (c, none)
    else (record c { cin_head = (c.cin_head + 1) % cin_sz }, some (c.cin c.cin_head))

abbrev pub cout_sz : ℕ
cout_sz = 512

unfoldable pub ssh_channel_putc : ℕ → Ssh → Ssh × Bool
ssh_channel_putc byte c =
    if not c.shell_ready || c.chan_closed
    then (c, false)
    else if leb cout_sz (length c.cout)
    then (c, false)
    else (record c { cout = c.cout ++ (u8 byte ∷ []) }, true)

abbrev pub chan_chunk : ℕ
chan_chunk = 200

-- The most bytes that one packet may carry to the client now.
unfoldable pub chunk_room : Ssh → ℕ
chunk_room c = min chan_chunk (min c.peer_window c.peer_maxpkt)

abbrev pub data_packet : Ssh → List ℕ → List ℕ
data_packet c text = 94 ∷ (put_u32 c.peer_chan ++ put_str text)

-- The loop of `ssh_channel_flush` on what is staged, with what it leaves.
unfoldable pub flush_loop : ℕ → Crypto → List ℕ → Ssh → Ssh × List ℕ
flush_loop zero p staged c = (c, staged)
flush_loop (suc fuel) p staged c =
    let n = min (length staged) (chunk_room c) in
    let sent = send_packet p (data_packet c (take n staged)) c in
    let rest =
      flush_loop fuel p (drop n staged) (record sent { peer_window = sent.peer_window - n }) in
    if n == 0
    then (c, staged)
    else if ltb ob_sz (length c.ob + n + 64)
    then (c, staged)
    else if is_error sent.state
    then (sent, staged)
    else rest

unfoldable pub ssh_channel_flush : Crypto → Ssh → Ssh
ssh_channel_flush p c =
    let (c', left) = flush_loop (length c.cout) p c.cout c in
    if not c.chan_open || c.chan_closed then record c { cout = [] } else record c' { cout = left }

unfoldable pub ssh_channel_avail : Ssh → ℕ
ssh_channel_avail c = if ssh_channel_ready c then chunk_room c else 0

-- The wire bytes, empty where the C function returns 0.
unfoldable pub ssh_channel_emit : Crypto → List ℕ → ℕ → Ssh → Ssh × List ℕ
ssh_channel_emit p plain outmax c =
    let n = length plain in
    if not (ssh_channel_ready c) || not c.send_encrypted
    then (c, [])
    else if n == 0 || ltb chan_chunk n
    then (c, [])
    else if ltb c.peer_window n || ltb c.peer_maxpkt n
    then (c, [])
    else if ltb outmax (n + 40)
    then (c, [])
    else aead_seal p (data_packet c plain) (record c { peer_window = c.peer_window - n })

abbrev pub send_exit_status : Crypto → Ssh → Ssh
send_exit_status p c =
    if c.shell_ready
    then send_packet p
        (98 ∷ (put_u32 c.peer_chan ++ (put_str (codes "exit-status") ++ (0 ∷ put_u32 0)))) c
    else c

abbrev pub send_eof : Crypto → Ssh → Ssh
send_eof p c =
    if c.chan_sent_eof
    then c
    else record (send_packet p (96 ∷ put_u32 c.peer_chan) c) { chan_sent_eof = true }

unfoldable pub ssh_channel_close : Crypto → Ssh → Ssh
ssh_channel_close p c =
    let ended = send_eof p (send_exit_status p (ssh_channel_flush p c)) in
    if not c.chan_open || c.chan_sent_close
    then c
    else record (send_packet p (97 ∷ put_u32 c.peer_chan) ended) {
      chan_sent_close = true;
      chan_closed = true;
    }
