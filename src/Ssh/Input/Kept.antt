-- ===== src/Ssh/Input/Kept.antt =====
-- What every message leaves alone in dosshd/ssh.c, those of the session included.
use dossh.Base.{
  ℕ, zero, suc, ◌+◌, ◌-◌, ◌%◌, min, true, false, List, ◌∷◌, ◌++◌, ◌≡◌, refl, ◌∙◌, inl, inr, arith,
  ltb, leb, ◌==◌, if◌then◌else◌, length, take, drop, u16, update, ◌⊎◌, codes,
}
use dossh.Ssh.Wire.{bytes_at, rd_u32, put_u32, put_str}
use dossh.Ssh.State.{Stage, st_session, Crypto, Gate, Ssh, fail, send_packet}
use dossh.Ssh.Channel.{
  chan_reply, refuse_open, accept_open, handle_channel_open, read_size, pty_request, grant,
  handle_channel_request, adjust_local_window, store_keys, handle_channel_data,
  handle_channel_window_adjust, flush_loop, ssh_channel_flush, ssh_channel_close, chunk_room,
  data_packet, cin_sz, full_window, send_exit_status, send_eof,
}
use dossh.Ssh.Input.{session_packet, staged_packet, handle_packet}
use dossh.Ssh.Input.Lock.{is_session}
use dossh.Ssh.Input.Quiet.{
  IsQuiet, send_packet-IsQuiet, handle_global_request-IsQuiet, handle_packet-IsQuiet,
}

-- The input that is held stays, and an authenticated client stays authenticated.
pub record IsKept (c c' : Ssh) : Type 0 where
  pub held : c'.ib_len ≡ c.ib_len
  pub admitted : c.authenticated ≡ true → c'.authenticated ≡ true

pub then-IsKept : {c c1 c2 : Ssh} → IsKept c c1 → IsKept c1 c2 → IsKept c c2
then-IsKept q r = record { held = r.held ∙ q.held; admitted = λ e. r.admitted (q.admitted e) }

quiet-IsKept : {c c' : Ssh} → IsQuiet c c' → IsKept c c'
quiet-IsKept q = record { held = q.held; admitted = q.admitted }

same-IsKept : (c : Ssh) → IsKept c c
same-IsKept c = record { held = refl; admitted = λ e. e }

packet-IsKept : (p : Crypto) (payload : List ℕ) (c : Ssh) → IsKept c (send_packet p payload c)
packet-IsKept p payload c = quiet-IsKept (send_packet-IsQuiet p payload c)

refuse_open-IsKept : (p : Crypto) (sender : ℕ) (c : Ssh) → IsKept c (refuse_open p sender c)
unfolding refuse_open
refuse_open-IsKept p sender c = packet-IsKept p _ c

accept_open-IsKept :
    (p : Crypto) (sender iwin maxp : ℕ) (c : Ssh) → IsKept c (accept_open p sender iwin maxp c)
unfolding accept_open
accept_open-IsKept p sender iwin maxp c =
    let v = packet-IsKept p _ _ in record { held = v.held; admitted = v.admitted }

handle_channel_open-IsKept :
    (p : Crypto) (pl : ℕ → ℕ) (plen : ℕ) (c : Ssh) → IsKept c (handle_channel_open p pl plen c)
unfolding handle_channel_open fail
handle_channel_open-IsKept p pl plen c =
    let o : ℕ = u16 (5 + u16 (rd_u32 pl 1)) in
    let refused = refuse_open-IsKept p (rd_u32 pl o) c in
    let opened =
      accept_open-IsKept p (rd_u32 pl o) (rd_u32 pl (u16 (o + 4))) (rd_u32 pl (u16 (o + 8))) c in
    ground (arith, refused, opened)

grant-IsKept :
    (rtype : List ℕ) (pl : ℕ → ℕ) (plen o : ℕ) (c : Ssh) → IsKept c (grant rtype pl plen o c).0
unfolding grant pty_request read_size
grant-IsKept rtype pl plen o c = ground arith

handle_channel_request-IsKept :
    (p : Crypto) (pl : ℕ → ℕ) (plen : ℕ) (c : Ssh) → IsKept c (handle_channel_request p pl plen c)
unfolding handle_channel_request chan_reply
handle_channel_request-IsKept p pl plen c =
    let rtlen : ℕ = u16 (rd_u32 pl 5) in
    let o : ℕ = u16 (9 + rtlen) in
    let r = grant (bytes_at pl 9 rtlen) pl plen (u16 (o + 1)) c in
    let granted = grant-IsKept (bytes_at pl 9 rtlen) pl plen (u16 (o + 1)) c in
    let replied = packet-IsKept p ((if r.1 then 99 else 100) ∷ put_u32 r.0.peer_chan) r.0 in
    ground (arith, granted, replied)

store_keys-IsKept : (left : ℕ) (pl : ℕ → ℕ) (i : ℕ) (c : Ssh) → IsKept c (store_keys left pl i c)
unfolding store_keys
store_keys-IsKept zero pl i c = same-IsKept c
store_keys-IsKept (suc left) pl i c =
    let next : Ssh = record c {
      cin = update c.cin c.cin_tail (pl (9 + i));
      cin_tail = (c.cin_tail + 1) % cin_sz;
    } in
    let rest = store_keys-IsKept left pl (i + 1) next in ground (arith, rest)

adjust_local_window-IsKept :
    (p : Crypto) (consumed : ℕ) (c : Ssh) → IsKept c (adjust_local_window p consumed c)
unfolding adjust_local_window
adjust_local_window-IsKept p consumed c =
    let left : ℕ = if leb consumed c.local_window then c.local_window - consumed else 0 in
    let sent =
      packet-IsKept p (93 ∷ (put_u32 c.peer_chan ++ put_u32 (full_window - left)))
        (record c { local_window = left }) in
    ground (arith, sent)

handle_channel_data-IsKept :
    (p : Crypto) (pl : ℕ → ℕ) (plen : ℕ) (c : Ssh) → IsKept c (handle_channel_data p pl plen c)
unfolding handle_channel_data
handle_channel_data-IsKept p pl plen c =
    let claimed : ℕ = u16 (rd_u32 pl 5) in
    let dlen : ℕ = if ltb plen (u16 (9 + claimed)) then plen - 9 else claimed in
    let stored = store_keys-IsKept dlen pl 0 c in
    let adjusted = adjust_local_window-IsKept p dlen (store_keys dlen pl 0 c) in
    let both = then-IsKept stored adjusted in ground (arith, both)

flush_loop-IsKept :
    (fuel : ℕ) (p : Crypto) (staged : List ℕ) (c : Ssh) → IsKept c (flush_loop fuel p staged c).0
unfolding flush_loop
flush_loop-IsKept zero p staged c = same-IsKept c
flush_loop-IsKept (suc fuel) p staged c =
    let n : ℕ = min (length staged) (chunk_room c) in
    let sent : Ssh = send_packet p (data_packet c (take n staged)) c in
    let first = packet-IsKept p (data_packet c (take n staged)) c in
    let rest =
      flush_loop-IsKept fuel p (drop n staged)
        (record sent { peer_window = sent.peer_window - n }) in
    ground (arith, first, rest)

ssh_channel_flush-IsKept : (p : Crypto) (c : Ssh) → IsKept c (ssh_channel_flush p c)
unfolding ssh_channel_flush
ssh_channel_flush-IsKept p c = ground (arith, flush_loop-IsKept (length c.cout) p c.cout c)

ssh_channel_close-IsKept : (p : Crypto) (c : Ssh) → IsKept c (ssh_channel_close p c)
unfolding ssh_channel_close
ssh_channel_close-IsKept p c =
    let flushed : Ssh = ssh_channel_flush p c in
    let v0 = ssh_channel_flush-IsKept p c in
    let status : Ssh = send_exit_status p flushed in
    let v1 : IsKept flushed status = ground (
      arith,
      packet-IsKept p
          (98 ∷ (put_u32 flushed.peer_chan ++ (put_str (codes "exit-status") ++ (0 ∷ put_u32 0))))
          flushed,
    ) in
    let ended : Ssh = send_eof p status in
    let v2 : IsKept status ended =
      ground (arith, packet-IsKept p (96 ∷ put_u32 status.peer_chan) status) in
    let v3 = packet-IsKept p (97 ∷ put_u32 c.peer_chan) ended in
    let all_kept = then-IsKept v0 (then-IsKept v1 (then-IsKept v2 v3)) in ground (arith, all_kept)

session_packet-IsKept :
    (p : Crypto) (msg : ℕ) (pl : ℕ → ℕ) (plen : ℕ) (c : Ssh)
    → IsKept c (session_packet p msg pl plen c)
unfolding session_packet handle_channel_window_adjust
session_packet-IsKept p msg pl plen c =
    let opened = handle_channel_open-IsKept p pl plen c in
    let asked = handle_channel_request-IsKept p pl plen c in
    let typed = handle_channel_data-IsKept p pl plen c in
    let closed = ssh_channel_close-IsKept p c in ground (arith, opened, asked, typed, closed)

session-IsKept :
    (p : Crypto) (g : Gate) (pl : ℕ → ℕ) (plen : ℕ) (c : Ssh)
    → c.state ≡ st_session
    → IsKept c (handle_packet p g pl plen c)
unfolding handle_packet staged_packet
session-IsKept p g pl plen c e =
    let msg : ℕ = if plen == 0 then 0 else pl 0 in
    let global = handle_global_request-IsQuiet p pl plen c in
    let session = session_packet-IsKept p msg pl plen c in ground (arith, e, global, session)

is_session-cases : (st : Stage) → (is_session st ≡ false) ⊎ (st ≡ st_session)
is_session-cases st = ground arith

-- Any packet, in any state.
pub handle_packet-IsKept :
    (p : Crypto) (g : Gate) (pl : ℕ → ℕ) (plen : ℕ) (c : Ssh)
    → IsKept c (handle_packet p g pl plen c)
handle_packet-IsKept p g pl plen c = elim (is_session-cases c.state) [
  | inl out ↦ quiet-IsKept (handle_packet-IsQuiet p g pl plen c out)
  | inr session ↦ session-IsKept p g pl plen c session
]
