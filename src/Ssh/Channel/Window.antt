-- ===== src/Ssh/Channel/Window.antt =====
-- The windows of the session channel of dosshd/ssh.c.
use dossh.Base.{
  ℕ, zero, suc, ◌+◌, ◌-◌, ◌/◌, ◌%◌, ◌<◌, ◌≤◌, Bool, List, [], ◌∷◌, ◌++◌, ◌≡◌, ◌&&◌, ◌⊎◌, inl, inr,
  arith, ap, sym, refl, ◌==◌, ltb, leb, if◌then◌else◌, length, update, u16, u32, Bool-cases,
}
use mathlib.Core.Path.{subst, ap₂}
use dossh.Ssh.Wire.{rd_u32, put_u32}
use dossh.Ssh.State.{
  Crypto, Ssh, fail, ob_append, send_packet, send_enc, send_unenc, aead_seal, sealed, seal_body,
  rng_bytes,
}
use dossh.Ssh.Channel.{
  full_window, cin_sz, chan_chunk, adjust_local_window, store_keys, handle_channel_data,
  ssh_channel_emit, ssh_channel_ready, chunk_room, data_packet,
}

-- What `ssh_channel_emit` may do for a chunk: nothing at all, or the sealed packet, of a chunk that
-- the client's window and packet size allow, with the window smaller by the chunk.
pub record IsSent (p : Crypto) (plain : List ℕ) (c : Ssh) (r : Ssh × List ℕ) : Type 0 where
  pub allowed : length plain ≤ chunk_room c
  pub paid : r.0.peer_window + length plain ≡ c.peer_window
  pub packed : r.1 ≡ sealed p (data_packet c plain) c
  pub counted : r.0.send_seq ≡ u32 (c.send_seq + 1)

-- Screen bytes go out only within the client's window: `ssh_channel_emit` either changes nothing and
-- returns no bytes, or seals one packet of the chunk, which the window, the client's packet size
-- and the 200 bytes of a chunk allow, and takes the chunk off the window.
pub ssh_channel_emit-IsSent :
    (p : Crypto) (plain : List ℕ) (outmax : ℕ) (c : Ssh)
    → (ssh_channel_emit p plain outmax c ≡ (c, []))
      ⊎ IsSent p plain c (ssh_channel_emit p plain outmax c)
unfolding ssh_channel_emit aead_seal chunk_room sealed seal_body rng_bytes
ssh_channel_emit-IsSent p plain outmax c =
    let n : ℕ = length plain in
    let may_send : Bool =
      ssh_channel_ready c
      && (c.send_encrypted
          && (ltb 0 n
              && (leb n chan_chunk
                  && (leb n c.peer_window && (leb n c.peer_maxpkt && leb (n + 40) outmax))))) in
    elim (Bool-cases may_send) [
      | inl h ↦ inr (record {
        allowed = ground arith;
        paid = ground arith;
        packed = ground arith;
        counted = ground arith;
      })
      | inr h ↦ inl (ground arith)
    ]

send_packet-window :
    (p : Crypto) (payload : List ℕ) (c : Ssh)
    → ((send_packet p payload c).local_window ≡ c.local_window)
      × ((send_packet p payload c).cin_head ≡ c.cin_head)
      × ((send_packet p payload c).cin_tail ≡ c.cin_tail)
      × ((send_packet p payload c).cin ≡ c.cin)
unfolding send_packet send_enc send_unenc aead_seal ob_append fail
send_packet-window p payload c = ground arith

-- The key ring's indices lie in the ring, and the client may send between half of the full window
-- and all of it.
pub record IsOpen (c : Ssh) : Type 0 where
  pub head_lt : c.cin_head < cin_sz
  pub tail_lt : c.cin_tail < cin_sz
  pub half : full_window / 2 ≤ c.local_window
  pub full : c.local_window ≤ full_window

store_keys-IsOpen :
    (left : ℕ) (pl : ℕ → ℕ) (i : ℕ) (c : Ssh) → IsOpen c → IsOpen (store_keys left pl i c)
unfolding store_keys
store_keys-IsOpen zero pl i c v = v
store_keys-IsOpen (suc left) pl i c v =
    let c' : Ssh = record c {
      cin = update c.cin c.cin_tail (pl (9 + i));
      cin_tail = (c.cin_tail + 1) % cin_sz;
    } in
    let v' : IsOpen c' = ground arith in ground (arith, store_keys-IsOpen left pl (i + 1) c' v')

adjust_local_window-IsOpen :
    (p : Crypto) (consumed : ℕ) (c : Ssh)
    → c.cin_head < cin_sz
    → c.cin_tail < cin_sz
    → c.local_window ≤ full_window
    → IsOpen (adjust_local_window p consumed c)
unfolding adjust_local_window
adjust_local_window-IsOpen p consumed c head tail full =
    let left : ℕ = if leb consumed c.local_window then c.local_window - consumed else 0 in
    let (w, h, t, keys) =
      send_packet-window p (93 ∷ (put_u32 c.peer_chan ++ put_u32 (full_window - left)))
        (record c { local_window = left }) in
    ground (arith, w, h, t)

-- How many bytes of data a message of `plen` bytes is taken to have: what it claims, but no more than
-- arrived, where the sum of claim and header wraps at 16 bits as in the source.
abbrev pub data_len : (ℕ → ℕ) → ℕ → ℕ
data_len pl plen =
    let claimed = u16 (rd_u32 pl 5) in
    if ltb plen 9 then 0 else if ltb plen (u16 (9 + claimed)) then plen - 9 else claimed

-- The connection with the keys of `c'` in the ring, and so many bytes left of the client's window.
abbrev pub keyed : Ssh → Ssh → Ssh
keyed c c' = record c { cin = c'.cin; cin_tail = c'.cin_tail }

abbrev pub charged : ℕ → Ssh → Ssh → Ssh
charged left c c' = record (keyed c c') { local_window = left }

-- The window grows only by what a WINDOW_ADJUST tells the client: nothing is sent and nothing else
-- changes, or one message (93, the client's channel, the bytes added) goes out and just as much
-- is added.
abbrev pub IsTold : Crypto → Ssh → Ssh → Type 0
IsTold p k c' =
    (c' ≡ k)
    ⊎ ((add : ℕ) × (0 < add)
        × (c' ≡ record (send_packet p (93 ∷ (put_u32 k.peer_chan ++ put_u32 add)) k) {
          local_window = k.local_window + add;
        }))

store_keys-keyed :
    (left : ℕ) (pl : ℕ → ℕ) (i : ℕ) (c : Ssh)
    → store_keys left pl i c ≡ keyed c (store_keys left pl i c)
unfolding store_keys
store_keys-keyed zero pl i c = refl
store_keys-keyed (suc left) pl i c =
    let c' : Ssh = record c {
      cin = update c.cin c.cin_tail (pl (9 + i));
      cin_tail = (c.cin_tail + 1) % cin_sz;
    } in
    elim (Bool-cases ((c.cin_tail + 1) % cin_sz == c.cin_head)) [
      | inl full ↦ rw full refl
      | inr room ↦ rw room (store_keys-keyed left pl (i + 1) c')
    ]

-- What `adjust_local_window` does once the bytes are off the window.
abbrev adjusted : Crypto → Ssh → ℕ → Ssh
adjusted p c left =
    let start : Ssh = record c { local_window = left } in
    let sent : Ssh =
      send_packet p (93 ∷ (put_u32 c.peer_chan ++ put_u32 (full_window - left))) start in
    if leb (full_window / 2) left then start else record sent { local_window = full_window }

adjusted-IsTold :
    (p : Crypto) (c : Ssh) (left : ℕ)
    → left ≤ full_window
    → IsTold p (charged left c (adjusted p c left)) (adjusted p c left)
adjusted-IsTold p c left full =
    let add : ℕ = full_window - left in
    let start : Ssh = record c { local_window = left } in
    let sent : Ssh = send_packet p (93 ∷ (put_u32 c.peer_chan ++ put_u32 add)) start in
    let (w, h, t, keys) = send_packet-window p (93 ∷ (put_u32 c.peer_chan ++ put_u32 add)) start in
    let whole : full_window ≡ left + add = omega arith in
    let same : start ≡ charged left c sent =
      sym (ap₂ (λ x y. record start { cin = x; cin_tail = y }) keys t) in
    elim (Bool-cases (leb (full_window / 2) left)) [
      | inl enough ↦ rw enough (inl refl)
      | inr low ↦
          let some_room : 0 < add = ground arith in
          let last : Ssh = record sent { local_window = full_window } in
          rw low (
            subst (λ k. IsTold p k last) same
              (inr (add, some_room, ap (λ x. record sent { local_window = x }) whole)))
    ]

adjust_local_window-IsTold :
    (p : Crypto) (n : ℕ) (c : Ssh)
    → c.local_window ≤ full_window
    → IsTold p
        (charged (c.local_window - n) c (adjust_local_window p n c))
        (adjust_local_window p n c)
unfolding adjust_local_window
adjust_local_window-IsTold p n c full =
    let left : ℕ = if leb n c.local_window then c.local_window - n else 0 in
    let same : left ≡ c.local_window - n = ground arith in
    let c' : Ssh = adjusted p c left in
    subst (λ x. IsTold p (charged x c c') c') same (adjusted-IsTold p c left (ground arith))

-- CHANNEL_DATA of any content and claimed length keeps the key ring's indices in the ring and the
-- client's window between a half of 32768 and all of it; and the window agrees with what the client
-- was told: it goes down by the bytes of data that the message is taken to have (`data_len`), at
-- most to 0, and then either nothing is sent, or one WINDOW_ADJUST is given to `send_packet`, and
-- the window goes up by the bytes that it names. Nothing else changes but the keys in the ring
-- and what `send_packet` changes.
pub handle_channel_data-IsOpen :
    (p : Crypto) (pl : ℕ → ℕ) (plen : ℕ) (c : Ssh)
    → IsOpen c
    → let c' = handle_channel_data p pl plen c in
      IsOpen c' × IsTold p (charged (c.local_window - data_len pl plen) c c') c'
unfolding handle_channel_data
handle_channel_data-IsOpen p pl plen c v =
    let claimed : ℕ = u16 (rd_u32 pl 5) in
    let dlen : ℕ = if ltb plen (u16 (9 + claimed)) then plen - 9 else claimed in
    let c1 : Ssh = store_keys dlen pl 0 c in
    let c2 : Ssh = adjust_local_window p dlen c1 in
    let stored = store_keys-IsOpen dlen pl 0 c v in
    let told = adjust_local_window-IsTold p dlen c1 stored.full in
    let same : charged (c1.local_window - dlen) c1 c2 ≡ charged (c.local_window - dlen) c c2 =
      ap (λ x. charged (x.local_window - dlen) x c2) (store_keys-keyed dlen pl 0 c) in
    let none_taken : c.local_window ≡ c.local_window - 0 = omega arith in
    elim (Bool-cases (ltb plen 9)) [
      | inl short ↦ rw short (v, inl (ap (λ x. record c { local_window = x }) none_taken))
      | inr long ↦ rw long (
        adjust_local_window-IsOpen p dlen c1 stored.head_lt stored.tail_lt stored.full,
        subst (λ k. IsTold p k c2) same told,
      )
    ]
