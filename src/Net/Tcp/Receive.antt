-- ===== src/Net/Tcp/Receive.antt =====
-- The receive ring of dosshd/net.c as a queue of at most 511 bytes.
use mathlib.Core.Path.{ap₂}
use dossh.Base.{
  ℕ, zero, suc, ◌+◌, ◌-◌, ◌%◌, ◌^◌, ◌<◌, ◌≤◌, min, true, false, List, [], ◌∷◌, ◌++◌, Option, none,
  some, ◌≡◌, ◌≢◌, refl, sym, ap, ◌∙◌, inl, inr, arith, u32, sub16, ◌==◌, if◌then◌else◌, Bool-cases,
  update, append_assoc, append-nil,
}
use dossh.Net.Conn.{Conn, Host, rcv_mask, window, tcp_send_seg}
use dossh.Net.Tcp.{Segment, store_bytes, take_data, getc}

-- `n` bytes of the ring from the index `d`.
abbrev pub ring_list : (ℕ → ℕ) → ℕ → ℕ → List ℕ
ring_list buf d zero = []
ring_list buf d (suc n) = buf (rcv_mask d) ∷ ring_list buf (d + 1) n

-- The bytes that were received and not yet read, the oldest first.
abbrev pub queue_len : Conn → ℕ
queue_len c = rcv_mask (sub16 c.r_head c.r_tail)

abbrev pub queue : Conn → List ℕ
queue c = ring_list c.rbuf c.r_tail (queue_len c)

-- The payload's bytes from the index `i`.
abbrev pub payload_from : Segment → ℕ → ℕ → List ℕ
payload_from seg i zero = []
payload_from seg i (suc n) = seg.payload i ∷ payload_from seg (i + 1) n

-- The indices lie in the ring.
pub record InRing (c : Conn) : Type 0 where
  pub head_lt : c.r_head < 2 ^ 9
  pub tail_lt : c.r_tail < 2 ^ 9

-- A write at the end of a stretch leaves the stretch alone.
ring_list-update :
    (buf : ℕ → ℕ) (h v d n : ℕ)
    → h < 2 ^ 9
    → n < 2 ^ 9
    → (d + n) % 2 ^ 9 ≡ h
    → ring_list (update buf h v) d n ≡ ring_list buf d n
ring_list-update buf h v d zero p q e = refl
ring_list-update buf h v d (suc n) p q e =
    ground (arith, ring_list-update buf h v (d + 1) n p (omega arith) (omega arith))

ring_list-snoc :
    (buf : ℕ → ℕ) (d n : ℕ)
    → ring_list buf d (suc n) ≡ ring_list buf d n ++ (buf (rcv_mask (d + n)) ∷ [])
ring_list-snoc buf d zero = ground arith
ring_list-snoc buf d (suc n) =
    let index : rcv_mask (d + 1 + n) ≡ rcv_mask (d + suc n) = omega arith in
    ap (λ t. buf (rcv_mask d) ∷ t)
      (ring_list-snoc buf (d + 1) n ∙ ap (λ i. ring_list buf (d + 1) n ++ (buf i ∷ [])) index)

-- A byte put into a ring that is not full goes to the end of the queue.
push_rx : Conn → ℕ → Conn
push_rx c v = record c { rbuf = update c.rbuf c.r_head v; r_head = rcv_mask (c.r_head + 1) }

push_rx-queue :
    (c : Conn) (v : ℕ)
    → InRing c
    → (rcv_mask (c.r_head + 1) == c.r_tail) ≡ false
    → (queue (push_rx c v) ≡ queue c ++ (v ∷ []))
      × (queue_len (push_rx c v) ≡ queue_len c + 1)
      × InRing (push_rx c v)
unfolding push_rx
push_rx-queue c v r room =
    let longer : queue_len (push_rx c v) ≡ suc (queue_len c) = ground arith in
    let last : update c.rbuf c.r_head v (rcv_mask (c.r_tail + queue_len c)) ≡ v = ground arith in
    (
      ap (ring_list (update c.rbuf c.r_head v) c.r_tail) longer
          ∙ (ring_list-snoc (update c.rbuf c.r_head v) c.r_tail (queue_len c)
              ∙ ap₂ (λ xs x. xs ++ (x ∷ []))
                  (ring_list-update c.rbuf c.r_head v c.r_tail (queue_len c) r.head_lt (omega arith)
                    (omega arith))
                  last),
      omega arith,
      ground arith,
    )

full_iff : (c : Conn) → InRing c → (rcv_mask (c.r_head + 1) == c.r_tail) ≡ (queue_len c == 511)
full_iff c r = ground arith

-- The loop stores as many bytes as there is room for, at the end of the queue.
store_bytes-queue :
    (left i : ℕ) (seg : Segment) (c : Conn) (stored k : ℕ)
    → InRing c
    → k ≡ min left (511 - queue_len c)
    → (queue (store_bytes left i seg c stored).0 ≡ queue c ++ payload_from seg i k)
      × ((store_bytes left i seg c stored).1 ≡ stored + k)
      × ((store_bytes left i seg c stored).0.rcv_nxt ≡ c.rcv_nxt)
unfolding store_bytes push_rx
store_bytes-queue zero i seg c stored zero r e = (sym (append-nil (queue c)), omega arith, refl)
store_bytes-queue zero i seg c stored (suc k) r e = absurd (omega arith)
store_bytes-queue (suc left) i seg c stored zero r e =
    let full : (rcv_mask (c.r_head + 1) == c.r_tail) ≡ true = ground arith in
    rw full (sym (append-nil (queue c)), omega arith, refl)
store_bytes-queue (suc left) i seg c stored (suc k) r e =
    let room : (rcv_mask (c.r_head + 1) == c.r_tail) ≡ false = ground arith in
    let (pushed, longer, ok) = push_rx-queue c (seg.payload i) r room in
    let (tail, count, num) =
      store_bytes-queue left (i + 1) seg (push_rx c (seg.payload i)) (stored + 1) k ok
        (omega arith) in
    rw room (
      tail
          ∙ (ap (λ q. q ++ payload_from seg (i + 1) k) pushed
              ∙ append_assoc (queue c) (seg.payload i ∷ []) (payload_from seg (i + 1) k)),
      omega arith,
      num,
    )

-- How many of a segment's bytes the connection takes: those that fit, of a segment in order.
abbrev pub accepted : Conn → Segment → ℕ
accepted c seg = if seg.seq == c.rcv_nxt then min seg.dlen (511 - queue_len c) else 0

-- The loop writes the ring and its head, and nothing else.
abbrev stored_in : Conn → Conn → Conn
stored_in c c' = record c { rbuf = c'.rbuf; r_head = c'.r_head }

store_bytes-stored :
    (left i : ℕ) (seg : Segment) (c : Conn) (stored : ℕ)
    → (store_bytes left i seg c stored).0 ≡ stored_in c (store_bytes left i seg c stored).0
unfolding store_bytes
store_bytes-stored zero i seg c stored = refl
store_bytes-stored (suc left) i seg c stored =
    elim (Bool-cases (rcv_mask (c.r_head + 1) == c.r_tail)) [
      | inl full ↦ rw full refl
      | inr room ↦
          let next : Conn = record c {
            rbuf = update c.rbuf c.r_head (seg.payload i);
            r_head = rcv_mask (c.r_head + 1);
          } in
          rw room (store_bytes-stored left (i + 1) seg next (stored + 1))
    ]

-- A segment with data, at a connection whose ring indices lie in the ring: in order, its bytes go to the end of the queue as far as they fit, the next
-- expected number counts just those, and nothing but the ring's contents, its head and that number
-- changes; out of order, the connection stays as it is. Either way one ACK is sent, of the
-- connection as it is then.
pub take_data-queue :
    (h : Host) (c : Conn) (seg : Segment)
    → InRing c
    → seg.dlen ≢ 0
    → let c' = (take_data h c seg).0 in
      (queue c' ≡ queue c ++ payload_from seg 0 (accepted c seg))
      × (c' ≡ (
          if seg.seq == c.rcv_nxt
          then record c {
            rbuf = c'.rbuf;
            r_head = c'.r_head;
            rcv_nxt = u32 (c.rcv_nxt + accepted c seg);
          }
          else c))
      × ((take_data h c seg).1 ≡ tcp_send_seg h c' 0x10 false 0 0 ∷ [])
unfolding take_data
take_data-queue h c seg r some_data =
    let nonempty : (seg.dlen == 0) ≡ false = ground arith in
    let (filled, count, num) =
      store_bytes-queue seg.dlen 0 seg c 0 (min seg.dlen (511 - queue_len c)) r refl in
    let last : Conn × ℕ = store_bytes seg.dlen 0 seg c 0 in
    let kept = store_bytes-stored seg.dlen 0 seg c 0 in
    let number : u32 (last.0.rcv_nxt + last.1)
        ≡ u32 (c.rcv_nxt + min seg.dlen (511 - queue_len c)) =
      omega (arith, num, count) in
    elim (Bool-cases (seg.seq == c.rcv_nxt)) [
      | inl in_order ↦
          rw (nonempty, in_order)
            (filled, ap₂ {A = Conn} (λ x n. record x { rcv_nxt = n }) kept number, refl)
      | inr gap ↦ rw (nonempty, gap) (sym (append-nil (queue c)), refl, refl)
    ]

-- The window is the room that the queue of 511 bytes has; and of a segment with data in order that
-- keeps to it, every byte goes to the end of the queue, in order, and the next expected number
-- counts them all. The ring indices lie in the ring.
pub window-queue :
    (h : Host) (c : Conn) (seg : Segment)
    → InRing c
    → seg.seq ≡ c.rcv_nxt
    → seg.dlen ≢ 0
    → seg.dlen ≤ window c
    → (window c + queue_len c ≡ 511)
      × (queue (take_data h c seg).0 ≡ queue c ++ payload_from seg 0 seg.dlen)
      × ((take_data h c seg).0.rcv_nxt ≡ u32 (c.rcv_nxt + seg.dlen))
unfolding window
window-queue h c seg r e some_data fits =
    let room : window c + queue_len c ≡ 511 = ground arith in
    let all_fit : accepted c seg ≡ seg.dlen = ground arith in
    let in_order : (seg.seq == c.rcv_nxt) ≡ true = ground (arith, e) in
    let (filled, changed, acked) = take_data-queue h c seg r some_data in
    let whole : min seg.dlen (511 - queue_len c) ≡ seg.dlen = ground arith in
    (
      room,
      filled ∙ ap (λ n. queue c ++ payload_from seg 0 n) all_fit,
      ap (λ x. x.rcv_nxt) changed ∙ rw in_order (ap (λ n. u32 (c.rcv_nxt + n)) whole),
    )

ring_list-mask :
    (buf : ℕ → ℕ) (d e n : ℕ) → d % 2 ^ 9 ≡ e % 2 ^ 9 → ring_list buf d n ≡ ring_list buf e n
ring_list-mask buf d e zero h = refl
ring_list-mask buf d e (suc n) h =
    ap₂ ◌∷◌ (ap buf h) (ring_list-mask buf (d + 1) (e + 1) n (omega arith))

-- A queue's oldest element, and the queue without it.
abbrev pub front : List ℕ → Option ℕ
front [] = none
front (b ∷ bs) = some b

abbrev pub behind : List ℕ → List ℕ
behind [] = []
behind (b ∷ bs) = bs

-- `getc` is the queue's dequeue: it returns the oldest byte, or nothing on the empty queue, and
-- leaves the rest in order.
pub getc-queue :
    (c : Conn) → InRing c → ((getc c).1 ≡ front (queue c)) × (queue (getc c).0 ≡ behind (queue c))
unfolding getc
getc-queue c r = elim (Bool-cases (c.r_tail == c.r_head)) [
  | inl empty ↦
      let none_left : queue_len c ≡ 0 = ground arith in
      let nothing : queue c ≡ [] = ap (ring_list c.rbuf c.r_tail) none_left in
      rw empty (sym (ap front nothing), nothing ∙ sym (ap behind nothing))
  | inr more ↦
      let k = queue_len c - 1 in
      let some_left : queue_len c ≡ suc k = ground arith in
      let split : queue c ≡ ring_list c.rbuf c.r_tail (suc k) =
        ap (ring_list c.rbuf c.r_tail) some_left in
      let here : rcv_mask c.r_tail ≡ c.r_tail = ground arith in
      let shorter : rcv_mask (sub16 c.r_head (rcv_mask (c.r_tail + 1))) ≡ k = ground arith in
      rw more (
        sym (ap front split ∙ ap (λ i. some (c.rbuf i)) here),
        ap (ring_list c.rbuf (rcv_mask (c.r_tail + 1))) shorter
            ∙ (ring_list-mask c.rbuf (rcv_mask (c.r_tail + 1)) (c.r_tail + 1) k (omega arith)
                ∙ sym (ap behind split)),
      )
]
