-- ===== src/Resident/Ring/Queue.antt =====
-- The type-ahead ring of dosshd/dosshd.c as a bounded queue of keys.
use dossh.Base.{
  ℕ, zero, suc, ◌+◌, ◌-◌, ◌*◌, ◌/◌, ◌%◌, ◌<◌, ◌≤◌, List, [], ◌∷◌, ◌++◌, ◌≡◌, ◌≢◌, refl, ap, ◌∙◌,
  ◌⊎◌, inl, inr, arith, ltb, leb, ◌==◌, if◌then◌else◌, Bool-cases, update, u16,
}
use dossh.Resident.Ring.{Bios, head_at, tail_at, ring_start, ring_end, next_slot, inject_key}

-- Head and tail are slots of the ring, which lies behind the words that describe it and in front of
-- the ones that bound it.
pub record IsRing (b : Bios) : Type 0 where
  pub starts : 0x1E ≤ ring_start b
  pub ordered : ring_start b < ring_end b
  pub even : (ring_end b - ring_start b) % 2 ≡ 0
  pub below : ring_end b ≤ 0x80
  pub head_lo : ring_start b ≤ b head_at
  pub head_hi : b head_at < ring_end b
  pub head_even : (b head_at - ring_start b) % 2 ≡ 0
  pub tail_lo : ring_start b ≤ b tail_at
  pub tail_hi : b tail_at < ring_end b
  pub tail_even : (b tail_at - ring_start b) % 2 ≡ 0

-- The `i`-th slot from the head, and how many keys there are.
abbrev slot : Bios → ℕ → ℕ
slot b i =
    if ltb (b head_at + i * 2) (ring_end b)
    then b head_at + i * 2
    else b head_at + i * 2 - (ring_end b - ring_start b)

abbrev pub key_count : Bios → ℕ
key_count b =
    if leb (b head_at) (b tail_at)
    then (b tail_at - b head_at) / 2
    else (b tail_at + (ring_end b - ring_start b) - b head_at) / 2

-- One slot stays free.
abbrev pub capacity : Bios → ℕ
capacity b = (ring_end b - ring_start b) / 2 - 1

-- The keys in `n` slots from the `i`-th on.
abbrev pub keys_from : Bios → ℕ → ℕ → List ℕ
keys_from b i zero = []
keys_from b i (suc n) = b (slot b i) ∷ keys_from b (i + 1) n

-- The keys that wait, the oldest first.
abbrev pub keys : Bios → List ℕ
keys b = keys_from b 0 (key_count b)

-- The ring behind a key that found room.
abbrev stored : ℕ → Bios → Bios
stored v b = update (update b (b tail_at) v) tail_at (next_slot b (b tail_at))

stored-bounds :
    (v : ℕ) (b : Bios)
    → IsRing b
    → (ring_start (stored v b) ≡ ring_start b) × (ring_end (stored v b) ≡ ring_end b)
unfolding ring_start ring_end
stored-bounds v b r =
    (ground (arith, r.below, r.tail_hi, r.tail_lo), ground (arith, r.below, r.tail_hi, r.tail_lo))

next_slot-lem :
    (b : Bios)
    → IsRing b
    → next_slot b (b tail_at)
      ≡ (if leb (ring_end b) (b tail_at + 2) then ring_start b else b tail_at + 2)
unfolding next_slot
next_slot-lem b r =
    let small : u16 (b tail_at + 2) ≡ b tail_at + 2 = omega (arith, r.tail_hi, r.below) in
    rw small refl

full-count :
    (b : Bios)
    → IsRing b
    → (key_count b ≤ capacity b)
      × ((next_slot b (b tail_at) ≡ b head_at) → key_count b ≡ capacity b)
      × ((next_slot b (b tail_at) ≢ b head_at) → key_count b < capacity b)
full-count b r =
    let n = next_slot-lem b r in
    let hl = r.head_lo in
    let hh = r.head_hi in
    let he = r.head_even in
    let tl = r.tail_lo in
    let th = r.tail_hi in
    let te = r.tail_even in
    let ev = r.even in
    (ground arith, λ full. ground (arith, full, n), λ room. ground (arith, room, n))

-- The slots that hold keys, and the one behind them.
slot-free :
    (b : Bios) (i : ℕ)
    → IsRing b
    → (i < key_count b
        → (slot b i ≢ b tail_at) × (ring_start b ≤ slot b i) × (slot b i < ring_end b))
      × (slot b (key_count b) ≡ b tail_at)
slot-free b i r =
    let hl = r.head_lo in
    let hh = r.head_hi in
    let he = r.head_even in
    let tl = r.tail_lo in
    let th = r.tail_hi in
    let te = r.tail_even in
    let ev = r.even in
    (λ lt. (ground (arith, lt), ground (arith, lt), ground (arith, lt)), ground arith)

stored-slot : (v i : ℕ) (b : Bios) → IsRing b → slot (stored v b) i ≡ slot b i
stored-slot v i b r =
    let (same_start, same_end) = stored-bounds v b r in
    let tl = r.tail_lo in let st = r.starts in ground (arith, same_start, same_end)

stored-keys_from :
    (v i n : ℕ) (b : Bios)
    → IsRing b
    → i + n ≤ key_count b
    → keys_from (stored v b) i (suc n) ≡ keys_from b i n ++ (stored v b (slot b (i + n)) ∷ [])
stored-keys_from v i zero b r inside = let same = stored-slot v i b r in ground (arith, same)
stored-keys_from v i (suc n) b r inside =
    let same = stored-slot v i b r in
    let (free, at_end) = slot-free b i r in
    let (apart, lo, hi) = free (omega (arith, inside)) in
    let kept : stored v b (slot b i) ≡ b (slot b i) = ground (arith, apart, lo, r.starts) in
    let rest = stored-keys_from v (i + 1) n b r (omega (arith, inside)) in
    ground (arith, same, kept, rest)

stored-count :
    (v : ℕ) (b : Bios)
    → IsRing b
    → next_slot b (b tail_at) ≢ b head_at
    → key_count (stored v b) ≡ suc (key_count b)
stored-count v b r room =
    let (same_start, same_end) = stored-bounds v b r in
    let n = next_slot-lem b r in
    let st = r.starts in
    let hl = r.head_lo in
    let hh = r.head_hi in
    let he = r.head_even in
    let tl = r.tail_lo in
    let th = r.tail_hi in
    let te = r.tail_even in let ev = r.even in ground (arith, same_start, same_end, n, room)

stored-IsRing : (v : ℕ) (b : Bios) → IsRing b → IsRing (stored v b)
stored-IsRing v b r =
    let (same_start, same_end) = stored-bounds v b r in
    let n = next_slot-lem b r in
    let st = r.starts in
    let tl = r.tail_lo in
    let th = r.tail_hi in
    let te = r.tail_even in
    let or = r.ordered in
    let ev = r.even in
    let head : stored v b head_at ≡ b head_at = ground arith in
    record {
      starts = rw same_start r.starts;
      ordered = rw (same_start, same_end) r.ordered;
      even = rw (same_start, same_end) r.even;
      below = rw same_end r.below;
      head_lo = rw (same_start, head) r.head_lo;
      head_hi = rw (same_end, head) r.head_hi;
      head_even = rw (same_start, head) r.head_even;
      tail_lo = ground (arith, same_start, n);
      tail_hi = ground (arith, same_end, n);
      tail_even = ground (arith, same_start, n);
    }

-- Either the ring holds less than its capacity, and the key goes behind the keys that wait, which stay
-- in their order; or the ring is full, and it stays as it is. The ring keeps its shape either way.
pub inject_key-keys :
    (scan ascii : ℕ) (b : Bios)
    → IsRing b
    → IsRing (inject_key scan ascii b)
      × (((key_count b < capacity b)
            × (keys (inject_key scan ascii b) ≡ keys b ++ ((scan * 256 + ascii) ∷ [])))
          ⊎ ((key_count b ≡ capacity b) × (inject_key scan ascii b ≡ b)))
unfolding inject_key
inject_key-keys scan ascii b r =
    let v : ℕ = scan * 256 + ascii in
    let n : ℕ = key_count b in
    let (bounded, full, room) = full-count b r in
    elim (Bool-cases (next_slot b (b tail_at) == b head_at)) [
      | inl none_left ↦
          let e : next_slot b (b tail_at) ≡ b head_at = ground arith in
          rw none_left (r, inr (full e, refl))
      | inr some_left ↦
          let ne : next_slot b (b tail_at) ≢ b head_at = ground arith in
          let (free, at_end) = slot-free b 0 r in
          let here : slot b (0 + n) ≡ slot b n = ap (slot b) (omega arith) in
          let last : stored v b (slot b (0 + n)) ≡ v =
            ap (stored v b) here ∙ ground (arith, at_end, r.tail_lo, r.starts) in
          let grown = stored-count v b r ne in
          let longer = stored-keys_from v 0 n b r (omega arith) in
          rw some_left (
            stored-IsRing v b r,
            inl (
              room ne,
              ap (keys_from (stored v b) 0) grown ∙ longer ∙ ap (λ x. keys b ++ (x ∷ [])) last,
            ),
          )
    ]
