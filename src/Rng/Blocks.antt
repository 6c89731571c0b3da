-- ===== src/Rng/Blocks.antt =====
-- The stream of blocks behind `rng_bytes` of dosshd/crypto/rng.c.
use dossh.Base.{
  ℕ, zero, suc, ◌+◌, ◌-◌, ◌*◌, ◌/◌, ◌≤◌, Bool, true, false, List, [], ◌∷◌, ◌++◌, ◌≡◌, refl, sym, ap,
  ◌∙◌, inl, inr, arith, ltb, ◌==◌, if◌then◌else◌, length, take, drop, length-append, length-take,
  take-append-drop, take-all, append-nil, Bool-cases, replicate, u32, ◌%◌, ◌^◌,
}
use mathlib.Core.Path.{subst, ap₂}
use dossh.Rng.{Source, Rng, nonce, next_key, block_output, bytes_loop, counted, rng_bytes, rng_init}

-- The 64 bytes of keystream for a key and a counter, which goes into the nonce low byte first.
abbrev pub block_of : Source → List ℕ → ℕ → List ℕ
block_of h key ctr =
    h.keystream key
      (ctr % 256 ∷ ctr / 2 ^ 8 % 256 ∷ ctr / 2 ^ 16 % 256 ∷ ctr / 2 ^ 24 % 256 ∷ replicate 8 0)

-- The second halves of `k` blocks in a row, where each block's first half is the next one's key and
-- the counter goes up by one a block.
abbrev pub stream : Source → ℕ → List ℕ → ℕ → List ℕ
stream h zero key ctr = []
stream h (suc k) key ctr =
    drop 32 (block_of h key ctr) ++ stream h k (take 32 (block_of h key ctr)) (u32 (ctr + 1))

abbrev pub key_behind : Source → ℕ → List ℕ → ℕ → List ℕ
key_behind h zero key ctr = key
key_behind h (suc k) key ctr = key_behind h k (take 32 (block_of h key ctr)) (u32 (ctr + 1))

abbrev pub ctr_behind : ℕ → ℕ → ℕ
ctr_behind zero ctr = ctr
ctr_behind (suc k) ctr = ctr_behind k (u32 (ctr + 1))

-- The generator with the key and the counter behind `k` blocks.
abbrev pub rekeyed : Source → ℕ → Rng → Rng
rekeyed h k g = record g {
  drbg_key = key_behind h k g.drbg_key g.drbg_ctr;
  drbg_ctr = ctr_behind k g.drbg_ctr;
}

-- The generator behind `k` rounds of the loop.
abbrev behind : Source → ℕ → Rng → Rng
behind h zero g = g
behind h (suc k) g = behind h k (next_key h g)

-- What `k` rounds of the loop put out.
abbrev outputs : Source → ℕ → Rng → List ℕ
outputs h zero g = []
outputs h (suc k) g = block_output h g ++ outputs h k (next_key h g)

-- How many blocks `n` bytes need.
abbrev pub blocks : ℕ → ℕ
blocks n = (n + 31) / 32

-- One round's bytes in front of what the later rounds gave.
abbrev joined : ℕ → Source → Rng → List ℕ × Rng → List ℕ × Rng
joined taken h g rest = (take taken (block_output h g) ++ rest.0, rest.1)

-- The keystream of every block is 64 bytes long, as the code asks for.
abbrev pub IsLong : Source → Type 0
IsLong h = (key nonce : List ℕ) → length (h.keystream key nonce) ≡ 64

take-past :
    (n m : ℕ) (xs ys : List ℕ) → length xs ≡ m → m ≤ n → take n (xs ++ ys) ≡ xs ++ take (n - m) ys
take-past n m [] ys e h = let whole : n - m ≡ n = omega (arith, e) in rw whole refl
take-past zero m (x ∷ xs) ys e h = absurd (omega (arith, e, h))
take-past (suc n) m (x ∷ xs) ys e h =
    let less : suc n - m ≡ n - length xs = omega (arith, e) in
    rw less (ap (λ t. x ∷ t) (take-past n (length xs) xs ys refl (omega (arith, e, h))))

block_output-length : (h : Source) (g : Rng) → IsLong h → length (block_output h g) ≡ 32
unfolding block_output
block_output-length h g long =
    let ks : List ℕ = h.keystream g.drbg_key (nonce g.drbg_ctr) in
    omega (
      arith,
      long g.drbg_key (nonce g.drbg_ctr),
      ap length (take-append-drop 32 ks),
      length-append (take 32 ks) (drop 32 ks),
      length-take 32 ks,
    )

outputs-length : (h : Source) (k : ℕ) (g : Rng) → IsLong h → length (outputs h k g) ≡ k * 32
outputs-length h zero g long = omega arith
outputs-length h (suc k) g long = omega (
  arith,
  length-append (block_output h g) (outputs h k (next_key h g)),
  block_output-length h g long,
  outputs-length h k (next_key h g) long,
)

bytes_loop-round :
    (rounds : ℕ) (h : Source) (n : ℕ) (g : Rng) (small : Bool)
    → ltb (suc n) 32 ≡ small
    → let taken = if small then suc n else 32 in
      bytes_loop (suc rounds) h (suc n) g
      ≡ joined taken h g (bytes_loop rounds h (suc n - taken) (next_key h g))
unfolding bytes_loop
bytes_loop-round rounds h n g small e =
    let some_left : (suc n == 0) ≡ false = ground arith in
    let out : Bool → List ℕ × Rng = λ b.
      let taken = if b then suc n else 32 in
      joined taken h g (bytes_loop rounds h (suc n - taken) (next_key h g)) in
    subst (λ b. (if b then ([], g) else out (ltb (suc n) 32)) ≡ out small) (sym some_left)
      (ap out e)

bytes_loop-stream :
    (rounds : ℕ) (h : Source) (n : ℕ) (g : Rng)
    → IsLong h
    → n ≤ rounds
    → bytes_loop rounds h n g ≡ (take n (outputs h (blocks n) g), behind h (blocks n) g)
unfolding bytes_loop
bytes_loop-stream zero h n g long enough =
    let none_left : n ≡ 0 = omega (arith, enough) in rw none_left refl
bytes_loop-stream (suc rounds) h zero g long enough = refl
bytes_loop-stream (suc rounds) h (suc n) g long enough = elim (Bool-cases (ltb (suc n) 32)) [
  | inl last ↦
      let one : blocks (suc n) ≡ 1 = ground arith in
      let done : suc n - suc n ≡ 0 = omega arith in
      let rest = bytes_loop-stream rounds h 0 (next_key h g) long (omega arith) in
      bytes_loop-round rounds h n g true last
      ∙ ap (λ x. joined (suc n) h g (bytes_loop rounds h x (next_key h g))) done
      ∙ ap (joined (suc n) h g) rest
      ∙ rw one (
          ap (λ out. (out, next_key h g))
            (append-nil (take (suc n) (block_output h g))
              ∙ ap (take (suc n)) (sym (append-nil (block_output h g)))))
  | inr more ↦
      let next : blocks (suc n) ≡ suc (blocks (suc n - 32)) = ground arith in
      let rest = bytes_loop-stream rounds h (suc n - 32) (next_key h g) long (ground arith) in
      let split =
        take-past (suc n) 32 (block_output h g) (outputs h (blocks (suc n - 32)) (next_key h g))
          (block_output-length h g long) (ground (arith, more)) in
      let full = take-all 32 (block_output h g) (omega (arith, block_output-length h g long)) in
      bytes_loop-round rounds h n g false more
      ∙ ap (joined 32 h g) rest
      ∙ rw (next, split, full) refl
]

outputs-stream : (h : Source) (k : ℕ) (g : Rng) → outputs h k g ≡ stream h k g.drbg_key g.drbg_ctr
unfolding block_output next_key
outputs-stream h zero g = refl
outputs-stream h (suc k) g =
    ap (λ t. drop 32 (block_of h g.drbg_key g.drbg_ctr) ++ t) (outputs-stream h k (next_key h g))

behind-rekeyed : (h : Source) (k : ℕ) (g : Rng) → behind h k g ≡ rekeyed h k g
unfolding next_key
behind-rekeyed h zero g = refl
behind-rekeyed h (suc k) g = behind-rekeyed h k (next_key h g)

-- With keystream blocks of 64 bytes, `rng_bytes`, which sets the generator up first if it is not
-- ready, gives exactly `n` bytes: the first `n` of the second halves of as many blocks as hold
-- them, where each block's key is the first half of the block before. It leaves what `counted` makes of the generator with the last block's first half as
-- its key and the counter behind it.
pub rng_bytes-stream :
    (h : Source) (n : ℕ) (g : Rng)
    → IsLong h
    → let ready = if g.drbg_ready then g else rng_init h g in
      (rng_bytes h n g ≡ (
        take n (stream h (blocks n) ready.drbg_key ready.drbg_ctr),
        counted h (rekeyed h (blocks n) ready),
      ))
      × (length (rng_bytes h n g).0 ≡ n)
unfolding rng_bytes
rng_bytes-stream h n g long =
    let ready : Rng = if g.drbg_ready then g else rng_init h g in
    let whole = bytes_loop-stream n h n ready long (omega arith) in
    let out : (rng_bytes h n g).0 ≡ take n (outputs h (blocks n) ready) = ap (λ x. x.0) whole in
    (
      ap (λ x. (x.0, counted h x.1)) whole
          ∙ ap₂ (λ o x. (take n o, counted h x)) (outputs-stream h (blocks n) ready)
              (behind-rekeyed h (blocks n) ready),
      ap length out
          ∙ omega (
            arith,
            length-take n (outputs h (blocks n) ready),
            outputs-length h (blocks n) ready long,
          ),
    )
