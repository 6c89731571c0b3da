-- ===== src/Rng.antt =====
-- The random number generator of dosshd/crypto/rng.c on the DOS target.
pub mod Blocks
use dossh.Base.{
  ℕ, zero, suc, ◌+◌, ◌-◌, ◌*◌, ◌/◌, ◌%◌, ◌^◌, Bool, true, false, List, [], ◌∷◌, ◌++◌, ltb, ◌==◌,
  if◌then◌else◌, length, take, drop, replicate, update, u8, u16, u32, low_bits, shr,
}
use Prim.Native.Nat.{bit_xor}

-- The hardware that the generator reads, and the two primitives that it calls: the 64 bytes of
-- keystream of `dossh_chacha20` for a key and a nonce, and `dossh_sha256`.
pub record Source : Type 0 where
  pub rdtsc : ℕ → ℕ
  pub timer : ℕ
  pub cmos : ℕ → ℕ
  pub bios_data : ℕ → ℕ
  pub low_memory : ℕ → ℕ
  pub keystream : List ℕ → List ℕ → List ℕ
  pub sha256 : List ℕ → List ℕ

-- The static variables; `readings` counts the calls of `rng_rdtsc`.
pub record Rng : Type 0 where
  pub pool : ℕ → ℕ
  pub pool_idx : ℕ
  pub pool_stir : ℕ
  pub drbg_key : List ℕ
  pub drbg_ctr : ℕ
  pub drbg_calls : ℕ
  pub drbg_ready : Bool
  pub readings : ℕ

abbrev pub pool_words : ℕ
pool_words = 32

-- `( w << 7 ) | ( w >> 9 )`
unfoldable pub rotated : ℕ → ℕ
rotated w = low_bits w 9 * 2 ^ 7 + shr w 9

unfoldable pub rng_stir : Source → ℕ → Rng → Rng
rng_stir h sample g =
    let i = low_bits g.pool_idx 5 in
    let t = u16 (bit_xor (u16 sample) (u16 (h.rdtsc g.readings)) + g.pool_stir) in
    record g {
      pool = update g.pool i (bit_xor (rotated (u16 (g.pool i + t))) (u16 (t * 8)));
      pool_idx = i + 1;
      pool_stir = u16 (g.pool_stir + 1);
      readings = g.readings + 1;
    }

-- Two bytes of a word, the low one first.
abbrev pub two_bytes : ℕ → List ℕ
two_bytes w = u8 w ∷ u8 (w / 256) ∷ []

unfoldable pub pool_bytes : ℕ → (ℕ → ℕ) → ℕ → List ℕ
pool_bytes zero pool i = []
pool_bytes (suc left) pool i = two_bytes (pool i) ++ pool_bytes left pool (i + 1)

unfoldable pub material : Source → Rng → List ℕ
material h g =
    take 32 g.drbg_key
    ++ (pool_bytes pool_words g.pool 0
        ++ (two_bytes g.pool_stir
            ++ (two_bytes g.pool_idx ++ (two_bytes g.drbg_ctr ++ two_bytes (h.rdtsc g.readings)))))

unfoldable pub rng_reseed : Source → Rng → Rng
rng_reseed h g = record g {
  drbg_key = take 32 (h.sha256 (material h g));
  drbg_calls = 0;
  drbg_ready = true;
  readings = g.readings + 1;
}

-- `rng_stir( (unsigned)rng_rdtsc() )`, so many times.
unfoldable pub stir_clock : ℕ → Source → Rng → Rng
stir_clock zero h g = g
stir_clock (suc left) h g =
    stir_clock left h (rng_stir h (h.rdtsc g.readings) (record g { readings = g.readings + 1 }))

unfoldable pub stir_all : Source → List ℕ → Rng → Rng
stir_all h [] g = g
stir_all h (s ∷ ss) g = stir_all h ss (rng_stir h s g)

-- `n` bytes, and `n` words, from the index `i`.
unfoldable pub bytes_from : (ℕ → ℕ) → ℕ → ℕ → List ℕ
bytes_from p i zero = []
bytes_from p i (suc n) = u8 (p i) ∷ bytes_from p (i + 1) n

unfoldable pub words_from : (ℕ → ℕ) → ℕ → ℕ → List ℕ
words_from p i zero = []
words_from p i (suc n) = (u8 (p i) + u8 (p (i + 1)) * 256) ∷ words_from p (i + 2) n

-- The clock's registers in the order in which they are read.
abbrev pub cmos_registers : List ℕ
cmos_registers = 0x00 ∷ 0x02 ∷ 0x04 ∷ 0x06 ∷ 0x07 ∷ 0x08 ∷ 0x09 ∷ 0x32 ∷ 0x0A ∷ []

unfoldable pub cmos_samples : Source → List ℕ → List ℕ
cmos_samples h [] = []
cmos_samples h (r ∷ rs) = h.cmos r ∷ cmos_samples h rs

unfoldable pub rng_init : Source → Rng → Rng
rng_init h g =
    let timed = stir_all h (u16 h.timer ∷ u16 (h.timer / 2 ^ 16) ∷ []) (stir_clock 512 h g) in
    let dated = stir_all h (cmos_samples h cmos_registers) timed in
    let scanned =
      stir_all h (words_from h.low_memory 0 512)
        (stir_all h (bytes_from h.bios_data 0 256) dated) in
    rng_reseed h (stir_clock 512 h scanned)

abbrev pub nonce : ℕ → List ℕ
nonce ctr = u8 ctr ∷ u8 (ctr / 2 ^ 8) ∷ u8 (ctr / 2 ^ 16) ∷ u8 (ctr / 2 ^ 24) ∷ replicate 8 0

-- One block: the first half of the keystream is the next key, the second is for output.
unfoldable pub next_key : Source → Rng → Rng
next_key h g = record g {
  drbg_key = take 32 (h.keystream g.drbg_key (nonce g.drbg_ctr));
  drbg_ctr = u32 (g.drbg_ctr + 1);
}

unfoldable pub block_output : Source → Rng → List ℕ
block_output h g = drop 32 (h.keystream g.drbg_key (nonce g.drbg_ctr))

-- The loop `while (n)`; a round for each byte is more than enough.
unfoldable pub bytes_loop : ℕ → Source → ℕ → Rng → List ℕ × Rng
bytes_loop zero h n g = ([], g)
bytes_loop (suc rounds) h n g =
    let taken = if ltb n 32 then n else 32 in
    let (out, last) = bytes_loop rounds h (n - taken) (next_key h g) in
    if n == 0 then ([], g) else (take taken (block_output h g) ++ out, last)

-- Every 64th call folds the pool in again.
unfoldable pub counted : Source → Rng → Rng
counted h g =
    let called = record g { drbg_calls = u32 (g.drbg_calls + 1) } in
    if low_bits called.drbg_calls 6 == 0 then rng_reseed h called else called

unfoldable pub rng_bytes : Source → ℕ → Rng → List ℕ × Rng
rng_bytes h n g =
    let ready = if g.drbg_ready then g else rng_init h g in
    let (out, last) = bytes_loop n h n ready in (out, counted h last)
