-- ===== src/Render/Emit/Numbers.antt =====
-- The decimal numbers of dosshd/render.c.
use dossh.Base.{
  ℕ, zero, suc, ◌+◌, ◌-◌, ◌*◌, ◌/◌, ◌%◌, ◌<◌, ◌≤◌, Bool, true, ◌&&◌, List, [], ◌∷◌, ◌≡◌, arith, leb,
  length, all,
}
use dossh.Render.Emit.{num_digits, num_bytes}

abbrev pub is_decimal : ℕ → Bool
is_decimal b = leb b'0' b && leb b b'9'

-- The number that digits denote, `n` read before them.
abbrev pub decimal : ℕ → List ℕ → ℕ
decimal n [] = n
decimal n (b ∷ bs) = decimal (n * 10 + (b - b'0')) bs

-- `10 ^ rounds`
abbrev bound : ℕ → ℕ
bound zero = 1
bound (suc rounds) = 10 * bound rounds

num_digits-decimal :
    (rounds v : ℕ) (t : List ℕ) → v < bound rounds → decimal 0 (num_digits rounds v t) ≡ decimal v t
unfolding num_digits
num_digits-decimal zero v t h = ground arith
num_digits-decimal (suc rounds) v t h =
    ground (arith, num_digits-decimal rounds (v / 10) ((b'0' + v % 10) ∷ t))

num_digits-all :
    (rounds v : ℕ) (t : List ℕ)
    → all is_decimal t ≡ true
    → all is_decimal (num_digits rounds v t) ≡ true
unfolding num_digits
num_digits-all zero v t h = h
num_digits-all (suc rounds) v t h =
    ground (arith, num_digits-all rounds (v / 10) ((b'0' + v % 10) ∷ t))

num_digits-length : (rounds v : ℕ) (t : List ℕ) → length (num_digits rounds v t) ≤ rounds + length t
unfolding num_digits
num_digits-length zero v t = omega arith
num_digits-length (suc rounds) v t =
    ground (arith, num_digits-length rounds (v / 10) ((b'0' + v % 10) ∷ t))

-- Of a number below 1000, three digits at most.
small_length : (v : ℕ) (t : List ℕ) → v < 1000 → length (num_digits 5 v t) ≤ 3 + length t
unfolding num_digits
small_length v t h = ground arith

pub num_bytes-decimal : (v : ℕ) → v < 100000 → decimal 0 (num_bytes v) ≡ v
unfolding num_bytes
num_bytes-decimal v h = ground (arith, num_digits-decimal 5 v [])

pub num_bytes-all : (v : ℕ) → all is_decimal (num_bytes v) ≡ true
unfolding num_bytes
num_bytes-all v = ground (arith, num_digits-all 5 v [])

pub num_bytes-length : (v : ℕ) → length (num_bytes v) ≤ 5
unfolding num_bytes
num_bytes-length v = ground (arith, num_digits-length 5 v [])

pub num_bytes-small : (v : ℕ) → v < 1000 → length (num_bytes v) ≤ 3
unfolding num_bytes
num_bytes-small v h = ground (arith, small_length v [])
