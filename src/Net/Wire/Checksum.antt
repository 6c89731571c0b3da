-- ===== src/Net/Wire/Checksum.antt =====
-- The Internet checksum of dosshd/net.c: what `fin16` computes, and what the words of a packet that
-- carries it add up to.
use mathlib.Core.Logic.{dif_pos, dif_neg}
use mathlib.Core.WellFounded.{Acc}
use native.Mathlib.Decide.{dec_lt}
use native.Mathlib.Bridge.{le_prop}
use dossh.Base.{
  ℕ, ◌+◌, ◌-◌, ◌*◌, ◌/◌, ◌%◌, ◌^◌, ◌<◌, ◌≤◌, List, [], ◌∷◌, ◌++◌, ◌≡◌, refl, sym, ap, ◌∙◌, ◌==◌,
  if◌then◌else◌, arith, u32, length, ltb, all, true,
}
use dossh.Base.Order.{lt_wf}
use dossh.Net.Wire.{wr16, sum16, carry_lt, fold_carries, fin16}

-- The sum of the words with no bound on it.
abbrev pub words : List ℕ → ℕ
words [] = 0
words (a ∷ []) = a * 2 ^ 8
words (a ∷ b ∷ rest) = a * 2 ^ 8 + b + words rest

pub sum16-words : (xs : List ℕ) (sum : ℕ) → sum < 2 ^ 32 → sum16 xs sum ≡ u32 (sum + words xs)
unfolding sum16
sum16-words [] sum h = omega arith
sum16-words (a ∷ []) sum h = refl
sum16-words (a ∷ b ∷ rest) sum h =
    omega (arith, sum16-words rest (u32 (sum + (a * 2 ^ 8 + b))) (omega arith))

-- The one's-complement value of a sum: its residue modulo 65535, where a sum other than 0 gives
-- 65535 in place of 0.
abbrev pub ones : ℕ → ℕ
ones sum = if sum == 0 then 0 else (sum - 1) % 65535 + 1

ones_carry : (sum : ℕ) → 65535 < sum → ones (sum % 2 ^ 16 + sum / 2 ^ 16) ≡ ones sum
ones_carry sum h = ground arith

ones_small : (sum : ℕ) → ¬ (65535 < sum) → ones sum ≡ sum
ones_small sum h = ground arith

fold_carries-ones : (sum : ℕ) (w : Acc ◌<◌ sum) → fold_carries sum w ≡ ones sum
unfolding fold_carries
fold_carries-ones sum (Acc.intro _ smaller) = elim (dec_lt 65535 sum) [
  | yes h ↦ rw (dif_pos (dec_lt 65535 sum) le_prop h) (
      fold_carries-ones (sum % 2 ^ 16 + sum / 2 ^ 16)
        (smaller (sum % 2 ^ 16 + sum / 2 ^ 16) (carry_lt sum h))
      ∙ ones_carry sum h)
  | no h ↦ rw (dif_neg (dec_lt 65535 sum) h) (sym (ones_small sum h))
]

-- The loop of `fin16` ends for every sum, and the checksum is the complement of the one's-complement
-- value.
pub fin16-ones : (sum : ℕ) → fin16 sum ≡ 65535 - ones sum
unfolding fin16
fin16-ones sum = ap (λ t. 65535 - t) (fold_carries-ones sum (lt_wf.apply sum))

fin16-lt : (sum : ℕ) → fin16 sum < 2 ^ 16
fin16-lt sum = omega (arith, fin16-ones sum)

pub words-append : (xs ys : List ℕ) → length xs % 2 ≡ 0 → words (xs ++ ys) ≡ words xs + words ys
words-append [] ys h = omega arith
words-append (a ∷ []) ys h = absurd (omega arith)
words-append (a ∷ b ∷ xs) ys h = omega (arith, words-append xs ys (omega arith))

pub words-le : (xs : List ℕ) → all (λ b. ltb b 256) xs ≡ true → words xs ≤ length xs * 65536
words-le [] h = omega arith
words-le (a ∷ []) h = ground arith
words-le (a ∷ b ∷ xs) h = ground (arith, words-le xs)

-- A packet with a checksum field at an even offset, before and after the sum is filled in.
abbrev pub with_checksum : List ℕ → List ℕ → ℕ → List ℕ
with_checksum before after c = before ++ (wr16 c ++ after)

sum16-with_checksum :
    (before after : List ℕ) (pseudo c : ℕ)
    → length before % 2 ≡ 0
    → c < 2 ^ 16
    → pseudo + words before + words after + 65536 < 2 ^ 32
    → sum16 (with_checksum before after c) pseudo ≡ pseudo + (words before + words after) + c
unfolding wr16
sum16-with_checksum before after pseudo c even fits small = omega (
  arith,
  sum16-words (with_checksum before after c) pseudo (omega arith),
  words-append before (wr16 c ++ after) even,
)

words-with_checksum :
    (before after : List ℕ) (c : ℕ)
    → length before % 2 ≡ 0
    → c < 2 ^ 16
    → words (with_checksum before after c) ≡ words before + c + words after
unfolding wr16
words-with_checksum before after c even fits =
    omega (arith, words-append before (wr16 c ++ after) even)

-- A packet whose checksum field stands at an even offset and holds `fin16` of the sum over the packet
-- with the field zeroed, with any pseudo-header sum: in one's complement, the words add up to all
-- ones. The lengths are those at which no sum wraps.
pub checksum-ones :
    (before after : List ℕ) (pseudo : ℕ)
    → length before % 2 ≡ 0
    → pseudo + words before + words after + 65536 < 2 ^ 32
    → ones (
        pseudo
        + words (with_checksum before after (fin16 (sum16 (with_checksum before after 0) pseudo))))
      ≡ 65535
checksum-ones before after pseudo even small =
    let total = pseudo + (words before + words after) in
    let zeroed : sum16 (with_checksum before after 0) pseudo ≡ total =
      omega (arith, sum16-with_checksum before after pseudo 0 even (omega arith) small) in
    rw (zeroed, words-with_checksum before after (fin16 total) even (fin16-lt total))
      (ground (arith, fin16-ones total))
