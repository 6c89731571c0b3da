-- ===== src/Net/Wire.antt =====
-- Byte order and checksums of dosshd/net.c. A buffer that is read is a function from its index; a
-- buffer that is written is the list of its bytes. `unsigned` has 16 bits, `unsigned long` 32.
pub mod Checksum
use mathlib.Core.Logic.{dite}
use mathlib.Core.WellFounded
use mathlib.Core.WellFounded.{Acc}
use native.Mathlib.Decide.{dec_lt}
use dossh.Base.{
  ℕ, zero, suc, ◌+◌, ◌-◌, ◌*◌, ◌/◌, ◌%◌, ◌^◌, ◌<◌, ◌≤◌, List, [], ◌∷◌, ◌++◌, arith, u8, u16, u32,
  length,
}
use dossh.Base.Order.{lt_wf}

unfoldable pub rd16 : (ℕ → ℕ) → ℕ → ℕ
rd16 p i = p i * 2 ^ 8 + p (i + 1)

unfoldable pub rd32 : (ℕ → ℕ) → ℕ → ℕ
rd32 p i = p i * 2 ^ 24 + p (i + 1) * 2 ^ 16 + p (i + 2) * 2 ^ 8 + p (i + 3)

unfoldable pub wr16 : ℕ → List ℕ
wr16 v = u8 (v / 2 ^ 8) ∷ u8 v ∷ []

unfoldable pub wr32 : ℕ → List ℕ
wr32 v = u8 (v / 2 ^ 24) ∷ u8 (v / 2 ^ 16) ∷ u8 (v / 2 ^ 8) ∷ u8 v ∷ []

-- The sum of 16-bit words, an odd last byte as a high byte.
unfoldable pub sum16 : List ℕ → ℕ → ℕ
sum16 [] sum = sum
sum16 (a ∷ []) sum = u32 (sum + a * 2 ^ 8)
sum16 (a ∷ b ∷ rest) sum = sum16 rest (u32 (sum + (a * 2 ^ 8 + b)))

pub carry_lt : (sum : ℕ) → 65535 < sum → sum % 2 ^ 16 + sum / 2 ^ 16 < sum
carry_lt sum h = omega arith

-- `while( sum >> 16 ) sum = (sum & 0xFFFF) + (sum >> 16);`
unfoldable pub fold_carries : (sum : ℕ) → Acc ◌<◌ sum → ℕ
fold_carries sum (Acc.intro _ smaller) =
    dite (dec_lt 65535 sum)
      (λ h.
        fold_carries (sum % 2 ^ 16 + sum / 2 ^ 16)
          (smaller (sum % 2 ^ 16 + sum / 2 ^ 16) (carry_lt sum h)))
      (λ _. sum)

unfoldable pub fin16 : ℕ → ℕ
unfolding fold_carries lt_wf dec_lt
fin16 sum = 65535 - fold_carries sum (lt_wf.apply sum)
