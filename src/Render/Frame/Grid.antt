-- ===== src/Render/Frame/Grid.antt =====
-- Rows and columns of the cells that dosshd/render.c walks over.
use native.Mathlib.Nat.{
  div-add-mod, mod-lt, add-mul-mod_self_left, add-mul-div_left, mod-eq_of_lt, div-eq_of_lt,
  mod_self,
}
use dossh.Base.{ℕ, ◌+◌, ◌*◌, ◌/◌, ◌%◌, ◌<◌, ◌≡◌, ◌≢◌, ap, ◌∙◌, arith, inl, inr, ltb, Bool-cases}

-- The cell behind one that is not the last of its row.
pub next_cell :
    (cols c : ℕ)
    → 0 < cols
    → (c + 1) % cols ≢ 0
    → ((c + 1) / cols ≡ c / cols) × ((c + 1) % cols ≡ c % cols + 1) × (c % cols + 1 < cols)
next_cell cols c pos inside =
    let q : ℕ = c / cols in
    let m : ℕ = c % cols in
    let split : c + 1 ≡ m + 1 + cols * q = omega (arith, div-add-mod c cols) in
    let residue : (c + 1) % cols ≡ (m + 1) % cols =
      ap (λ (n : ℕ). n % cols) split ∙ add-mul-mod_self_left (m + 1) cols q in
    let quotient : (c + 1) / cols ≡ (m + 1) / cols + q =
      ap (λ (n : ℕ). n / cols) split ∙ add-mul-div_left (m + 1) q pos in
    elim (Bool-cases (ltb (m + 1) cols)) [
      | inl lt ↦
          let h : m + 1 < cols = ground arith in
          (omega (arith, quotient, div-eq_of_lt h), residue ∙ mod-eq_of_lt h, h)
      | inr ge ↦
          let last : m + 1 ≡ cols = ground (arith, mod-lt c pos) in
          absurd (inside (residue ∙ ap (λ (n : ℕ). n % cols) last ∙ mod_self cols))
    ]

-- Two cells with the same row and column are the same.
pub same_cell : (cols k c : ℕ) → k / cols ≡ c / cols → k % cols ≡ c % cols → k ≡ c
same_cell cols k c row col =
    omega (arith, div-add-mod k cols, div-add-mod c cols, ap (λ (q : ℕ). cols * q) row, col)
