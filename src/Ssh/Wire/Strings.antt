-- ===== src/Ssh/Wire/Strings.antt =====
-- Strings on the wire of dosshd/ssh.c: bounds of the reader, and reading what was written.
use dossh.Base.{
  ℕ, ◌+◌, ◌/◌, ◌%◌, ◌^◌, ◌<◌, ◌≤◌, List, [], ◌∷◌, ◌++◌, some, ◌≡◌, refl, arith, length, get_or,
}
use dossh.Ssh.Wire.{Found, found, bytes_at, put_u32, rd_u32, put_str, rd_string}

-- A string that `rd_string` finds lies within the packet, and so does the offset behind it, which
-- is where the string ends and lies behind the one that was asked for.
pub rd_string-bounds :
    (pl : ℕ → ℕ) (plen o : ℕ) (r : Found)
    → rd_string pl plen o ≡ some r
    → (r.s + r.slen ≤ plen) × (r.po ≡ r.s + r.slen) × (r.s ≡ o + 4)
unfolding rd_string
rd_string-bounds pl plen o r e = ground arith

-- The packet has the bytes `xs` from the offset `o`.
abbrev pub Holds : (ℕ → ℕ) → ℕ → List ℕ → Type 0
Holds pl o xs = (i : ℕ) → i < length xs → pl (o + i) ≡ get_or xs i 0

bytes_at-Holds : (pl : ℕ → ℕ) (o : ℕ) (xs : List ℕ) → Holds pl o xs → bytes_at pl o (length xs) ≡ xs
unfolding bytes_at
bytes_at-Holds pl o [] holds = refl
bytes_at-Holds pl o (x ∷ xs) holds =
    let first : pl (o + 0) ≡ x = holds 0 (omega arith) in
    let others : Holds pl (o + 1) xs = λ i h. ground (arith, holds (i + 1) (omega (arith, h))) in
    ground (arith, first, bytes_at-Holds pl (o + 1) xs others)

Holds-put_u32 :
    (pl : ℕ → ℕ) (o v : ℕ) (xs : List ℕ)
    → v < 2 ^ 32
    → Holds pl o (put_u32 v ++ xs)
    → (rd_u32 pl o ≡ v) × Holds pl (o + 4) xs
unfolding put_u32 rd_u32
Holds-put_u32 pl o v xs small holds =
    let b0 : pl (o + 0) ≡ v / 2 ^ 24 % 2 ^ 8 = holds 0 (ground arith) in
    let b1 : pl (o + 1) ≡ v / 2 ^ 16 % 2 ^ 8 = holds 1 (ground arith) in
    let b2 : pl (o + 2) ≡ v / 2 ^ 8 % 2 ^ 8 = holds 2 (ground arith) in
    let b3 : pl (o + 3) ≡ v % 2 ^ 8 = holds 3 (ground arith) in
    (ground (arith, b0, b1, b2, b3), λ i h. ground (arith, holds (i + 4) (ground (arith, h))))

-- Where a packet has what `put_str` wrote for a string shorter than 2 ^ 32, `rd_string` finds the
-- string, and the offset behind it.
pub rd_string-put_str :
    (pl : ℕ → ℕ) (plen o : ℕ) (s : List ℕ)
    → length s < 2 ^ 32
    → Holds pl o (put_str s)
    → o + 4 + length s ≤ plen
    → (r : Found) × (rd_string pl plen o ≡ some r) × (found pl r ≡ s) × (r.po ≡ o + 4 + length s)
unfolding rd_string put_str
rd_string-put_str pl plen o s small holds fits =
    let (read, text) = Holds-put_u32 pl o (length s) s small holds in
    let r : Found = record { s = o + 4; slen = length s; po = o + 4 + length s } in
    (r, ground (arith, read), bytes_at-Holds pl (o + 4) s text, refl)
