-- ===== src/Ssh/Wire.antt =====
-- Fields of the SSH wire format in dosshd/ssh.c: 32-bit numbers, strings, name-lists, the mpint of
-- the shared secret, and base64. A packet is a function from the index, with its length apart, as
-- the C code has a pointer and a length; `unsigned` is 16 bits wide.
pub mod Strings
use dossh.Base.{
  ℕ, zero, suc, ◌+◌, ◌-◌, ◌*◌, ◌/◌, ◌%◌, ◌^◌, Bool, true, false, not, ◌&&◌, ◌||◌, List, [], ◌∷◌,
  ◌++◌, Option, none, some, ltb, leb, ◌==◌, if◌then◌else◌, length, get_or, take, drop, same_bytes,
  u8, u16, codes,
}

-- The bytes `f[o..o+n)`.
unfoldable pub bytes_at : (ℕ → ℕ) → ℕ → ℕ → List ℕ
bytes_at f o zero = []
bytes_at f o (suc n) = f o ∷ bytes_at f (o + 1) n

unfoldable pub put_u32 : ℕ → List ℕ
put_u32 v = u8 (v / 2 ^ 24) ∷ u8 (v / 2 ^ 16) ∷ u8 (v / 2 ^ 8) ∷ u8 v ∷ []

unfoldable pub rd_u32 : (ℕ → ℕ) → ℕ → ℕ
rd_u32 d o = d o * 2 ^ 24 + d (o + 1) * 2 ^ 16 + d (o + 2) * 2 ^ 8 + d (o + 3)

unfoldable pub seqbuf8 : ℕ → List ℕ
seqbuf8 seq = 0 ∷ 0 ∷ 0 ∷ 0 ∷ put_u32 seq

-- `put_str`, and `put_nl` on the bytes of its literal.
unfoldable pub put_str : List ℕ → List ℕ
put_str s = put_u32 (length s) ++ s

-- The string's offset and length, and the offset behind it.
pub record Found : Type 0 where
  pub s : ℕ
  pub slen : ℕ
  pub po : ℕ

unfoldable pub rd_string : (ℕ → ℕ) → ℕ → ℕ → Option Found
rd_string pl plen o =
    if ltb plen o || ltb (plen - o) 4
    then none
    else if ltb (plen - o - 4) (rd_u32 pl o)
    then none
    else some (record { s = o + 4; slen = rd_u32 pl o; po = o + 4 + rd_u32 pl o })

-- The bytes that `rd_string` found.
abbrev pub found : (ℕ → ℕ) → Found → List ℕ
found pl r = bytes_at pl r.s r.slen

-- `tok` is `list[start..i)`.
unfoldable pub nl_scan : List ℕ → List ℕ → List ℕ → Bool
nl_scan tok [] name = same_bytes tok name
nl_scan tok (b ∷ bs) name =
    let rest = nl_scan (if b == b',' then [] else tok ++ (b ∷ [])) bs name in
    if b == b',' && same_bytes tok name then true else rest

unfoldable pub nl_has : List ℕ → List ℕ → Bool
nl_has list name = nl_scan [] list name

unfoldable pub nl_first : List ℕ → List ℕ
nl_first [] = []
nl_first (b ∷ bs) = let rest = nl_first bs in if b == b',' then [] else b ∷ rest

unfoldable pub tok_eq : List ℕ → List ℕ → Bool
tok_eq tok s = same_bytes tok s

-- `while (i < 32 && v[i] == 0) i++`
unfoldable pub skip_zeros : List ℕ → List ℕ
skip_zeros [] = []
skip_zeros (b ∷ bs) = let rest = skip_zeros bs in if b == 0 then rest else b ∷ bs

unfoldable pub build_kmpint : List ℕ → List ℕ
build_kmpint v =
    let w = skip_zeros v in
    if length w == 0
    then put_u32 0
    else if leb 0x80 (get_or w 0 0)
    then put_u32 (length w + 1) ++ (0 ∷ w)
    else put_u32 (length w) ++ w

unfoldable pub b64val : ℕ → Option ℕ
b64val ch =
    if leb b'A' ch && leb ch b'Z'
    then some (ch - b'A')
    else if leb b'a' ch && leb ch b'z'
    then some (ch - b'a' + 26)
    else if leb b'0' ch && leb ch b'9'
    then some (ch - b'0' + 52)
    else if ch == b'+'
    then some 62
    else if ch == b'/'
    then some 63
    else none

infixl 5 ◌>>=◌
abbrev ◌>>=◌ : {A B : Type 0} → Option A → (A → Option B) → Option B
◌>>=◌ none f = none
◌>>=◌ (some a) f = f a

-- `while (inlen && in[inlen - 1] == '=') inlen--`
unfoldable pub drop_pad : List ℕ → List ℕ
drop_pad [] = []
drop_pad (b ∷ bs) = let rest = drop_pad bs in if b == b'=' && length rest == 0 then [] else b ∷ rest

-- The bytes of the next group in front of the decoded rest, if `o` of them leave the output room.
abbrev push_byte : ℕ → ℕ → ℕ → Option (List ℕ) → Option (List ℕ)
push_byte outmax o b (some rest) = if leb outmax o then none else some (u8 b ∷ rest)
push_byte outmax o b none = none

-- From the output index `o`; `none` where the C function returns 0 for malformed or too long input.
unfoldable pub b64_groups : ℕ → ℕ → List ℕ → Option (List ℕ)
b64_groups outmax o [] = some []
b64_groups outmax o (x ∷ []) = none
b64_groups outmax o (x ∷ y ∷ []) = do
  c0 ← b64val x
  c1 ← b64val y
  push_byte outmax o (c0 * 4 + c1 / 16) (some [])
b64_groups outmax o (x ∷ y ∷ z ∷ []) = do
  c0 ← b64val x
  c1 ← b64val y
  c2 ← b64val z
  push_byte outmax o (c0 * 4 + c1 / 16) (push_byte outmax (o + 1) (c1 * 16 + c2 / 4) (some []))
b64_groups outmax o (x ∷ y ∷ z ∷ t ∷ rest) = do
  c0 ← b64val x
  c1 ← b64val y
  c2 ← b64val z
  c3 ← b64val t
  push_byte outmax o (c0 * 4 + c1 / 16) (
      push_byte outmax (o + 1) (c1 * 16 + c2 / 4)
        (push_byte outmax (o + 2) (c2 * 64 + c3) (b64_groups outmax (o + 3) rest)))

abbrev or_empty : Option (List ℕ) → List ℕ
or_empty (some xs) = xs
or_empty none = []

unfoldable pub b64_decode : List ℕ → ℕ → List ℕ
b64_decode text outmax = or_empty (b64_groups outmax 0 (drop_pad text))
