-- ===== src/Render/Emit.antt =====
-- The output helpers of dosshd/render.c, and the bytes that they stand for.
pub mod Numbers
pub mod Room
use dossh.Base.{
  ℕ, zero, suc, ◌+◌, ◌-◌, ◌/◌, ◌%◌, Bool, true, false, ◌&&◌, ◌||◌, List, [], ◌∷◌, ◌++◌, Option,
  none, some, ltb, leb, ◌==◌, if◌then◌else◌, has_bit, length, get_or, take, u8,
}
use dossh.Cp437.{Glyph, cp437_utf8}
use dossh.Render.State.{Render, obuf_sz}

unfoldable pub e_b : ℕ → Render → Render
e_b c r = if ltb (length r.o) obuf_sz then record r { o = r.o ++ (u8 c ∷ []) } else r

-- Bytes in a row; `e_s` on the bytes of its literal.
unfoldable pub e_s : List ℕ → Render → Render
e_s [] r = r
e_s (c ∷ cs) r = e_s cs (e_b c r)

-- The decimal digits of `v` from the lowest, in front of `t`; five rounds are enough for 16 bits.
unfoldable pub num_digits : ℕ → ℕ → List ℕ → List ℕ
num_digits zero v t = t
num_digits (suc rounds) v t =
    let rest = num_digits rounds (v / 10) ((b'0' + v % 10) ∷ t) in if v == 0 then t else rest

unfoldable pub num_bytes : ℕ → List ℕ
num_bytes v = if v == 0 then b'0' ∷ [] else num_digits 5 v []

unfoldable pub e_num : ℕ → Render → Render
e_num v r = e_s (num_bytes v) r

unfoldable pub e_cup : ℕ → ℕ → Render → Render
e_cup row col r = e_b b'H' (e_num (col + 1) (e_b b';' (e_num (row + 1) (e_s (0x1B ∷ b'[' ∷ []) r))))

-- `v2a[8]`
unfoldable pub v2a : ℕ → ℕ
v2a i = get_or (0 ∷ 4 ∷ 2 ∷ 6 ∷ 1 ∷ 5 ∷ 3 ∷ 7 ∷ []) i 0

unfoldable pub fg_code : ℕ → ℕ
fg_code attr = let fg = attr % 16 in if ltb fg 8 then 30 + v2a fg else 90 + v2a (fg - 8)

unfoldable pub bg_code : ℕ → ℕ
bg_code attr = 40 + v2a (attr / 16 % 8)

unfoldable pub e_sgr : ℕ → Render → Render
e_sgr attr r =
    let coloured =
      e_num (bg_code attr)
        (e_b b';' (e_num (fg_code attr) (e_s (0x1B ∷ b'[' ∷ b'0' ∷ b';' ∷ []) r))) in
    e_b b'm' (if leb 0x80 attr then e_s (b';' ∷ b'5' ∷ []) coloured else coloured)

-- `u[1..n]` of a row of the table.
abbrev pub glyph_bytes : Glyph → List ℕ
glyph_bytes (n, x, y, z) = take n (x ∷ y ∷ z ∷ [])

unfoldable pub char_bytes : ℕ → List ℕ
char_bytes ch = glyph_bytes (get_or cp437_utf8 ch (0, 0, 0, 0))

unfoldable pub e_char : ℕ → Render → Render
e_char ch r = e_s (char_bytes ch) r
