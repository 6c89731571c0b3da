-- ===== src/Cp437/Glyphs.antt =====
-- What the table of dosshd/cp437.c sends to a terminal.
use dossh.Base.{
  ℕ, ◌+◌, ◌-◌, ◌*◌, ◌<◌, Bool, true, not, ◌&&◌, ◌||◌, ◌≡◌, refl, ltb, leb, ◌==◌, if◌then◌else◌,
  get_or, all_below_sound, and-eq-true,
}
use dossh.Cp437.{Glyph, cp437_utf8}

-- `cp437_utf8[ch]`
abbrev pub glyph : ℕ → Glyph
glyph ch = get_or cp437_utf8 ch (0, 0, 0, 0)

-- A UTF-8 continuation byte.
abbrev pub is_continuation : ℕ → Bool
is_continuation b = leb 0x80 b && ltb b 0xC0

-- The bytes are the UTF-8 form (RFC 3629) of one code point, the shortest, and no surrogate; the
-- unused ones are 0.
abbrev pub is_utf8 : Glyph → Bool
is_utf8 (n, x, y, z) =
    if n == 1
    then ltb x 0x80 && (y == 0 && z == 0)
    else if n == 2
    then leb 0xC2 x && (ltb x 0xE0 && (is_continuation y && z == 0))
    else n == 3
      && (leb 0xE0 x
          && (ltb x 0xF0
              && (is_continuation y
                  && (is_continuation z
                      && (leb 0xA0 y || not (x == 0xE0))
                      && (ltb y 0xA0 || not (x == 0xED))))))

abbrev pub code_point : Glyph → ℕ
code_point (n, x, y, z) =
    if n == 1
    then x
    else if n == 2
    then (x - 0xC0) * 64 + (y - 0x80)
    else (x - 0xE0) * 4096 + (y - 0x80) * 64 + (z - 0x80)

-- No control character of ASCII or Latin-1.
abbrev pub is_printable : ℕ → Bool
is_printable cp = leb 32 cp && (ltb cp 127 || leb 160 cp)

abbrev is_shown : ℕ → Bool
is_shown ch = is_utf8 (glyph ch) && is_printable (code_point (glyph ch))

-- Whatever byte is in the video memory, the table sends the terminal the UTF-8 form of exactly one
-- code point, and that is no control character.
pub cp437_utf8-is_utf8 :
    (ch : ℕ)
    → ch < 256
    → (is_utf8 (glyph ch) ≡ true) × (is_printable (code_point (glyph ch)) ≡ true)
unfolding cp437_utf8
cp437_utf8-is_utf8 ch h = and-eq-true _ _ (all_below_sound 256 is_shown ch refl h)
