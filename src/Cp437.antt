-- ===== src/Cp437.antt =====
-- The glyph table of dosshd/cp437.c: a CP437 byte as UTF-8.
pub mod Glyphs
use dossh.Base.{ℕ, List, [], ◌∷◌}

-- A row: the UTF-8 length, 1 to 3, and the bytes.
abbrev pub Glyph : Type 0
Glyph = ℕ × ℕ × ℕ × ℕ

unfoldable pub cp437_utf8 : List Glyph
cp437_utf8 =
    (1, 0x20, 0x00, 0x00)
    ∷ (3, 0xE2, 0x98, 0xBA)
    ∷ (3, 0xE2, 0x98, 0xBB)
    ∷ (3, 0xE2, 0x99, 0xA5)
    ∷ (3, 0xE2, 0x99, 0xA6)
    ∷ (3, 0xE2, 0x99, 0xA3)
    ∷ (3, 0xE2, 0x99, 0xA0)
    ∷ (3, 0xE2, 0x80, 0xA2)
    ∷ (3, 0xE2, 0x97, 0x98)
    ∷ (3, 0xE2, 0x97, 0x8B)
    ∷ (3, 0xE2, 0x97, 0x99)
    ∷ (3, 0xE2, 0x99, 0x82)
    ∷ (3, 0xE2, 0x99, 0x80)
    ∷ (3, 0xE2, 0x99, 0xAA)
    ∷ (3, 0xE2, 0x99, 0xAB)
    ∷ (3, 0xE2, 0x98, 0xBC)
    ∷ (3, 0xE2, 0x96, 0xBA)
    ∷ (3, 0xE2, 0x97, 0x84)
    ∷ (3, 0xE2, 0x86, 0x95)
    ∷ (3, 0xE2, 0x80, 0xBC)
    ∷ (2, 0xC2, 0xB6, 0x00)
    ∷ (2, 0xC2, 0xA7, 0x00)
    ∷ (3, 0xE2, 0x96, 0xAC)
    ∷ (3, 0xE2, 0x86, 0xA8)
    ∷ (3, 0xE2, 0x86, 0x91)
    ∷ (3, 0xE2, 0x86, 0x93)
    ∷ (3, 0xE2, 0x86, 0x92)
    ∷ (3, 0xE2, 0x86, 0x90)
    ∷ (3, 0xE2, 0x88, 0x9F)
    ∷ (3, 0xE2, 0x86, 0x94)
    ∷ (3, 0xE2, 0x96, 0xB2)
    ∷ (3, 0xE2, 0x96, 0xBC)
    ∷ (1, 0x20, 0x00, 0x00)
    ∷ (1, 0x21, 0x00, 0x00)
    ∷ (1, 0x22, 0x00, 0x00)
    ∷ (1, 0x23, 0x00, 0x00)
    ∷ (1, 0x24, 0x00, 0x00)
    ∷ (1, 0x25, 0x00, 0x00)
    ∷ (1, 0x26, 0x00, 0x00)
    ∷ (1, 0x27, 0x00, 0x00)
    ∷ (1, 0x28, 0x00, 0x00)
    ∷ (1, 0x29, 0x00, 0x00)
    ∷ (1, 0x2A, 0x00, 0x00)
    ∷ (1, 0x2B, 0x00, 0x00)
    ∷ (1, 0x2C, 0x00, 0x00)
    ∷ (1, 0x2D, 0x00, 0x00)
    ∷ (1, 0x2E, 0x00, 0x00)
    ∷ (1, 0x2F, 0x00, 0x00)
    ∷ (1, 0x30, 0x00, 0x00)
    ∷ (1, 0x31, 0x00, 0x00)
    ∷ (1, 0x32, 0x00, 0x00)
    ∷ (1, 0x33, 0x00, 0x00)
    ∷ (1, 0x34, 0x00, 0x00)
    ∷ (1, 0x35, 0x00, 0x00)
    ∷ (1, 0x36, 0x00, 0x00)
    ∷ (1, 0x37, 0x00, 0x00)
    ∷ (1, 0x38, 0x00, 0x00)
    ∷ (1, 0x39, 0x00, 0x00)
    ∷ (1, 0x3A, 0x00, 0x00)
    ∷ (1, 0x3B, 0x00, 0x00)
    ∷ (1, 0x3C, 0x00, 0x00)
    ∷ (1, 0x3D, 0x00, 0x00)
    ∷ (1, 0x3E, 0x00, 0x00)
    ∷ (1, 0x3F, 0x00, 0x00)
    ∷ (1, 0x40, 0x00, 0x00)
    ∷ (1, 0x41, 0x00, 0x00)
    ∷ (1, 0x42, 0x00, 0x00)
    ∷ (1, 0x43, 0x00, 0x00)
    ∷ (1, 0x44, 0x00, 0x00)
    ∷ (1, 0x45, 0x00, 0x00)
    ∷ (1, 0x46, 0x00, 0x00)
    ∷ (1, 0x47, 0x00, 0x00)
    ∷ (1, 0x48, 0x00, 0x00)
    ∷ (1, 0x49, 0x00, 0x00)
    ∷ (1, 0x4A, 0x00, 0x00)
    ∷ (1, 0x4B, 0x00, 0x00)
    ∷ (1, 0x4C, 0x00, 0x00)
    ∷ (1, 0x4D, 0x00, 0x00)
    ∷ (1, 0x4E, 0x00, 0x00)
    ∷ (1, 0x4F, 0x00, 0x00)
    ∷ (1, 0x50, 0x00, 0x00)
    ∷ (1, 0x51, 0x00, 0x00)
    ∷ (1, 0x52, 0x00, 0x00)
    ∷ (1, 0x53, 0x00, 0x00)
    ∷ (1, 0x54, 0x00, 0x00)
    ∷ (1, 0x55, 0x00, 0x00)
    ∷ (1, 0x56, 0x00, 0x00)
    ∷ (1, 0x57, 0x00, 0x00)
    ∷ (1, 0x58, 0x00, 0x00)
    ∷ (1, 0x59, 0x00, 0x00)
    ∷ (1, 0x5A, 0x00, 0x00)
    ∷ (1, 0x5B, 0x00, 0x00)
    ∷ (1, 0x5C, 0x00, 0x00)
    ∷ (1, 0x5D, 0x00, 0x00)
    ∷ (1, 0x5E, 0x00, 0x00)
    ∷ (1, 0x5F, 0x00, 0x00)
    ∷ (1, 0x60, 0x00, 0x00)
    ∷ (1, 0x61, 0x00, 0x00)
    ∷ (1, 0x62, 0x00, 0x00)
    ∷ (1, 0x63, 0x00, 0x00)
    ∷ (1, 0x64, 0x00, 0x00)
    ∷ (1, 0x65, 0x00, 0x00)
    ∷ (1, 0x66, 0x00, 0x00)
    ∷ (1, 0x67, 0x00, 0x00)
    ∷ (1, 0x68, 0x00, 0x00)
    ∷ (1, 0x69, 0x00, 0x00)
    ∷ (1, 0x6A, 0x00, 0x00)
    ∷ (1, 0x6B, 0x00, 0x00)
    ∷ (1, 0x6C, 0x00, 0x00)
    ∷ (1, 0x6D, 0x00, 0x00)
    ∷ (1, 0x6E, 0x00, 0x00)
    ∷ (1, 0x6F, 0x00, 0x00)
    ∷ (1, 0x70, 0x00, 0x00)
    ∷ (1, 0x71, 0x00, 0x00)
    ∷ (1, 0x72, 0x00, 0x00)
    ∷ (1, 0x73, 0x00, 0x00)
    ∷ (1, 0x74, 0x00, 0x00)
    ∷ (1, 0x75, 0x00, 0x00)
    ∷ (1, 0x76, 0x00, 0x00)
    ∷ (1, 0x77, 0x00, 0x00)
    ∷ (1, 0x78, 0x00, 0x00)
    ∷ (1, 0x79, 0x00, 0x00)
    ∷ (1, 0x7A, 0x00, 0x00)
    ∷ (1, 0x7B, 0x00, 0x00)
    ∷ (1, 0x7C, 0x00, 0x00)
    ∷ (1, 0x7D, 0x00, 0x00)
    ∷ (1, 0x7E, 0x00, 0x00)
    ∷ (3, 0xE2, 0x8C, 0x82)
    ∷ (2, 0xC3, 0x87, 0x00)
    ∷ (2, 0xC3, 0xBC, 0x00)
    ∷ (2, 0xC3, 0xA9, 0x00)
    ∷ (2, 0xC3, 0xA2, 0x00)
    ∷ (2, 0xC3, 0xA4, 0x00)
    ∷ (2, 0xC3, 0xA0, 0x00)
    ∷ (2, 0xC3, 0xA5, 0x00)
    ∷ (2, 0xC3, 0xA7, 0x00)
    ∷ (2, 0xC3, 0xAA, 0x00)
    ∷ (2, 0xC3, 0xAB, 0x00)
    ∷ (2, 0xC3, 0xA8, 0x00)
    ∷ (2, 0xC3, 0xAF, 0x00)
    ∷ (2, 0xC3, 0xAE, 0x00)
    ∷ (2, 0xC3, 0xAC, 0x00)
    ∷ (2, 0xC3, 0x84, 0x00)
    ∷ (2, 0xC3, 0x85, 0x00)
    ∷ (2, 0xC3, 0x89, 0x00)
    ∷ (2, 0xC3, 0xA6, 0x00)
    ∷ (2, 0xC3, 0x86, 0x00)
    ∷ (2, 0xC3, 0xB4, 0x00)
    ∷ (2, 0xC3, 0xB6, 0x00)
    ∷ (2, 0xC3, 0xB2, 0x00)
    ∷ (2, 0xC3, 0xBB, 0x00)
    ∷ (2, 0xC3, 0xB9, 0x00)
    ∷ (2, 0xC3, 0xBF, 0x00)
    ∷ (2, 0xC3, 0x96, 0x00)
    ∷ (2, 0xC3, 0x9C, 0x00)
    ∷ (2, 0xC2, 0xA2, 0x00)
    ∷ (2, 0xC2, 0xA3, 0x00)
    ∷ (2, 0xC2, 0xA5, 0x00)
    ∷ (3, 0xE2, 0x82, 0xA7)
    ∷ (2, 0xC6, 0x92, 0x00)
    ∷ (2, 0xC3, 0xA1, 0x00)
    ∷ (2, 0xC3, 0xAD, 0x00)
    ∷ (2, 0xC3, 0xB3, 0x00)
    ∷ (2, 0xC3, 0xBA, 0x00)
    ∷ (2, 0xC3, 0xB1, 0x00)
    ∷ (2, 0xC3, 0x91, 0x00)
    ∷ (2, 0xC2, 0xAA, 0x00)
    ∷ (2, 0xC2, 0xBA, 0x00)
    ∷ (2, 0xC2, 0xBF, 0x00)
    ∷ (3, 0xE2, 0x8C, 0x90)
    ∷ (2, 0xC2, 0xAC, 0x00)
    ∷ (2, 0xC2, 0xBD, 0x00)
    ∷ (2, 0xC2, 0xBC, 0x00)
    ∷ (2, 0xC2, 0xA1, 0x00)
    ∷ (2, 0xC2, 0xAB, 0x00)
    ∷ (2, 0xC2, 0xBB, 0x00)
    ∷ (3, 0xE2, 0x96, 0x91)
    ∷ (3, 0xE2, 0x96, 0x92)
    ∷ (3, 0xE2, 0x96, 0x93)
    ∷ (3, 0xE2, 0x94, 0x82)
    ∷ (3, 0xE2, 0x94, 0xA4)
    ∷ (3, 0xE2, 0x95, 0xA1)
    ∷ (3, 0xE2, 0x95, 0xA2)
    ∷ (3, 0xE2, 0x95, 0x96)
    ∷ (3, 0xE2, 0x95, 0x95)
    ∷ (3, 0xE2, 0x95, 0xA3)
    ∷ (3, 0xE2, 0x95, 0x91)
    ∷ (3, 0xE2, 0x95, 0x97)
    ∷ (3, 0xE2, 0x95, 0x9D)
    ∷ (3, 0xE2, 0x95, 0x9C)
    ∷ (3, 0xE2, 0x95, 0x9B)
    ∷ (3, 0xE2, 0x94, 0x90)
    ∷ (3, 0xE2, 0x94, 0x94)
    ∷ (3, 0xE2, 0x94, 0xB4)
    ∷ (3, 0xE2, 0x94, 0xAC)
    ∷ (3, 0xE2, 0x94, 0x9C)
    ∷ (3, 0xE2, 0x94, 0x80)
    ∷ (3, 0xE2, 0x94, 0xBC)
    ∷ (3, 0xE2, 0x95, 0x9E)
    ∷ (3, 0xE2, 0x95, 0x9F)
    ∷ (3, 0xE2, 0x95, 0x9A)
    ∷ (3, 0xE2, 0x95, 0x94)
    ∷ (3, 0xE2, 0x95, 0xA9)
    ∷ (3, 0xE2, 0x95, 0xA6)
    ∷ (3, 0xE2, 0x95, 0xA0)
    ∷ (3, 0xE2, 0x95, 0x90)
    ∷ (3, 0xE2, 0x95, 0xAC)
    ∷ (3, 0xE2, 0x95, 0xA7)
    ∷ (3, 0xE2, 0x95, 0xA8)
    ∷ (3, 0xE2, 0x95, 0xA4)
    ∷ (3, 0xE2, 0x95, 0xA5)
    ∷ (3, 0xE2, 0x95, 0x99)
    ∷ (3, 0xE2, 0x95, 0x98)
    ∷ (3, 0xE2, 0x95, 0x92)
    ∷ (3, 0xE2, 0x95, 0x93)
    ∷ (3, 0xE2, 0x95, 0xAB)
    ∷ (3, 0xE2, 0x95, 0xAA)
    ∷ (3, 0xE2, 0x94, 0x98)
    ∷ (3, 0xE2, 0x94, 0x8C)
    ∷ (3, 0xE2, 0x96, 0x88)
    ∷ (3, 0xE2, 0x96, 0x84)
    ∷ (3, 0xE2, 0x96, 0x8C)
    ∷ (3, 0xE2, 0x96, 0x90)
    ∷ (3, 0xE2, 0x96, 0x80)
    ∷ (2, 0xCE, 0xB1, 0x00)
    ∷ (2, 0xC3, 0x9F, 0x00)
    ∷ (2, 0xCE, 0x93, 0x00)
    ∷ (2, 0xCF, 0x80, 0x00)
    ∷ (2, 0xCE, 0xA3, 0x00)
    ∷ (2, 0xCF, 0x83, 0x00)
    ∷ (2, 0xC2, 0xB5, 0x00)
    ∷ (2, 0xCF, 0x84, 0x00)
    ∷ (2, 0xCE, 0xA6, 0x00)
    ∷ (2, 0xCE, 0x98, 0x00)
    ∷ (2, 0xCE, 0xA9, 0x00)
    ∷ (2, 0xCE, 0xB4, 0x00)
    ∷ (3, 0xE2, 0x88, 0x9E)
    ∷ (2, 0xCF, 0x86, 0x00)
    ∷ (2, 0xCE, 0xB5, 0x00)
    ∷ (3, 0xE2, 0x88, 0xA9)
    ∷ (3, 0xE2, 0x89, 0xA1)
    ∷ (2, 0xC2, 0xB1, 0x00)
    ∷ (3, 0xE2, 0x89, 0xA5)
    ∷ (3, 0xE2, 0x89, 0xA4)
    ∷ (3, 0xE2, 0x8C, 0xA0)
    ∷ (3, 0xE2, 0x8C, 0xA1)
    ∷ (2, 0xC3, 0xB7, 0x00)
    ∷ (3, 0xE2, 0x89, 0x88)
    ∷ (2, 0xC2, 0xB0, 0x00)
    ∷ (3, 0xE2, 0x88, 0x99)
    ∷ (2, 0xC2, 0xB7, 0x00)
    ∷ (3, 0xE2, 0x88, 0x9A)
    ∷ (3, 0xE2, 0x81, 0xBF)
    ∷ (2, 0xC2, 0xB2, 0x00)
    ∷ (3, 0xE2, 0x96, 0xA0)
    ∷ (2, 0xC2, 0xA0, 0x00)
    ∷ []
