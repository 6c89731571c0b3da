-- ===== src/Keys/Typed.antt =====
-- What `map_byte` of dosshd/ansikey.c types for each byte of the wire.
use dossh.Base.{
  ℕ, ◌<◌, Bool, true, ◌&&◌, ◌||◌, not, List, [], ◌∷◌, ◌≡◌, refl, leb, ◌==◌, if◌then◌else◌,
  same_bytes, same_bytes_sound, all_below, all_below_sound, and-eq-true,
}
use dossh.Keys.{map_byte}
use dossh.Keys.Tables.{KeyEvent, inject, reboot, ansi_key_init}

-- The ASCII bytes of the keys, and whether every key has a scancode.
abbrev pub asciis : List KeyEvent → List ℕ
asciis [] = []
asciis (inject s a ∷ es) = a ∷ asciis es
asciis (reboot ∷ es) = asciis es

abbrev pub has_scancodes : List KeyEvent → Bool
has_scancodes [] = true
has_scancodes (inject s a ∷ es) = not (s == 0) && has_scancodes es
has_scancodes (reboot ∷ es) = has_scancodes es

-- A US keyboard types every printable byte and Ctrl-A to Ctrl-Z as itself; LF is Enter, DEL is
-- Backspace, and the other bytes are no key.
abbrev pub types : ℕ → List ℕ
types b =
    if b == 10
    then 13 ∷ []
    else if b == 127
    then 8 ∷ []
    else if (leb 1 b && leb b 26) || (leb 32 b && leb b 126)
    then b ∷ []
    else []

abbrev types_as_told : ℕ → Bool
types_as_told b = same_bytes (asciis (map_byte b)) (types b) && has_scancodes (map_byte b)

typed_table : all_below 256 types_as_told ≡ true
unfolding map_byte ansi_key_init
typed_table = refl

-- For every byte, `map_byte` injects exactly the keys that `types` lists, with their ASCII codes
-- in order, and each of them with a scancode other than 0.
pub map_byte-types :
    (b : ℕ) → b < 256 → (asciis (map_byte b) ≡ types b) × (has_scancodes (map_byte b) ≡ true)
map_byte-types b h =
    let told : types_as_told b ≡ true = all_below_sound 256 types_as_told b typed_table h in
    let (typed, scanned) = and-eq-true _ _ told in (same_bytes_sound _ _ typed, scanned)
