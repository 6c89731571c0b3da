-- ===== src/Render/Terminal.antt =====
-- The terminal that a client of dosshd/render.c has: what of ECMA-48 and UTF-8 the renderer relies on.
-- A cell keeps the bytes of the character that was written to it and the parameters of the SGR in
-- force; every SGR of the renderer starts with 0, so its parameters alone determine the look.
pub mod Reads
use dossh.Base.{
  ℕ, zero, suc, ◌+◌, ◌-◌, ◌*◌, ◌/◌, ◌%◌, Bool, true, false, ◌&&◌, List, [], ◌∷◌, ◌++◌, ltb, leb,
  ◌==◌, if◌then◌else◌, same_bytes, codes,
}

-- Inside a control sequence, `seen` are its parameter bytes; inside a UTF-8 character, `seen` are
-- its bytes and `left` how many are to come.
pub data Reading : Type 0 where
  plain escape : Reading
  control : (seen : List ℕ) → Reading
  utf8 : (left : ℕ) (seen : List ℕ) → Reading

abbrev pub Cell : Type 0
Cell = List ℕ × List ℕ

pub record Terminal : Type 0 where
  pub reading : Reading
  pub row : ℕ
  pub col : ℕ
  pub pen : List ℕ
  pub wraps : Bool
  pub cursor_shown : Bool
  pub grid : ℕ → ℕ → Cell

abbrev pub blank : Cell
blank = (b' ' ∷ [], [])

-- The numbers between semicolons, `n` read of the first.
abbrev pub fields : ℕ → List ℕ → List ℕ
fields n [] = n ∷ []
fields n (b ∷ bs) =
    let rest = fields (if b == b';' then 0 else n * 10 + (b - b'0')) bs in
    if b == b';' then n ∷ rest else rest

-- A position counts from 1; without two numbers it is the home position.
abbrev pub move_to : List ℕ → Terminal → Terminal
move_to (r ∷ c ∷ []) t = record t { row = r - 1; col = c - 1 }
move_to other t = record t { row = 0; col = 0 }

abbrev pub set_mode : Bool → List ℕ → Terminal → Terminal
set_mode on seen t =
    if same_bytes seen (codes "?7")
    then record t { wraps = on }
    else if same_bytes seen (codes "?25")
    then record t { cursor_shown = on }
    else t

-- The control sequence with the final byte `b`.
unfoldable pub perform : ℕ → List ℕ → Terminal → Terminal
perform b seen t =
    if b == b'H'
    then move_to (fields 0 seen) t
    else if b == b'm'
    then record t { pen = seen }
    else if b == b'J'
    then if same_bytes seen (codes "2") then record t { grid = λ r c. blank } else t
    else if b == b'h'
    then set_mode true seen t
    else if b == b'l'
    then set_mode false seen t
    else t

-- A character is written, on a screen `width` wide; the cursor stays in the last column.
unfoldable pub write_char : ℕ → List ℕ → Terminal → Terminal
write_char width text t = record t {
  grid = λ r c. if r == t.row && c == t.col then (text, t.pen) else t.grid r c;
  col = if ltb (t.col + 1) width then t.col + 1 else t.col;
  reading = plain;
}

unfoldable pub ground_byte : ℕ → ℕ → Terminal → Terminal
ground_byte width b t =
    if b == 0x1B
    then record t { reading = escape }
    else if ltb b 0x20
    then t
    else if ltb b 0x80
    then write_char width (b ∷ []) t
    else if ltb b 0xE0
    then record t { reading = utf8 1 (b ∷ []) }
    else record t { reading = utf8 2 (b ∷ []) }

unfoldable pub read_byte : Reading → ℕ → ℕ → Terminal → Terminal
read_byte plain width b t = ground_byte width b t
read_byte escape width b t = record t { reading = if b == b'[' then control [] else plain }
read_byte (control seen) width b t =
    if ltb b 0x40
    then record t { reading = control (seen ++ (b ∷ [])) }
    else perform b seen (record t { reading = plain })
read_byte (utf8 left seen) width b t =
    if ltb 1 left
    then record t { reading = utf8 (left - 1) (seen ++ (b ∷ [])) }
    else write_char width (seen ++ (b ∷ [])) t

-- The terminal once it has read the bytes.
unfoldable pub reads : ℕ → Terminal → List ℕ → Terminal
reads width t [] = t
reads width t (b ∷ bs) = reads width (read_byte t.reading width b t) bs
