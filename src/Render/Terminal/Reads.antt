-- ===== src/Render/Terminal/Reads.antt =====
-- What a terminal does with the sequences that dosshd/render.c sends.
use dossh.Base.{
  ℕ, ◌+◌, ◌-◌, ◌*◌, ◌<◌, ◌≤◌, Bool, true, List, [], ◌∷◌, ◌++◌, ◌≡◌, refl, arith, ltb, all,
  append_assoc, append-nil,
}
use dossh.Cp437.{Glyph}
use dossh.Cp437.Glyphs.{is_utf8, is_printable, code_point, glyph, cp437_utf8-is_utf8}
use dossh.Render.Emit.{num_bytes, fg_code, bg_code, char_bytes, glyph_bytes}
use dossh.Render.Emit.Numbers.{is_decimal, decimal, num_bytes-all, num_bytes-decimal}
use dossh.Render.Emit.Room.{cup_bytes, sgr_bytes, sgr_params, blink_bytes}
use dossh.Render.Terminal.{
  plain, control, Terminal, fields, perform, write_char, ground_byte, read_byte, reads,
}

pub reads-append :
    (width : ℕ) (t : Terminal) (xs ys : List ℕ)
    → reads width t (xs ++ ys) ≡ reads width (reads width t xs) ys
unfolding reads
reads-append width t [] ys = refl
reads-append width t (x ∷ xs) ys = reads-append width (read_byte t.reading width x t) xs ys

-- A parameter byte of a control sequence.
abbrev is_param : ℕ → Bool
is_param b = ltb b 0x40

reads-params :
    (width : ℕ) (t : Terminal) (seen ps : List ℕ) (b : ℕ) (rest : List ℕ)
    → all is_param ps ≡ true
    → reads width (record t { reading = control seen }) (ps ++ rest)
      ≡ reads width (record t { reading = control (seen ++ ps) }) rest
unfolding reads read_byte
reads-params width t seen [] b rest params = rw (append-nil seen)
reads-params width t seen (p ∷ ps) b rest params =
    let go = reads-params width t (seen ++ (p ∷ [])) ps b rest (ground arith) in
    ground (arith, go, append_assoc seen (p ∷ []) ps)

-- `ESC [ params b`
pub reads-control :
    (width : ℕ) (t : Terminal) (ps : List ℕ) (b : ℕ)
    → t.reading ≡ plain
    → all is_param ps ≡ true
    → 0x40 ≤ b
    → reads width t (0x1B ∷ b'[' ∷ (ps ++ (b ∷ []))) ≡ perform b ps (record t { reading = plain })
unfolding reads read_byte ground_byte
reads-control width t ps b idle params final =
    ground (arith, reads-params width t [] ps b (b ∷ []) params)

all-append :
    (p : ℕ → Bool) (xs ys : List ℕ) → all p xs ≡ true → all p ys ≡ true → all p (xs ++ ys) ≡ true
all-append p [] ys h k = k
all-append p (x ∷ xs) ys h k = ground (arith, all-append p xs ys)

decimal_params : (xs : List ℕ) → all is_decimal xs ≡ true → all is_param xs ≡ true
decimal_params [] h = refl
decimal_params (x ∷ xs) h = ground (arith, decimal_params xs)

fields-decimal :
    (n : ℕ) (xs rest : List ℕ)
    → all is_decimal xs ≡ true
    → fields n (xs ++ rest) ≡ fields (decimal n xs) rest
fields-decimal n [] rest h = refl
fields-decimal n (x ∷ xs) rest h = ground (arith, fields-decimal (n * 10 + (x - b'0')) xs rest)

-- A cursor position moves the cursor there, and does nothing else.
pub reads-cup :
    (width : ℕ) (t : Terminal) (row col : ℕ)
    → t.reading ≡ plain
    → row + 1 < 100000
    → col + 1 < 100000
    → reads width t (cup_bytes row col) ≡ record t { row = row; col = col }
unfolding perform
reads-cup width t row col idle small narrow =
    let rs : List ℕ = num_bytes (row + 1) in
    let cs : List ℕ = num_bytes (col + 1) in
    let ps : List ℕ = rs ++ (b';' ∷ cs) in
    let params =
      all-append is_param rs (b';' ∷ cs) (decimal_params rs (num_bytes-all (row + 1)))
        (ground (arith, decimal_params cs (num_bytes-all (col + 1)))) in
    let numbers : fields 0 ps ≡ (row + 1) ∷ (col + 1) ∷ [] = ground (
      arith,
      fields-decimal 0 rs (b';' ∷ cs) (num_bytes-all (row + 1)),
      fields-decimal 0 cs [] (num_bytes-all (col + 1)),
      append-nil cs,
      num_bytes-decimal (row + 1),
      num_bytes-decimal (col + 1),
    ) in
    let run = reads-control width t ps b'H' idle params (omega arith) in
    ground (arith, numbers, run, append_assoc rs (b';' ∷ cs) (b'H' ∷ []))

-- An SGR sets the pen to its parameters, and does nothing else.
pub reads-sgr :
    (width : ℕ) (t : Terminal) (attr : ℕ)
    → t.reading ≡ plain
    → reads width t (sgr_bytes attr) ≡ record t { pen = sgr_params attr }
unfolding perform
reads-sgr width t attr idle =
    let fs : List ℕ = num_bytes (fg_code attr) in
    let bs : List ℕ = num_bytes (bg_code attr) in
    let back =
      all-append is_param bs (blink_bytes attr) (decimal_params bs (num_bytes-all (bg_code attr)))
        (ground arith) in
    let params =
      all-append is_param fs (b';' ∷ (bs ++ blink_bytes attr))
        (decimal_params fs (num_bytes-all (fg_code attr))) (ground (arith, back)) in
    let run =
      reads-control width t (sgr_params attr) b'm' idle (ground (arith, params)) (omega arith) in
    ground (arith, run)

-- A glyph that is the UTF-8 form of a printable code point is written as one character.
reads-glyph :
    (width : ℕ) (t : Terminal) (g : Glyph)
    → t.reading ≡ plain
    → is_utf8 g ≡ true
    → is_printable (code_point g) ≡ true
    → reads width t (glyph_bytes g) ≡ write_char width (glyph_bytes g) t
unfolding reads read_byte ground_byte write_char
reads-glyph width t (n, x, y, z) idle valid shown = ground arith

pub reads-char :
    (width : ℕ) (t : Terminal) (ch : ℕ)
    → t.reading ≡ plain
    → ch < 256
    → reads width t (char_bytes ch) ≡ write_char width (char_bytes ch) t
unfolding char_bytes
reads-char width t ch idle small =
    let (valid, shown) = cp437_utf8-is_utf8 ch small in
    reads-glyph width t (glyph ch) idle valid shown
