-- ===== src/Render/Frame/Cells.antt =====
-- The bytes that dosshd/render.c sends for one cell, while the buffer has room for them.
use dossh.Base.{
  ℕ, zero, suc, ◌+◌, ◌-◌, ◌/◌, ◌%◌, ◌<◌, ◌≤◌, Bool, true, not, ◌||◌, List, [], ◌∷◌, ◌++◌, some, ◌≡◌,
  refl, arith, inl, inr, ◌==◌, if◌then◌else◌, length, all, length-append, append_assoc, append-nil,
  Bool-cases,
}
use dossh.Cp437.{Glyph}
use dossh.Cp437.Glyphs.{is_utf8, glyph, cp437_utf8-is_utf8}
use dossh.Render.State.{Render, obuf_sz}
use dossh.Render.Emit.{
  e_cup, e_sgr, e_char, num_bytes, fg_code, bg_code, char_bytes, glyph_bytes, v2a,
}
use dossh.Render.Emit.Numbers.{is_decimal, num_bytes-all, num_bytes-length, num_bytes-small}
use dossh.Render.Emit.Room.{
  with_bytes, is_byte, e_s-append, e_cup-e_s, e_sgr-e_s, cup_bytes, sgr_bytes, sgr_params,
  blink_bytes,
}
use dossh.Render.Frame.{emit_cell, follows, has_sgr}

abbrev pub place_bytes : ℕ → Render → List ℕ
place_bytes c r =
    if not (follows r.last_emit c) || c % r.f_cols == 0
    then cup_bytes (c / r.f_cols) (c % r.f_cols)
    else []

abbrev pub ink_bytes : ℕ → Render → List ℕ
ink_bytes at r = if has_sgr r.cur_sgr at then [] else sgr_bytes at

-- The bytes of the cell `c` that is to show `ch` with the attribute `at`.
abbrev pub cell_bytes : ℕ → ℕ → ℕ → Render → List ℕ
cell_bytes c ch at r = place_bytes c r ++ (ink_bytes at r ++ char_bytes ch)

all_bytes : (xs : List ℕ) → all is_decimal xs ≡ true → all is_byte xs ≡ true
all_bytes [] h = refl
all_bytes (x ∷ xs) h = ground (arith, all_bytes xs)

all-append :
    (p : ℕ → Bool) (xs ys : List ℕ) → all p xs ≡ true → all p ys ≡ true → all p (xs ++ ys) ≡ true
all-append p [] ys h k = k
all-append p (x ∷ xs) ys h k = ground (arith, all-append p xs ys)

pub cup_bytes-all : (row col : ℕ) → all is_byte (cup_bytes row col) ≡ true
cup_bytes-all row col =
    let rs : List ℕ = num_bytes (row + 1) in
    let cs : List ℕ = num_bytes (col + 1) in
    let tail = all-append is_byte cs (b'H' ∷ []) (all_bytes cs (num_bytes-all (col + 1))) refl in
    ground (
      arith,
      all-append is_byte rs (b';' ∷ (cs ++ (b'H' ∷ []))) (all_bytes rs (num_bytes-all (row + 1)))
          tail,
    )

cup_bytes-length : (row col : ℕ) → length (cup_bytes row col) ≤ 14
cup_bytes-length row col =
    let cs : List ℕ = num_bytes (col + 1) in
    omega (
      arith,
      num_bytes-length (row + 1),
      num_bytes-length (col + 1),
      length-append (num_bytes (row + 1)) (b';' ∷ (cs ++ (b'H' ∷ []))),
      length-append cs (b'H' ∷ []),
    )

sgr_bytes-all : (attr : ℕ) → all is_byte (sgr_bytes attr) ≡ true
sgr_bytes-all attr =
    let fs : List ℕ = num_bytes (fg_code attr) in
    let bs : List ℕ = num_bytes (bg_code attr) in
    let back =
      all-append is_byte bs (blink_bytes attr) (all_bytes bs (num_bytes-all (bg_code attr)))
        (ground arith) in
    let front =
      all-append is_byte fs (b';' ∷ (bs ++ blink_bytes attr))
        (all_bytes fs (num_bytes-all (fg_code attr))) (ground (arith, back)) in
    ground (arith, all-append is_byte (sgr_params attr) (b'm' ∷ []) (ground (arith, front)) refl)

v2a-le : (i : ℕ) → v2a i ≤ 7
unfolding v2a
v2a-le zero = omega arith
v2a-le (suc zero) = omega arith
v2a-le (suc (suc zero)) = omega arith
v2a-le (suc (suc (suc zero))) = omega arith
v2a-le (suc (suc (suc (suc zero)))) = omega arith
v2a-le (suc (suc (suc (suc (suc zero))))) = omega arith
v2a-le (suc (suc (suc (suc (suc (suc zero)))))) = omega arith
v2a-le (suc (suc (suc (suc (suc (suc (suc i))))))) = ground arith

fg_code-lt : (attr : ℕ) → fg_code attr < 1000
unfolding fg_code
fg_code-lt attr = ground (arith, v2a-le (attr % 16), v2a-le (attr % 16 - 8))

bg_code-lt : (attr : ℕ) → bg_code attr < 1000
unfolding bg_code
bg_code-lt attr = omega (arith, v2a-le (attr / 16 % 8))

sgr_bytes-length : (attr : ℕ) → length (sgr_bytes attr) ≤ 14
sgr_bytes-length attr =
    let bs : List ℕ = num_bytes (bg_code attr) in
    ground (
      arith,
      num_bytes-small (fg_code attr) (fg_code-lt attr),
      num_bytes-small (bg_code attr) (bg_code-lt attr),
      length-append (sgr_params attr) (b'm' ∷ []),
      length-append (num_bytes (fg_code attr)) (b';' ∷ (bs ++ blink_bytes attr)),
      length-append bs (blink_bytes attr),
    )

glyph_bytes-small :
    (g : Glyph)
    → is_utf8 g ≡ true
    → (all is_byte (glyph_bytes g) ≡ true) × (length (glyph_bytes g) ≤ 3)
glyph_bytes-small (n, x, y, z) h = ground arith

char_bytes-small :
    (ch : ℕ) → ch < 256 → (all is_byte (char_bytes ch) ≡ true) × (length (char_bytes ch) ≤ 3)
unfolding char_bytes
char_bytes-small ch h = glyph_bytes-small (glyph ch) (cp437_utf8-is_utf8 ch h).0

-- A cell takes at most 31 bytes, all of them bytes.
pub cell_bytes-small :
    (c ch at : ℕ) (r : Render)
    → ch < 256
    → (all is_byte (cell_bytes c ch at r) ≡ true) × (length (cell_bytes c ch at r) ≤ 31)
cell_bytes-small c ch at r h =
    let (chars, short) = char_bytes-small ch h in
    let placed : (all is_byte (place_bytes c r) ≡ true) × (length (place_bytes c r) ≤ 14) = ground (
      arith,
      cup_bytes-all (c / r.f_cols) (c % r.f_cols),
      cup_bytes-length (c / r.f_cols) (c % r.f_cols),
    ) in
    let inked : (all is_byte (ink_bytes at r) ≡ true) × (length (ink_bytes at r) ≤ 14) =
      ground (arith, sgr_bytes-all at, sgr_bytes-length at) in
    let tail = all-append is_byte (ink_bytes at r) (char_bytes ch) inked.0 chars in
    (
      all-append is_byte (place_bytes c r) (ink_bytes at r ++ char_bytes ch) placed.0 tail,
      omega (
        arith,
        placed.1,
        inked.1,
        short,
        length-append (place_bytes c r) (ink_bytes at r ++ char_bytes ch),
        length-append (ink_bytes at r) (char_bytes ch),
      ),
    )

abbrev RoomFor : Render → List ℕ → Type 0
RoomFor r cs = length r.o + length cs ≤ obuf_sz

place_lem :
    (c : ℕ) (r : Render)
    → RoomFor r (place_bytes c r)
    → (if not (follows r.last_emit c) || c % r.f_cols == 0
        then e_cup (c / r.f_cols) (c % r.f_cols) r
        else r)
      ≡ with_bytes r (place_bytes c r)
place_lem c r room =
    let row : ℕ = c / r.f_cols in
    let col : ℕ = c % r.f_cols in
    let stays = append-nil r.o in
    let moves = e_cup-e_s row col r in
    let cup = e_s-append (cup_bytes row col) r (cup_bytes-all row col) in
    elim (Bool-cases (not (follows r.last_emit c) || c % r.f_cols == 0)) [
      | inl move ↦ ground (arith, moves, cup (ground arith))
      | inr stay ↦ ground (arith, stays)
    ]

ink_lem :
    (at : ℕ) (r : Render)
    → RoomFor r (ink_bytes at r)
    → (if has_sgr r.cur_sgr at then r else record (e_sgr at r) { cur_sgr = some at })
      ≡ record (with_bytes r (ink_bytes at r)) { cur_sgr = some at }
ink_lem at r room =
    let stays = append-nil r.o in
    let inks = e_sgr-e_s at r in
    let sgr = e_s-append (sgr_bytes at) r (sgr_bytes-all at) in
    elim (Bool-cases (has_sgr r.cur_sgr at)) [
      | inl same ↦ ground (arith, stays)
      | inr other ↦ ground (arith, inks, sgr (ground arith))
    ]

-- With room for a cell, `emit_cell` appends its bytes and notes the attribute.
pub emit_cell-append :
    (c ch at : ℕ) (r : Render)
    → ch < 256
    → length r.o + 31 ≤ obuf_sz
    → emit_cell c ch at r ≡ record (with_bytes r (cell_bytes c ch at r)) { cur_sgr = some at }
unfolding emit_cell e_char
emit_cell-append c ch at r h room =
    let ps : List ℕ = place_bytes c r in
    let is : List ℕ = ink_bytes at r in
    let (all_small, short) = cell_bytes-small c ch at r h in
    let total = length-append ps (is ++ char_bytes ch) in
    let parts = length-append is (char_bytes ch) in
    let grown = length-append r.o ps in
    let regrown = length-append (r.o ++ ps) is in
    let q : Render = record (with_bytes (with_bytes r ps) is) { cur_sgr = some at } in
    let placed = place_lem c r (omega (arith, short, total)) in
    let inked = ink_lem at (with_bytes r ps) (omega (arith, short, total, parts, grown)) in
    let written =
      e_s-append (char_bytes ch) q (char_bytes-small ch h).0
        (omega (arith, short, total, parts, grown, regrown)) in
    ground (
      arith,
      placed,
      inked,
      written,
      append_assoc r.o ps is,
      append_assoc r.o (ps ++ is) (char_bytes ch),
      append_assoc ps is (char_bytes ch),
    )
