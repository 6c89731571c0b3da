-- ===== src/Resident/Options/Address.antt =====
-- The IP addresses that dosshd/dosshd.c takes.
use dossh.Base.{
  ℕ, zero, suc, ◌+◌, ◌-◌, ◌*◌, ◌^◌, ◌<◌, ◌≤◌, true, false, List, [], ◌∷◌, ◌++◌, some, ◌≡◌, refl,
  sym, ap, ◌∙◌, arith, ◌==◌, length, get_or, all, u32, append-nil,
}
use dossh.Resident.Options.{is_ip_digit, take_number, field, ip_fields, parse_ip}

-- The number that digits denote, `n` read before them.
abbrev pub decimal : ℕ → List ℕ → ℕ
decimal n [] = n
decimal n (b ∷ bs) = decimal (n * 10 + (b - b'0')) bs

-- The text of one field: digits, at least one, for at most 255.
pub record IsOctet (xs : List ℕ) : Type 0 where
  pub digits : all is_ip_digit xs ≡ true
  pub some_digit : 0 < length xs
  pub small : decimal 0 xs < 256

decimal-grows : (n : ℕ) (xs : List ℕ) → n ≤ decimal n xs
decimal-grows n [] = omega arith
decimal-grows n (x ∷ xs) = omega (arith, decimal-grows (n * 10 + (x - b'0')) xs)

-- Digits that stop at something else are read as their number.
take_number-decimal :
    (v : ℕ) (xs rest : List ℕ)
    → all is_ip_digit xs ≡ true
    → is_ip_digit (get_or rest 0 0) ≡ false
    → decimal v xs < 2 ^ 32
    → take_number v (xs ++ rest) ≡ (decimal v xs, rest)
unfolding take_number
take_number-decimal v [] [] digits stops small = refl
take_number-decimal v [] (r ∷ rest) digits stops small = rw stops refl
take_number-decimal v (x ∷ xs) rest digits stops small =
    let grows = decimal-grows (v * 10 + (x - b'0')) xs in
    let fits : u32 (v * 10 + (x - b'0')) ≡ v * 10 + (x - b'0') = omega (arith, grows, small) in
    let here : is_ip_digit x ≡ true = ground arith in
    let others : all is_ip_digit xs ≡ true = ground arith in
    let go = take_number-decimal (v * 10 + (x - b'0')) xs rest others stops small in
    rw (here, fits) go

field-decimal :
    (xs rest : List ℕ)
    → IsOctet xs
    → is_ip_digit (get_or rest 0 0) ≡ false
    → field (xs ++ rest) ≡ some (decimal 0 xs, rest)
unfolding field
field-decimal [] rest octet stops = absurd (omega (arith, octet.some_digit))
field-decimal (x ∷ xs) rest octet stops =
    let read =
      take_number-decimal 0 (x ∷ xs) rest octet.digits stops (omega (arith, octet.small)) in
    let small = octet.small in
    let here : is_ip_digit x ≡ true = ground (arith, octet.digits) in
    ground (arith, read, small, here)

-- The texts of `suc n` fields and the dots between them, and the bytes that they stand for.
abbrev pub Dotted : ℕ → List ℕ → List ℕ → Type 0
Dotted zero s bs = (xs : List ℕ) × (IsOctet xs × (s ≡ xs) × (bs ≡ decimal 0 xs ∷ []))
Dotted (suc n) s bs =
    (xs : List ℕ) × (t : List ℕ) × (cs : List ℕ) × (IsOctet xs
      × (s ≡ xs ++ (b'.' ∷ t))
      × (bs ≡ decimal 0 xs ∷ cs)
      × Dotted n t cs)

ip_fields-step :
    (left d : ℕ) (s t cs : List ℕ)
    → (left == 0) ≡ false
    → field s ≡ some (d, b'.' ∷ t)
    → ip_fields left t ≡ some cs
    → ip_fields (suc left) s ≡ some (d ∷ cs)
unfolding ip_fields
ip_fields-step left d s t cs more read rest = rw (read, more, rest) refl

ip_fields-Dotted : (n : ℕ) (s bs : List ℕ) → Dotted n s bs → ip_fields (suc n) s ≡ some bs
unfolding ip_fields
ip_fields-Dotted zero s bs (xs, (octet, e, v)) =
    let read = field-decimal xs [] octet refl in
    let whole : field s ≡ some (decimal 0 xs, []) = ap field (e ∙ sym (append-nil xs)) ∙ read in
    rw (whole, v) refl
ip_fields-Dotted (suc n) s bs (xs, t, cs, (octet, e, v, more)) =
    let read = field-decimal xs (b'.' ∷ t) octet refl in
    let whole : field s ≡ some (decimal 0 xs, b'.' ∷ t) = ap field e ∙ read in
    ip_fields-step (suc n) (decimal 0 xs) s t cs (ground arith) whole (ip_fields-Dotted n t cs more)
    ∙ ap some (sym v)

-- A text of four fields with dots between them, each of digits for at most 255, is taken as the four
-- bytes that the fields denote.
pub parse_ip-Dotted : (s bs : List ℕ) → Dotted 3 s bs → parse_ip s ≡ some bs
unfolding parse_ip
parse_ip-Dotted s bs dotted = ip_fields-Dotted 3 s bs dotted
