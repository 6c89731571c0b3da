-- ===== src/Keys/Escape.antt =====
-- The escape-sequence assembly of dosshd/ansikey.c.
use dossh.Base.{
  ℕ, ◌+◌, ◌-◌, ◌*◌, ◌%◌, ◌^◌, ◌≤◌, true, false, List, [], ◌∷◌, ◌++◌, ◌≡◌, ◌≢◌, ◌⊎◌, refl, arith,
  u16, length, length-append, take, all, get_or, append_assoc, append-nil, length-take, take-all,
  take-append_full, take-append-take, and-eq-true,
}
use dossh.Keys.{
  Keys, start, inject_if, is_digit, csi_number, csi_byte, idle_byte, pending_byte, unswallowed_byte,
  key_body, unnested_byte, ansi_key_byte, ansi_key_tick, feed,
}
use dossh.Keys.Tables.{KeyEvent, inject, csi_tilde}

-- With nothing pending the body makes no call of itself.
key_body_idle :
    (f g : Keys → ℕ → Keys × List KeyEvent) (s : Keys) (b : ℕ)
    → key_body f (record s { pend = [] }) b ≡ key_body g (record s { pend = [] }) b
unfolding key_body unswallowed_byte
key_body_idle f g s b = ground arith

pending_byte_agree :
    (f g : Keys → ℕ → Keys × List KeyEvent) (s : Keys) (b : ℕ)
    → f (record s { pend = [] }) b ≡ g (record s { pend = [] }) b
    → pending_byte f s b ≡ pending_byte g s b
unfolding pending_byte
pending_byte_agree f g s b e = ground arith

-- The model of `ansi_key_byte` satisfies the recursion of the source, at every state and byte:
-- it is the body with its own call put in for the call of itself.
pub ansi_key_byte-eq-key_body : (s : Keys) (b : ℕ) → ansi_key_byte s b ≡ key_body ansi_key_byte s b
unfolding ansi_key_byte key_body unswallowed_byte
ansi_key_byte-eq-key_body s b = ground (
  arith,
  pending_byte_agree unnested_byte ansi_key_byte
      (record s { swallow = false; rb_state = 0; pend_age = 0 }) b
      (key_body_idle (λ s b. (s, [])) unnested_byte
        (record s { swallow = false; rb_state = 0; pend_age = 0 }) b),
)

-- `pend[12]` is never overrun, a sequence starts with ESC, and the counters stay small.
pub record IsWellFormed (s : Keys) : Type 0 where
  pub fits : length s.pend ≤ 12
  pub escape : (s.pend ≡ []) ⊎ (get_or s.pend 0 0 ≡ 0x1B)
  pub age : (s.pend ≡ []) ⊎ (s.pend_age ≤ 1)
  pub sentinel : s.rb_state ≤ 3

get_or-append_cons : (p : List ℕ) (b : ℕ) → p ≢ [] → get_or (p ++ (b ∷ [])) 0 0 ≡ get_or p 0 0
get_or-append_cons [] b h = absurd (h refl)
get_or-append_cons (x ∷ xs) b h = refl

csi_byte-IsWellFormed :
    {s : Keys} (b : ℕ) → IsWellFormed s → s.pend ≢ [] → IsWellFormed (csi_byte s b).0
unfolding csi_byte
csi_byte-IsWellFormed {s} b v h =
    ground (arith, get_or-append_cons s.pend b h, length-append s.pend (b ∷ []))

module _ (again : Keys → ℕ → Keys × List KeyEvent)
    (keeps : (s : Keys) (b : ℕ) → IsWellFormed s → IsWellFormed (again s b).0) where
  pending_byte-IsWellFormed :
      {s : Keys} (b : ℕ) → IsWellFormed s → s.pend ≢ [] → IsWellFormed (pending_byte again s b).0
  unfolding pending_byte
  pending_byte-IsWellFormed {s} b v h = ground (
    arith,
    keeps (record s { pend = [] }) b,
    csi_byte-IsWellFormed {s = s} b v h,
    get_or-append_cons s.pend b h,
    length-append s.pend (b ∷ []),
  )

  unswallowed_byte-IsWellFormed :
      {s : Keys} (b : ℕ) → IsWellFormed s → IsWellFormed (unswallowed_byte again s b).0
  unfolding unswallowed_byte idle_byte
  unswallowed_byte-IsWellFormed {s} b v =
      ground (arith, pending_byte-IsWellFormed {s = record s { swallow = false; pend_age = 0 }} b)

  key_body-IsWellFormed : (s : Keys) (b : ℕ) → IsWellFormed s → IsWellFormed (key_body again s b).0
  unfolding key_body
  key_body-IsWellFormed s b v =
      ground (arith, unswallowed_byte-IsWellFormed {s = record s { rb_state = 0 }} b)

-- Every byte and every tick keep the state well formed: at most 12 bytes pending, the first of
-- them ESC, a pending sequence younger than two ticks, the sentinel count at most 3.
pub ansi_key-IsWellFormed :
    (s : Keys) (b : ℕ)
    → IsWellFormed s
    → IsWellFormed (ansi_key_byte s b).0 × IsWellFormed (ansi_key_tick s).0
unfolding ansi_key_byte ansi_key_tick
ansi_key-IsWellFormed s b v = (
  key_body-IsWellFormed unnested_byte (key_body-IsWellFormed (λ s b. (s, [])) (λ s b v. v)) s b v,
  ground arith,
)

-- Between sequences: nothing pending, no CR just sent, the sentinel not armed.
pub record IsIdle (s : Keys) : Type 0 where
  pub no_pending : s.pend ≡ []
  pub no_swallow : s.swallow ≡ false
  pub unarmed : s.rb_state ≡ 0

-- The state inside `ESC [ ds`.
abbrev in_csi : List ℕ → Keys
in_csi ds = record { pend = 0x1B ∷ b'[' ∷ ds; pend_age = 0; swallow = false; rb_state = 0 }

abbrev idle : Keys
idle = record { pend = []; pend_age = 0; swallow = false; rb_state = 0 }

in_csi_digit :
    (ds : List ℕ) (d : ℕ)
    → length ds ≤ 10
    → is_digit d ≡ true
    → ansi_key_byte (in_csi ds) d ≡ (in_csi (take 10 (ds ++ (d ∷ []))), [])
unfolding ansi_key_byte key_body unswallowed_byte
in_csi_digit ds d short h = ground (
  arith,
  take-all 10 (ds ++ (d ∷ [])),
  take-append_full 10 ds (d ∷ []),
  length-append ds (d ∷ []),
)

-- Digits beyond the tenth are read and forgotten.
in_csi_digits :
    (acc ds : List ℕ)
    → length acc ≤ 10
    → all is_digit ds ≡ true
    → feed (in_csi acc) ds ≡ (in_csi (take 10 (acc ++ ds)), [])
unfolding feed
in_csi_digits acc [] short h = rw (append-nil, take-all 10 acc short)
in_csi_digits acc (d ∷ ds) short h =
    let (digit, digits) = and-eq-true _ _ h in
    rw (
      in_csi_digit acc d short digit,
      in_csi_digits (take 10 (acc ++ (d ∷ []))) ds (omega (arith, length-take 10 (acc ++ (d ∷ []))))
          digits,
      take-append-take 10 (acc ++ (d ∷ [])) ds,
      append_assoc,
    )

feed-append :
    (s : Keys) (xs ys : List ℕ)
    → feed s (xs ++ ys) ≡ ((feed (feed s xs).0 ys).0, (feed s xs).1 ++ (feed (feed s xs).0 ys).1)
unfolding feed
feed-append s [] ys = refl
feed-append s (x ∷ xs) ys = rw (feed-append (ansi_key_byte s x).0 xs ys) (rw append_assoc)

-- The number that decimal digits denote, with no bound.
abbrev pub decimal : ℕ → List ℕ → ℕ
decimal n [] = n
decimal n (d ∷ ds) = decimal (n * 10 + (d - b'0')) ds

csi_number-decimal :
    (n : ℕ) (ds : List ℕ)
    → all is_digit ds ≡ true
    → csi_number (n % 2 ^ 16) ds ≡ decimal n ds % 2 ^ 16
unfolding csi_number
csi_number-decimal n [] h = refl
csi_number-decimal n (d ∷ ds) h =
    let (digit, digits) = and-eq-true (is_digit d) (all is_digit ds) h in
    let step : u16 (u16 (n % 2 ^ 16 * 10) + (d - b'0')) ≡ (n * 10 + (d - b'0')) % 2 ^ 16 =
      omega arith in
    rw (digit, step) (csi_number-decimal (n * 10 + (d - b'0')) ds digits)

csi_tilde_end :
    (ds : List ℕ)
    → ansi_key_byte (in_csi ds) b'~' ≡ (idle, inject_if (csi_tilde (csi_number 0 ds)) 0)
unfolding ansi_key_byte key_body unswallowed_byte
csi_tilde_end ds = ground arith

feed_open : (rest : List ℕ) → feed start (0x1B ∷ b'[' ∷ rest) ≡ feed (in_csi []) rest
unfolding feed ansi_key_byte key_body unswallowed_byte
feed_open rest = refl

feed_one :
    (s : Keys) (b : ℕ) → feed s (b ∷ []) ≡ ((ansi_key_byte s b).0, (ansi_key_byte s b).1 ++ [])
unfolding feed
feed_one s b = refl

-- From an idle state, `ESC [ digits ~` with at most ten digits injects the extended key of the
-- decimal number (taken modulo 2 ^ 16) with ASCII 0, if there is one, and nothing else, and
-- leaves the state idle again.
pub feed-csi_tilde :
    (ds : List ℕ)
    → length ds ≤ 10
    → all is_digit ds ≡ true
    → feed start (0x1B ∷ b'[' ∷ (ds ++ (b'~' ∷ [])))
      ≡ (start, inject_if (csi_tilde (decimal 0 ds % 2 ^ 16)) 0)
feed-csi_tilde ds short digits = rw (
  feed_open (ds ++ (b'~' ∷ [])),
  feed-append (in_csi []) ds (b'~' ∷ []),
  in_csi_digits [] ds (omega arith) digits,
  take-all 10 ds short,
  feed_one (in_csi ds) b'~',
  csi_tilde_end ds,
  append-nil,
  csi_number-decimal 0 ds digits,
)

-- An ESC that no `[`, `O` or Ctrl-^ follows is the Escape key: after it, from the load-time state,
-- the byte does what it would have done alone.
pub feed-lone_escape :
    (b : ℕ)
    → b ≢ b'['
    → b ≢ b'O'
    → b ≢ 0x1E
    → feed start (0x1B ∷ b ∷ [])
      ≡ ((feed start (b ∷ [])).0, inject 0x01 0x1B ∷ (feed start (b ∷ [])).1)
unfolding feed ansi_key_byte key_body unswallowed_byte pending_byte
feed-lone_escape b h k l = ground arith

-- With no byte after it, an ESC becomes the Escape key at the second tick and not before.
pub tick-lone_escape :
    (s : Keys)
    → s.pend ≡ 0x1B ∷ []
    → s.pend_age ≡ 0
    → ((ansi_key_tick s).1 ≡ [])
      × ((ansi_key_tick (ansi_key_tick s).0).1 ≡ inject 0x01 0x1B ∷ [])
      × ((ansi_key_tick (ansi_key_tick s).0).0.pend ≡ [])
unfolding ansi_key_tick
tick-lone_escape s p a = ground arith
