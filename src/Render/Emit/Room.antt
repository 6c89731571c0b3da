-- ===== src/Render/Emit/Room.antt =====
-- The bytes that the helpers of dosshd/render.c append while the buffer has room.
use dossh.Base.{
  ℕ, ◌+◌, ◌≤◌, Bool, true, List, [], ◌∷◌, ◌++◌, ◌≡◌, refl, arith, ltb, leb, if◌then◌else◌, length,
  all, length-append, append_assoc, append-nil,
}
use dossh.Render.State.{Render, obuf_sz}
use dossh.Render.Emit.{e_b, e_s, e_num, e_cup, e_sgr, num_bytes, fg_code, bg_code}

-- The state with bytes appended.
abbrev pub with_bytes : Render → List ℕ → Render
with_bytes r cs = record r { o = r.o ++ cs }

abbrev pub is_byte : ℕ → Bool
is_byte b = ltb b 256

pub e_s-append :
    (cs : List ℕ) (r : Render)
    → all is_byte cs ≡ true
    → length r.o + length cs ≤ obuf_sz
    → e_s cs r ≡ with_bytes r cs
unfolding e_s e_b
e_s-append [] r bytes room = ground (arith, append-nil r.o)
e_s-append (c ∷ cs) r bytes room =
    let r' : Render = record r { o = r.o ++ (c ∷ []) } in
    let grown : length r'.o ≡ length r.o + 1 = length-append r.o (c ∷ []) in
    let first : e_b c r ≡ r' = ground arith in
    let rest : e_s cs r' ≡ with_bytes r' cs =
      e_s-append cs r' (ground arith) (ground (arith, grown)) in
    ground (arith, first, rest, append_assoc r.o (c ∷ []) cs)

e_s-e_s : (xs ys : List ℕ) (r : Render) → e_s ys (e_s xs r) ≡ e_s (xs ++ ys) r
unfolding e_s
e_s-e_s [] ys r = refl
e_s-e_s (x ∷ xs) ys r = e_s-e_s xs ys (e_b x r)

-- `ESC [ row+1 ; col+1 H`
abbrev pub cup_bytes : ℕ → ℕ → List ℕ
cup_bytes row col =
    0x1B ∷ b'[' ∷ (num_bytes (row + 1) ++ (b';' ∷ (num_bytes (col + 1) ++ (b'H' ∷ []))))

e_cup-steps :
    (row col : ℕ) (r : Render)
    → e_cup row col r
      ≡ e_s (b'H' ∷ []) (
          e_s
            (num_bytes (col + 1))
            (e_s (b';' ∷ []) (e_s (num_bytes (row + 1)) (e_s (0x1B ∷ b'[' ∷ []) r))))
unfolding e_cup e_num e_s
e_cup-steps row col r = refl

pub e_cup-e_s : (row col : ℕ) (r : Render) → e_cup row col r ≡ e_s (cup_bytes row col) r
e_cup-e_s row col r = simp (e_cup-steps, e_s-e_s, append_assoc)

abbrev pub blink_bytes : ℕ → List ℕ
blink_bytes attr = if leb 0x80 attr then b';' ∷ b'5' ∷ [] else []

-- `0 ; fg ; bg` and `; 5` for a blinking cell.
abbrev pub sgr_params : ℕ → List ℕ
sgr_params attr =
    b'0'
    ∷ b';'
    ∷ (num_bytes (fg_code attr) ++ (b';' ∷ (num_bytes (bg_code attr) ++ blink_bytes attr)))

abbrev pub sgr_bytes : ℕ → List ℕ
sgr_bytes attr = 0x1B ∷ b'[' ∷ (sgr_params attr ++ (b'm' ∷ []))

e_sgr-steps :
    (attr : ℕ) (r : Render)
    → e_sgr attr r
      ≡ e_s (b'm' ∷ []) (
          e_s (blink_bytes attr) (
            e_s (num_bytes (bg_code attr)) (
              e_s
                (b';' ∷ [])
                (e_s (num_bytes (fg_code attr)) (e_s (0x1B ∷ b'[' ∷ b'0' ∷ b';' ∷ []) r)))))
unfolding e_sgr e_num e_s
e_sgr-steps attr r = ground arith

pub e_sgr-e_s : (attr : ℕ) (r : Render) → e_sgr attr r ≡ e_s (sgr_bytes attr) r
e_sgr-e_s attr r = simp (e_sgr-steps, e_s-e_s, append_assoc)
