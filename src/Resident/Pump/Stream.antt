-- ===== src/Resident/Pump/Stream.antt =====
-- No byte of the screen's stream is lost between the renderer of dosshd/render.c and the transport.
use dossh.Base.{
  ℕ, zero, suc, ◌+◌, Bool, true, false, List, [], ◌∷◌, Option, none, some, ◌≡◌, refl, sym, ap,
  arith, if◌then◌else◌, length,
}
use mathlib.Core.Path.{subst}
use dossh.Render.State.{Video, Render}
use dossh.Render.Frame.{render_next_byte, render_pushback}
use dossh.Resident.Pump.{pump}

-- The renderer gave these bytes one after the other.
abbrev pub Drawn : Video → Render → List ℕ → Render → Type 0
Drawn m r [] r' = r' ≡ r
Drawn m r (b ∷ bs) r' =
    (r1 : Render) × ((render_next_byte false m r ≡ (r1, some b)) × Drawn m r1 bs r')

-- The transport took these bytes one after the other.
abbrev pub Taken : {S : Type 0} → (S → ℕ → S × Bool) → S → List ℕ → S → Type 0
Taken put s [] s' = s' ≡ s
Taken {S} put s (b ∷ bs) s' = (s1 : S) × ((put s b ≡ (s1, true)) × Taken put s1 bs s')

-- The ways in which a tick's loop ends, behind the bytes that were taken: the budget is spent, the
-- renderer has nothing to send, or the transport refused a byte, which the renderer gives again.
pub data Ended {S : Type 0} (put : S → ℕ → S × Bool) (left : ℕ) (m : Video) (s : S) (r : Render)
    (s' : S) (r' : Render) : Type 0 where
  spent : left ≡ 0 → s' ≡ s → r' ≡ r → Ended put left m s r s' r'
  silent : render_next_byte false m r ≡ (r', none) → s' ≡ s → Ended put left m s r s' r'
  refused :
      (b : ℕ)
      → (render_next_byte false m r).1 ≡ some b
      → put s b ≡ (s', false)
      → (render_next_byte false m r').1 ≡ some b
      → Ended put left m s r s' r'

pub record IsPumped {S : Type 0} (put : S → ℕ → S × Bool) (budget : ℕ) (m : Video) (s : S)
    (r : Render) (s' : S) (r' : Render) : Type 0 where
  pub bytes : List ℕ
  pub between : S
  pub drawn_to : Render
  pub left : ℕ
  pub within : length bytes + left ≡ budget
  pub drawn : Drawn m r bytes drawn_to
  pub taken : Taken put s bytes between
  pub ended : Ended put left m between drawn_to s' r'

module _ {S : Type 0} (put : S → ℕ → S × Bool) (m : Video) where
  -- The byte that was pushed back is the next one.
  pushed_back : (b : ℕ) (r : Render) → (render_next_byte false m (render_pushback b r)).1 ≡ some b
  unfolding render_next_byte render_pushback
  pushed_back b r = refl

  -- One round of the loop, behind what the renderer and the transport answered.
  abbrev answered : ℕ → ℕ → Render → S × Bool → S × Render
  answered budget b r1 p = if p.1 then pump put budget m p.0 r1 else (p.0, render_pushback b r1)

  abbrev round : ℕ → S → Render × Option ℕ → S × Render
  round budget s q = elim q.1 [ none ↦ (s, q.0) | some b ↦ answered budget b q.0 (put s b) ]

  pump-round :
      (budget : ℕ) (s : S) (r : Render) (q : Render × Option ℕ)
      → render_next_byte false m r ≡ q
      → pump put (suc budget) m s r ≡ round budget s q
  unfolding pump
  pump-round budget s r q next = ap (round budget s) next

  round-refused :
      (budget b : ℕ) (s s1 : S) (r1 : Render)
      → put s b ≡ (s1, false)
      → round budget s (r1, some b) ≡ (s1, render_pushback b r1)
  round-refused budget b s s1 r1 full = ap (answered budget b r1) full

  round-taken :
      (budget b : ℕ) (s s1 : S) (r1 : Render)
      → put s b ≡ (s1, true)
      → round budget s (r1, some b) ≡ pump put budget m s1 r1
  round-taken budget b s s1 r1 room = ap (answered budget b r1) room

  -- A byte that was taken stands in front of what the rest of the loop moved.
  moved-IsPumped :
      (budget b : ℕ) (s s1 : S) (r r1 : Render) (last : S × Render)
      → render_next_byte false m r ≡ (r1, some b)
      → put s b ≡ (s1, true)
      → IsPumped put budget m s1 r1 last.0 last.1
      → IsPumped put (suc budget) m s r last.0 last.1
  moved-IsPumped budget b s s1 r r1 last next room p = record {
    bytes = b ∷ p.bytes;
    between = p.between;
    drawn_to = p.drawn_to;
    left = p.left;
    within = omega (arith, p.within);
    drawn = (r1, (next, p.drawn));
    taken = (s1, (room, p.taken));
    ended = p.ended;
  }

  -- No byte was moved.
  stopped-IsPumped :
      (budget : ℕ) (s : S) (r : Render) (last : S × Render)
      → Ended put budget m s r last.0 last.1
      → IsPumped put budget m s r last.0 last.1
  stopped-IsPumped budget s r last e = record {
    bytes = [];
    between = s;
    drawn_to = r;
    left = budget;
    within = omega arith;
    drawn = refl;
    taken = refl;
    ended = e;
  }

  abbrev Pumped : ℕ → S → Render → S × Render → Type 0
  Pumped budget s r last = IsPumped put budget m s r last.0 last.1

  round-IsPumped :
      (budget : ℕ) (s : S) (r r1 : Render) (b : ℕ) (p : S × Bool)
      → ((s1 : S) → Pumped budget s1 r1 (pump put budget m s1 r1))
      → render_next_byte false m r ≡ (r1, some b)
      → put s b ≡ p
      → Pumped (suc budget) s r (round budget s (r1, some b))
  round-IsPumped budget s r r1 b (s1, true) rest next room =
      subst (Pumped (suc budget) s r) (sym (round-taken budget b s s1 r1 room))
        (moved-IsPumped budget b s s1 r r1 (pump put budget m s1 r1) next room (rest s1))
  round-IsPumped budget s r r1 b (s1, false) rest next full =
      subst (Pumped (suc budget) s r) (sym (round-refused budget b s s1 r1 full)) (
        stopped-IsPumped (suc budget) s r (s1, render_pushback b r1)
          (refused b (ap (λ q. q.1) next) full (pushed_back b r1)))

  next-IsPumped :
      (budget : ℕ) (s : S) (r : Render) (q : Render × Option ℕ)
      → ((s1 : S) (r1 : Render) → Pumped budget s1 r1 (pump put budget m s1 r1))
      → render_next_byte false m r ≡ q
      → Pumped (suc budget) s r (round budget s q)
  next-IsPumped budget s r (r1, none) rest next =
      stopped-IsPumped (suc budget) s r (s, r1) (silent next refl)
  next-IsPumped budget s r (r1, some b) rest next =
      round-IsPumped budget s r r1 b (put s b) (λ s1. rest s1 r1) next refl

-- A tick's loop over the stream, for any transport that takes a byte or refuses it: the bytes that the
-- renderer gave are those that the transport took, in their order and within the budget; and the
-- loop ends with the budget spent, with nothing to send, or with a byte that was refused and is
-- the next that the renderer gives.
pub pump-IsPumped :
    {S : Type 0} (put : S → ℕ → S × Bool) (m : Video) (budget : ℕ) (s : S) (r : Render)
    → IsPumped put budget m s r (pump put budget m s r).0 (pump put budget m s r).1
unfolding pump
pump-IsPumped put m zero s r = stopped-IsPumped put m zero s r (s, r) (spent refl refl refl)
pump-IsPumped put m (suc budget) s r =
    let next : Render × Option ℕ = render_next_byte false m r in
    subst (λ last. IsPumped put (suc budget) m s r last.0 last.1)
      (sym (pump-round put m budget s r next refl))
      (next-IsPumped put m budget s r next (pump-IsPumped put m budget) refl)
