-- ===== src/Render/Frame/Fill.antt =====
-- One call of the fill loop of dosshd/render.c, followed by a terminal.
use dossh.Base.{
  ℕ, zero, suc, ◌+◌, ◌*◌, ◌<◌, ◌≤◌, false, ◌||◌, List, [], ◌++◌, ◌≡◌, refl, sym, ap, ◌∙◌, ◌⊎◌,
  arith, inl, inr, ltb, length, length-append, append_assoc, append-nil, Bool-cases,
}
use dossh.Render.State.{Render, obuf_sz}
use dossh.Render.Frame.{differs, fill_loop}
use dossh.Render.Frame.Cells.{cell_bytes, cell_bytes-small}
use dossh.Render.Terminal.{Terminal, reads}
use dossh.Render.Terminal.Reads.{reads-append}
use dossh.Render.Frame.Mirror.{
  IsMirrored, IsMemory, walk, sent, walk-sent, walk-stays, sent-IsMirrored,
}

-- The cell `k` of two video memories.
abbrev pub IsSame : (ℕ → ℕ) → (ℕ → ℕ) → ℕ → Type 0
IsSame v w k = (v (k * 2) ≡ w (k * 2)) × (v (k * 2 + 1) ≡ w (k * 2 + 1))

-- From `r` to `r'` the renderer appended bytes that keep the terminal mirrored; the cells it walked over
-- are now those of the screen `v`, and the ones before are as they were.
pub record IsFilled (width : ℕ) (v : ℕ → ℕ) (t : Terminal) (r r' : Render) : Type 0 where
  pub bytes : List ℕ
  pub appended : r'.o ≡ r.o ++ bytes
  pub mirrored : IsMirrored width (reads width t bytes) r'
  pub ahead : r.walk_cell ≤ r'.walk_cell
  pub fresh : (k : ℕ) → r.walk_cell ≤ k → k < r'.walk_cell → IsSame r'.shadow v k
  pub kept : (k : ℕ) → k < r.walk_cell → IsSame r'.shadow r.shadow k
  pub same_total : r'.total_cells ≡ r.total_cells
  pub same_cols : r'.f_cols ≡ r.f_cols
  pub same_active : r'.frame_active ≡ r.frame_active

walk-IsFilled :
    (width : ℕ) (v : ℕ → ℕ) (t : Terminal) (r : Render)
    → IsMirrored width t r
    → IsMemory v
    → r.walk_cell < r.total_cells
    → length r.o + 31 ≤ obuf_sz
    → IsFilled width v t r (walk v r) × (length (walk v r).o ≤ length r.o + 31)
unfolding reads
walk-IsFilled width v t r m memory inside room =
    let c : ℕ = r.walk_cell in
    let cell : List ℕ = cell_bytes c (v (c * 2)) (v (c * 2 + 1)) r in
    elim (Bool-cases (r.is_repaint || differs v r.shadow c)) [
      | inl changes ↦
          let e : walk v r ≡ sent v r = walk-sent v r memory m.shadowed room changes in
          rw e (
            record {
              bytes = cell;
              appended = refl;
              mirrored = sent-IsMirrored width v t r m memory inside;
              ahead = omega arith;
              fresh = λ k lo hi. let e : k ≡ c = omega (arith, lo, hi) in ground (arith, e);
              kept = λ k lt. ground (arith, lt);
              same_total = refl;
              same_cols = refl;
              same_active = refl;
            },
            omega (
              arith,
              ap (λ (q : Render). length q.o) e,
              length-append r.o cell,
              (cell_bytes-small c (v (c * 2)) (v (c * 2 + 1)) r (memory (c * 2))).1,
            ),
          )
      | inr stays ↦
          let e : walk v r ≡ record r { walk_cell = c + 1 } = walk-stays v r m.shadowed stays in
          let diff : r.is_repaint ≡ false = ground (arith, stays) in
          rw e (
            record {
              bytes = [];
              appended = sym (append-nil r.o);
              mirrored = record {
                idle = m.idle;
                some_cols = m.some_cols;
                wide = m.wide;
                narrow = m.narrow;
                small = m.small;
                shadowed = m.shadowed;
                placed = m.placed;
                inked = m.inked;
                shown = λ k known. m.shown k (known.0, inl diff);
              };
              ahead = omega arith;
              fresh = λ k lo hi. let e : k ≡ c = omega (arith, lo, hi) in ground (arith, e, stays);
              kept = λ k lt. (refl, refl);
              same_total = refl;
              same_cols = refl;
              same_active = refl;
            },
            omega (arith, ap (λ (q : Render). length q.o) e),
          )
    ]

-- Two stretches of a frame make one.
IsFilled-trans :
    (width : ℕ) (v : ℕ → ℕ) (t : Terminal) (r q s : Render)
    → (f : IsFilled width v t r q) → IsFilled width v (reads width t f.bytes) q s
    → IsFilled width v t r s
IsFilled-trans width v t r q s f g = record {
  bytes = f.bytes ++ g.bytes;
  appended = ground (arith, f.appended, g.appended, append_assoc r.o f.bytes g.bytes);
  mirrored = rw (reads-append width t f.bytes g.bytes) g.mirrored;
  ahead = omega (arith, f.ahead, g.ahead);
  fresh = λ k lo hi. elim (Bool-cases (ltb k q.walk_cell)) [
    | inl before ↦
        let b : k < q.walk_cell = ground arith in
        let (ch, at) = f.fresh k lo b in let (ch', at') = g.kept k b in (ch' ∙ ch, at' ∙ at)
    | inr behind ↦ g.fresh k (ground arith) hi
  ];
  kept = λ k lt.
      let (ch, at) = f.kept k lt in
      let (ch', at') = g.kept k (omega (arith, lt, f.ahead)) in (ch' ∙ ch, at' ∙ at);
  same_total = g.same_total ∙ f.same_total;
  same_cols = g.same_cols ∙ f.same_cols;
  same_active = g.same_active ∙ f.same_active;
}

IsFilled-refl :
    (width : ℕ) (v : ℕ → ℕ) (t : Terminal) (r : Render)
    → IsMirrored width t r
    → IsFilled width v t r r
unfolding reads
IsFilled-refl width v t r m = record {
  bytes = [];
  appended = sym (append-nil r.o);
  mirrored = m;
  ahead = omega arith;
  fresh = λ k lo hi. absurd (omega (arith, lo, hi));
  kept = λ k lt. (refl, refl);
  same_total = refl;
  same_cols = refl;
  same_active = refl;
}

-- The loop fills the frame as far as the buffer allows, and leaves room for the frame's tail.
pub fill_loop-IsFilled :
    (left : ℕ) (width : ℕ) (v : ℕ → ℕ) (t : Terminal) (r : Render)
    → IsMirrored width t r
    → IsMemory v
    → r.walk_cell + left ≡ r.total_cells
    → length r.o + 17 ≤ obuf_sz
    → IsFilled width v t r (fill_loop left v r)
      × (length (fill_loop left v r).o + 17 ≤ obuf_sz)
      × (((fill_loop left v r).walk_cell ≡ r.total_cells)
          ⊎ (obuf_sz < length (fill_loop left v r).o + 48))
      × (0 < left → length r.o + 48 ≤ obuf_sz → r.walk_cell < (fill_loop left v r).walk_cell)
unfolding fill_loop
fill_loop-IsFilled zero width v t r m memory all room = (
  IsFilled-refl width v t r m,
  room,
  inl (omega (arith, all)),
  λ some_left free. absurd (omega (arith, some_left)),
)
fill_loop-IsFilled (suc left) width v t r m memory all room =
    elim (Bool-cases (ltb obuf_sz (length r.o + 48))) [
      | inl full ↦ rw full (
        IsFilled-refl width v t r m,
        room,
        inr (ground arith),
        λ some_left free. absurd (ground (arith, full, free)),
      )
      | inr free ↦
          let (step, grown) =
            walk-IsFilled width v t r m memory (omega (arith, all)) (ground arith) in
          let (rest, room', ends, goes) =
            fill_loop-IsFilled left width v (reads width t step.bytes) (walk v r) step.mirrored
              memory (omega (arith, all, step.same_total)) (ground (arith, grown)) in
          rw free (
            IsFilled-trans width v t r (walk v r) (fill_loop left v (walk v r)) step rest,
            room',
            ground (arith, ends, step.same_total),
            λ some_left has_room. omega (arith, rest.ahead),
          )
    ]
