-- ===== src/Render/Frame/Refresh.antt =====
-- One update of the terminal by dosshd/render.c: the frame that `frame_decide` starts, and all refills
-- of the buffer until it is sent.
use dossh.Base.{
  ℕ, ◌*◌, ◌<◌, ◌≤◌, Bool, true, false, List, [], ◌++◌, ◌≡◌, refl, sym, ap, ◌∙◌, ◌⊎◌, arith, inl,
  inr, if◌then◌else◌, length,
}
use mathlib.Core.Path.{subst}
use dossh.Render.State.{Video, Render, scr_base, shadow_bytes}
use dossh.Render.Frame.{frame_fill, refill, frame_cols, frame_rows, frame_decide, wants_clear}
use dossh.Render.Frame.Mirror.{Shows, IsMirrored, IsMemory}
use dossh.Render.Frame.Fill.{IsSame}
use dossh.Render.Frame.Complete.{IsSent, frame_fill-IsSent}
use dossh.Render.Frame.Screen.{
  sending, sending-over, ShowsScreen, IsDone, sent-IsOnWay, sending-IsDone, Shows-same,
  screen-along,
}
use dossh.Render.Frame.Decide.{
  count_changed-none, IsSettled, IsRefreshed, IsBegun, IsUnchanged, frame_decide-begins,
}
use dossh.Render.Frame.Start.{
  start_bytes, started, begin_frame-started, begin_frame-IsMirrored, frame_cols-bounds,
}
use dossh.Render.Terminal.{Terminal, reads}

-- A frame that has started: its first cells, and all refills that it takes, as one run.
begun-IsDone :
    (width : ℕ) (serial : Bool) (m : Video) (t : Terminal) (r q : Render)
    → IsBegun m r q
    → IsSettled m t r
    → IsMemory (scr_base m)
    → 132 ≤ width
    → frame_cols m * frame_rows m * 2 ≤ shadow_bytes
    → IsDone width m t
        (frame_fill m q)
        (sending (frame_cols m * frame_rows m) serial m (frame_fill m q))
      × ((frame_fill m q).f_cols ≡ frame_cols m)
      × ((frame_fill m q).total_cells ≡ frame_cols m * frame_rows m)
      × (q.frame_active ≡ true)
begun-IsDone width serial m t r q b settled memory wide fits =
    let cells : ℕ = frame_cols m * frame_rows m in
    let empty : b.from.o ≡ [] = b.same_bytes_out ∙ settled.sent in
    let begun = begin_frame-started m b.repaint b.clear b.from empty in
    let q_is : q ≡ record (started m b.repaint b.from) { o = start_bytes b.clear } =
      b.begun
      ∙ begun
      ∙ ap (λ o. record (started m b.repaint b.from) { o = o ++ start_bytes b.clear }) empty in
    let covered : (b.repaint ≡ true)
        ⊎ ((b.clear ≡ false) × ((k : ℕ) → k < cells → Shows t (frame_cols m) b.from.shadow k)) =
      elim b.covers [
        | inl repaints ↦ inl repaints
        | inr (unclear, tidy) ↦ inr (unclear, λ k lt. rw b.same_shadow (settled.covered tidy k lt))
      ] in
    let mirrored : IsMirrored width (reads width t q.o) q =
      subst (λ x. IsMirrored width (reads width t x.o) x) (sym b.begun)
        (begin_frame-IsMirrored width m b.repaint b.clear t b.from empty b.sized settled.idle wide
          (omega (arith, fits)) covered) in
    let (some_cols, narrow) = frame_cols-bounds m in
    let first : q.walk_cell ≡ 0 = ap (λ x. x.walk_cell) q_is in
    let total : q.total_cells ≡ cells = ap (λ x. x.total_cells) q_is in
    let active : q.frame_active ≡ true = ap (λ x. x.frame_active) q_is in
    let short : length q.o ≤ 18 = rw (ap (λ x. x.o) q_is) (ground arith) in
    let s : IsSent width m (reads width t q.o) q (frame_fill m q) =
      frame_fill-IsSent width m (reads width t q.o) q mirrored memory active (omega (arith, first))
        (omega (arith, short)) in
    let way =
      sent-IsOnWay width m t q (frame_fill m q) s (λ k lt. absurd (omega (arith, lt, first))) in
    (
      sending-IsDone cells width serial m t (frame_fill m q) memory way
          (omega (arith, s.same_total, total)),
      s.same_cols ∙ ap (λ x. x.f_cols) q_is,
      s.same_total ∙ total,
      active,
    )

-- A buffer that is emptied between frames.
emptied-IsSettled :
    (m : Video) (t : Terminal) (r : Render)
    → IsSettled m t r
    → IsSettled m t (record r { o = []; o_off = 0 })
unfolding wants_clear
emptied-IsSettled m t r settled = record {
  inactive = settled.inactive;
  idle = settled.idle;
  sent = refl;
  covered = settled.covered;
}

refill-decided :
    (serial : Bool) (m : Video) (r : Render)
    → r.frame_active ≡ false
    → let q = frame_decide serial m (record r { o = []; o_off = 0 }) in
      refill serial m r ≡ (if q.frame_active then frame_fill m q else q)
unfolding refill
refill-decided serial m r inactive =
    let empty : Render = record r { o = []; o_off = 0 } in
    let filled : Render → Render = λ q. if q.frame_active then frame_fill m q else q in
    subst
      (λ b.
        filled (if b then empty else frame_decide serial m empty)
        ≡ filled (frame_decide serial m empty))
      (sym inactive) refl

-- A frame that was sent refreshed the terminal.
done-IsRefreshed :
    (width : ℕ) (m : Video) (t : Terminal) (f : Render) (s : List ℕ × Render)
    → IsDone width m t f s
    → f.f_cols ≡ frame_cols m
    → f.total_cells ≡ frame_cols m * frame_rows m
    → IsRefreshed m (reads width t s.0) s.1
      × ShowsScreen m (frame_cols m) (frame_cols m * frame_rows m) (reads width t s.0)
done-IsRefreshed width m t f s d cols total =
    let screen = screen-along m cols total refl d.screen in
    (
      record {
        inactive = d.inactive;
        cells = screen.cells;
        shadow = λ k lt. d.shadow k (omega (arith, lt, total));
      },
      screen,
    )

-- What one update of the terminal comes to, from the state that the first refill leaves.
abbrev IsUpdated : ℕ → Bool → Video → Terminal → Render → Type 0
IsUpdated width serial m t r =
    let s = sending (frame_cols m * frame_rows m) serial m r in
    IsRefreshed m (reads width t s.0) s.1
    × ((s.0 ≡ []) ⊎ ShowsScreen m (frame_cols m) (frame_cols m * frame_rows m) (reads width t s.0))

unchanged-IsUpdated :
    (width : ℕ) (serial : Bool) (m : Video) (t : Terminal) (r q : Render)
    → IsUnchanged m r q
    → IsSettled m t r
    → IsUpdated width serial m t q
unfolding reads
unchanged-IsUpdated width serial m t r q (same, tidy, none_changed) settled =
    let cells : ℕ = frame_cols m * frame_rows m in
    let calm : Render = record r { is_toobig = false } in
    let still : (k : ℕ) → k < cells → IsSame r.shadow (scr_base m) k = λ k lt.
      count_changed-none cells 0 (scr_base m) r.shadow none_changed k (omega arith)
        (omega (arith, lt)) in
    let over : sending cells serial m calm ≡ (r.o, calm) =
      sending-over cells serial m calm settled.inactive in
    let quiet : sending cells serial m calm ≡ ([], calm) =
      over ∙ ap (λ o. (o, calm)) settled.sent in
    subst (IsUpdated width serial m t) (sym same) (
      subst
        (λ s.
          IsRefreshed m (reads width t s.0) s.1
          × ((s.0 ≡ [])
              ⊎ ShowsScreen m (frame_cols m) (frame_cols m * frame_rows m) (reads width t s.0)))
        (sym quiet)
        (
          record {
            inactive = settled.inactive;
            cells = λ k lt.
                Shows-same t (frame_cols m) r.shadow (scr_base m) k (still k lt)
                  (settled.covered tidy k lt);
            shadow = still;
          },
          inl refl,
        ))

-- Between frames, where the next difference would be sent against a shadow that the terminal shows, the
-- screen fits the shadow, the terminal is at least 132 columns wide and memory holds bytes: after the
-- next refill of the buffer and at most one more for each cell, no frame is being sent, and a
-- terminal that read all the bytes shows the screen in every cell, which is also what the shadow
-- holds. Unless nothing at all was sent, its cursor is where DOS has it, and shown as DOS shows it.
pub refill-IsRefreshed :
    (width : ℕ) (serial : Bool) (m : Video) (t : Terminal) (r : Render)
    → IsSettled m t r
    → IsMemory (scr_base m)
    → 132 ≤ width
    → frame_cols m * frame_rows m * 2 ≤ shadow_bytes
    → let s = sending (frame_cols m * frame_rows m) serial m (refill serial m r) in
      IsRefreshed m (reads width t s.0) s.1
      × ((s.0 ≡ [])
          ⊎ ShowsScreen m (frame_cols m) (frame_cols m * frame_rows m) (reads width t s.0))
refill-IsRefreshed width serial m t r settled memory wide fits =
    let cells : ℕ = frame_cols m * frame_rows m in
    let empty : Render = record r { o = []; o_off = 0 } in
    let q : Render = frame_decide serial m empty in
    let decided = refill-decided serial m r settled.inactive in
    let ready = emptied-IsSettled m t r settled in
    elim (frame_decide-begins serial m empty fits) [
      | inl b ↦
          let (d, cols, total, active) =
            begun-IsDone width serial m t empty q b ready memory wide fits in
          let (refreshed, screen) =
            done-IsRefreshed width m t (frame_fill m q) (sending cells serial m (frame_fill m q)) d
              cols total in
          subst (IsUpdated width serial m t) (sym decided) (
            subst (λ a. IsUpdated width serial m t (if a then frame_fill m q else q)) (sym active)
              (refreshed, inr screen))
      | inr u ↦
          let quiet : q.frame_active ≡ false = ap (λ x. x.frame_active) u.0 ∙ settled.inactive in
          subst (IsUpdated width serial m t) (sym decided) (
            subst (λ a. IsUpdated width serial m t (if a then frame_fill m q else q)) (sym quiet)
              (unchanged-IsUpdated width serial m t empty q u ready))
    ]
