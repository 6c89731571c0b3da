-- ===== src/Render/Frame/Screen.antt =====
-- A whole frame of dosshd/render.c, followed by a terminal until it shows the screen.
use dossh.Base.{
  ℕ, zero, suc, ◌+◌, ◌/◌, ◌<◌, ◌≤◌, Bool, true, false, List, [], ◌++◌, ◌≡◌, refl, sym, ap, ◌∙◌,
  arith, inl, inr, ltb, if◌then◌else◌, Bool-cases, u8,
}
use mathlib.Core.Path.{subst}
use dossh.Render.State.{Video, Render, scr_base, cursor_visible}
use dossh.Render.Frame.{frame_fill, refill}
use dossh.Render.Frame.Mirror.{Shows, IsMirrored, IsMemory}
use dossh.Render.Frame.Fill.{IsSame}
use dossh.Render.Terminal.{Terminal, reads}
use dossh.Render.Terminal.Reads.{reads-append}
use dossh.Render.Frame.Complete.{IsSent, frame_fill-IsSent}

-- The bytes that go out from now on, and the state behind them, over at most `rounds` refills of the
-- buffer, while the frame is being sent.
pub sending : ℕ → Bool → Video → Render → List ℕ × Render
sending zero serial m r = (r.o, r)
sending (suc rounds) serial m r =
    let (bytes, last) = sending rounds serial m (refill serial m r) in
    if r.frame_active then (r.o ++ bytes, last) else (r.o, r)

refill-frame_fill :
    (serial : Bool) (m : Video) (r : Render)
    → r.frame_active ≡ true
    → refill serial m r ≡ frame_fill m (record r { o = []; o_off = 0 })
unfolding refill
refill-frame_fill serial m r active = ground (arith, active)

-- One more refill of a frame that is being sent.
sending-step :
    (rounds : ℕ) (serial : Bool) (m : Video) (r : Render)
    → r.frame_active ≡ true
    → let later = sending rounds serial m (frame_fill m (record r { o = []; o_off = 0 })) in
      sending (suc rounds) serial m r ≡ (r.o ++ later.0, later.1)
unfolding sending
sending-step rounds serial m r active =
    let later : Render → List ℕ × Render =
      λ q. (r.o ++ (sending rounds serial m q).0, (sending rounds serial m q).1) in
    subst
      (λ b.
        (if b then later (refill serial m r) else (r.o, r))
        ≡ later (frame_fill m (record r { o = []; o_off = 0 })))
      (sym active) (ap later (refill-frame_fill serial m r active))

sending-none :
    (rounds : ℕ) (serial : Bool) (m : Video) (r : Render)
    → r.frame_active ≡ false
    → sending (suc rounds) serial m r ≡ (r.o, r)
unfolding sending
sending-none rounds serial m r done =
    let later : List ℕ × Render = sending rounds serial m (refill serial m r) in
    let on : List ℕ × Render = (r.o ++ later.0, later.1) in
    let off : List ℕ × Render = (r.o, r) in
    subst (λ b. (if b then on else off) ≡ off) (sym done) refl

pub sending-over :
    (rounds : ℕ) (serial : Bool) (m : Video) (r : Render)
    → r.frame_active ≡ false
    → sending rounds serial m r ≡ (r.o, r)
unfolding sending
sending-over zero serial m r done = refl
sending-over (suc rounds) serial m r done = sending-none rounds serial m r done

-- The terminal shows the screen `m` with its cursor, in every cell of the frame.
pub record ShowsScreen (m : Video) (cols total : ℕ) (t : Terminal) : Type 0 where
  pub cells : (k : ℕ) → k < total → Shows t cols (scr_base m) k
  pub at_row : t.row ≡ u8 (m.cursor / 256)
  pub at_col : t.col ≡ u8 m.cursor
  pub visible : t.cursor_shown ≡ cursor_visible m

-- What of a frame is left to send: the buffer's bytes keep the terminal mirrored, and the cells up to
-- `walk_cell` are those of the screen; or the frame is complete, and they show the screen.
pub record IsOnWay (width : ℕ) (m : Video) (t : Terminal) (r : Render) : Type 0 where
  pub same : (k : ℕ) → k < r.walk_cell → IsSame r.shadow (scr_base m) k
  pub goes_on :
      (r.frame_active ≡ true)
      → IsMirrored width (reads width t r.o) r × (r.walk_cell < r.total_cells)
  pub whole : (r.frame_active ≡ false) → r.total_cells ≤ r.walk_cell
  pub complete : (r.frame_active ≡ false) → ShowsScreen m r.f_cols r.total_cells (reads width t r.o)

pub screen-along :
    (m : Video) {cols cols' total total' : ℕ} {t t' : Terminal}
    → cols ≡ cols'
    → total ≡ total'
    → t ≡ t'
    → ShowsScreen m cols total t
    → ShowsScreen m cols' total' t'
screen-along m {cols' = cols'} {total = total} {total' = total'} {t = t} c e p shows =
    subst (ShowsScreen m cols' total') p
      (subst (λ x. ShowsScreen m cols' x t) e (subst (λ x. ShowsScreen m x total t) c shows))

pub Shows-same :
    (t : Terminal) (cols : ℕ) (v w : ℕ → ℕ) (k : ℕ)
    → IsSame v w k
    → Shows t cols v k
    → Shows t cols w k
Shows-same t cols v w k (ch, at) shown = ground (arith, ch, at, shown)

pub sent-IsOnWay :
    (width : ℕ) (m : Video) (t : Terminal) (r r' : Render)
    → IsSent width m (reads width t r.o) r r'
    → ((k : ℕ) → k < r.walk_cell → IsSame r.shadow (scr_base m) k)
    → IsOnWay width m t r'
sent-IsOnWay width m t r r' s same =
    let joined : reads width t r'.o ≡ reads width (reads width t r.o) s.bytes =
      ap (reads width t) s.appended ∙ reads-append width t r.o s.bytes in
    let all_same : (k : ℕ) → k < r'.walk_cell → IsSame r'.shadow (scr_base m) k = λ k hi.
      elim (Bool-cases (ltb k r.walk_cell)) [
        | inl before ↦
            let b : k < r.walk_cell = ground arith in
            let (ch, at) = s.kept k b in let (ch', at') = same k b in (ch ∙ ch', at ∙ at')
        | inr behind ↦ s.fresh k (ground arith) hi
      ] in
    record {
      same = all_same;
      goes_on = λ active. rw joined (s.goes_on active);
      whole = s.whole;
      complete = λ done.
          let (row, col, visible, idle) = s.parked done in
          rw joined (record {
            cells = λ k lt.
                Shows-same (reads width (reads width t r.o) s.bytes) r'.f_cols r'.shadow
                  (scr_base m) k (all_same k (omega (arith, lt, s.whole done))) (s.shows done k lt);
            at_row = row;
            at_col = col;
            visible = visible;
          });
    }

-- An emptied buffer: what was in it is sent.
emptied-IsMirrored :
    (width : ℕ) (t : Terminal) (r : Render)
    → IsMirrored width t r
    → IsMirrored width t (record r { o = []; o_off = 0 })
emptied-IsMirrored width t r m = record {
  idle = m.idle;
  some_cols = m.some_cols;
  wide = m.wide;
  narrow = m.narrow;
  small = m.small;
  shadowed = m.shadowed;
  placed = m.placed;
  inked = m.inked;
  shown = m.shown;
}

-- The frame that a run of refills ends.
pub record IsDone (width : ℕ) (m : Video) (t : Terminal) (r : Render) (s : List ℕ × Render)
    : Type 0 where
  pub inactive : s.1.frame_active ≡ false
  pub screen : ShowsScreen m r.f_cols r.total_cells (reads width t s.0)
  pub shadow : (k : ℕ) → k < r.total_cells → IsSame s.1.shadow (scr_base m) k

-- A frame that is being sent ends: with one refill of the buffer for each cell that is left, and
-- memory of bytes, the frame is complete, the terminal that read all bytes shows the screen with
-- its cursor, and the shadow holds the screen.
pub sending-IsDone :
    (rounds width : ℕ) (serial : Bool) (m : Video) (t : Terminal) (r : Render)
    → IsMemory (scr_base m)
    → IsOnWay width m t r
    → r.total_cells ≤ r.walk_cell + rounds
    → IsDone width m t r (sending rounds serial m r)
unfolding sending reads
sending-IsDone zero width serial m t r memory w enough = elim (Bool-cases r.frame_active) [
  | inl active ↦ absurd (omega (arith, enough, (w.goes_on active).1))
  | inr done ↦ record {
    inactive = done;
    screen = w.complete done;
    shadow = λ k lt. w.same k (omega (arith, lt, w.whole done));
  }
]
sending-IsDone (suc rounds) width serial m t r memory w enough = elim (Bool-cases r.frame_active) [
  | inr done ↦ subst (IsDone width m t r) (sym (sending-none rounds serial m r done)) (record {
    inactive = done;
    screen = w.complete done;
    shadow = λ k lt. w.same k (omega (arith, lt, w.whole done));
  })
  | inl active ↦
      let empty : Render = record r { o = []; o_off = 0 } in
      let t1 : Terminal = reads width t r.o in
      let (mirrored, inside) = w.goes_on active in
      let s : IsSent width m t1 empty (frame_fill m empty) =
        frame_fill-IsSent width m t1 empty (emptied-IsMirrored width t1 r mirrored) memory active
          (omega (arith, inside)) (omega arith) in
      let w' : IsOnWay width m t1 (frame_fill m empty) =
        sent-IsOnWay width m t1 empty (frame_fill m empty) s w.same in
      let d =
        sending-IsDone rounds width serial m t1 (frame_fill m empty) memory w'
          (omega (arith, enough, s.same_total, s.gets_on (omega arith) inside)) in
      let tail : List ℕ × Render = sending rounds serial m (frame_fill m empty) in
      let joined = reads-append width t r.o tail.0 in
      subst (IsDone width m t r) (sym (sending-step rounds serial m r active)) (record {
        inactive = d.inactive;
        screen = screen-along m s.same_cols s.same_total (sym joined) d.screen;
        shadow = λ k lt. d.shadow k (omega (arith, lt, s.same_total));
      })
]
