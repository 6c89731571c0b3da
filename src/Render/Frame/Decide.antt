-- ===== src/Render/Frame/Decide.antt =====
-- Whether `frame_decide` of dosshd/render.c starts a frame, and what it may rely on.
use dossh.Base.{
  ℕ, zero, suc, ◌+◌, ◌*◌, ◌/◌, ◌<◌, ◌≤◌, Bool, true, false, ◌&&◌, [], ◌≡◌, refl, sym, ◌⊎◌, arith,
  inl, inr, ltb, ◌==◌, if◌then◌else◌, Bool-cases, u8,
}
use mathlib.Core.Path.{subst}
use dossh.Render.State.{Video, Render, scr_base, shadow_bytes}
use dossh.Render.Frame.{
  begin_frame, frame_cols, frame_rows, count_changed, frame_decide, decide_diff, wants_clear,
  wants_heal,
}
use dossh.Render.Frame.Mirror.{Shows}
use dossh.Render.Frame.Fill.{IsSame}
use dossh.Render.Terminal.{plain, Terminal}

pub count_changed-none :
    (left c : ℕ) (v shadow : ℕ → ℕ)
    → count_changed left c v shadow ≡ 0
    → (k : ℕ) → c ≤ k
    → k < c + left
    → IsSame shadow v k
unfolding count_changed
count_changed-none zero c v shadow none_changed k lo hi = absurd (omega (arith, lo, hi))
count_changed-none (suc left) c v shadow none_changed k lo hi =
    let later = count_changed-none left (c + 1) v shadow (ground arith) k in
    elim (Bool-cases (k == c)) [
      | inl here ↦ let e : k ≡ c = ground arith in ground (arith, e)
      | inr there ↦ later (ground arith) (omega (arith, hi))
    ]

-- Between frames: what the terminal shows is the shadow, where the next frame would send only
-- differences.
pub record IsSettled (m : Video) (t : Terminal) (r : Render) : Type 0 where
  pub inactive : r.frame_active ≡ false
  pub idle : t.reading ≡ plain
  pub sent : r.o ≡ []
  pub covered :
      (wants_clear m r ≡ false)
      → (k : ℕ) → k < frame_cols m * frame_rows m
      → Shows t (frame_cols m) r.shadow k

-- The update is over: the frame is complete, and the terminal shows the screen in every cell.
pub record IsRefreshed (m : Video) (t : Terminal) (r : Render) : Type 0 where
  pub inactive : r.frame_active ≡ false
  pub cells : (k : ℕ) → k < frame_cols m * frame_rows m → Shows t (frame_cols m) (scr_base m) k
  pub shadow : (k : ℕ) → k < frame_cols m * frame_rows m → IsSame r.shadow (scr_base m) k

-- The frame `q` starts from the state `r`: it repaints, or the shadow is what the terminal shows.
pub record IsBegun (m : Video) (r q : Render) : Type 0 where
  pub repaint : Bool
  pub clear : Bool
  pub from : Render
  pub begun : q ≡ begin_frame m repaint clear from
  pub same_bytes_out : from.o ≡ r.o
  pub same_shadow : from.shadow ≡ r.shadow
  pub sized : from.is_toobig ≡ false
  pub covers : (repaint ≡ true) ⊎ ((clear ≡ false) × (wants_clear m r ≡ false))

-- No frame starts where no cell differs.
abbrev pub IsUnchanged : Video → Render → Render → Type 0
IsUnchanged m r q =
    (q ≡ record r { is_toobig = false })
    × (wants_clear m r ≡ false)
    × (count_changed (frame_cols m * frame_rows m) 0 (scr_base m) r.shadow ≡ 0)

decide_diff-begins :
    (m : Video) (r : Render)
    → wants_clear m r ≡ false
    → IsBegun m r (decide_diff m (record r { is_toobig = false }))
      ⊎ IsUnchanged m r (decide_diff m (record r { is_toobig = false }))
unfolding decide_diff
decide_diff-begins m r tidy =
    let cells : ℕ = frame_cols m * frame_rows m in
    let changed : ℕ = count_changed cells 0 (scr_base m) r.shadow in
    let sized : Render = record r { is_toobig = false } in
    let armed : Render = if changed == 0 then sized else record sized { heal_kf = m.ticks } in
    let idle : Bool =
      changed == 0 && (u8 (m.cursor / 256) == r.last_cur_r && u8 m.cursor == r.last_cur_c) in
    elim (Bool-cases idle) [
      | inl stays ↦ inr (ground (arith, stays), tidy, ground arith)
      | inr starts ↦ inl (record {
        repaint = ltb (cells * 3) (changed * 4);
        clear = false;
        from = armed;
        begun = ground (arith, starts);
        same_bytes_out = ground arith;
        same_shadow = ground arith;
        sized = ground arith;
        covers = inr (refl, tidy);
      })
    ]

pub frame_decide-begins :
    (serial : Bool) (m : Video) (r : Render)
    → frame_cols m * frame_rows m * 2 ≤ shadow_bytes
    → IsBegun m r (frame_decide serial m r) ⊎ IsUnchanged m r (frame_decide serial m r)
unfolding frame_decide
frame_decide-begins serial m r fits =
    let sized : Render = record r { is_toobig = false } in
    let small : ltb shadow_bytes (frame_cols m * frame_rows m * 2) ≡ false = ground (arith, fits) in
    elim (Bool-cases (wants_clear m r)) [
      | inl clears ↦ inl (record {
        repaint = true;
        clear = true;
        from = sized;
        begun = rw (small, clears) refl;
        same_bytes_out = refl;
        same_shadow = refl;
        sized = refl;
        covers = inl refl;
      })
      | inr tidy ↦ elim (Bool-cases (wants_heal serial m r)) [
        | inl heals ↦ inl (record {
          repaint = true;
          clear = false;
          from = sized;
          begun = rw (small, tidy, heals) refl;
          same_bytes_out = refl;
          same_shadow = refl;
          sized = refl;
          covers = inl refl;
        })
        | inr rests ↦
            let same : frame_decide serial m r ≡ decide_diff m sized =
              rw (small, tidy, rests) refl in
            subst (λ q. IsBegun m r q ⊎ IsUnchanged m r q) (sym same) (decide_diff-begins m r tidy)
      ]
    ]
