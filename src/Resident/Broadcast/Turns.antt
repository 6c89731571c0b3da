-- ===== src/Resident/Broadcast/Turns.antt =====
-- The loop of `ssh_net_broadcast` of dosshd/dosshd.c that gives one chunk to slot after slot.
use mathlib.Core.Path.{subst, ap₂}
use dossh.Base.{
  ℕ, zero, suc, ◌+◌, ◌^◌, ◌<◌, ◌≤◌, true, false, List, ◌++◌, ◌≡◌, ◌≢◌, sym, ap, ◌∙◌, ◌⊎◌, inl, inr,
  arith, u8, u32, map, ◌==◌, length, Bool-cases,
}
use dossh.Net.Link.Broadcast.{pending}
use dossh.Resident.Worker.{SshServer, SshSetting}
use dossh.Resident.Broadcast.{is_ready, emit_slot, emit_loop}
use dossh.Resident.Broadcast.Delivery.{IsSentTo, IsFit, emit_slot-idle, emit_slot-IsTurn}
use dossh.Resident.Broadcast.Pacing.{
  IsUntouched, same-IsUntouched, then-IsUntouched, untouched-is_ready, untouched-slot_cap,
  untouched-room,
}
use dossh.Ssh.State.{Crypto, Ssh, sealed}
use dossh.Ssh.Channel.{data_packet}
use dossh.Ssh.Channel.Packets.{IsCipher}

pub untouched-IsFit :
    (text : List ℕ) (j : ℕ) (s s' : SshServer)
    → IsUntouched j s s'
    → IsFit text j s
    → IsFit text j s'
untouched-IsFit text j s s' u f = record {
  served = record {
    slot = record {
      inside = omega (arith, u.slots, f.served.slot.inside);
      end_lt = subst (λ c. c.s_end < 2 ^ 12) (sym u.conn) f.served.slot.end_lt;
      una_lt = subst (λ c. c.s_una < 2 ^ 12) (sym u.conn) f.served.slot.una_lt;
    };
    listed = omega (arith, u.sessions, f.served.listed);
    encrypted = ap (λ c. c.send_encrypted) u.session ∙ f.served.encrypted;
  };
  fits = omega (arith, untouched-slot_cap j s s' u, f.fits);
}

-- Turns of other slots before and after a slot's own.
pub before-IsSentTo :
    (p : Crypto) (text : List ℕ) (j : ℕ) (s s1 s2 : SshServer)
    → IsUntouched j s s1
    → IsSentTo p text j s1 s2
    → IsSentTo p text j s s2
before-IsSentTo p text j s s1 s2 u t =
    let packet : Ssh → List ℕ =
      λ c. map u8 (sealed p (data_packet c text) (record c { drawn = t.drawn })) in
    record {
      drawn = t.drawn;
      queued = t.queued ∙ ap₂ ◌++◌ (ap pending u.conn) (ap packet u.session);
      reserve = t.reserve;
      paid = t.paid ∙ ap (λ c. c.peer_window) u.session;
      counted = t.counted ∙ ap (λ c. u32 (c.send_seq + 1)) u.session;
    }

after-IsSentTo :
    (p : Crypto) (text : List ℕ) (j : ℕ) (s s1 s2 : SshServer)
    → IsSentTo p text j s s1
    → IsUntouched j s1 s2
    → IsSentTo p text j s s2
after-IsSentTo p text j s s1 s2 t u = record {
  drawn = t.drawn;
  queued = ap pending u.conn ∙ t.queued;
  reserve = omega (arith, untouched-room j s1 s2 u, t.reserve);
  paid = ap (λ c. c.peer_window + length text) u.session ∙ t.paid;
  counted = ap (λ c. c.send_seq) u.session ∙ t.counted;
}

-- The turns of `left` slots from `i`.
pub record IsRound (p : Crypto) (text : List ℕ) (i left : ℕ) (s s' : SshServer) : Type 0 where
  pub sent : (j : ℕ) → i ≤ j → j < i + left → is_ready s j ≡ true → IsSentTo p text j s s'
  pub idle : (j : ℕ) → i ≤ j → j < i + left → is_ready s j ≡ false → IsUntouched j s s'
  pub others : (j : ℕ) → (j < i) ⊎ (i + left ≤ j) → IsUntouched j s s'

-- The slot `i` had its turn, or is not ready, and the others followed.
module _ (p : Crypto) (text : List ℕ) (i left : ℕ) (s s1 s2 : SshServer)
    (others : (j : ℕ) → j ≢ i → IsUntouched j s s1) (q : IsRound p text (i + 1) left s1 s2) where
  next-sent :
      (is_ready s i ≡ true → IsSentTo p text i s s1)
      → (j : ℕ) → i ≤ j
      → j < i + suc left
      → is_ready s j ≡ true
      → IsSentTo p text j s s2
  next-sent here j lo hi ready = elim (Bool-cases (j == i)) [
    | inl at ↦
        let same : j ≡ i = ground (arith, at) in
        let here_j : IsSentTo p text j s s1 =
          subst (λ k. IsSentTo p text k s s1) (sym same)
            (here (ap (is_ready s) (sym same) ∙ ready)) in
        after-IsSentTo p text j s s1 s2 here_j (q.others j (inl (omega (arith, same))))
    | inr off ↦
        let apart : j ≢ i = ground (arith, off) in
        let u = others j apart in
        before-IsSentTo p text j s s1 s2 u (
          q.sent j (omega (arith, apart, lo)) (omega (arith, hi))
            (untouched-is_ready j s s1 u ∙ ready))
  ]

  next-idle :
      (is_ready s i ≡ false → IsUntouched i s s1)
      → (j : ℕ) → i ≤ j
      → j < i + suc left
      → is_ready s j ≡ false
      → IsUntouched j s s2
  next-idle here j lo hi quiet = elim (Bool-cases (j == i)) [
    | inl at ↦
        let same : j ≡ i = ground (arith, at) in
        let here_j : IsUntouched j s s1 =
          subst (λ k. IsUntouched k s s1) (sym same) (here (ap (is_ready s) (sym same) ∙ quiet)) in
        then-IsUntouched j s s1 s2 here_j (q.others j (inl (omega (arith, same))))
    | inr off ↦
        let apart : j ≢ i = ground (arith, off) in
        let u = others j apart in
        then-IsUntouched j s s1 s2 u (
          q.idle j (omega (arith, apart, lo)) (omega (arith, hi))
            (untouched-is_ready j s s1 u ∙ quiet))
  ]

  next-others : (j : ℕ) → (j < i) ⊎ (i + suc left ≤ j) → IsUntouched j s s2
  next-others j out =
      let away : j ≢ i = elim out [ inl lo ↦ omega (arith, lo) | inr hi ↦ omega (arith, hi) ] in
      let out' : (j < i + 1) ⊎ (i + 1 + left ≤ j) = elim out [
        | inl lo ↦ inl (omega (arith, lo))
        | inr hi ↦ inr (omega (arith, hi))
      ] in
      then-IsUntouched j s s1 s2 (others j away) (q.others j out')

  next-IsRound :
      (is_ready s i ≡ true → IsSentTo p text i s s1)
      → (is_ready s i ≡ false → IsUntouched i s s1)
      → IsRound p text i (suc left) s s2
  next-IsRound here quiet = record {
    sent = next-sent here;
    idle = next-idle quiet;
    others = next-others;
  }

pub emit_loop-IsRound :
    (left : ℕ) (w : SshSetting) (text : List ℕ) (i : ℕ) (s : SshServer)
    → IsCipher w.crypto
    → 0 < length text
    → ((j : ℕ) → i ≤ j → j < i + left → is_ready s j ≡ true → IsFit text j s)
    → IsRound w.crypto text i left s (emit_loop left w text i s)
unfolding emit_loop
emit_loop-IsRound zero w text i s v some_text fit = record {
  sent = λ j lo hi ready. absurd (omega (arith, lo, hi));
  idle = λ j lo hi quiet. same-IsUntouched j s;
  others = λ j out. same-IsUntouched j s;
}
emit_loop-IsRound (suc left) w text i s v some_text fit =
    let s1 : SshServer = emit_slot w text i s in
    let s2 : SshServer = emit_loop left w text (i + 1) s1 in
    elim (Bool-cases (is_ready s i)) [
      | inl ready ↦
          let turn =
            emit_slot-IsTurn w text i s v ready some_text
              (fit i (omega arith) (omega arith) ready) in
          let rest = emit_loop-IsRound left w text (i + 1) s1 v some_text (λ j lo hi on.
            let u = turn.others j (omega (arith, lo)) in
            untouched-IsFit text j s s1 u (
              fit j (omega (arith, lo)) (omega (arith, hi))
                (sym (untouched-is_ready j s s1 u) ∙ on))) in
          next-IsRound w.crypto text i left s s1 s2 turn.others rest (λ on. turn.here)
            (λ off. absurd (ground (arith, ready, off)))
      | inr quiet ↦
          let same : s1 ≡ s = emit_slot-idle w text i s quiet in
          let still : (j : ℕ) → IsUntouched j s s1 =
            λ j. subst (IsUntouched j s) (sym same) (same-IsUntouched j s) in
          let rest = emit_loop-IsRound left w text (i + 1) s1 v some_text (λ j lo hi on.
            untouched-IsFit text j s s1 (still j) (
              fit j (omega (arith, lo)) (omega (arith, hi))
                (sym (untouched-is_ready j s s1 (still j)) ∙ on))) in
          next-IsRound w.crypto text i left s s1 s2 (λ j ne. still j) rest
            (λ on. absurd (ground (arith, quiet, on))) (λ off. still i)
    ]
