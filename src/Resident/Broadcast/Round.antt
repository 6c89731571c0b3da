-- ===== src/Resident/Broadcast/Round.antt =====
-- A round of `ssh_net_broadcast` of dosshd/dosshd.c, from the scan to the rings.
use mathlib.Core.Path.{subst}
use dossh.Base.{
  ℕ, zero, suc, ◌+◌, ◌<◌, ◌≤◌, min, Bool, true, false, List, [], ◌∷◌, Option, none, some, ◌≡◌, ◌≢◌,
  refl, sym, ap, ◌∙◌, inl, inr, arith, u8, ltb, ◌==◌, length, Bool-cases, Option-cases,
}
use dossh.Render.State.{Video, Render}
use dossh.Render.Frame.{render_next_byte}
use dossh.Resident.Worker.{SshServer, SshSetting, drop_slot}
use dossh.Resident.Broadcast.{
  is_ready, slot_cap, scan_loop, draw_bytes, emit_slot, emit_loop, broadcast_loop,
}
use dossh.Resident.Broadcast.Pacing.{
  IsUntouched, untouched-is_ready, untouched-slot_cap, scan_loop-IsPaced, ready-from,
}
use dossh.Resident.Broadcast.Delivery.{IsServed, IsFit, IsSentTo}
use dossh.Resident.Broadcast.Turns.{before-IsSentTo, untouched-IsFit, emit_loop-IsRound}
use dossh.Ssh.Channel.{chan_chunk}
use dossh.Ssh.Channel.Packets.{IsCipher}

scan_loop-stays :
    (left : ℕ) (w : SshSetting) (i cap : ℕ) (s : SshServer)
    → (scan_loop left w i cap true s).0.1 ≡ true
unfolding scan_loop
scan_loop-stays zero w i cap s = refl
scan_loop-stays (suc left) w i cap s = ground (
  arith,
  scan_loop-stays left w (i + 1) cap s,
  scan_loop-stays left w (i + 1) cap (drop_slot w i s),
  scan_loop-stays left w (i + 1) (min (slot_cap s i) cap) s,
)

-- A scan that leaves a slot ready has found one.
scan_loop-finds :
    (left : ℕ) (w : SshSetting) (i cap : ℕ) (found : Bool) (s : SshServer) (j : ℕ)
    → i ≤ j
    → j < i + left
    → is_ready (scan_loop left w i cap found s).1 j ≡ true
    → (scan_loop left w i cap found s).0.1 ≡ true
unfolding scan_loop
scan_loop-finds zero w i cap found s j lo hi ready = absurd (omega (arith, lo, hi))
scan_loop-finds (suc left) w i cap found s j lo hi ready = elim (Bool-cases (is_ready s i)) [
  | inr quiet ↦
      let r = scan_loop left w (i + 1) cap found s in
      let apart : j ≢ i = λ same.
        let u =
          (scan_loop-IsPaced left w (i + 1) cap found s).others j (inl (omega (arith, same))) in
        let on : is_ready s i ≡ true =
          ap (is_ready s) (sym same)
          ∙ (sym (untouched-is_ready j s r.1 u) ∙ ground (arith, quiet, ready)) in
        absurd (ground (arith, quiet, on)) in
      let later =
        scan_loop-finds left w (i + 1) cap found s j (omega (arith, lo, apart)) (omega (arith, hi))
          (ground (arith, quiet, ready)) in
      ground (arith, quiet, later)
  | inl on ↦ ground (
    arith,
    on,
    scan_loop-stays left w (i + 1) cap (drop_slot w i s),
    scan_loop-stays left w (i + 1) (min (slot_cap s i) cap) s,
  )
]

-- What the scan answers, and the chunk that the renderer gives for it.
abbrev pub scanned_of : SshSetting → SshServer → (ℕ × Bool) × SshServer
scanned_of w s = scan_loop (length s.base.net.conns) w 0 chan_chunk false s

abbrev pub chunk_of : SshSetting → ℕ → SshServer → List ℕ × Render
chunk_of w budget s =
    let r = scanned_of w s in draw_bytes (min r.0.0 budget) w.plain.video r.1.base.render

draw_bytes-cap : (cap : ℕ) (m : Video) (r : Render) → length (draw_bytes cap m r).0 ≤ cap
unfolding draw_bytes
draw_bytes-cap zero m r = omega arith
draw_bytes-cap (suc cap) m r =
    let drawn : Render × Option ℕ → List ℕ × Render = λ q. elim q.1 [
      | none ↦ ([], q.0)
      | some b ↦ let rest = draw_bytes cap m q.0 in (u8 b ∷ rest.0, rest.1)
    ] in
    let bound : (q : Render × Option ℕ) → length (drawn q).0 ≤ suc cap = λ q.
      elim (Option-cases q.1) [
        | inl e ↦ rw e (omega arith)
        | inr (b, e) ↦ rw e (omega (arith, draw_bytes-cap cap m q.0))
      ] in
    bound (render_next_byte false m r)

emit_loop-render :
    (left : ℕ) (w : SshSetting) (text : List ℕ) (i : ℕ) (s : SshServer)
    → (emit_loop left w text i s).base.render ≡ s.base.render
unfolding emit_loop emit_slot
emit_loop-render zero w text i s = refl
emit_loop-render (suc left) w text i s =
    emit_loop-render left w text (i + 1) (emit_slot w text i s)
    ∙ (elim (Bool-cases (is_ready s i)) [ inl on ↦ rw on refl | inr off ↦ rw off refl ])

abbrev with_render : Render → SshServer → SshServer
with_render r s = record s { base = record s.base { render = r } }

slot_cap-render : (r : Render) (s : SshServer) (j : ℕ) → slot_cap s j ≡ slot_cap (with_render r s) j
unfolding slot_cap
slot_cap-render r s j = refl

-- A round with something to send.
broadcast_round :
    (budget : ℕ) (w : SshSetting) (s : SshServer)
    → (scanned_of w s).0.1 ≡ true
    → 0 < length (chunk_of w budget s).0
    → broadcast_loop 1 budget w s
      ≡ emit_loop
          (length s.base.net.conns)
          w
          (chunk_of w budget s).0
          0
          (with_render (chunk_of w budget s).1 (scanned_of w s).1)
unfolding broadcast_loop
broadcast_round budget w s found some_text =
    let r = scanned_of w s in
    let bound = draw_bytes-cap (min r.0.0 budget) w.plain.video r.1.base.render in
    let some_cap : (r.0.0 == 0) ≡ false = ground (arith, bound, some_text) in
    let some_budget : (budget == 0) ≡ false = ground (arith, bound, some_text) in
    let nonempty : (length (chunk_of w budget s).0 == 0) ≡ false = ground (arith, some_text) in
    rw (found, some_cap, some_budget, nonempty)
      (elim (Bool-cases (budget == length (chunk_of w budget s).0)) [
        | inl all ↦ rw all refl
        | inr part ↦ rw part refl
      ])

-- A slot that is ready after the scan was in the table, and was ready before it.
scanned-inside :
    (w : SshSetting) (s : SshServer) (j : ℕ)
    → is_ready (scanned_of w s).1 j ≡ true
    → j < length s.base.net.conns
scanned-inside w s j ready =
    let n : ℕ = length s.base.net.conns in
    let q = scan_loop-IsPaced n w 0 chan_chunk false s in
    elim (Bool-cases (ltb j n)) [
      | inl lt ↦ ground (arith, lt)
      | inr ge ↦
          let u = q.others j (inr (ground (arith, ge))) in
          let was : is_ready s j ≡ true =
            sym (untouched-is_ready j s (scanned_of w s).1 u) ∙ ready in
          let from = sym (ready-from s j) ∙ was in absurd (ground (arith, from, ge))
    ]

-- One round of the broadcast, with a chunk to send: every client that is ready after the scan
-- gets the whole chunk as one packet under its own keys, behind what was pending on its send
-- ring, with at least 511 bytes of the ring left, its window smaller by the chunk and its packet
-- counter gone on; and the renderer has given the chunk once. The cipher is taken to keep lengths
-- and the tag to have 16 bytes, and each ready slot to be in the tables, with its ring's indices
-- in the ring and its transport encrypted.
pub broadcast_loop-reaches_all :
    (w : SshSetting) (budget : ℕ) (s : SshServer) (j : ℕ)
    → IsCipher w.crypto
    → ((i : ℕ) → is_ready s i ≡ true → IsServed i s)
    → is_ready (scanned_of w s).1 j ≡ true
    → 0 < length (chunk_of w budget s).0
    → IsSentTo w.crypto (chunk_of w budget s).0 j s (broadcast_loop 1 budget w s)
      × ((broadcast_loop 1 budget w s).base.render ≡ (chunk_of w budget s).1)
broadcast_loop-reaches_all w budget s j v served ready some_text =
    let n : ℕ = length s.base.net.conns in
    let r = scanned_of w s in
    let text : List ℕ = (chunk_of w budget s).0 in
    let s1 : SshServer = with_render (chunk_of w budget s).1 r.1 in
    let q = scan_loop-IsPaced n w 0 chan_chunk false s in
    let within : length text ≤ r.0.0 =
      omega (arith, draw_bytes-cap (min r.0.0 budget) w.plain.video r.1.base.render) in
    let inside : j < n = scanned-inside w s j ready in
    let found =
      scan_loop-finds n w 0 chan_chunk false s j (omega arith) (omega (arith, inside)) ready in
    let kept : (i : ℕ) → is_ready r.1 i ≡ true → IsUntouched i s s1 = λ i on.
      let u = q.kept i (omega arith) (omega (arith, scanned-inside w s i on)) on in
      record {
        active = u.active;
        conn = u.conn;
        slots = u.slots;
        session = u.session;
        sessions = u.sessions;
      } in
    let fit : (i : ℕ) → is_ready r.1 i ≡ true → IsFit text i s1 = λ i on.
      let u = kept i on in
      let was : is_ready s i ≡ true = sym (untouched-is_ready i s s1 u) ∙ on in
      let cap_i = untouched-slot_cap i s s1 u in
      let room = q.fits i (omega arith) (omega (arith, scanned-inside w s i on)) on in
      let same : slot_cap r.1 i ≡ slot_cap s1 i = slot_cap-render (chunk_of w budget s).1 r.1 i in
      untouched-IsFit text i s s1 u
        (record { served = served i was; fits = omega (arith, cap_i, same, room, within) }) in
    let turns = emit_loop-IsRound n w text 0 s1 v some_text (λ i lo hi on. fit i on) in
    let sent : IsSentTo w.crypto text j s (emit_loop n w text 0 s1) =
      before-IsSentTo w.crypto text j s s1 (emit_loop n w text 0 s1) (kept j ready)
        (turns.sent j (omega arith) (omega (arith, inside)) ready) in
    let whole = broadcast_round budget w s found some_text in
    (
      subst (IsSentTo w.crypto text j s) (sym whole) sent,
      ap (λ x. x.base.render) whole ∙ emit_loop-render n w text 0 s1,
    )
