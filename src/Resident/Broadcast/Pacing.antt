-- ===== src/Resident/Broadcast/Pacing.antt =====
-- The scan of `ssh_net_broadcast` of dosshd/dosshd.c: the chunk is small enough for every client.
use mathlib.Core.Path.{subst}
use dossh.Base.{
  ℕ, zero, suc, ◌+◌, ◌-◌, ◌<◌, ◌≤◌, min, Bool, true, false, ◌&&◌, List, [], ◌∷◌, ◌≡◌, ◌≢◌, refl,
  sym, ap, ◌∙◌, ◌⊎◌, inl, inr, arith, ltb, ◌==◌, if◌then◌else◌, length, get_or, set, Bool-cases,
  length-set, get_or-set_other,
}
use dossh.Net.Conn.{Conn, snd_sz, Host, Outgoing, is_estab, tcp_reset_listen, tcp_send_seg}
use dossh.Net.Ip.{Net}
use dossh.Net.Stack.{no_conn}
use dossh.Net.Link.{net_slot_drop, net_slot_connected, net_tx_room_slot, net_slot_stalled}
use dossh.Resident.Tick.Arrivals.{send_all-conns}
use dossh.Resident.Worker.{SshServer, SshSetting, is_active, slot_conn, drop_slot}
use dossh.Resident.Worker.Output.{slot_of}
use dossh.Resident.Broadcast.{is_ready, slot_cap, scan_loop}
use dossh.Ssh.State.{Ssh}
use dossh.Ssh.Input.{cleared}
use dossh.Ssh.Channel.{ssh_channel_ready, ssh_channel_avail, chunk_room}
use dossh.Net.Tcp.{used}

abbrev pub session_of : SshServer → ℕ → Ssh
session_of s j = get_or s.ssh_slots j (cleared 0)

-- A slot's own state is the same; the buffers that all slots share may differ.
pub record IsUntouched (j : ℕ) (s s' : SshServer) : Type 0 where
  pub active : is_active s' j ≡ is_active s j
  pub conn : slot_of s'.base.net j ≡ slot_of s.base.net j
  pub slots : length s'.base.net.conns ≡ length s.base.net.conns
  pub session : session_of s' j ≡ session_of s j
  pub sessions : length s'.ssh_slots ≡ length s.ssh_slots

pub same-IsUntouched : (j : ℕ) (s : SshServer) → IsUntouched j s s
same-IsUntouched j s = record {
  active = refl;
  conn = refl;
  slots = refl;
  session = refl;
  sessions = refl;
}

pub then-IsUntouched :
    (j : ℕ) (s s1 s2 : SshServer) → IsUntouched j s s1 → IsUntouched j s1 s2 → IsUntouched j s s2
then-IsUntouched j s s1 s2 u v = record {
  active = v.active ∙ u.active;
  conn = v.conn ∙ u.conn;
  slots = v.slots ∙ u.slots;
  session = v.session ∙ u.session;
  sessions = v.sessions ∙ u.sessions;
}

-- What the broadcast asks of a slot, from its own state alone.
abbrev ready_from : Bool → Conn → ℕ → Ssh → ℕ → Bool
ready_from active c slots session j =
    active && ((ltb j slots && is_estab c.tstate) && ssh_channel_ready session)

pub ready-from :
    (s : SshServer) (j : ℕ)
    → is_ready s j
      ≡ ready_from
          (is_active s j)
          (slot_of s.base.net j)
          (length s.base.net.conns)
          (session_of s j)
          j
unfolding net_slot_connected ssh_channel_ready
ready-from s j = refl

pub untouched-is_ready :
    (j : ℕ) (s s' : SshServer) → IsUntouched j s s' → is_ready s' j ≡ is_ready s j
untouched-is_ready j s s' u =
    ready-from s' j ∙ (rw (u.active, u.conn, u.slots, u.session) refl ∙ sym (ready-from s j))

room-from :
    (net : Net) (j : ℕ)
    → net_tx_room_slot net j
      ≡ (if ltb j (length net.conns) then snd_sz - 1 - used (slot_of net j) else 0)
unfolding net_tx_room_slot
room-from net j = refl

pub untouched-room :
    (j : ℕ) (s s' : SshServer)
    → IsUntouched j s s'
    → net_tx_room_slot s'.base.net j ≡ net_tx_room_slot s.base.net j
untouched-room j s s' u =
    room-from s'.base.net j ∙ (rw (u.conn, u.slots) refl ∙ sym (room-from s.base.net j))

avail-session :
    (s : SshServer) (j : ℕ) → ssh_channel_avail (slot_conn s j) ≡ ssh_channel_avail (session_of s j)
unfolding ssh_channel_avail ssh_channel_ready chunk_room
avail-session s j = refl

pub untouched-slot_cap :
    (j : ℕ) (s s' : SshServer) → IsUntouched j s s' → slot_cap s' j ≡ slot_cap s j
unfolding slot_cap
untouched-slot_cap j s s' u =
    let avail : ssh_channel_avail (slot_conn s' j) ≡ ssh_channel_avail (slot_conn s j) =
      avail-session s' j ∙ (ap ssh_channel_avail u.session ∙ sym (avail-session s j)) in
    rw (untouched-room j s s' u, avail) refl

net_slot_drop-conns :
    (h : Host) (net : Net) (i : ℕ)
    → i < length net.conns
    → (net_slot_drop h net i).0.conns ≡ set net.conns i (tcp_reset_listen (slot_of net i))
unfolding net_slot_drop
net_slot_drop-conns h net i inside =
    let c : Conn = slot_of net i in
    let outs : List Outgoing =
      if is_estab c.tstate then tcp_send_seg h c 0x14 false 0 0 ∷ [] else [] in
    let here : ltb i (length net.conns) ≡ true = ground (arith, inside) in
    ground (arith, here, send_all-conns h net outs)

net_slot_drop-outside :
    (h : Host) (net : Net) (i : ℕ)
    → ltb i (length net.conns) ≡ false
    → (net_slot_drop h net i).0 ≡ net
unfolding net_slot_drop
net_slot_drop-outside h net i out = rw out refl

-- Dropping a slot leaves the others alone, and the slot takes no part any more.
pub drop_slot-IsUntouched :
    (w : SshSetting) (i j : ℕ) (s : SshServer) → j ≢ i → IsUntouched j s (drop_slot w i s)
unfolding drop_slot
drop_slot-IsUntouched w i j s ne =
    let active = get_or-set_other s.ssh_active i j false false ne in
    elim (Bool-cases (ltb i (length s.base.net.conns))) [
      | inl here ↦
          let inside : i < length s.base.net.conns = ground (arith, here) in
          let conns = net_slot_drop-conns w.plain.host s.base.net i inside in
          let reset : Conn = tcp_reset_listen (slot_of s.base.net i) in
          record {
            active = active;
            conn =
                ap (λ cs. get_or cs j no_conn) conns
                ∙ get_or-set_other s.base.net.conns i j reset no_conn ne;
            slots = ap length conns ∙ length-set s.base.net.conns i reset;
            session = refl;
            sessions = refl;
          }
      | inr out ↦
          let same = net_slot_drop-outside w.plain.host s.base.net i out in
          record {
            active = active;
            conn = ap (λ net. slot_of net j) same;
            slots = ap (λ net. length net.conns) same;
            session = refl;
            sessions = refl;
          }
    ]

set-false : (bs : List Bool) (i : ℕ) → get_or (set bs i false) i false ≡ false
set-false [] i = refl
set-false (b ∷ bs) zero = refl
set-false (b ∷ bs) (suc i) = set-false bs i

drop_slot-inactive : (w : SshSetting) (i : ℕ) (s : SshServer) → is_ready (drop_slot w i s) i ≡ false
unfolding drop_slot
drop_slot-inactive w i s = let off = set-false s.ssh_active i in ground (arith, off)

-- What a scan of the slots from `i` answers: a size that each of them that is ready then can take, with the
-- other slots left alone, and a slot that is still ready as well.
pub record IsPaced (i left cap : ℕ) (s : SshServer) (r : (ℕ × Bool) × SshServer) : Type 0 where
  pub smaller : r.0.0 ≤ cap
  pub fits : (j : ℕ) → i ≤ j → j < i + left → is_ready r.1 j ≡ true → r.0.0 ≤ slot_cap r.1 j
  pub kept : (j : ℕ) → i ≤ j → j < i + left → is_ready r.1 j ≡ true → IsUntouched j s r.1
  pub others : (j : ℕ) → (j < i) ⊎ (i + left ≤ j) → IsUntouched j s r.1

still_ready :
    (i j : ℕ) (s s' : SshServer)
    → j ≡ i
    → IsUntouched j s s'
    → is_ready s' j ≡ true
    → is_ready s i ≡ true
still_ready i j s s' same u ready =
    ap (λ k. is_ready s k) (sym same) ∙ (sym (untouched-is_ready j s s' u) ∙ ready)

-- The slot `i` itself was dealt with, and the scan went on.
next-IsPaced :
    (i left cap cap1 : ℕ) (s s1 : SshServer) (r : (ℕ × Bool) × SshServer)
    → cap1 ≤ cap
    → ((j : ℕ) → j ≢ i → IsUntouched j s s1)
    → (is_ready s1 i ≡ true → (cap1 ≤ slot_cap s1 i) × IsUntouched i s s1)
    → IsPaced (i + 1) left cap1 s1 r
    → IsPaced i (suc left) cap s r
next-IsPaced i left cap cap1 s s1 r le kept here q = record {
  smaller = omega (arith, q.smaller, le);
  fits = λ j lo hi ready. elim (Bool-cases (j == i)) [
    | inl at ↦
        let same : j ≡ i = ground (arith, at) in
        let u : IsUntouched j s1 r.1 = q.others j (inl (omega (arith, same))) in
        let cap_j = untouched-slot_cap j s1 r.1 u in
        let cap_i : slot_cap s1 j ≡ slot_cap s1 i = ap (slot_cap s1) same in
        let ready_i = still_ready i j s1 r.1 same u ready in
        omega (arith, cap_j, cap_i, (here ready_i).0, q.smaller)
    | inr off ↦
        let apart : j ≢ i = ground (arith, off) in
        q.fits j (omega (arith, apart, lo)) (omega (arith, hi)) ready
  ];
  kept = λ j lo hi ready. elim (Bool-cases (j == i)) [
    | inl at ↦
        let same : j ≡ i = ground (arith, at) in
        let u : IsUntouched j s1 r.1 = q.others j (inl (omega (arith, same))) in
        let ready_i = still_ready i j s1 r.1 same u ready in
        then-IsUntouched j s s1 r.1 (subst (λ k. IsUntouched k s s1) (sym same) (here ready_i).1) u
    | inr off ↦
        let apart : j ≢ i = ground (arith, off) in
        then-IsUntouched j s s1 r.1 (kept j apart)
          (q.kept j (omega (arith, apart, lo)) (omega (arith, hi)) ready)
  ];
  others = λ j out.
      let away : j ≢ i = elim out [ inl lo ↦ omega (arith, lo) | inr hi ↦ omega (arith, hi) ] in
      let out' : (j < i + 1) ⊎ (i + 1 + left ≤ j) = elim out [
        | inl lo ↦ inl (omega (arith, lo))
        | inr hi ↦ inr (omega (arith, hi))
      ] in
      then-IsUntouched j s s1 r.1 (kept j away) (q.others j out');
}

pub scan_loop-IsPaced :
    (left : ℕ) (w : SshSetting) (i cap : ℕ) (found : Bool) (s : SshServer)
    → IsPaced i left cap s (scan_loop left w i cap found s)
unfolding scan_loop
scan_loop-IsPaced zero w i cap found s = record {
  smaller = omega arith;
  fits = λ j lo hi ready. absurd (omega (arith, lo, hi));
  kept = λ j lo hi ready. same-IsUntouched j s;
  others = λ j out. same-IsUntouched j s;
}
scan_loop-IsPaced (suc left) w i cap found s =
    let same : (j : ℕ) → j ≢ i → IsUntouched j s s = λ j ne. same-IsUntouched j s in
    elim (Bool-cases (is_ready s i)) [
      | inr idle ↦ rw idle (
          next-IsPaced i left cap cap s s (scan_loop left w (i + 1) cap found s) (omega arith) same
            (λ ready. absurd (ground (arith, idle, ready)))
            (scan_loop-IsPaced left w (i + 1) cap found s))
      | inl ready ↦ elim (Bool-cases (slot_cap s i == 0 && net_slot_stalled s.base.net i)) [
        | inl dead ↦
            let s1 : SshServer = drop_slot w i s in
            let off = drop_slot-inactive w i s in
            rw (ready, dead)
              (next-IsPaced i left cap cap s s1 (scan_loop left w (i + 1) cap true s1) (omega arith)
                (λ j ne. drop_slot-IsUntouched w i j s ne) (λ on. absurd (ground (arith, off, on)))
                (scan_loop-IsPaced left w (i + 1) cap true s1))
        | inr alive ↦
            let least : ℕ = min (slot_cap s i) cap in
            rw (ready, alive)
              (next-IsPaced i left cap least s s (scan_loop left w (i + 1) least true s)
                (omega arith) same (λ on. (omega arith, same-IsUntouched i s))
                (scan_loop-IsPaced left w (i + 1) least true s))
      ]
    ]
