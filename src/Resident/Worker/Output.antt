-- ===== src/Resident/Worker/Output.antt =====
-- `ssh_pump_output` of dosshd/dosshd.c moves the bytes of the output queue to a slot's send ring.
use mathlib.Core.Path.{subst}
use dossh.Base.{
  ℕ, zero, suc, ◌+◌, ◌-◌, ◌^◌, ◌<◌, ◌≤◌, min, true, false, List, [], ◌∷◌, ◌++◌, ◌≡◌, ◌≢◌, refl, sym,
  ap, ◌∙◌, ◌⊎◌, inl, inr, arith, u8, map, ltb, ◌==◌, ◌||◌, length, get_or, set, take, drop,
  Bool-cases, length-set, append_assoc, append-nil, length-take, length-append, get_or-set,
  get_or-set_other, take-append-drop, leb,
}
use dossh.Net.Conn.{Conn, snd_sz}
use dossh.Net.Tcp.{used, push_byte, putc}
use dossh.Net.Ip.{Net}
use dossh.Net.Stack.{no_conn, set_conn}
use dossh.Net.Link.{net_tx_putc_slot, net_tx_room_slot}
use dossh.Net.Link.Broadcast.{pending, push_byte-pending}
use dossh.Resident.Worker.{SshServer, slot_conn, put_bytes, pump_loop, ssh_pump_output}
use dossh.Ssh.State.{Ssh}
use dossh.Ssh.Input.{ssh_output}

abbrev pub slot_of : Net → ℕ → Conn
slot_of net i = get_or net.conns i no_conn

-- The slot is in the table, and the indices of its send ring lie in the ring.
pub record HasSlot (i : ℕ) (net : Net) : Type 0 where
  pub inside : i < length net.conns
  pub end_lt : (slot_of net i).s_end < 2 ^ 12
  pub una_lt : (slot_of net i).s_una < 2 ^ 12

-- The bytes stand behind those that were pending on the slot, and no other slot has changed.
pub record IsQueued (i : ℕ) (bs : List ℕ) (net net' : Net) : Type 0 where
  pub behind : pending (slot_of net' i) ≡ pending (slot_of net i) ++ map u8 bs
  pub room : net_tx_room_slot net' i + length bs ≡ net_tx_room_slot net i
  pub same_state : (slot_of net' i).tstate ≡ (slot_of net i).tstate
  pub others : (j : ℕ) → j ≢ i → slot_of net' j ≡ slot_of net j
  pub slots : length net'.conns ≡ length net.conns
  pub valid : HasSlot i net'

nothing-IsQueued : (i : ℕ) (net : Net) → HasSlot i net → IsQueued i [] net net
nothing-IsQueued i net v = record {
  behind = sym (append-nil (pending (slot_of net i)));
  room = omega arith;
  same_state = refl;
  others = λ j h. refl;
  slots = refl;
  valid = v;
}

map-append : (xs ys : List ℕ) → map u8 (xs ++ ys) ≡ map u8 xs ++ map u8 ys
map-append [] ys = refl
map-append (x ∷ xs) ys = ap (λ t. u8 x ∷ t) (map-append xs ys)

-- What goes out after what has gone out.
pub after-IsQueued :
    (i : ℕ) (xs ys : List ℕ) (net net1 net2 : Net)
    → IsQueued i xs net net1
    → IsQueued i ys net1 net2
    → IsQueued i (xs ++ ys) net net2
after-IsQueued i xs ys net net1 net2 q r = record {
  behind =
      r.behind
      ∙ (ap (λ t. t ++ map u8 ys) q.behind
          ∙ (append_assoc (pending (slot_of net i)) (map u8 xs) (map u8 ys)
              ∙ ap (λ t. pending (slot_of net i) ++ t) (sym (map-append xs ys))));
  room = omega (arith, q.room, r.room, length-append xs ys);
  same_state = r.same_state ∙ q.same_state;
  others = λ j h. r.others j h ∙ q.others j h;
  slots = r.slots ∙ q.slots;
  valid = r.valid;
}

room-used :
    (net : Net) (i : ℕ)
    → i < length net.conns
    → net_tx_room_slot net i ≡ 4095 - used (slot_of net i)
unfolding net_tx_room_slot used
room-used net i inside = ground (arith, inside)

push_byte-used :
    (c : Conn) (b : ℕ)
    → c.s_end < 2 ^ 12
    → c.s_una < 2 ^ 12
    → used c < 4095
    → used (push_byte c b) ≡ used c + 1
unfolding used push_byte
push_byte-used c b p q room = omega arith

putc-pushes : (c : Conn) (b : ℕ) → used c < 4095 → (putc c b).0 ≡ push_byte c b
unfolding putc
putc-pushes c b room =
    let open_ring : leb (snd_sz - 1) (used c) ≡ false = ground (arith, room) in rw open_ring refl

putc_slot-set :
    (net : Net) (i b : ℕ)
    → i < length net.conns
    → used (slot_of net i) < 4095
    → (net_tx_putc_slot net i b).0 ≡ set_conn net i (push_byte (slot_of net i) b)
unfolding net_tx_putc_slot
putc_slot-set net i b inside room =
    let here : ltb i (length net.conns) ≡ true = ground (arith, inside) in
    rw here (ap (set_conn net i) (putc-pushes (slot_of net i) b room))

set_conn-IsQueued :
    (net : Net) (i b : ℕ)
    → HasSlot i net
    → 0 < net_tx_room_slot net i
    → IsQueued i (b ∷ []) net (set_conn net i (push_byte (slot_of net i) b))
unfolding push_byte
set_conn-IsQueued net i b v room =
    let c : Conn = slot_of net i in
    let here : slot_of (set_conn net i (push_byte c b)) i ≡ push_byte c b =
      get_or-set net.conns i (push_byte c b) no_conn v.inside in
    let slots : length (set net.conns i (push_byte c b)) ≡ length net.conns =
      length-set net.conns i (push_byte c b) in
    let inside' : i < length (set net.conns i (push_byte c b)) = omega (arith, slots, v.inside) in
    let few : used c < 4095 = omega (arith, room-used net i v.inside, room) in
    let not_full : leb (snd_sz - 1) (used c) ≡ false = ground (arith, few) in
    record {
      behind = ap pending here ∙ push_byte-pending c b v.end_lt v.una_lt not_full;
      room =
          let more = room-used (set_conn net i (push_byte c b)) i inside' in
          let used_here = ap used here in
          omega (
            arith,
            more,
            used_here,
            push_byte-used c b v.end_lt v.una_lt few,
            room-used net i v.inside,
            few,
          );
      same_state = ap (λ x. x.tstate) here;
      others = λ j h. get_or-set_other net.conns i j (push_byte c b) no_conn h;
      slots = slots;
      valid = record {
        inside = inside';
        end_lt = subst (λ x. x.s_end < 2 ^ 12) (sym here) (omega arith);
        una_lt = subst (λ x. x.s_una < 2 ^ 12) (sym here) v.una_lt;
      };
    }

-- Bytes that the slot has room for all go to its ring.
pub put_bytes-IsQueued :
    (i : ℕ) (bs : List ℕ) (net : Net)
    → HasSlot i net
    → length bs ≤ net_tx_room_slot net i
    → IsQueued i bs net (put_bytes i bs net)
unfolding put_bytes
put_bytes-IsQueued i [] net v fits = nothing-IsQueued i net v
put_bytes-IsQueued i (b ∷ bs) net v fits =
    let some_room : 0 < net_tx_room_slot net i = omega (arith, fits) in
    let few : used (slot_of net i) < 4095 = omega (arith, room-used net i v.inside, some_room) in
    let first : IsQueued i (b ∷ []) net (net_tx_putc_slot net i b).0 =
      subst (IsQueued i (b ∷ []) net) (sym (putc_slot-set net i b v.inside few))
        (set_conn-IsQueued net i b v some_room) in
    after-IsQueued i (b ∷ []) bs net (net_tx_putc_slot net i b).0
      (put_bytes i bs (net_tx_putc_slot net i b).0) first
      (put_bytes-IsQueued i bs (net_tx_putc_slot net i b).0 first.valid
        (omega (arith, first.room, fits)))

-- What the loop over the output queue leaves: the bytes that left the queue are on the slot's ring, in their
-- order, and bytes that stay in the queue stay because the ring is full.
pub record IsDelivered (i : ℕ) (net : Net) (ob : List ℕ) (net' : Net) (ob' : List ℕ) : Type 0 where
  pub sent : List ℕ
  pub split : ob ≡ sent ++ ob'
  pub queued : IsQueued i sent net net'
  pub ended : (ob' ≡ []) ⊎ (net_tx_room_slot net' i ≡ 0)

stays-IsDelivered :
    (i : ℕ) (net : Net) (ob : List ℕ)
    → HasSlot i net
    → (ob ≡ []) ⊎ (net_tx_room_slot net i ≡ 0)
    → IsDelivered i net ob net ob
stays-IsDelivered i net ob v e = record {
  sent = [];
  split = refl;
  queued = nothing-IsQueued i net v;
  ended = e;
}

later-IsDelivered :
    (i : ℕ) (net : Net) (ob : List ℕ) (net1 net2 : Net) (ob2 : List ℕ) (n : ℕ)
    → IsQueued i (take n ob) net net1
    → IsDelivered i net1 (drop n ob) net2 ob2
    → IsDelivered i net ob net2 ob2
later-IsDelivered i net ob net1 net2 ob2 n q d = record {
  sent = take n ob ++ d.sent;
  split =
      sym (take-append-drop n ob)
      ∙ (ap (λ t. take n ob ++ t) d.split ∙ sym (append_assoc (take n ob) d.sent ob2));
  queued = after-IsQueued i (take n ob) d.sent net net1 net2 q d.queued;
  ended = d.ended;
}

length-drop : (n : ℕ) (xs : List ℕ) → length (drop n xs) ≡ length xs - n
length-drop zero xs = omega arith
length-drop (suc n) [] = omega arith
length-drop (suc n) (x ∷ xs) = omega (arith, length-drop n xs)

length-zero : (xs : List ℕ) → length xs ≡ 0 → xs ≡ []
length-zero [] e = refl
length-zero (x ∷ xs) e = absurd (omega (arith, e))

Delivered : ℕ → Net → Ssh → Net × Ssh → Type 0
Delivered i net c last = IsDelivered i net c.ob last.0 last.1.ob

pump_loop-IsDelivered :
    (rounds i : ℕ) (net : Net) (c : Ssh)
    → HasSlot i net
    → length c.ob ≤ rounds
    → Delivered i net c (pump_loop rounds i net c)
unfolding pump_loop ssh_output Delivered
pump_loop-IsDelivered zero i net c v enough =
    stays-IsDelivered i net c.ob v (inl (length-zero c.ob (omega (arith, enough))))
pump_loop-IsDelivered (suc rounds) i net c v enough =
    let room : ℕ = net_tx_room_slot net i in
    let n : ℕ = min room 128 in
    let taken = length-take n c.ob in
    elim (Bool-cases (room == 0 || length (take n c.ob) == 0)) [
      | inl over ↦ rw over (
          stays-IsDelivered i net c.ob v (elim (Bool-cases (room == 0)) [
            | inl full ↦ inr (ground (arith, full))
            | inr space ↦ inl (length-zero c.ob (ground (arith, over, space, taken)))
          ]))
      | inr on ↦
          let few : length (take n c.ob) ≤ room = omega (arith, taken) in
          let some_bytes : 0 < length (take n c.ob) = ground (arith, on) in
          let net1 : Net = put_bytes i (take n c.ob) net in
          let q = put_bytes-IsQueued i (take n c.ob) net v few in
          let shorter : length (drop n c.ob) ≤ rounds =
            omega (arith, length-drop n c.ob, taken, some_bytes, enough) in
          let last = pump_loop rounds i net1 (record c { ob = drop n c.ob }) in
          rw on (
            later-IsDelivered i net c.ob net1 last.0 last.1.ob n q
              (pump_loop-IsDelivered rounds i net1 (record c { ob = drop n c.ob }) q.valid shorter))
    ]

-- `ssh_pump_output` on a slot of the table whose ring indices lie in the ring: what leaves the
-- shared output queue stands, in its order and whole, behind what was pending on that slot's send
-- ring, no other slot's ring changes, and a byte stays in the queue only if the slot's ring is
-- full then.
pub ssh_pump_output-IsDelivered :
    (i : ℕ) (s : SshServer)
    → HasSlot i s.base.net
    → IsDelivered i s.base.net s.shared.ob
        (ssh_pump_output i s).base.net
        (ssh_pump_output i s).shared.ob
unfolding ssh_pump_output Delivered
ssh_pump_output-IsDelivered i s v =
    pump_loop-IsDelivered (length s.shared.ob) i s.base.net (slot_conn s i) v (omega arith)
