-- ===== src/Resident/Tick/Backlog.antt =====
-- The loop of `net_tick` of dosshd/dosshd.c over the bytes that one client sent.
use mathlib.Core.Path.{subst}
use dossh.Base.{
  ℕ, zero, suc, ◌+◌, ◌<◌, ◌≤◌, true, false, List, [], ◌∷◌, Option, none, some, ◌≡◌, ◌≢◌, refl, sym,
  ◌⊎◌, inl, inr, arith, if◌then◌else◌, length, get_or, set, Bool-cases, length-set, get_or-set, ltb,
  ◌==◌,
}
use dossh.Telnet.{Event, put, ready, drop_slot, key, repaint, telnet_in}
use dossh.Net.Conn.{Conn, Host, Outgoing, is_estab, rcv_mask, tcp_reset_listen, tcp_send_seg}
use dossh.Net.Tcp.{putc, push_byte, getc}
use dossh.Net.Tcp.Receive.{InRing, queue_len}
use dossh.Net.Ip.{Net}
use dossh.Net.Stack.{no_conn}
use dossh.Net.Link.{net_rx_getc, net_slot_ready, net_slot_drop, net_tx_putc_slot}
use dossh.Resident.Tick.{Server, Setting, slot_event, slot_events, slot_byte, byte_loop, no_slot}
use dossh.Resident.Tick.Arrivals.{send_all-conns, type_byte-net}

-- The slot is in the table, and at most `k` bytes wait in its receive ring.
pub record Holds (i k : ℕ) (cs : List Conn) : Type 0 where
  pub in_table : i < length cs
  pub in_ring : InRing (get_or cs i no_conn)
  pub bytes : queue_len (get_or cs i no_conn) ≤ k

-- A slot whose ring took no byte.
set-Holds :
    (i k : ℕ) (cs : List Conn) (c : Conn)
    → i < length cs
    → InRing c
    → queue_len c ≤ k
    → Holds i k (set cs i c)
set-Holds i k cs c inside ring few =
    let here = get_or-set cs i c no_conn inside in
    record {
      in_table = omega (arith, length-set cs i c, inside);
      in_ring = subst InRing (sym here) ring;
      bytes = subst (λ x. queue_len x ≤ k) (sym here) few;
    }

putc-ring :
    (c : Conn) (ch : ℕ) → ((putc c ch).0.r_head ≡ c.r_head) × ((putc c ch).0.r_tail ≡ c.r_tail)
unfolding putc push_byte
putc-ring c ch = (ground arith, ground arith)

same_ring-Holds :
    (i k : ℕ) (cs : List Conn) (c : Conn)
    → Holds i k cs
    → c.r_head ≡ (get_or cs i no_conn).r_head
    → c.r_tail ≡ (get_or cs i no_conn).r_tail
    → Holds i k (set cs i c)
same_ring-Holds i k cs c h head tail =
    set-Holds i k cs c h.in_table
      (record {
        head_lt = omega (arith, head, h.in_ring.head_lt);
        tail_lt = omega (arith, tail, h.in_ring.tail_lt);
      })
      (omega (arith, head, tail, h.bytes))

net_slot_drop-Holds :
    (h : Host) (net : Net) (i k : ℕ)
    → Holds i k net.conns
    → Holds i k (net_slot_drop h net i).0.conns
unfolding net_slot_drop tcp_reset_listen
net_slot_drop-Holds h net i k held =
    let c : Conn = get_or net.conns i no_conn in
    let outs : List Outgoing =
      if is_estab c.tstate then tcp_send_seg h c 0x14 false 0 0 ∷ [] else [] in
    let inside : ltb i (length net.conns) ≡ true = ground (arith, held.in_table) in
    let dropped : Holds i k (set net.conns i (tcp_reset_listen c)) =
      set-Holds i k net.conns (tcp_reset_listen c) held.in_table
        (record { head_lt = omega arith; tail_lt = omega arith }) (omega arith) in
    let same : (net_slot_drop h net i).0.conns ≡ set net.conns i (tcp_reset_listen c) =
      ground (arith, inside, send_all-conns h net outs) in
    subst (Holds i k) (sym same) dropped

net_tx_putc_slot-Holds :
    (net : Net) (i k b : ℕ) → Holds i k net.conns → Holds i k (net_tx_putc_slot net i b).0.conns
unfolding net_tx_putc_slot
net_tx_putc_slot-Holds net i k b held =
    let c : Conn = get_or net.conns i no_conn in
    let inside : ltb i (length net.conns) ≡ true = ground (arith, held.in_table) in
    let (head, tail) = putc-ring c b in
    let same : (net_tx_putc_slot net i b).0.conns ≡ set net.conns i (putc c b).0 =
      ground (arith, inside) in
    subst (Holds i k) (sym same) (same_ring-Holds i k net.conns (putc c b).0 held head tail)

net_slot_ready-Holds :
    (net : Net) (i k : ℕ) → Holds i k net.conns → Holds i k (net_slot_ready net i true).conns
unfolding net_slot_ready
net_slot_ready-Holds net i k held =
    let c : Conn = record (get_or net.conns i no_conn) { ready = true } in
    let inside : ltb i (length net.conns) ≡ true = ground (arith, held.in_table) in
    let same : (net_slot_ready net i true).conns ≡ set net.conns i c = ground (arith, inside) in
    subst (Holds i k) (sym same) (same_ring-Holds i k net.conns c held refl refl)

slot_event-Holds :
    (w : Setting) (i k : ℕ) (e : Event) (s : Server)
    → Holds i k s.net.conns
    → Holds i k (slot_event w i e s).net.conns
unfolding slot_event
slot_event-Holds w i k (put b) s held = net_tx_putc_slot-Holds s.net i k b held
slot_event-Holds w i k ready s held = net_slot_ready-Holds s.net i k held
slot_event-Holds w i k drop_slot s held = net_slot_drop-Holds w.host s.net i k held
slot_event-Holds w i k (key b) s held =
    subst (λ net. Holds i k net.conns) (sym (type_byte-net b s)) held
slot_event-Holds w i k repaint s held = held

slot_events-Holds :
    (w : Setting) (i k : ℕ) (es : List Event) (s : Server)
    → Holds i k s.net.conns
    → Holds i k (slot_events w i es s).net.conns
unfolding slot_events
slot_events-Holds w i k [] s held = held
slot_events-Holds w i k (e ∷ es) s held =
    slot_events-Holds w i k es (slot_event w i e s) (slot_event-Holds w i k e s held)

slot_byte-Holds :
    (w : Setting) (i k b : ℕ) (s : Server)
    → Holds i k s.net.conns
    → Holds i k (slot_byte w i b s).net.conns
unfolding slot_byte
slot_byte-Holds w i k b s held =
    let (slot, events) = telnet_in w.config (get_or s.slots i no_slot) b in
    slot_events-Holds w i k events (record s { slots = set s.slots i slot }) held

net_rx_getc-empty :
    (net : Net) (i k : ℕ)
    → Holds i k net.conns
    → queue_len (get_or net.conns i no_conn) ≡ 0
    → (net_rx_getc net i).1 ≡ none
unfolding net_rx_getc getc
net_rx_getc-empty net i k held empty =
    let c : Conn = get_or net.conns i no_conn in
    let level : c.r_tail ≡ c.r_head =
      omega (arith, empty, held.in_ring.head_lt, held.in_ring.tail_lt) in
    ground (arith, level, held.in_table)

net_rx_getc-Holds :
    (net : Net) (i k : ℕ)
    → Holds i (suc k) net.conns
    → Holds i 0 (net_rx_getc net i).0.conns
      ⊎ ((b : ℕ) × (((net_rx_getc net i).1 ≡ some b) × Holds i k (net_rx_getc net i).0.conns))
unfolding net_rx_getc getc
net_rx_getc-Holds net i k held =
    let c : Conn = get_or net.conns i no_conn in
    let c' : Conn = record c { r_tail = rcv_mask (c.r_tail + 1) } in
    let inside : ltb i (length net.conns) ≡ true = ground (arith, held.in_table) in
    elim (Bool-cases (c.r_tail == c.r_head)) [
      | inl level ↦
          let eq : c.r_tail ≡ c.r_head = ground arith in
          let drained : Holds i 0 (set net.conns i c) =
            set-Holds i 0 net.conns c held.in_table held.in_ring
              (omega (arith, eq, held.in_ring.head_lt)) in
          let same : (net_rx_getc net i).0.conns ≡ set net.conns i c =
            ground (arith, level, inside) in
          inl (subst (Holds i 0) (sym same) drained)
      | inr apart ↦
          let ne : c.r_tail ≢ c.r_head = ground arith in
          let fewer : Holds i k (set net.conns i c') =
            set-Holds i k net.conns c' held.in_table
              (record { head_lt = held.in_ring.head_lt; tail_lt = omega arith })
              (omega (arith, ne, held.bytes, held.in_ring.head_lt, held.in_ring.tail_lt)) in
          let same : (net_rx_getc net i).0.conns ≡ set net.conns i c' =
            ground (arith, apart, inside) in
          inr (c.rbuf c.r_tail, (ground (arith, apart, inside), subst (Holds i k) (sym same) fewer))
    ]

-- One round of the loop.
abbrev round_of : ℕ → Setting → ℕ → Server → Net × Option ℕ → Server
round_of rounds w i s (net, none) = record s { net = net }
round_of rounds w i s (net, some b) =
    byte_loop rounds w i (slot_byte w i b (record s { net = net }))

byte_loop-round :
    (rounds : ℕ) (w : Setting) (i : ℕ) (s : Server)
    → byte_loop (suc rounds) w i s ≡ round_of rounds w i s (net_rx_getc s.net i)
unfolding byte_loop
byte_loop-round rounds w i s = refl

fewer-Holds : (i j k : ℕ) (cs : List Conn) → Holds i j cs → j ≤ k → Holds i k cs
fewer-Holds i j k cs h le = record {
  in_table = h.in_table;
  in_ring = h.in_ring;
  bytes = omega (arith, h.bytes, le);
}

-- A round that read nothing, or one byte.
round_of-Holds :
    (rounds : ℕ) (w : Setting) (i : ℕ) (s : Server) (got : Net × Option ℕ)
    → Holds i 0 got.0.conns ⊎ ((b : ℕ) × ((got.1 ≡ some b) × Holds i rounds got.0.conns))
    → ((s1 : Server) → Holds i rounds s1.net.conns → Holds i 0 (byte_loop rounds w i s1).net.conns)
    → Holds i 0 (round_of rounds w i s got).net.conns
round_of-Holds rounds w i s (net, none) (inl drained) rest = drained
round_of-Holds rounds w i s (net, none) (inr (b, (e, held))) rest = absurd (ground (arith, e))
round_of-Holds rounds w i s (net, some b) (inl drained) rest =
    rest (slot_byte w i b (record s { net = net })) (
      slot_byte-Holds w i rounds b (record s { net = net })
        (fewer-Holds i 0 rounds net.conns drained (omega arith)))
round_of-Holds rounds w i s (net, some b) (inr (b', (e, held))) rest =
    rest (slot_byte w i b (record s { net = net }))
      (slot_byte-Holds w i rounds b (record s { net = net }) held)

byte_loop-Holds :
    (rounds : ℕ) (w : Setting) (i : ℕ) (s : Server)
    → Holds i rounds s.net.conns
    → Holds i 0 (byte_loop rounds w i s).net.conns
unfolding byte_loop
byte_loop-Holds zero w i s held = held
byte_loop-Holds (suc rounds) w i s held =
    subst (λ x. Holds i 0 x.net.conns) (sym (byte_loop-round rounds w i s))
      (round_of-Holds rounds w i s (net_rx_getc s.net i) (net_rx_getc-Holds s.net i rounds held)
        (byte_loop-Holds rounds w i))

-- The loop over one client's bytes ends: the 512 rounds that the model allows drain the receive ring of a
-- slot in the table whose ring indices lie in the ring, and `net_rx_getc` has nothing more to give,
-- whatever the bytes make dosshd/telnet.c do to the slot.
pub byte_loop-drains :
    (w : Setting) (i : ℕ) (s : Server)
    → i < length s.net.conns
    → InRing (get_or s.net.conns i no_conn)
    → (net_rx_getc (byte_loop 512 w i s).net i).1 ≡ none
byte_loop-drains w i s inside ring =
    let held : Holds i 512 s.net.conns = record {
      in_table = inside;
      in_ring = ring;
      bytes = omega arith;
    } in
    let drained = byte_loop-Holds 512 w i s held in
    net_rx_getc-empty (byte_loop 512 w i s).net i 0 drained (omega (arith, drained.bytes))
