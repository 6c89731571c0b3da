-- ===== src/Resident/Tick/Arrivals.antt =====
-- The loop of `net_tick` of dosshd/dosshd.c over the connections that have just been established.
use dossh.Base.{
  ℕ, zero, suc, ◌+◌, ◌-◌, ◌≤◌, true, false, List, [], ◌∷◌, Option, none, some, ◌≡◌, refl, sym, ap,
  ◌∙◌, inl, inr, arith, if◌then◌else◌, length, get_or, set, Bool-cases,
}
use dossh.Keys.{ansi_key_byte}
use dossh.Keys.Tables.{KeyEvent, inject, reboot}
use dossh.Telnet.{Event, put, ready, drop_slot, key, repaint, telnet_begin}
use dossh.Net.Conn.{Conn, Host, Outgoing, is_estab, tcp_reset_listen, tcp_send_seg}
use dossh.Net.Tcp.{putc, push_byte}
use dossh.Net.Ip.{Net, send_all, ip_send}
use dossh.Net.Stack.{no_conn, find_index, set_conn}
use dossh.Net.Link.{net_take_new_slot, net_slot_ready, net_slot_drop, net_tx_putc_slot}
use dossh.Resident.Tick.{
  Server, Setting, key_event, key_events, type_byte, slot_event, slot_events, begin_slot,
  begin_loop, no_slot,
}

-- How many connections wait for their greeting.
abbrev pub waiting : List Conn → ℕ
waiting [] = 0
waiting (c ∷ cs) = (if c.just_estab then 1 else 0) + waiting cs

waiting-length : (cs : List Conn) → waiting cs ≤ length cs
waiting-length [] = omega arith
waiting-length (c ∷ cs) = ground (arith, waiting-length cs)

waiting-set :
    (cs : List Conn) (i : ℕ) (c : Conn)
    → c.just_estab ≡ (get_or cs i no_conn).just_estab
    → waiting (set cs i c) ≡ waiting cs
waiting-set [] i c same = refl
waiting-set (x ∷ xs) zero c same = rw same refl
waiting-set (x ∷ xs) (suc i) c same =
    ap (λ n. (if x.just_estab then 1 else 0) + n) (waiting-set xs i c same)

-- The first of those that wait, its flag cleared.
find_index-waiting :
    (cs : List Conn) (j i : ℕ)
    → find_index (λ c. c.just_estab) j cs ≡ some i
    → (j ≤ i)
      × (waiting (set cs (i - j) (record (get_or cs (i - j) no_conn) { just_estab = false })) + 1
          ≡ waiting cs)
unfolding find_index
find_index-waiting [] j i found = absurd (ground (arith, found))
find_index-waiting (c ∷ cs) j i found = elim (Bool-cases c.just_estab) [
  | inl new ↦
      let here : i ≡ j = ground (arith, found, new) in
      let front : i - j ≡ 0 = omega (arith, here) in
      (omega (arith, here), rw front (ground (arith, new)))
  | inr old ↦
      let later : find_index (λ x. x.just_estab) (j + 1) cs ≡ some i = ground (arith, found, old) in
      let (after, fewer) = find_index-waiting cs (j + 1) i later in
      let behind : i - j ≡ suc (i - (j + 1)) = omega (arith, after) in
      (omega (arith, after), rw behind (ground (arith, fewer, old)))
]

find_index-none :
    (cs : List Conn) (j : ℕ)
    → (find_index (λ c. c.just_estab) j cs ≡ none → waiting cs ≡ 0)
      × (waiting cs ≡ 0 → find_index (λ c. c.just_estab) j cs ≡ none)
unfolding find_index
find_index-none [] j = (λ _. refl, λ _. refl)
find_index-none (c ∷ cs) j =
    let (some_wait, no_wait) = find_index-none cs (j + 1) in
    (λ e. ground (arith, e, some_wait), λ e. ground (arith, e, no_wait))

pub send_all-conns :
    (h : Host) (net : Net) (outs : List Outgoing) → (send_all h net outs).0.conns ≡ net.conns
unfolding send_all ip_send
send_all-conns h net [] = refl
send_all-conns h net (out ∷ outs) = send_all-conns h (ip_send h net 6 out).0 outs

putc-flag : (c : Conn) (ch : ℕ) → (putc c ch).0.just_estab ≡ c.just_estab
unfolding putc push_byte
putc-flag c ch = ground arith

key_events-net : (es : List KeyEvent) (s : Server) → (key_events es s).net ≡ s.net
unfolding key_events key_event
key_events-net [] s = refl
key_events-net (inject scan ascii ∷ es) s = key_events-net es (key_event (inject scan ascii) s)
key_events-net (reboot ∷ es) s = key_events-net es (key_event reboot s)

pub type_byte-net : (b : ℕ) (s : Server) → (type_byte b s).net ≡ s.net
unfolding type_byte
type_byte-net b s =
    let (keys, events) = ansi_key_byte s.keys b in key_events-net events (record s { keys = keys })

net_slot_drop-waiting :
    (h : Host) (net : Net) (i : ℕ) → waiting (net_slot_drop h net i).0.conns ≡ waiting net.conns
unfolding net_slot_drop tcp_reset_listen
net_slot_drop-waiting h net i =
    let c : Conn = get_or net.conns i no_conn in
    let kept = waiting-set net.conns i (tcp_reset_listen c) refl in
    ground (
      arith,
      kept,
      send_all-conns h net (if is_estab c.tstate then tcp_send_seg h c 0x14 false 0 0 ∷ [] else []),
    )

slot_event-waiting :
    (w : Setting) (i : ℕ) (e : Event) (s : Server)
    → waiting (slot_event w i e s).net.conns ≡ waiting s.net.conns
unfolding slot_event net_slot_ready net_tx_putc_slot
slot_event-waiting w i (put b) s =
    let c : Conn = get_or s.net.conns i no_conn in
    ground (arith, waiting-set s.net.conns i (putc c b).0 (putc-flag c b))
slot_event-waiting w i ready s =
    let c : Conn = get_or s.net.conns i no_conn in
    ground (arith, waiting-set s.net.conns i (record c { ready = true }) refl)
slot_event-waiting w i drop_slot s = net_slot_drop-waiting w.host s.net i
slot_event-waiting w i (key b) s = ap (λ net. waiting net.conns) (type_byte-net b s)
slot_event-waiting w i repaint s = refl

slot_events-waiting :
    (w : Setting) (i : ℕ) (es : List Event) (s : Server)
    → waiting (slot_events w i es s).net.conns ≡ waiting s.net.conns
unfolding slot_events
slot_events-waiting w i [] s = refl
slot_events-waiting w i (e ∷ es) s =
    slot_events-waiting w i es (slot_event w i e s) ∙ slot_event-waiting w i e s

begin_slot-waiting :
    (w : Setting) (i : ℕ) (s : Server) → waiting (begin_slot w i s).net.conns ≡ waiting s.net.conns
unfolding begin_slot
begin_slot-waiting w i s =
    let (slot, events) = telnet_begin w.config (get_or s.slots i no_slot) in
    slot_events-waiting w i events (record s { slots = set s.slots i slot })

-- One call of `net_take_new_slot`, by what the search found.
abbrev taken_of : Net → Option ℕ → Net × Option ℕ
taken_of net found = elim found [
  | none ↦ (net, none)
  | some i ↦ (set_conn net i (record (get_or net.conns i no_conn) { just_estab = false }), some i)
]

take_new-found :
    (net : Net) (found : Option ℕ)
    → find_index (λ c. c.just_estab) 0 net.conns ≡ found
    → net_take_new_slot net ≡ taken_of net found
unfolding net_take_new_slot
take_new-found net found e = ap (taken_of net) e

-- One round of the loop.
abbrev round_of : ℕ → Setting → Server → Net × Option ℕ → Server
round_of rounds w s (net, none) = record s { net = net }
round_of rounds w s (net, some i) = begin_loop rounds w (begin_slot w i (record s { net = net }))

begin_loop-round :
    (rounds : ℕ) (w : Setting) (s : Server) (taken : Net × Option ℕ)
    → net_take_new_slot s.net ≡ taken
    → begin_loop (suc rounds) w s ≡ round_of rounds w s taken
unfolding begin_loop
begin_loop-round rounds w s taken e = ap (round_of rounds w s) e

begin_round-waiting :
    (rounds : ℕ) (w : Setting) (s : Server) (found : Option ℕ)
    → find_index (λ c. c.just_estab) 0 s.net.conns ≡ found
    → waiting s.net.conns ≤ suc rounds
    → ((s1 : Server)
        → waiting s1.net.conns ≤ rounds
        → waiting (begin_loop rounds w s1).net.conns ≡ 0)
    → waiting (round_of rounds w s (taken_of s.net found)).net.conns ≡ 0
begin_round-waiting rounds w s none e enough rest = (find_index-none s.net.conns 0).0 e
begin_round-waiting rounds w s (some i) e enough rest =
    let (after, fewer) = find_index-waiting s.net.conns 0 i e in
    let net : Net = (taken_of s.net (some i)).0 in
    let same : i - 0 ≡ i = omega arith in
    let fewer' : waiting net.conns + 1 ≡ waiting s.net.conns =
      ap
        (λ k.
          waiting (set s.net.conns k (record (get_or s.net.conns k no_conn) { just_estab = false }))
          + 1)
        (sym same)
      ∙ fewer in
    let s1 : Server = record s { net = net } in
    rest (begin_slot w i s1) (omega (arith, begin_slot-waiting w i s1, fewer', enough))

begin_loop-waiting :
    (rounds : ℕ) (w : Setting) (s : Server)
    → waiting s.net.conns ≤ rounds
    → waiting (begin_loop rounds w s).net.conns ≡ 0
unfolding begin_loop
begin_loop-waiting zero w s enough = omega (arith, enough)
begin_loop-waiting (suc rounds) w s enough =
    let found : Option ℕ = find_index (λ c. c.just_estab) 0 s.net.conns in
    ap (λ x. waiting x.net.conns)
      (begin_loop-round rounds w s (taken_of s.net found) (take_new-found s.net found refl))
    ∙ begin_round-waiting rounds w s found refl enough (begin_loop-waiting rounds w)

-- The loop over new connections ends: with as many rounds as the table has slots, the greetings of the
-- clients included, no slot is left that `net_take_new_slot` would report.
pub begin_loop-ends :
    (w : Setting) (s : Server)
    → (net_take_new_slot (begin_loop (length s.net.conns) w s).net).1 ≡ none
begin_loop-ends w s =
    let last : Net = (begin_loop (length s.net.conns) w s).net in
    let all : waiting last.conns ≡ 0 =
      begin_loop-waiting (length s.net.conns) w s (waiting-length s.net.conns) in
    ap (λ x. x.1) (take_new-found last none ((find_index-none last.conns 0).1 all))
