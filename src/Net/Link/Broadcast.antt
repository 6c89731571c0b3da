-- ===== src/Net/Link/Broadcast.antt =====
-- The broadcast of dosshd/net.c: `net_tx_putc` gives a screen byte to every admitted client or to none.
use mathlib.Core.Path.{ap₂}
use dossh.Base.{
  ℕ, zero, suc, ◌+◌, ◌-◌, ◌%◌, ◌^◌, ◌<◌, Bool, true, false, List, [], ◌∷◌, ◌++◌, ◌≡◌, ◌⊎◌, refl, ap,
  ◌∙◌, inl, inr, arith, u8, sub16, leb, Bool-cases, update, length,
}
use dossh.Net.Conn.{Conn, snd_mask, snd_sz, ring_bytes, tcp_reset_listen}
use dossh.Net.Conn.Segments.{ring_bytes-add, length-ring_bytes}
use dossh.Net.Tcp.{used, push_byte}
use dossh.Net.Ip.{Net}
use dossh.Net.Link.{is_viewer, make_room, push_viewers, net_tx_putc}

-- The bytes of the send ring that are not acknowledged, the oldest first.
abbrev pub pending : Conn → List ℕ
pending c = ring_bytes c.sbuf c.s_una (snd_mask (sub16 c.s_end c.s_una))

-- A connection that the broadcast finds full and dead: its ring holds 4095 bytes, and its peer has
-- stopped acknowledging.
abbrev pub Dropped : Conn → Conn → Type 0
Dropped c c' =
    (is_viewer c ≡ true)
    × (length (pending c) ≡ 4095)
    × (0 < c.rexmit_count)
    × (c' ≡ tcp_reset_listen c)

abbrev pub Appended : ℕ → Conn → Conn → Type 0
Appended ch c c' = (is_viewer c ≡ true) × (pending c' ≡ pending c ++ (u8 ch ∷ []))

abbrev pub Passed : Conn → Conn → Type 0
Passed c c' = (is_viewer c ≡ false) × (c' ≡ c)

-- What a broadcast that succeeds (`true`) or is refused does to one connection.
abbrev pub Outcome : Bool → ℕ → Conn → Conn → Type 0
Outcome true ch c c' = Appended ch c c' ⊎ (Dropped c c' ⊎ Passed c c')
Outcome false ch c c' = (c' ≡ c) ⊎ Dropped c c'

abbrev pub Each : (Conn → Conn → Type 0) → List Conn → List Conn → Type 0
Each R [] [] = Unit {0}
Each R [] (c ∷ cs) = ⊥
Each R (c ∷ cs) [] = ⊥
Each R (c ∷ cs) (c' ∷ cs') = R c c' × Each R cs cs'

ring_bytes-update :
    (buf : ℕ → ℕ) (e v d n : ℕ)
    → e < 2 ^ 12
    → n < 2 ^ 12
    → (d + n) % 2 ^ 12 ≡ e
    → ring_bytes (update buf e v) d n ≡ ring_bytes buf d n
unfolding ring_bytes
ring_bytes-update buf e v d zero p q h = refl
ring_bytes-update buf e v d (suc n) p q h =
    ground (arith, ring_bytes-update buf e v (d + 1) n p (omega arith) (omega arith))

-- A byte pushed into a ring that has room goes behind the pending ones.
pub push_byte-pending :
    (c : Conn) (ch : ℕ)
    → c.s_end < 2 ^ 12
    → c.s_una < 2 ^ 12
    → leb (snd_sz - 1) (used c) ≡ false
    → pending (push_byte c ch) ≡ pending c ++ (u8 ch ∷ [])
unfolding push_byte used ring_bytes
push_byte-pending c ch p q room =
    let n = snd_mask (sub16 c.s_end c.s_una) in
    let buf = update c.sbuf c.s_end (u8 ch) in
    let longer : snd_mask (sub16 (snd_mask (c.s_end + 1)) c.s_una) ≡ n + 1 = ground arith in
    let last : buf (snd_mask (c.s_una + n)) ≡ u8 ch = ground arith in
    ap (ring_bytes buf c.s_una) longer
    ∙ (ring_bytes-add buf c.s_una n 1
        ∙ ap₂ (λ xs x. xs ++ (x ∷ []))
            (ring_bytes-update c.sbuf c.s_end (u8 ch) c.s_una n p (omega arith) (omega arith)) last)

-- The ring's indices of every connection lie in the ring.
abbrev pub InRings : List Conn → Type 0
InRings [] = Unit {0}
InRings (c ∷ cs) = (c.s_end < 2 ^ 12) × (c.s_una < 2 ^ 12) × InRings cs

full-length : (c : Conn) → leb (snd_sz - 1) (used c) ≡ true → length (pending c) ≡ 4095
unfolding used
full-length c full =
    length-ring_bytes c.sbuf c.s_una (snd_mask (sub16 c.s_end c.s_una)) ∙ ground (arith, full)

make_room-true :
    (ch : ℕ) (cs : List Conn)
    → InRings cs
    → (make_room cs).1 ≡ true
    → Each (Outcome true ch) cs (push_viewers ch (make_room cs).0)
unfolding make_room push_viewers tcp_reset_listen
make_room-true ch [] r h = tt
make_room-true ch (c ∷ cs) r h =
    ground (arith, make_room-true ch cs r.2, push_byte-pending c ch r.0 r.1, full-length c)

Each-same : (ch : ℕ) (cs : List Conn) → Each (Outcome false ch) cs cs
Each-same ch [] = tt
Each-same ch (c ∷ cs) = (inl refl, Each-same ch cs)

make_room-false :
    (ch : ℕ) (cs : List Conn)
    → (make_room cs).1 ≡ false
    → Each (Outcome false ch) cs (make_room cs).0
unfolding make_room
make_room-false ch [] h = tt
make_room-false ch (c ∷ cs) h =
    ground (arith, make_room-false ch cs, Each-same ch cs, full-length c)

-- With the ring indices of every connection in the ring, the broadcast of a byte is all or none: if it succeeds, every admitted established client has
-- the byte behind its pending ones, but for those that were full and dead, which are reset, and no
-- other connection changes; if it is refused, no connection gets the byte, and the only change is
-- the reset of such dead clients.
pub net_tx_putc-all_or_none :
    (net : Net) (ch : ℕ)
    → InRings net.conns
    → Each (Outcome (net_tx_putc net ch).1 ch) net.conns (net_tx_putc net ch).0.conns
unfolding net_tx_putc
net_tx_putc-all_or_none net ch r = elim (Bool-cases (make_room net.conns).1) [
  | inl room ↦ rw room (make_room-true ch net.conns r room)
  | inr full ↦ rw full (make_room-false ch net.conns full)
]
