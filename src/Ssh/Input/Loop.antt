-- ===== src/Ssh/Input/Loop.antt =====
-- The loop of `ssh_input` of dosshd/ssh.c: when it ends, and when it does not.
use mathlib.Core.Path.{subst, ap₂}
use dossh.Base.{
  ℕ, zero, suc, ◌+◌, ◌-◌, ◌%◌, ◌<◌, ◌≤◌, Bool, true, false, not, ◌&&◌, ◌||◌, List, ◌≡◌, ◌≢◌, refl,
  sym, ap, ◌∙◌, ◌⊎◌, inl, inr, arith, ltb, leb, ◌==◌, if◌then◌else◌, Bool-cases, length, get_or,
  u16,
}
use dossh.Ssh.Wire.{bytes_at, seqbuf8, rd_u32}
use dossh.Ssh.State.{Crypto, Gate, Ssh, fail, is_error, ib_consume, k_header}
use dossh.Ssh.Input.{
  handle_packet, Progress, progressed, need_more, failed, goes_on, take_line, scan_line,
  try_version, open_packet, try_plain, has_mac, decrypted, try_sealed, try_packet, try_one,
  is_version, is_over, input_loop, ssh_input, write_at, ib_sz,
}
use dossh.Ssh.Input.Kept.{handle_packet-IsKept}

-- What a round tells: that it waits for input and has changed nothing, that the connection is over, or that it
-- has consumed input.
pub record IsHonest (c : Ssh) (r : Ssh × Progress) : Type 0 where
  pub waits : r.1 ≡ need_more → r.0 ≡ c
  pub fails : r.1 ≡ failed → is_over r.0.state ≡ true
  pub moves : r.1 ≡ progressed → r.0.ib_len < c.ib_len

ib_consume-shorter : (k : ℕ) (c : Ssh) → 0 < k → 0 < c.ib_len → (ib_consume k c).ib_len < c.ib_len
unfolding ib_consume
ib_consume-shorter k c some_bytes held = ground arith

fail-IsHonest : (why : List ℕ) (c : Ssh) → IsHonest c (fail why c, failed)
unfolding fail
fail-IsHonest why c = ground arith

waiting-IsHonest : (c : Ssh) → IsHonest c (c, need_more)
waiting-IsHonest c = ground arith

take_line-shorter : (i : ℕ) (c : Ssh) → i < c.ib_len → (take_line i c).ib_len < c.ib_len
unfolding take_line ib_consume
take_line-shorter i c inside = ground arith

scan_line-IsHonest : (left i : ℕ) (c : Ssh) → i + left ≡ c.ib_len → IsHonest c (scan_line left i c)
unfolding scan_line
scan_line-IsHonest zero i c e = waiting-IsHonest c
scan_line-IsHonest (suc left) i c e =
    let rest = scan_line-IsHonest left (i + 1) c (omega (arith, e)) in
    let line = take_line-shorter i c (omega (arith, e)) in
    elim (Bool-cases (c.ib i == 10)) [
      | inl newline ↦ rw newline (ground (arith, line))
      | inr other ↦ elim (Bool-cases (ltb 300 i)) [
        | inl long ↦ rw (other, long) (fail-IsHonest _ c)
        | inr on ↦ rw (other, on) rest
      ]
    ]

open_packet-IsHonest :
    (p : Crypto) (g : Gate) (pkt_len wire : ℕ) (c : Ssh)
    → 0 < wire
    → 0 < c.ib_len
    → IsHonest c (open_packet p g pkt_len wire c)
unfolding open_packet fail
open_packet-IsHonest p g pkt_len wire c some_bytes held =
    let padlen : ℕ = c.ib 4 in
    let handled : Ssh = handle_packet p g (λ i. c.ib (5 + i)) (pkt_len - 1 - padlen) c in
    let kept = handle_packet-IsKept p g (λ i. c.ib (5 + i)) (pkt_len - 1 - padlen) c in
    let shorter = ib_consume-shorter wire handled some_bytes (omega (arith, kept.held, held)) in
    ground (arith, kept.held, shorter)

-- A packet that is opened is never waited for.
open_packet-answers :
    (p : Crypto) (g : Gate) (pkt_len wire : ℕ) (c : Ssh)
    → (open_packet p g pkt_len wire c).1 ≡ need_more
    → ⊥
unfolding open_packet
open_packet-answers p g pkt_len wire c e = ground (arith, e)

-- The length that the plain packet in front claims, as the 16-bit target reads it.
abbrev pub claimed : Ssh → ℕ
claimed c = u16 (rd_u32 c.ib 0)

try_plain-IsHonest :
    (p : Crypto) (g : Gate) (c : Ssh)
    → (4 ≤ c.ib_len → claimed c ≢ 65532)
    → IsHonest c (try_plain p g c)
unfolding try_plain
try_plain-IsHonest p g c ne = elim (Bool-cases (ltb c.ib_len 4)) [
  | inl short ↦ rw short (waiting-IsHonest c)
  | inr header ↦ elim (Bool-cases (ltb (claimed c) 1 || ltb 2048 (u16 (claimed c + 4)))) [
    | inl bad ↦ rw (header, bad) (fail-IsHonest _ c)
    | inr fits ↦ elim (Bool-cases (ltb c.ib_len (u16 (4 + claimed c)))) [
      | inl part ↦ rw (header, fits, part) (waiting-IsHonest c)
      | inr whole ↦
          let some_bytes : 0 < u16 (4 + claimed c) = omega (arith, ne (ground (arith, header))) in
          let held : 0 < c.ib_len = ground (arith, header) in
          rw (header, fits, whole)
            (open_packet-IsHonest p g (claimed c) (u16 (4 + claimed c)) c some_bytes held)
    ]
  ]
]

sealed_size : (n : ℕ) → n % 8 ≡ 0 → 0 < u16 (4 + n + 16)
sealed_size n e = omega (arith, e)

-- A sealed packet after its length was read.
try_sealed-IsHonest : (p : Crypto) (g : Gate) (c : Ssh) → IsHonest c (try_sealed p g c)
unfolding try_sealed decrypted
try_sealed-IsHonest p g c =
    let lenbuf : List ℕ =
      p.chacha20 (bytes_at c.ib 0 4) (k_header c.ek_c2s) (seqbuf8 c.recv_seq) 0 in
    let n : ℕ = u16 (rd_u32 (λ i. get_or lenbuf i 0) 0) in
    let need : ℕ = u16 (4 + n + 16) in
    elim (Bool-cases (ltb c.ib_len 4)) [
      | inl short ↦ rw short (waiting-IsHonest c)
      | inr header ↦ elim (Bool-cases (ltb n 8 || (not (n % 8 == 0) || ltb 2048 need))) [
        | inl bad ↦ rw (header, bad) (fail-IsHonest _ c)
        | inr fits ↦ elim (Bool-cases (ltb c.ib_len need)) [
          | inl part ↦ rw (header, fits, part) (waiting-IsHonest c)
          | inr whole ↦ elim (Bool-cases (has_mac p n c)) [
            | inr forged ↦ rw (header, fits, whole, forged) (fail-IsHonest _ c)
            | inl signed ↦
                let aligned : n % 8 ≡ 0 = ground (arith, fits) in
                let held : 0 < c.ib_len = ground (arith, header) in
                let opened =
                  open_packet-IsHonest p g n need (decrypted p n c) (sealed_size n aligned) held in
                rw (header, fits, whole, signed)
                  (record {
                    waits = λ e. absurd (open_packet-answers p g n need (decrypted p n c) e);
                    fails = opened.fails;
                    moves = opened.moves;
                  })
          ]
        ]
      ]
    ]

-- The packet in front is a plain one that claims 65532 bytes, four more than which is 0 in 16 bits.
pub record IsWrapped (c : Ssh) : Type 0 where
  pub greeted : is_version c.state ≡ false
  pub plain : c.recv_encrypted ≡ false
  pub header : 4 ≤ c.ib_len
  pub wraps : claimed c ≡ 65532

IsWrapped-cases : (c : Ssh) → IsWrapped c ⊎ (IsWrapped c → ⊥)
IsWrapped-cases c =
    let test : Bool =
      not (is_version c.state)
      && (not c.recv_encrypted && (leb 4 c.ib_len && claimed c == 65532)) in
    elim (Bool-cases test) [
      | inl wrapped ↦ inl (record {
        greeted = ground (arith, wrapped);
        plain = ground (arith, wrapped);
        header = ground (arith, wrapped);
        wraps = ground (arith, wrapped);
      })
      | inr free ↦ inr (λ w. absurd (ground (arith, free, w.greeted, w.plain, w.header, w.wraps)))
    ]

-- One round by what the connection is at.
pub try_one-step :
    (p : Crypto) (g : Gate) (c : Ssh) (version enc : Bool)
    → is_version c.state ≡ version
    → c.recv_encrypted ≡ enc
    → try_one p g c
      ≡ (if version then try_version c else if enc then try_sealed p g c else try_plain p g c)
unfolding try_one try_packet
try_one-step p g c version enc e f =
    ap₂ (λ v b. if v then try_version c else if b then try_sealed p g c else try_plain p g c) e f

try_one-IsHonest :
    (p : Crypto) (g : Gate) (c : Ssh) → (IsWrapped c → ⊥) → IsHonest c (try_one p g c)
unfolding try_version
try_one-IsHonest p g c free = elim (Bool-cases (is_version c.state)) [
  | inl version ↦
      subst (IsHonest c) (sym (try_one-step p g c true c.recv_encrypted version refl))
        (scan_line-IsHonest c.ib_len 0 c (omega arith))
  | inr greeted ↦ elim (Bool-cases c.recv_encrypted) [
    | inl enc ↦
        subst (IsHonest c) (sym (try_one-step p g c false true greeted enc))
          (try_sealed-IsHonest p g c)
    | inr plain ↦ subst (IsHonest c) (sym (try_one-step p g c false false greeted plain)) (
        try_plain-IsHonest p g c (λ header wraps.
          free (record { greeted = greeted; plain = plain; header = header; wraps = wraps })))
  ]
]

-- The runs of the loop, without a bound on its rounds: from a connection, to the one it leaves.
pub data Runs (p : Crypto) (g : Gate) : Ssh → Ssh → Type 0 where
  over : {c : Ssh} → is_over c.state ≡ true → Runs p g c c
  waits :
      {c : Ssh}
      → is_over c.state ≡ false
      → (try_one p g c).1 ≡ need_more
      → Runs p g c (try_one p g c).0
  fails :
      {c : Ssh}
      → is_over c.state ≡ false
      → (try_one p g c).1 ≡ failed
      → Runs p g c (try_one p g c).0
  goes_on_to :
      {c c' : Ssh}
      → is_over c.state ≡ false
      → (try_one p g c).1 ≡ progressed
      → Runs p g (try_one p g c).0 c'
      → Runs p g c c'

-- The loop comes to a wrapped packet.
pub data Wraps (p : Crypto) (g : Gate) : Ssh → Type 0 where
  here : {c : Ssh} → IsWrapped c → Wraps p g c
  later : {c : Ssh} → (try_one p g c).1 ≡ progressed → Wraps p g (try_one p g c).0 → Wraps p g c

try_one-empty : (p : Crypto) (g : Gate) (c : Ssh) → c.ib_len ≡ 0 → try_one p g c ≡ (c, need_more)
unfolding try_version scan_line try_plain try_sealed
try_one-empty p g c e =
    let short : ltb c.ib_len 4 ≡ true = ground (arith, e) in
    elim (Bool-cases (is_version c.state)) [
      | inl version ↦
          try_one-step p g c true c.recv_encrypted version refl ∙ ap (λ n. scan_line n 0 c) e
      | inr greeted ↦ elim (Bool-cases c.recv_encrypted) [
        | inl enc ↦ try_one-step p g c false true greeted enc ∙ rw short refl
        | inr plain ↦ try_one-step p g c false false greeted plain ∙ rw short refl
      ]
    ]

Progress-cases : (x : Progress) → (x ≡ need_more) ⊎ ((x ≡ failed) ⊎ (x ≡ progressed))
Progress-cases x = ground arith

pub input_loop-round :
    (fuel : ℕ) (p : Crypto) (g : Gate) (c : Ssh)
    → input_loop (suc fuel) p g c ≡ (
        if is_over c.state
        then c
        else if goes_on (try_one p g c).1
        then input_loop fuel p g (try_one p g c).0
        else (try_one p g c).0)
unfolding input_loop
input_loop-round fuel p g c = refl

abbrev Ends : Crypto → Gate → Ssh → Ssh → Type 0
Ends p g c last = Runs p g c last ⊎ Wraps p g c

-- A round that goes on, behind which the loop ends or wraps.
next-Ends :
    (p : Crypto) (g : Gate) (c last : Ssh)
    → is_over c.state ≡ false
    → (try_one p g c).1 ≡ progressed
    → Ends p g (try_one p g c).0 last
    → Ends p g c last
next-Ends p g c last on moved (inl runs) = inl (goes_on_to on moved runs)
next-Ends p g c last on moved (inr wraps) = inr (later moved wraps)

input_loop-Ends :
    (fuel : ℕ) (p : Crypto) (g : Gate) (c : Ssh)
    → c.ib_len ≤ fuel
    → Ends p g c (input_loop fuel p g c)
unfolding input_loop
input_loop-Ends zero p g c enough = elim (Bool-cases (is_over c.state)) [
  | inl ended ↦ inl (over ended)
  | inr on ↦
      let empty = try_one-empty p g c (omega (arith, enough)) in
      inl (subst (λ x. Runs p g c x.0) empty (waits on (ap (λ x. x.1) empty)))
]
input_loop-Ends (suc fuel) p g c enough =
    let r = try_one p g c in
    subst (Ends p g c) (sym (input_loop-round fuel p g c)) (elim (Bool-cases (is_over c.state)) [
      | inl ended ↦ rw ended (inl (over ended))
      | inr on ↦ rw on (elim (IsWrapped-cases c) [
        | inl wrapped ↦ inr (here wrapped)
        | inr free ↦
            let honest = try_one-IsHonest p g c free in
            elim (Progress-cases r.1) [
              | inl wait ↦ rw wait (inl (waits on wait))
              | inr (inl lost) ↦ rw lost (inl (fails on lost))
              | inr (inr move) ↦
                  let shorter = honest.moves move in
                  rw move (
                    next-Ends p g c (input_loop fuel p g r.0) on move
                      (input_loop-Ends fuel p g r.0 (omega (arith, shorter, enough))))
            ]
      ])
    ])

-- `ssh_input` with bytes that fit its buffer, on a connection that is not in the error state: it leaves what the loop of the
-- source leaves, run for as many rounds as it takes, unless the loop comes to an unencrypted
-- packet whose length field reads as 65532.
pub ssh_input-Ends :
    (p : Crypto) (g : Gate) (text : List ℕ) (c : Ssh)
    → is_error c.state ≡ false
    → c.ib_len + length text ≤ ib_sz
    → let got = record c { ib = write_at text c.ib_len c.ib; ib_len = c.ib_len + length text } in
      Runs p g got (ssh_input p g text c) ⊎ Wraps p g got
unfolding ssh_input
ssh_input-Ends p g text c alive fits =
    let got : Ssh = record c {
      ib = write_at text c.ib_len c.ib;
      ib_len = c.ib_len + length text;
    } in
    let room : ltb ib_sz (c.ib_len + length text) ≡ false = ground (arith, fits) in
    rw (alive, room) (input_loop-Ends (c.ib_len + length text) p g got (omega arith))
