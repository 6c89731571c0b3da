-- ===== src/Ssh/Input/Whole.antt =====
-- Whole inputs of dosshd/ssh.c: what a client can do with any bytes before it is authenticated.
use mathlib.Core.Path.{subst}
use dossh.Base.{
  ℕ, zero, suc, ◌+◌, ◌-◌, ◌%◌, true, false, not, ◌||◌, List, ◌≡◌, refl, sym, ◌∙◌, inl, inr, arith,
  ltb, ◌==◌, Bool-cases, get_or, length, u16, u32,
}
use dossh.Ssh.Wire.{bytes_at, seqbuf8, rd_u32}
use dossh.Ssh.State.{Crypto, Gate, Ssh, fail, is_error, ib_consume, k_header}
use dossh.Ssh.Channel.{ssh_channel_ready}
use dossh.Ssh.Input.{
  handle_packet, Progress, take_line, scan_line, try_version, open_packet, try_plain, has_mac,
  decrypted, try_sealed, try_one, is_version, is_over, goes_on, input_loop, ssh_input, write_at,
  ib_sz,
}
use dossh.Ssh.Input.Lock.{is_session, IsLocked, handle_packet-IsLocked}
use dossh.Ssh.Input.Quiet.{IsQuiet, handle_packet-IsQuiet}
use dossh.Ssh.Input.Kept.{handle_packet-IsKept}
use dossh.Ssh.Input.Loop.{try_one-step, input_loop-round}

-- A step that admits nobody by itself: a locked connection stays locked, and types nothing as long as nobody is
-- authenticated.
pub record IsBarred (c c' : Ssh) : Type 0 where
  pub admitted : c.authenticated ≡ true → c'.authenticated ≡ true
  pub locked : IsLocked c → IsLocked c'
  pub head : IsLocked c → c'.authenticated ≡ false → c'.cin_head ≡ c.cin_head
  pub tail : IsLocked c → c'.authenticated ≡ false → c'.cin_tail ≡ c.cin_tail

not_yet :
    (c c' : Ssh)
    → (c.authenticated ≡ true → c'.authenticated ≡ true)
    → c'.authenticated ≡ false
    → c.authenticated ≡ false
not_yet c c' admitted out = elim (Bool-cases c.authenticated) [
  | inl known ↦ let now = admitted known in absurd (ground (arith, now, out))
  | inr out1 ↦ out1
]

then-IsBarred : {c c1 c2 : Ssh} → IsBarred c c1 → IsBarred c1 c2 → IsBarred c c2
then-IsBarred {c} {c1} {c2} q r = record {
  admitted = λ e. r.admitted (q.admitted e);
  locked = λ v. r.locked (q.locked v);
  head = λ v out. r.head (q.locked v) out ∙ q.head v (not_yet c1 c2 r.admitted out);
  tail = λ v out. r.tail (q.locked v) out ∙ q.tail v (not_yet c1 c2 r.admitted out);
}

same-IsBarred : (c : Ssh) → IsBarred c c
same-IsBarred c = record {
  admitted = λ e. e;
  locked = λ v. v;
  head = λ v out. refl;
  tail = λ v out. refl;
}

handle_packet-IsBarred :
    (p : Crypto) (g : Gate) (pl : ℕ → ℕ) (plen : ℕ) (c : Ssh)
    → IsBarred c (handle_packet p g pl plen c)
handle_packet-IsBarred p g pl plen c =
    let c' : Ssh = handle_packet p g pl plen c in
    let kept = handle_packet-IsKept p g pl plen c in
    let quiet : IsLocked c → c'.authenticated ≡ false → IsQuiet c c' = λ v out.
      handle_packet-IsQuiet p g pl plen c (v.no_session (not_yet c c' kept.admitted out)) in
    record {
      admitted = kept.admitted;
      locked = λ v. elim (Bool-cases c.authenticated) [
        | inl known ↦
            let still = kept.admitted known in
            record {
              no_session = λ out. absurd (ground (arith, still, out));
              no_channel = λ out. absurd (ground (arith, still, out));
            }
        | inr unknown ↦ handle_packet-IsLocked p g pl plen c unknown v
      ];
      head = λ v out. (quiet v out).head;
      tail = λ v out. (quiet v out).tail;
    }

-- A step that changes none of the fields that matter here, or closes the connection.
plain_step :
    (c c' : Ssh)
    → c'.authenticated ≡ c.authenticated
    → c'.chan_open ≡ c.chan_open
    → (is_session c.state ≡ false → is_session c'.state ≡ false)
    → c'.cin_head ≡ c.cin_head
    → c'.cin_tail ≡ c.cin_tail
    → IsBarred c c'
plain_step c c' auth chan session head tail = record {
  admitted = λ e. auth ∙ e;
  locked = λ v. record {
    no_session = λ out. session (v.no_session (sym auth ∙ out));
    no_channel = λ out. chan ∙ v.no_channel (sym auth ∙ out);
  };
  head = λ v out. head;
  tail = λ v out. tail;
}

fail-IsBarred : (why : List ℕ) (c : Ssh) → IsBarred c (fail why c)
unfolding fail
fail-IsBarred why c =
    plain_step c (fail why c) (ground arith) (ground arith) (ground arith) (ground arith)
      (ground arith)

ib_consume-IsBarred : (k : ℕ) (c : Ssh) → IsBarred c (ib_consume k c)
unfolding ib_consume
ib_consume-IsBarred k c =
    plain_step c (ib_consume k c) (ground arith) (ground arith) (ground arith) (ground arith)
      (ground arith)

take_line-IsBarred : (i : ℕ) (c : Ssh) → IsBarred c (take_line i c)
unfolding take_line ib_consume
take_line-IsBarred i c =
    plain_step c (take_line i c) (ground arith) (ground arith) (ground arith) (ground arith)
      (ground arith)

scan_line-IsBarred : (left i : ℕ) (c : Ssh) → IsBarred c (scan_line left i c).0
unfolding scan_line
scan_line-IsBarred zero i c = same-IsBarred c
scan_line-IsBarred (suc left) i c =
    let rest = scan_line-IsBarred left (i + 1) c in
    elim (Bool-cases (c.ib i == 10)) [
      | inl newline ↦ rw newline (take_line-IsBarred i c)
      | inr other ↦ elim (Bool-cases (ltb 300 i)) [
        | inl long ↦ rw (other, long) (fail-IsBarred _ c)
        | inr on ↦ rw (other, on) rest
      ]
    ]

open_packet-IsBarred :
    (p : Crypto) (g : Gate) (pkt_len wire : ℕ) (c : Ssh)
    → IsBarred c (open_packet p g pkt_len wire c).0
unfolding open_packet
open_packet-IsBarred p g pkt_len wire c =
    let padlen : ℕ = c.ib 4 in
    let handled : Ssh = handle_packet p g (λ i. c.ib (5 + i)) (pkt_len - 1 - padlen) c in
    let consumed : Ssh = ib_consume wire handled in
    let counted : IsBarred consumed (record consumed { recv_seq = u32 (consumed.recv_seq + 1) }) =
      plain_step consumed _ refl refl (λ e. e) refl refl in
    let opened =
      then-IsBarred (handle_packet-IsBarred p g (λ i. c.ib (5 + i)) (pkt_len - 1 - padlen) c)
        (then-IsBarred (ib_consume-IsBarred wire handled) counted) in
    elim (Bool-cases (ltb pkt_len (padlen + 1))) [
      | inl bad ↦ rw bad (fail-IsBarred _ c)
      | inr well ↦ rw well opened
    ]

try_plain-IsBarred : (p : Crypto) (g : Gate) (c : Ssh) → IsBarred c (try_plain p g c).0
unfolding try_plain
try_plain-IsBarred p g c =
    let n : ℕ = u16 (rd_u32 c.ib 0) in
    let opened = open_packet-IsBarred p g n (u16 (4 + n)) c in
    elim (Bool-cases (ltb c.ib_len 4)) [
      | inl short ↦ rw short (same-IsBarred c)
      | inr header ↦ elim (Bool-cases (ltb n 1 || ltb ib_sz (u16 (n + 4)))) [
        | inl bad ↦ rw (header, bad) (fail-IsBarred _ c)
        | inr fits ↦ elim (Bool-cases (ltb c.ib_len (u16 (4 + n)))) [
          | inl part ↦ rw (header, fits, part) (same-IsBarred c)
          | inr whole ↦ rw (header, fits, whole) opened
        ]
      ]
    ]

try_sealed-IsBarred : (p : Crypto) (g : Gate) (c : Ssh) → IsBarred c (try_sealed p g c).0
unfolding try_sealed decrypted
try_sealed-IsBarred p g c =
    let lenbuf : List ℕ =
      p.chacha20 (bytes_at c.ib 0 4) (k_header c.ek_c2s) (seqbuf8 c.recv_seq) 0 in
    let n : ℕ = u16 (rd_u32 (λ i. get_or lenbuf i 0) 0) in
    let need : ℕ = u16 (4 + n + 16) in
    let plain : IsBarred c (decrypted p n c) = plain_step c _ refl refl (λ e. e) refl refl in
    let opened = then-IsBarred plain (open_packet-IsBarred p g n need (decrypted p n c)) in
    elim (Bool-cases (ltb c.ib_len 4)) [
      | inl short ↦ rw short (same-IsBarred c)
      | inr header ↦ elim (Bool-cases (ltb n 8 || (not (n % 8 == 0) || ltb ib_sz need))) [
        | inl bad ↦ rw (header, bad) (fail-IsBarred _ c)
        | inr fits ↦ elim (Bool-cases (ltb c.ib_len need)) [
          | inl part ↦ rw (header, fits, part) (same-IsBarred c)
          | inr whole ↦ elim (Bool-cases (has_mac p n c)) [
            | inr forged ↦ rw (header, fits, whole, forged) (fail-IsBarred _ c)
            | inl signed ↦ rw (header, fits, whole, signed) opened
          ]
        ]
      ]
    ]

abbrev Barred : Ssh → Ssh × Progress → Type 0
Barred c r = IsBarred c r.0

try_one-IsBarred : (p : Crypto) (g : Gate) (c : Ssh) → IsBarred c (try_one p g c).0
unfolding try_version
try_one-IsBarred p g c = elim (Bool-cases (is_version c.state)) [
  | inl version ↦
      subst (Barred c) (sym (try_one-step p g c true c.recv_encrypted version refl))
        (scan_line-IsBarred c.ib_len 0 c)
  | inr greeted ↦ elim (Bool-cases c.recv_encrypted) [
    | inl enc ↦
        subst (Barred c) (sym (try_one-step p g c false true greeted enc))
          (try_sealed-IsBarred p g c)
    | inr plain ↦
        subst (Barred c) (sym (try_one-step p g c false false greeted plain))
          (try_plain-IsBarred p g c)
  ]
]

input_loop-IsBarred :
    (fuel : ℕ) (p : Crypto) (g : Gate) (c : Ssh) → IsBarred c (input_loop fuel p g c)
unfolding input_loop
input_loop-IsBarred zero p g c = same-IsBarred c
input_loop-IsBarred (suc fuel) p g c =
    let r = try_one p g c in
    let first = try_one-IsBarred p g c in
    let rest = then-IsBarred first (input_loop-IsBarred fuel p g r.0) in
    subst (IsBarred c) (sym (input_loop-round fuel p g c)) (elim (Bool-cases (is_over c.state)) [
      | inl ended ↦ rw ended (same-IsBarred c)
      | inr on ↦ rw on (elim (Bool-cases (goes_on r.1)) [
        | inl moved ↦ rw moved rest
        | inr stays ↦ rw stays first
      ])
    ])

ssh_input-IsBarred :
    (p : Crypto) (g : Gate) (text : List ℕ) (c : Ssh) → IsBarred c (ssh_input p g text c)
unfolding ssh_input
ssh_input-IsBarred p g text c =
    let got : Ssh = record c {
      ib = write_at text c.ib_len c.ib;
      ib_len = c.ib_len + length text;
    } in
    let stored : IsBarred c got = plain_step c got refl refl (λ e. e) refl refl in
    let handled = then-IsBarred stored (input_loop-IsBarred got.ib_len p g got) in
    elim (Bool-cases (is_error c.state)) [
      | inl dead ↦ rw dead (same-IsBarred c)
      | inr alive ↦ elim (Bool-cases (ltb ib_sz (c.ib_len + length text))) [
        | inl full ↦ rw (alive, full) (fail-IsBarred _ c)
        | inr room ↦ rw (alive, room) handled
      ]
    ]

-- Any input, of any number of packets and parts of packets, to a connection that is locked: if the
-- client is not authenticated behind it, then it is in no session and has no channel, so it gets no
-- screen, and the input has typed no key.
pub ssh_input-IsLocked :
    (p : Crypto) (g : Gate) (text : List ℕ) (c : Ssh)
    → IsLocked c
    → (ssh_input p g text c).authenticated ≡ false
    → IsLocked (ssh_input p g text c)
      × (ssh_channel_ready (ssh_input p g text c) ≡ false)
      × ((ssh_input p g text c).cin_head ≡ c.cin_head)
      × ((ssh_input p g text c).cin_tail ≡ c.cin_tail)
unfolding ssh_channel_ready
ssh_input-IsLocked p g text c v out =
    let b = ssh_input-IsBarred p g text c in
    let v' = b.locked v in
    let no_channel = v'.no_channel out in
    (v', ground (arith, no_channel), b.head v out, b.tail v out)
