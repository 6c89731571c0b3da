-- ===== src/Resident/Worker/KeyRing.antt =====
-- The loop of `ssh_net_worker` of dosshd/dosshd.c over a client's keystrokes, on the ring that all slots share.
use mathlib.Core.Path.{subst}
use dossh.Base.{
  ℕ, zero, suc, ◌+◌, ◌-◌, ◌%◌, ◌<◌, ◌≤◌, true, false, ◌&&◌, List, [], ◌∷◌, Option, none, some, ◌≡◌,
  refl, sym, ap, ◌∙◌, inl, inr, arith, ◌==◌, if◌then◌else◌, Bool-cases,
}
use dossh.Resident.Tick.{Server, type_byte}
use dossh.Resident.Worker.{Shared, SshServer, SshSetting, slot_conn, set_slot, key_loop, close_slot}
use dossh.Ssh.State.{Ssh}
use dossh.Ssh.Channel.{ssh_channel_getc, cin_sz}

-- `n` keys of the ring from the index `d`.
abbrev pub ring_keys : (ℕ → ℕ) → ℕ → ℕ → List ℕ
ring_keys cin d zero = []
ring_keys cin d (suc n) = cin d ∷ ring_keys cin ((d + 1) % cin_sz) n

abbrev pub key_total : Shared → ℕ
key_total b = (b.cin_tail + cin_sz - b.cin_head) % cin_sz

-- The keys that wait in the ring, the oldest first.
abbrev pub keys_of : Shared → List ℕ
keys_of b = ring_keys b.cin b.cin_head (key_total b)

pub record InKeyRing (b : Shared) : Type 0 where
  pub head_lt : b.cin_head < 256
  pub tail_lt : b.cin_tail < 256

-- The keyboard after these bytes were typed.
abbrev pub type_all : List ℕ → Server → Server
type_all [] s = s
type_all (b ∷ bs) s = type_all bs (type_byte b s)

-- What the loop may leave: all keys typed, or with /EOF those before the first Ctrl-D, where the slot is
-- closed with the keys behind it still in the ring.
abbrev pub Typed : SshSetting → ℕ → Server → List ℕ → SshServer → Type 0
Typed w i base [] s' = (s'.base ≡ base) × (keys_of s'.shared ≡ [])
Typed w i base (b ∷ bs) s' =
    if w.plain.config.eof_exit && b == 4
    then ((s1 : SshServer) × ((s' ≡ close_slot w i s1)
          × ((s1.base ≡ base) × (keys_of s1.shared ≡ bs))))
    else Typed w i (type_byte b base) bs s'

-- One keystroke taken: the ring without its oldest key, and the key.
abbrev popped : Shared → Shared
popped b = record b { cin_head = (b.cin_head + 1) % cin_sz }

popped-keys :
    (b : Shared) (n : ℕ)
    → InKeyRing b
    → key_total b ≡ suc n
    → (key_total (popped b) ≡ n)
      × InKeyRing (popped b)
      × (keys_of b ≡ b.cin b.cin_head ∷ keys_of (popped b))
popped-keys b n v e =
    let fewer : key_total (popped b) ≡ n = omega (arith, e, v.head_lt, v.tail_lt) in
    (
      fewer,
      record { head_lt = omega arith; tail_lt = v.tail_lt },
      ap (ring_keys b.cin b.cin_head) e
          ∙ ap (λ k. b.cin b.cin_head ∷ ring_keys b.cin ((b.cin_head + 1) % cin_sz) k) (sym fewer),
    )

-- One round of the loop, by what the ring gave.
abbrev round_of : ℕ → SshSetting → ℕ → SshServer → Option ℕ → SshServer
round_of rounds w i taken byte = elim byte [
  | none ↦ taken
  | some b ↦
      if w.plain.config.eof_exit && b == 4
      then close_slot w i taken
      else key_loop rounds w i (record taken { base = type_byte b taken.base })
]

key_loop-round :
    (rounds : ℕ) (w : SshSetting) (i : ℕ) (s : SshServer) (r : Ssh × Option ℕ)
    → ssh_channel_getc (slot_conn s i) ≡ r
    → key_loop (suc rounds) w i s ≡ round_of rounds w i (set_slot i r.0 s) r.1
unfolding key_loop
key_loop-round rounds w i s r e = ap (λ q. round_of rounds w i (set_slot i q.0 s) q.1) e

getc-empty :
    (s : SshServer) (i : ℕ)
    → InKeyRing s.shared
    → key_total s.shared ≡ 0
    → ssh_channel_getc (slot_conn s i) ≡ (slot_conn s i, none)
unfolding ssh_channel_getc
getc-empty s i v e =
    let level : (s.shared.cin_head == s.shared.cin_tail) ≡ true =
      ground (arith, e, v.head_lt, v.tail_lt) in
    rw level refl

getc-key :
    (s : SshServer) (i n : ℕ)
    → InKeyRing s.shared
    → key_total s.shared ≡ suc n
    → ssh_channel_getc (slot_conn s i) ≡ (
      record (slot_conn s i) { cin_head = (s.shared.cin_head + 1) % cin_sz },
      some (s.shared.cin s.shared.cin_head),
    )
unfolding ssh_channel_getc
getc-key s i n v e =
    let apart : (s.shared.cin_head == s.shared.cin_tail) ≡ false =
      ground (arith, e, v.head_lt, v.tail_lt) in
    rw apart refl

key_loop-Typed :
    (rounds : ℕ) (w : SshSetting) (i : ℕ) (s : SshServer) (n : ℕ)
    → InKeyRing s.shared
    → key_total s.shared ≡ n
    → n ≤ rounds
    → Typed w i s.base (keys_of s.shared) (key_loop rounds w i s)
unfolding key_loop
key_loop-Typed zero w i s zero v e enough =
    let none_left : keys_of s.shared ≡ [] = ap (ring_keys s.shared.cin s.shared.cin_head) e in
    subst (λ ks. Typed w i s.base ks s) (sym none_left) (refl, none_left)
key_loop-Typed zero w i s (suc n) v e enough = absurd (omega (arith, enough))
key_loop-Typed (suc rounds) w i s zero v e enough =
    let none_left : keys_of s.shared ≡ [] = ap (ring_keys s.shared.cin s.shared.cin_head) e in
    let last = key_loop-round rounds w i s (slot_conn s i, none) (getc-empty s i v e) in
    subst (λ ks. Typed w i s.base ks (key_loop (suc rounds) w i s)) (sym none_left)
      (subst (Typed w i s.base []) (sym last) (refl, none_left))
key_loop-Typed (suc rounds) w i s (suc n) v e enough =
    let b : ℕ = s.shared.cin s.shared.cin_head in
    let c : Ssh = record (slot_conn s i) { cin_head = (s.shared.cin_head + 1) % cin_sz } in
    let taken : SshServer = set_slot i c s in
    let next : SshServer = record taken { base = type_byte b taken.base } in
    let (fewer, v', split) = popped-keys s.shared n v e in
    let last = key_loop-round rounds w i s (c, some b) (getc-key s i n v e) in
    let rest = key_loop-Typed rounds w i next n v' fewer (omega (arith, enough)) in
    subst (λ ks. Typed w i s.base ks (key_loop (suc rounds) w i s)) (sym split)
      (subst (Typed w i s.base (b ∷ keys_of taken.shared)) (sym last)
        (elim (Bool-cases (w.plain.config.eof_exit && b == 4)) [
          | inl eof ↦ rw eof (taken, (refl, (refl, refl)))
          | inr typed ↦ rw typed rest
        ]))

-- The loop over the keystrokes of a slot, with the 256 rounds that the model allows and the
-- shared ring's indices in the ring: it types the keys of the ring one after the other until the
-- ring is empty; or, with /EOF, until the first Ctrl-D, where it closes that slot with the keys
-- behind the Ctrl-D still in the ring.
pub key_loop-types :
    (w : SshSetting) (i : ℕ) (s : SshServer)
    → InKeyRing s.shared
    → Typed w i s.base (keys_of s.shared) (key_loop 256 w i s)
key_loop-types w i s v = key_loop-Typed 256 w i s (key_total s.shared) v refl (omega arith)
