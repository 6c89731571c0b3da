-- ===== src/Ssh/Input/Endless.antt =====
-- The input on which the loop of `ssh_input` of dosshd/ssh.c does not end.
use mathlib.Core.Path.{subst}
use dossh.Base.{
  ◌+◌, ◌-◌, ◌<◌, true, false, ◌||◌, ◌≡◌, sym, ap, ◌∙◌, arith, ltb, ◌==◌, if◌then◌else◌, u16, u32,
}
use dossh.Ssh.Wire.{rd_u32}
use dossh.Ssh.State.{Crypto, Gate, Ssh, ib_consume}
use dossh.Ssh.Input.{handle_packet, progressed, open_packet, try_plain, try_one, is_over}
use dossh.Ssh.Input.Loop.{claimed, IsWrapped, try_one-step, Runs, over, waits, fails, goes_on_to}

-- A connection before the keys are exchanged that holds a packet of IGNORE, UNIMPLEMENTED or
-- DEBUG with the length field 65532.
pub record IsLooping (c : Ssh) : Type 0 where
  pub wrapped : IsWrapped c
  pub alive : is_over c.state ≡ false
  pub padded : c.ib 4 < 256
  pub ignored : (c.ib 5 == 2 || (c.ib 5 == 4 || c.ib 5 == 3)) ≡ true

-- A round on it.
abbrev again : Ssh → Ssh
again c = record c {
  ib = λ i. if ltb i (c.ib_len - 0) then c.ib (i + 0) else c.ib i;
  ib_len = c.ib_len - 0;
  recv_seq = u32 (c.recv_seq + 1);
}

looping-again :
    (p : Crypto) (g : Gate) (c : Ssh) → IsLooping c → try_one p g c ≡ (again c, progressed)
unfolding try_plain open_packet handle_packet ib_consume
looping-again p g c l =
    let w = l.wrapped in
    let whole : u16 (4 + claimed c) ≡ 0 = omega (arith, w.wraps) in
    let sum : u16 (claimed c + 4) ≡ 0 = omega (arith, w.wraps) in
    try_one-step p g c false false w.greeted w.plain
    ∙ ground (arith, w.wraps, w.header, whole, sum, l.padded, l.ignored)

again-IsLooping : (c : Ssh) → IsLooping c → IsLooping (again c)
unfolding rd_u32
again-IsLooping c l = ground (arith, l)

-- Before the keys are exchanged, a packet of IGNORE, UNIMPLEMENTED or DEBUG with the length field 65532
-- never lets the loop of `ssh_input` end: it is handled again and again, as nothing of it is consumed.
pub looping-never_ends : (p : Crypto) (g : Gate) (c c' : Ssh) → IsLooping c → ¬ (Runs p g c c')
looping-never_ends p g c c' l (over ended) = absurd (ground (arith, ended, l.alive))
looping-never_ends p g c c' l (waits on wait) =
    let answer = ap (λ x. x.1) (looping-again p g c l) in absurd (ground (arith, wait, answer))
looping-never_ends p g c c' l (fails on lost) =
    let answer = ap (λ x. x.1) (looping-again p g c l) in absurd (ground (arith, lost, answer))
looping-never_ends p g c c' l (goes_on_to on moved rest) =
    let still : IsLooping (try_one p g c).0 =
      subst IsLooping (sym (ap (λ x. x.0) (looping-again p g c l))) (again-IsLooping c l) in
    looping-never_ends p g (try_one p g c).0 c' still rest
