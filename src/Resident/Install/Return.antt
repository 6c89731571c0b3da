-- ===== src/Resident/Install/Return.antt =====
-- `uninstall` undoes `install`, in dosshd/dosshd.c.
use mathlib.Core.Path.{subst}
use dossh.Base.{
  ℕ, ◌+◌, Bool, true, false, List, [], Option, none, some, ◌≡◌, refl, sym, ap, ◌∙◌, inl, inr, arith,
  ◌==◌, any, Bool-cases, if◌then◌else◌, u16, same_bytes,
}
use dossh.Net.Driver.{Far, is_null, Release}
use dossh.Resident.Options.{Answer, find_resident}
use dossh.Resident.Install.{
  Resident, Dos, DosCall, Handlers, mpx_isr, answer_of, state_magic, mpx_id, Transport, serial,
  no_driver, network, resident_state, hook_calls, install, is_outside, Outcome, uninstalled,
  uninstall,
}
use dossh.Resident.Install.Unhook.{Machine, run, removal, released-named}

-- The answer to the presence check of a program whose state block is at `block`.
abbrev pub presence : (Far → List ℕ) → Far → Answer
presence text_at block = elim (mpx_isr block (record { ah = mpx_id; al = 0; cx = 0; dx = 0 })) [
  | none ↦ record { al = 0; has_block = false; magic = false }
  | some r ↦ answer_of text_at r
]

-- The receiver that the transport has at the driver, the interrupt and the handle that it opened.
abbrev pub opens : Transport → Option Release
opens serial = none
opens no_driver = none
opens (network r) = some r

-- The machine when the transport is open and nothing is hooked yet.
abbrev pub before : Dos → Transport → Machine
before d t = record { vect = d.vect; receiver = opens t; freed = [] }

-- The handlers lie in the program's block.
pub record IsPlaced (d : Dos) (h : Handlers) : Type 0 where
  pub tick : is_outside h.tick.seg d.psp (u16 (d.psp + d.block_paras d.psp)) ≡ false
  pub mpx : is_outside h.mpx.seg d.psp (u16 (d.psp + d.block_paras d.psp)) ≡ false

-- What `uninstall` does behind an `install`.
abbrev pub Returns : Dos → Transport → Answer → Option (List DosCall × Resident) → Type 0
Returns d t r none = t ≡ no_driver
Returns d t r (some (calls, st)) =
    let m = run calls (before d t) in
    let now = record d { vect = m.vect } in
    let last = run (uninstall now r st).0 m in
    ((uninstall now r st).1 ≡ uninstalled)
    × (last.vect 0x1C ≡ d.vect 0x1C)
    × (last.vect 0x2F ≡ d.vect 0x2F)
    × (last.receiver ≡ none)
    × (any (λ x. x == d.psp) last.freed ≡ true)

presence-found :
    (text_at : Far → List ℕ) (block : Far)
    → is_null block ≡ false
    → same_bytes (text_at block) state_magic ≡ true
    → (find_resident (presence text_at block)).0 ≡ true
unfolding mpx_isr answer_of find_resident
presence-found text_at block there magic = ground (arith, there, magic)

-- The machine with the program hooked in.
hooked-vect :
    (d : Dos) (h : Handlers) (t : Transport)
    → ((run (hook_calls d h) (before d t)).vect 0x1C ≡ h.tick)
      × ((run (hook_calls d h) (before d t)).vect 0x2F ≡ h.mpx)
      × ((run (hook_calls d h) (before d t)).receiver ≡ opens t)
unfolding hook_calls
hooked-vect d h t = elim (Bool-cases (d.env d.psp == 0)) [
  | inl gone ↦ rw gone (refl, refl, refl)
  | inr env ↦ rw env (refl, refl, refl)
]

-- A block that may be removed is.
uninstall-removes :
    (d : Dos) (r : Answer) (st : Resident)
    → (find_resident r).0 ≡ true
    → is_outside (d.vect 0x1C).seg st.psp (u16 (st.psp + d.block_paras st.psp)) ≡ false
    → is_outside (d.vect 0x2F).seg st.psp (u16 (st.psp + d.block_paras st.psp)) ≡ false
    → uninstall d r st ≡ (removal st st.mode, uninstalled)
unfolding uninstall
uninstall-removes d r st found tick mpx = rw (found, tick, mpx) refl

-- What the removal leaves, of the program that was hooked in with these vectors before.
abbrev Left : Dos → Machine → List DosCall × Outcome → Type 0
Left d m q =
    (q.1 ≡ uninstalled)
    × ((run q.0 m).vect 0x1C ≡ d.vect 0x1C)
    × ((run q.0 m).vect 0x2F ≡ d.vect 0x2F)
    × ((run q.0 m).receiver ≡ none)
    × (any (λ x. x == d.psp) (run q.0 m).freed ≡ true)

removal-Left :
    (d : Dos) (m : Machine) (net : Bool) (q : Release)
    → m.receiver ≡ (if net then some q else none)
    → Left d m (removal (resident_state d net q) net, uninstalled)
unfolding resident_state
removal-Left d m true q e =
    (refl, refl, refl, released-named (resident_state d true q) m e, ground arith)
removal-Left d m false q e = (refl, refl, refl, e, ground arith)

hooked-Returns :
    (d : Dos) (h : Handlers) (t : Transport) (r : Answer) (net : Bool) (q : Release)
    → IsPlaced d h
    → opens t ≡ (if net then some q else none)
    → (find_resident r).0 ≡ true
    → Returns d t r (some (hook_calls d h, resident_state d net q))
unfolding resident_state
hooked-Returns d h t r net q v e found =
    let m : Machine = run (hook_calls d h) (before d t) in
    let st : Resident = resident_state d net q in
    let rend : ℕ = u16 (d.psp + d.block_paras d.psp) in
    let (tick, mpx, receiver) = hooked-vect d h t in
    let gone : uninstall (record d { vect = m.vect }) r st ≡ (removal st net, uninstalled) =
      uninstall-removes (record d { vect = m.vect }) r st found
        (ap (λ x. is_outside x.seg d.psp rend) tick ∙ v.tick)
        (ap (λ x. is_outside x.seg d.psp rend) mpx ∙ v.mpx) in
    subst (Left d m) (sym gone) (removal-Left d m net q (receiver ∙ e))

-- `uninstall` undoes `install`: with any transport that came up, handlers that lie in the
-- program's block and a state block that has the magic, if no vector is taken in between, the
-- presence check finds the program, both vectors are again what they were, the receiver that the
-- transport had at its interrupt and handle is gone and the program's block is freed; and
-- `install` gives up only if no driver was found.
pub install-Returns :
    (d : Dos) (h : Handlers) (t : Transport) (text_at : Far → List ℕ) (block : Far)
    → IsPlaced d h
    → is_null block ≡ false
    → same_bytes (text_at block) state_magic ≡ true
    → Returns d t (presence text_at block) (install d h t)
unfolding install
install-Returns d h no_driver text_at block v there magic = refl
install-Returns d h serial text_at block v there magic =
    hooked-Returns d h serial (presence text_at block) false (record { int_no = 0; handle = 0 }) v
      refl (presence-found text_at block there magic)
install-Returns d h (network q) text_at block v there magic =
    hooked-Returns d h (network q) (presence text_at block) true q v refl
      (presence-found text_at block there magic)
