-- ===== src/Resident/Install/Unhook.antt =====
-- Coming back from resident: no hook is left into memory that was freed, in dosshd/dosshd.c.
use dossh.Base.{
  ℕ, ◌+◌, Bool, true, false, ◌&&◌, ◌||◌, List, [], ◌∷◌, ◌++◌, Option, none, some, ◌≡◌, ◌≢◌, refl,
  ap, ◌∙◌, inl, inr, arith, ◌==◌, if◌then◌else◌, any, Bool-cases, u16, update,
}
use dossh.Net.Driver.{Far, Release, net_release}
use dossh.Resident.Options.{Answer, find_resident}
use dossh.Resident.Install.{
  Resident, Dos, DosCall, set_vect, release, free_mem, clear_env, keep, is_outside, Outcome,
  id_taken, not_installed, hooked_after, uninstalled, uninstall,
}

-- The machine: its vectors, the interrupt and the handle at which a packet driver has a receiver of
-- ours, if one has, and the blocks given back.
pub record Machine : Type 0 where
  pub vect : ℕ → Far
  pub receiver : Option Release
  pub freed : List ℕ

-- `release_type` ends the receiver that has this handle at the driver of this interrupt, and no other.
abbrev pub released : Release → Option Release → Option Release
released r none = none
released r (some q) = if r.int_no == q.int_no && r.handle == q.handle then none else some q

-- What a call does to it.
abbrev pub call : DosCall → Machine → Machine
call (set_vect n v) m = record m { vect = update m.vect n v }
call (release r) m = record m { receiver = released r m.receiver }
call (free_mem seg) m = record m { freed = seg ∷ m.freed }
call (clear_env psp) m = m
call (keep paras) m = m

abbrev pub run : List DosCall → Machine → Machine
run [] m = m
run (c ∷ cs) m = run cs (call c m)

-- Once the block `[psp, rend)` was freed, neither vector points into it and nothing is received into it.
pub record IsSafe (psp rend : ℕ) (m : Machine) : Type 0 where
  pub tick : any (λ x. x == psp) m.freed ≡ true → is_outside (m.vect 0x1C).seg psp rend ≡ true
  pub mpx : any (λ x. x == psp) m.freed ≡ true → is_outside (m.vect 0x2F).seg psp rend ≡ true
  pub receiver : any (λ x. x == psp) m.freed ≡ true → m.receiver ≡ none

-- It holds before and after every call.
abbrev pub Always : (Machine → Type 0) → List DosCall → Machine → Type 0
Always P [] m = P m
Always P (c ∷ cs) m = P m × Always P cs (call c m)

-- The receiver that a state block names: in network mode, that of its interrupt and handle.
abbrev pub named : Resident → Bool → Option Release
named st net = if net then some (record { int_no = st.pkt_int; handle = st.pkt_handle }) else none

-- A machine on which the program with this state block is resident.
pub record Hosts (st : Resident) (rend : ℕ) (m : Machine) : Type 0 where
  pub in_use : any (λ x. x == st.psp) m.freed ≡ false
  pub old_tick : is_outside st.old_1c.seg st.psp rend ≡ true
  pub old_mpx : is_outside st.old_2f.seg st.psp rend ≡ true
  pub receiver : m.receiver ≡ named st st.mode

in_use-IsSafe :
    (psp rend : ℕ) (m : Machine) → any (λ x. x == psp) m.freed ≡ false → IsSafe psp rend m
in_use-IsSafe psp rend m e = record {
  tick = λ f. absurd (ground (arith, e, f));
  mpx = λ f. absurd (ground (arith, e, f));
  receiver = λ f. absurd (ground (arith, e, f));
}

-- What is left of the program when it was removed.
pub record IsRemoved (st : Resident) (m : Machine) : Type 0 where
  pub tick : m.vect 0x1C ≡ st.old_1c
  pub mpx : m.vect 0x2F ≡ st.old_2f
  pub silent : m.receiver ≡ none
  pub given_back : any (λ x. x == st.psp) m.freed ≡ true

-- The calls of `uninstall` on a block that may be removed, by its mode.
abbrev pub removal : Resident → Bool → List DosCall
removal st net =
    set_vect 0x1C st.old_1c
    ∷ set_vect 0x2F st.old_2f
    ∷ ((if net then release (net_release st.pkt_int st.pkt_handle) ∷ [] else [])
        ++ (free_mem st.psp ∷ []))

-- The release that `uninstall` makes meets the receiver.
pub released-named :
    (st : Resident) (m : Machine)
    → m.receiver ≡ named st true
    → released (net_release st.pkt_int st.pkt_handle) m.receiver ≡ none
unfolding net_release
released-named st m e =
    let mine : Release = record { int_no = st.pkt_int; handle = st.pkt_handle } in
    let same : (st.pkt_int == st.pkt_int && st.pkt_handle == st.pkt_handle) ≡ true = ground arith in
    ap (released mine) e ∙ ap (λ b. if b then none else some mine) same

last-IsSafe :
    (st : Resident) (rend : ℕ) (m m' : Machine)
    → Hosts st rend m
    → m'.vect ≡ update (update m.vect 0x1C st.old_1c) 0x2F st.old_2f
    → m'.receiver ≡ none
    → IsSafe st.psp rend m'
last-IsSafe st rend m m' v e off = record {
  tick = λ f. ap (λ t. is_outside (t 0x1C).seg st.psp rend) e ∙ v.old_tick;
  mpx = λ f. ap (λ t. is_outside (t 0x2F).seg st.psp rend) e ∙ v.old_mpx;
  receiver = λ f. off;
}

last-IsRemoved :
    (st : Resident) (m m' : Machine)
    → m'.vect ≡ update (update m.vect 0x1C st.old_1c) 0x2F st.old_2f
    → m'.receiver ≡ none
    → m'.freed ≡ st.psp ∷ m.freed
    → IsRemoved st m'
last-IsRemoved st m m' e off gone = record {
  tick = ap (λ t. t 0x1C) e;
  mpx = ap (λ t. t 0x2F) e;
  silent = off;
  given_back =
      let same : (st.psp == st.psp) ≡ true = ground arith in
      ap (any (λ x. x == st.psp)) gone ∙ ground (arith, same);
}

removal-IsSafe :
    (st : Resident) (rend : ℕ) (m : Machine) (net : Bool)
    → Hosts st rend m
    → st.mode ≡ net
    → Always (IsSafe st.psp rend) (removal st net) m × IsRemoved st (run (removal st net) m)
unfolding net_release
removal-IsSafe st rend m true v e =
    let ticked = call (set_vect 0x1C st.old_1c) m in
    let restored = call (set_vect 0x2F st.old_2f) ticked in
    let silent = call (release (net_release st.pkt_int st.pkt_handle)) restored in
    let last = call (free_mem st.psp) silent in
    let off = released-named st m (v.receiver ∙ ap (named st) e) in
    (
      (
        in_use-IsSafe st.psp rend m v.in_use,
        (
          in_use-IsSafe st.psp rend ticked v.in_use,
          (
            in_use-IsSafe st.psp rend restored v.in_use,
            (in_use-IsSafe st.psp rend silent v.in_use, last-IsSafe st rend m last v refl off),
          ),
        ),
      ),
      last-IsRemoved st m last refl off refl,
    )
removal-IsSafe st rend m false v e =
    let ticked = call (set_vect 0x1C st.old_1c) m in
    let restored = call (set_vect 0x2F st.old_2f) ticked in
    let off = v.receiver ∙ ap (named st) e in
    let last = call (free_mem st.psp) restored in
    (
      (
        in_use-IsSafe st.psp rend m v.in_use,
        (
          in_use-IsSafe st.psp rend ticked v.in_use,
          (in_use-IsSafe st.psp rend restored v.in_use, last-IsSafe st rend m last v refl off),
        ),
      ),
      last-IsRemoved st m last refl off refl,
    )

-- What `uninstall` did: it removed the program, or changed nothing and said why.
abbrev pub Verdict : Dos → Answer → Resident → Machine → Outcome → List DosCall → Type 0
Verdict d r st m uninstalled calls =
    let rend = u16 (st.psp + d.block_paras st.psp) in
    ((is_outside (d.vect 0x1C).seg st.psp rend || is_outside (d.vect 0x2F).seg st.psp rend) ≡ false)
    × IsRemoved st (run calls m)
Verdict d r st m not_installed calls = (calls ≡ []) × (r.al ≢ 0xFF)
Verdict d r st m id_taken calls = (calls ≡ []) × (r.al ≡ 0xFF) × ((r.has_block && r.magic) ≡ false)
Verdict d r st m hooked_after calls =
    let rend = u16 (st.psp + d.block_paras st.psp) in
    (calls ≡ [])
    × ((is_outside (d.vect 0x1C).seg st.psp rend || is_outside (d.vect 0x2F).seg st.psp rend)
        ≡ true)

-- `uninstall` on a machine where the program's block is in use, the vectors that it kept lie
-- outside of it, and the driver has a receiver for it just in network mode, at the interrupt and the
-- handle of the state block: before and after each of the calls, no vector points into the block,
-- and no receiver is left, once the block is freed. If both vectors still point into the block it
-- restores them, ends the receiver and frees the block; or it makes no call, since nothing is
-- resident, another program has the multiplex id, or a vector was taken since.
pub uninstall-IsSafe :
    (d : Dos) (r : Answer) (st : Resident) (m : Machine)
    → Hosts st (u16 (st.psp + d.block_paras st.psp)) m
    → Always (IsSafe st.psp (u16 (st.psp + d.block_paras st.psp))) (uninstall d r st).0 m
      × Verdict d r st m (uninstall d r st).1 (uninstall d r st).0
unfolding uninstall find_resident
uninstall-IsSafe d r st m v =
    let rend : ℕ = u16 (st.psp + d.block_paras st.psp) in
    let hooked : Bool =
      is_outside (d.vect 0x1C).seg st.psp rend || is_outside (d.vect 0x2F).seg st.psp rend in
    let untouched = in_use-IsSafe st.psp rend m v.in_use in
    elim (Bool-cases (r.al == 0xFF)) [
      | inr other ↦ rw other (untouched, (refl, ground (arith, other)))
      | inl answered ↦ elim (Bool-cases (r.has_block && r.magic)) [
        | inr foreign ↦
            rw (answered, foreign) (untouched, (refl, ground (arith, answered), foreign))
        | inl ours ↦ elim (Bool-cases hooked) [
          | inl after ↦ rw (answered, ours, after) (untouched, (refl, after))
          | inr free ↦
              let removed = removal-IsSafe st rend m st.mode v refl in
              rw (answered, ours, free) (removed.0, (free, removed.1))
        ]
      ]
    ]
