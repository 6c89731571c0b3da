-- ===== src/Resident/Install.antt =====
-- Going resident and coming back: `install`, `uninstall`, `status`, `mpx_isr` and `ssh_install_setup` of
-- dosshd/dosshd.c. DOS and the vectors are parameters; the calls that change them stand in order.
pub mod Unhook
pub mod Return
pub mod AuthKeys
use dossh.Base.{
  ℕ, zero, suc, ◌+◌, ◌-◌, ◌*◌, ◌/◌, Bool, true, false, not, ◌&&◌, ◌||◌, List, [], ◌∷◌, ◌++◌, Option,
  none, some, ltb, leb, ◌==◌, if◌then◌else◌, length, same_bytes, codes, u8, u16,
}
use dossh.Net.Driver.{Far, is_null, Release, net_release}
use dossh.Resident.Options.{Answer, find_resident}
use dossh.Ssh.Input.{ssh_parse_authkey_line}
use dossh.Rng.{Source, Rng, rng_init, rng_bytes}

-- `struct resident_state`
pub record Resident : Type 0 where
  pub magic : List ℕ
  pub psp : ℕ
  pub mode : Bool
  pub pkt_int : ℕ
  pub pkt_handle : ℕ
  pub old_1c : Far
  pub old_2f : Far

abbrev pub state_magic : List ℕ
state_magic = codes "DOSSH1"

abbrev pub mpx_id : ℕ
mpx_id = 0xD5

-- What DOS tells: the vectors, the program's PSP, and for a PSP the size of its memory block and its
-- environment's segment.
pub record Dos : Type 0 where
  pub vect : ℕ → Far
  pub psp : ℕ
  pub block_paras : ℕ → ℕ
  pub env : ℕ → ℕ

-- The calls that change something.
pub data DosCall : Type 0 where
  set_vect : ℕ → Far → DosCall
  release : Release → DosCall
  free_mem : ℕ → DosCall
  clear_env : ℕ → DosCall
  keep : ℕ → DosCall

-- The handlers' addresses in the program's block.
pub record Handlers : Type 0 where
  pub mpx : Far
  pub tick : Far

-- The registers that `mpx_isr` reads and answers; it passes other calls on.
pub record MpxRegs : Type 0 where
  pub ah : ℕ
  pub al : ℕ
  pub cx : ℕ
  pub dx : ℕ

unfoldable pub mpx_isr : Far → MpxRegs → Option MpxRegs
mpx_isr state r =
    if r.ah == mpx_id && r.al == 0
    then some (record r { al = 0xFF; cx = state.seg; dx = state.off })
    else none

-- What `find_resident` sees of an answer, with the block that its CX:DX points to.
unfoldable pub answer_of : (Far → List ℕ) → MpxRegs → Answer
answer_of text_at r = record {
  al = r.al;
  has_block = not (r.cx == 0 && r.dx == 0);
  magic = same_bytes (text_at (record { seg = r.cx; off = r.dx })) state_magic;
}

-- The environment is given back, if there is one.
abbrev free_env : Dos → List DosCall
free_env d = if d.env d.psp == 0 then [] else free_mem (d.env d.psp) ∷ clear_env d.psp ∷ []

-- How the transport came up: COM1, the network with the driver's interrupt and handle, or no driver found.
pub data Transport : Type 0 where
  serial no_driver : Transport
  network : Release → Transport

unfoldable pub resident_state : Dos → Bool → Release → Resident
resident_state d net r = record {
  magic = state_magic;
  psp = d.psp;
  mode = net;
  pkt_int = r.int_no;
  pkt_handle = r.handle;
  old_1c = d.vect 0x1C;
  old_2f = d.vect 0x2F;
}

-- The calls of `install` behind the transport's.
unfoldable pub hook_calls : Dos → Handlers → List DosCall
hook_calls d h =
    set_vect 0x2F h.mpx ∷ set_vect 0x1C h.tick ∷ (free_env d ++ (keep (d.block_paras d.psp) ∷ []))

-- `none` where it returns 1.
unfoldable pub install : Dos → Handlers → Transport → Option (List DosCall × Resident)
install d h no_driver = none
install d h serial =
    some (hook_calls d h, resident_state d false (record { int_no = 0; handle = 0 }))
install d h (network r) = some (hook_calls d h, resident_state d true r)

-- The segment lies outside the resident block.
abbrev pub is_outside : ℕ → ℕ → ℕ → Bool
is_outside seg rpsp rend = ltb seg rpsp || leb rend seg

-- The outcomes of `uninstall`: its messages.
pub data Outcome : Type 0 where
  id_taken not_installed hooked_after uninstalled : Outcome

unfoldable pub uninstall : Dos → Answer → Resident → List DosCall × Outcome
uninstall d r st =
    let rend = u16 (st.psp + d.block_paras st.psp) in
    let seg1c = (d.vect 0x1C).seg in
    let seg2f = (d.vect 0x2F).seg in
    if not (find_resident r).0
    then ([], if (find_resident r).1 then id_taken else not_installed)
    else if is_outside seg1c st.psp rend || is_outside seg2f st.psp rend
    then ([], hooked_after)
    else (
      set_vect 0x1C st.old_1c
          ∷ set_vect 0x2F st.old_2f
          ∷ ((if st.mode then release (net_release st.pkt_int st.pkt_handle) ∷ [] else [])
              ++ (free_mem st.psp ∷ [])),
      uninstalled,
    )

-- `return` of `uninstall`.
unfoldable pub exit_code : Outcome → ℕ
exit_code uninstalled = 0
exit_code id_taken = 1
exit_code not_installed = 1
exit_code hooked_after = 1

-- What `status` reports.
pub data Report : Type 0 where
  resident_at : Bool → ℕ → Report
  no_resident : Bool → Report

unfoldable pub status : Answer → Resident → Report × ℕ
status r st =
    if (find_resident r).0
    then (resident_at st.mode st.psp, 0)
    else (no_resident (find_resident r).1, 1)

abbrev pub ssh_max_authkeys : ℕ
ssh_max_authkeys = 8

-- The loop of `ssh_load_authkeys` over the lines that `fgets` gives, while `room` keys still fit.
unfoldable pub authkeys_loop : ℕ → List (List ℕ) → List (List ℕ)
authkeys_loop zero lines = []
authkeys_loop (suc room) [] = []
authkeys_loop (suc room) (line ∷ lines) =
    let rest = authkeys_loop room lines in
    let skipped = authkeys_loop (suc room) lines in
    elim (ssh_parse_authkey_line line) [ none ↦ skipped | some key ↦ key ∷ rest ]

unfoldable pub ssh_load_authkeys : Option (List (List ℕ)) → List (List ℕ)
ssh_load_authkeys none = []
ssh_load_authkeys (some lines) = authkeys_loop ssh_max_authkeys lines

-- The files that `ssh_install_setup` reads: up to 32 bytes of DOSSHD.KEY, and the lines of AUTHKEYS.
pub record KeyFiles : Type 0 where
  pub hostkey : Option (List ℕ)
  pub authkeys : Option (List (List ℕ))

-- The key pair, what is written to DOSSHD.KEY if there was no seed, and the authorized keys.
pub record HostKeys : Type 0 where
  pub sk : List ℕ
  pub pk : List ℕ
  pub written : Option (List ℕ)
  pub authorized : List (List ℕ)

-- The seed of the file, if it is whole.
unfoldable pub stored_seed : Option (List ℕ) → Option (List ℕ)
stored_seed none = none
stored_seed (some seed) = if length seed == 32 then some seed else none

-- `key_pair` is `dossh_ed25519_key_pair`, which gives the secret and the public key.
unfoldable pub ssh_load_hostkey :
    Source → (List ℕ → List ℕ × List ℕ) → KeyFiles → Rng → HostKeys × Rng
ssh_load_hostkey h key_pair files g =
    let (drawn, g') = rng_bytes h 32 g in
    let keys : List ℕ → Option (List ℕ) → HostKeys = λ seed written. record {
      sk = (key_pair seed).0;
      pk = (key_pair seed).1;
      written = written;
      authorized = [];
    } in
    elim (stored_seed files.hostkey) [
      | none ↦ (keys drawn (some drawn), g')
      | some seed ↦ (keys seed none, g)
    ]

unfoldable pub ssh_install_setup :
    Source → (List ℕ → List ℕ × List ℕ) → KeyFiles → Rng → HostKeys × Rng
ssh_install_setup h key_pair files g =
    let (keys, g') = ssh_load_hostkey h key_pair files (rng_init h g) in
    (record keys { authorized = ssh_load_authkeys files.authkeys }, g')
