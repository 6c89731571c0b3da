-- ===== src/Resident/Options.antt =====
-- The command line of dosshd/dosshd.c. An argument is the list of its bytes, without the NUL.

pub mod Address
pub mod Positions
use dossh.Base.{
  ℕ, zero, suc, ◌+◌, ◌-◌, ◌*◌, ◌%◌, Bool, true, false, not, ◌&&◌, ◌||◌, List, [], ◌∷◌, ◌++◌, Option,
  none, some, ltb, leb, ◌==◌, if◌then◌else◌, length, get_or, drop, codes, u8, u16, u32, is_negative,
}
use dossh.Telnet.{Config, copy_password, telnet_set_password}

-- A test that fails ends the function with what failure returns.
infixl 5 ◌>>=◌
abbrev ◌>>=◌ : {A B : Type 0} → Option A → (A → Option B) → Option B
◌>>=◌ none f = none
◌>>=◌ (some a) f = f a

-- The functions of the C library that are called: `stricmp` is 0 on strings that are equal but for case.
pub record Libc : Type 0 where
  pub stricmp : List ℕ → List ℕ → ℕ
  pub atoi : List ℕ → ℕ

abbrev pub is_ip_digit : ℕ → Bool
is_ip_digit c = leb b'0' c && leb c b'9'

-- The digits at the front of `s`, with the value `v` in front of them (a `long`), and what is left.
unfoldable pub take_number : ℕ → List ℕ → ℕ × List ℕ
take_number v [] = (v, [])
take_number v (c ∷ cs) =
    let rest = take_number (u32 (v * 10 + (c - b'0'))) cs in
    if is_ip_digit c then rest else (v, c ∷ cs)

-- One field: its byte, and what is left.
unfoldable pub field : List ℕ → Option (ℕ × List ℕ)
field s =
    let (v, rest) = take_number 0 s in
    if not (is_ip_digit (get_or s 0 0))
    then none
    else if not (is_negative v) && ltb 255 v
    then none
    else some (u8 v, rest)

-- `left` fields and the dots between them.
unfoldable pub ip_fields : ℕ → List ℕ → Option (List ℕ)
ip_fields zero s = if length s == 0 then some [] else none
ip_fields (suc left) s = do
  (b, rest) ← field s
  bs ← ip_fields left (if left == 0 then rest else drop 1 rest)
  if not (left == 0) && not (get_or rest 0 0 == b'.') then none else some (b ∷ bs)

unfoldable pub parse_ip : List ℕ → Option (List ℕ)
parse_ip s = ip_fields 4 s

abbrev pub is_dash : ℕ → Bool
is_dash c = c == b'/' || c == b'-'

unfoldable pub opt_is : Libc → List ℕ → List ℕ → Bool
opt_is lib a name = is_dash (get_or a 0 0) && lib.stricmp (drop 1 a) name == 0

-- `/P:<pw>`
unfoldable pub is_password : List ℕ → Bool
is_password a =
    is_dash (get_or a 0 0)
    && ((get_or a 1 0 == b'P' || get_or a 1 0 == b'p') && get_or a 2 0 == b':')

-- The variables that the command line sets; `shared` holds `g_eof_exit` and the password of
-- dosshd/telnet.c.
pub record Install : Type 0 where
  pub net : Bool
  pub net_ip : List ℕ
  pub net_port : ℕ
  pub shared : Config
  pub ssh_mode : Bool
  pub ssh_serial : Bool
  pub ssh_pw : List ℕ
  pub ssh_have_pw : Bool

abbrev pub at_start : Install
at_start = record {
  net = false;
  net_ip = 10 ∷ 0 ∷ 2 ∷ 15 ∷ [];
  net_port = 23;
  shared = record { eof_exit = false; password = [] };
  ssh_mode = false;
  ssh_serial = false;
  ssh_pw = [];
  ssh_have_pw = false;
}

abbrev pub set_eof : Install → Install
set_eof g = record g { shared = record g.shared { eof_exit = true } }

-- The argument at the position `pos` that is no option; `none` for a bad IP.
unfoldable pub place_arg : Libc → List ℕ → ℕ → Install → Option (ℕ × Install)
place_arg lib a zero g = do ip ← parse_ip a; some (1, record g { net_ip = ip })
place_arg lib a (suc zero) g = some (2, record g { net_port = u16 (lib.atoi a) })
place_arg lib a (suc (suc pos)) g = some (suc (suc pos), g)

-- The loop over the arguments behind `/NET`, from the position `pos`.
unfoldable pub net_args : Libc → List (List ℕ) → ℕ → Install → Option Install
net_args lib [] pos g = some g
net_args lib (a ∷ rest) pos g =
    let with_password =
      net_args lib rest pos (record g { shared = telnet_set_password g.shared (drop 3 a) }) in
    let with_eof = net_args lib rest pos (set_eof g) in
    let placed = (do (pos', g') ← place_arg lib a pos g; net_args lib rest pos' g') in
    if is_password a then with_password else if opt_is lib a (codes "EOF") then with_eof else placed

unfoldable pub set_ssh_pw : List ℕ → Install → Install
set_ssh_pw pw g = record g {
  ssh_pw = copy_password 63 pw;
  ssh_have_pw = not (length (copy_password 63 pw) == 0);
}

unfoldable pub is_com : Libc → List ℕ → Bool
is_com lib a =
    opt_is lib a (codes "COM") || (opt_is lib a (codes "COM1") || lib.stricmp a (codes "COM1") == 0)

-- The loop over the arguments behind `/SSH`.
unfoldable pub ssh_args : Libc → List (List ℕ) → ℕ → Install → Option Install
ssh_args lib [] pos g = some g
ssh_args lib (a ∷ rest) pos g =
    let with_password = ssh_args lib rest pos (set_ssh_pw (drop 3 a) g) in
    let with_serial = ssh_args lib rest pos (record g { ssh_serial = true; net = false }) in
    let with_eof = ssh_args lib rest pos (set_eof g) in
    let placed = (do (pos', g') ← place_arg lib a pos g; ssh_args lib rest pos' g') in
    if is_password a
    then with_password
    else if is_com lib a
    then with_serial
    else if opt_is lib a (codes "EOF")
    then with_eof
    else placed

-- What interrupt 2Fh answered: `al`, whether it gave a state block, and the block's first six bytes.
pub record Answer : Type 0 where
  pub al : ℕ
  pub has_block : Bool
  pub magic : Bool

-- Whether the program is resident, and `*conflict`.
unfoldable pub find_resident : Answer → Bool × Bool
find_resident r =
    if not (r.al == 0xFF)
    then (false, false)
    else if r.has_block && r.magic
    then (true, false)
    else (false, true)

pub data Command : Type 0 where
  uninstalls reports usage bad_ip installed_already id_taken : Command
  installs : Install → Command

-- What follows the options.
unfoldable pub install_checked : Answer → Option Install → Command
install_checked r none = bad_ip
install_checked r (some g) =
    if (find_resident r).0
    then installed_already
    else if (find_resident r).1
    then id_taken
    else installs g

-- `main` on the arguments behind the program's name, in the build with DOSSH_SSH.
unfoldable pub main : Libc → Answer → List (List ℕ) → Command
main lib r [] = install_checked r (some at_start)
main lib r (a ∷ rest) =
    if opt_is lib a (codes "U")
    then uninstalls
    else if opt_is lib a (codes "S")
    then reports
    else if opt_is lib a (codes "SSH")
    then install_checked r
        (ssh_args lib rest 0 (record at_start { ssh_mode = true; net = true; net_port = 22 }))
    else if opt_is lib a (codes "NET")
    then install_checked r (net_args lib rest 0 (record at_start { net = true }))
    else usage
