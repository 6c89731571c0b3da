-- ===== src/Telnet/Password.antt =====
-- The password line of dosshd/telnet.c: what is collected, and the verdict on it.
use dossh.Base.{
  ℕ, zero, suc, ◌+◌, ◌<◌, ◌≤◌, Bool, true, not, ◌||◌, List, [], ◌∷◌, ◌++◌, map, ◌≡◌, refl, arith,
  length, ◌==◌, if◌then◌else◌, same_bytes, same_bytes_refl, all, and-eq-true, append_assoc,
  append-nil, codes, length-append, length-take, take, take-all, take-append_full, take-append-take,
}
use dossh.Telnet.{
  Event, put, ready, drop_slot, repaint, in_data, au_ok, au_pw, Slot, Config, au_check,
  copy_password, telnet_set_password, feed_password, dispatch, telnet_in, telnet_run,
}

-- A byte that stands for itself in a password line: no line end, erasure or IAC.
abbrev pub is_plain : ℕ → Bool
is_plain c = not (c == 13 || c == 10 || c == 0 || c == 8 || c == 127 || c == 255)

-- A slot at the password prompt that has read `buf` of the line.
abbrev pub at_prompt : Slot → List ℕ → Slot
at_prompt s buf = record s { iac = in_data; au_state = au_pw; au_buf = buf }

collect_one :
    (g : Config) (s : Slot) (buf : List ℕ) (c : ℕ)
    → length buf ≤ 31
    → is_plain c ≡ true
    → telnet_in g (at_prompt s buf) c ≡ (at_prompt s (take 31 (buf ++ (c ∷ []))), [])
unfolding telnet_in dispatch feed_password
collect_one g s buf c short h = ground (
  arith,
  take-all 31 (buf ++ (c ∷ [])),
  take-append_full 31 buf (c ∷ []),
  length-append buf (c ∷ []),
)

telnet_run-append :
    (g : Config) (s : Slot) (xs ys : List ℕ)
    → telnet_run g s (xs ++ ys) ≡ (
      (telnet_run g (telnet_run g s xs).0 ys).0,
      (telnet_run g s xs).1 ++ (telnet_run g (telnet_run g s xs).0 ys).1,
    )
unfolding telnet_run
telnet_run-append g s [] ys = refl
telnet_run-append g s (x ∷ xs) ys =
    rw (telnet_run-append g (telnet_in g s x).0 xs ys) (rw append_assoc)

collect :
    (g : Config) (s : Slot) (buf line : List ℕ)
    → length buf ≤ 31
    → all is_plain line ≡ true
    → telnet_run g (at_prompt s buf) line ≡ (at_prompt s (take 31 (buf ++ line)), [])
unfolding telnet_run
collect g s buf [] short h = rw (append-nil, take-all 31 buf short)
collect g s buf (c ∷ line) short h =
    let (plain, rest) = and-eq-true (is_plain c) (all is_plain line) h in
    rw (
      collect_one g s buf c short plain,
      collect g s (take 31 (buf ++ (c ∷ []))) line (omega (arith, length-take 31 (buf ++ (c ∷ []))))
          rest,
      take-append-take 31 (buf ++ (c ∷ [])) line,
      append_assoc,
    )

enter :
    (g : Config) (s : Slot) (buf : List ℕ)
    → telnet_run g (at_prompt s buf) (13 ∷ [])
      ≡ ((au_check g (at_prompt s buf)).0, (au_check g (at_prompt s buf)).1 ++ [])
unfolding telnet_run telnet_in dispatch feed_password
enter g s buf = refl

-- What a line typed at the prompt leads to. The first 31 bytes count.
abbrev pub verdict : Config → Slot → List ℕ → Slot × List Event
verdict g s line =
    let failed = record (at_prompt s []) { au_tries = s.au_tries + 1 } in
    if same_bytes (take 31 line) g.password
    then (record (at_prompt s []) { au_state = au_ok }, ready ∷ repaint ∷ [])
    else if s.au_tries == 2
    then (failed, map put (codes "\r\nAccess denied.\r\n") ++ (drop_slot ∷ []))
    else (failed, map put (codes "\r\nWrong password.\r\nPassword: "))

-- A line of plain bytes of any length and a CR, typed at an empty prompt with fewer than three
-- failures so far: the slot is admitted exactly if the first 31 bytes are the password; else the
-- failure is counted, and the third one drops the slot and says so.
pub telnet_run-verdict :
    (g : Config) (s : Slot) (line : List ℕ)
    → all is_plain line ≡ true
    → s.au_tries < 3
    → telnet_run g (at_prompt s []) (line ++ (13 ∷ [])) ≡ verdict g s line
unfolding au_check
telnet_run-verdict g s line plain few =
    rw
      (
        telnet_run-append g (at_prompt s []) line (13 ∷ []),
        collect g s [] line (omega arith) plain,
        enter g s (take 31 line),
        append-nil,
      )
      (ground arith)

copy_password-take : (n : ℕ) (pw : List ℕ) → all is_plain pw ≡ true → copy_password n pw ≡ take n pw
unfolding copy_password
copy_password-take zero pw h = refl
copy_password-take (suc n) [] h = refl
copy_password-take (suc n) (c ∷ pw) h =
    let (plain, rest) = and-eq-true (is_plain c) (all is_plain pw) h in
    ground (arith, copy_password-take n pw rest)

-- Whatever plain password was configured, also one longer than the 31 bytes that are kept, typing
-- it in full and CR admits the slot to the broadcast and repaints, and does nothing else.
pub set_password-admits :
    (g : Config) (s : Slot) (pw : List ℕ)
    → all is_plain pw ≡ true
    → s.au_tries < 3
    → telnet_run (telnet_set_password g pw) (at_prompt s []) (pw ++ (13 ∷ []))
      ≡ (record (at_prompt s []) { au_state = au_ok }, ready ∷ repaint ∷ [])
unfolding telnet_set_password
set_password-admits g s pw plain few = rw (
  telnet_run-verdict (telnet_set_password g pw) s pw plain few,
  copy_password-take 31 pw plain,
  same_bytes_refl (take 31 pw),
)
