-- ===== src/Resident/Install/AuthKeys.antt =====
-- The keys that `ssh_load_authkeys` of dosshd/dosshd.c takes from the file.
use dossh.Base.{ℕ, zero, suc, List, [], ◌∷◌, Option, none, some, ◌≡◌, refl, ap, take}
use dossh.Resident.Install.{authkeys_loop}
use dossh.Ssh.Input.{ssh_parse_authkey_line}

-- The keys of the lines that hold one, in the file's order.
abbrev pub parsed : List (List ℕ) → List (List ℕ)
parsed [] = []
parsed (line ∷ lines) = elim (ssh_parse_authkey_line line) [
  | none ↦ parsed lines
  | some key ↦ key ∷ parsed lines
]

-- One line's part, by what its parse gave.
line-take :
    (room : ℕ) (lines : List (List ℕ)) (line : Option (List ℕ))
    → authkeys_loop room lines ≡ take room (parsed lines)
    → authkeys_loop (suc room) lines ≡ take (suc room) (parsed lines)
    → elim line as (λ _. List (List ℕ)) [
      | none ↦ authkeys_loop (suc room) lines
      | some key ↦ key ∷ authkeys_loop room lines
    ]
      ≡ take (suc room) (elim line as (λ _. List (List ℕ)) [
        | none ↦ parsed lines
        | some key ↦ key ∷ parsed lines
      ])
line-take room lines none one same = same
line-take room lines (some key) one same = ap (λ t. key ∷ t) one

-- What the loop keeps of a file is the first keys of its lines, as many as there is room for.
pub authkeys_loop-take :
    (room : ℕ) (lines : List (List ℕ)) → authkeys_loop room lines ≡ take room (parsed lines)
unfolding authkeys_loop
authkeys_loop-take zero lines = refl
authkeys_loop-take (suc room) [] = refl
authkeys_loop-take (suc room) (line ∷ lines) =
    line-take room lines (ssh_parse_authkey_line line) (authkeys_loop-take room lines)
      (authkeys_loop-take (suc room) lines)
