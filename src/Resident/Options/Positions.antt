-- ===== src/Resident/Options/Positions.antt =====
-- The arguments behind `/NET` in dosshd/dosshd.c: the options may stand anywhere.
use dossh.Base.{
  ℕ, zero, suc, true, ◌||◌, List, [], ◌∷◌, Option, none, some, ◌≡◌, refl, sym, ◌∙◌, inl, inr,
  if◌then◌else◌, Bool-cases, codes, drop, u16,
}
use dossh.Telnet.{Config, telnet_set_password}
use dossh.Resident.Options.{
  ◌>>=◌, Libc, Install, opt_is, is_password, set_eof, place_arg, net_args, parse_ip,
}

-- The arguments that are no options, in their order.
abbrev pub positionals : Libc → List (List ℕ) → List (List ℕ)
positionals lib [] = []
positionals lib (a ∷ rest) =
    let others = positionals lib rest in
    if is_password a || opt_is lib a (codes "EOF") then others else a ∷ others

-- The variables behind the options alone: the last password counts.
abbrev pub options : Libc → List (List ℕ) → Config → Config
options lib [] g = g
options lib (a ∷ rest) g =
    let with_password = options lib rest (telnet_set_password g (drop 3 a)) in
    let with_eof = options lib rest (record g { eof_exit = true }) in
    let others = options lib rest g in
    if is_password a then with_password else if opt_is lib a (codes "EOF") then with_eof else others

-- The first of the other arguments is the IP and the second the port; the rest count for nothing.
abbrev pub place_all : Libc → List (List ℕ) → Install → Option Install
place_all lib [] g = some g
place_all lib (ip ∷ []) g = parse_ip ip >>= λ octets. some (record g { net_ip = octets })
place_all lib (ip ∷ port ∷ more) g =
    parse_ip ip >>= λ octets. some (record g { net_ip = octets; net_port = u16 (lib.atoi port) })

-- The same from a later position on.
place_rest : Libc → List (List ℕ) → ℕ → Install → Option Install
place_rest lib ps zero g = place_all lib ps g
place_rest lib [] (suc pos) g = some g
place_rest lib (port ∷ more) (suc zero) g = some (record g { net_port = u16 (lib.atoi port) })
place_rest lib (p ∷ more) (suc (suc pos)) g = some g

place_rest-ip :
    (lib : Libc) (a : List ℕ) (ps : List (List ℕ)) (g : Install) (ip : Option (List ℕ))
    → parse_ip a ≡ ip
    → place_rest lib (a ∷ ps) zero g
      ≡ place_arg lib a zero g >>= λ placed. place_rest lib ps placed.0 placed.1
unfolding place_arg place_rest
place_rest-ip lib a [] g none e = rw e refl
place_rest-ip lib a (p ∷ ps) g none e = rw e refl
place_rest-ip lib a [] g (some octets) e = rw e refl
place_rest-ip lib a (p ∷ ps) g (some octets) e = rw e refl

place_rest-step :
    (lib : Libc) (a : List ℕ) (ps : List (List ℕ)) (pos : ℕ) (g : Install)
    → place_rest lib (a ∷ ps) pos g
      ≡ place_arg lib a pos g >>= λ placed. place_rest lib ps placed.0 placed.1
unfolding place_arg place_rest
place_rest-step lib a ps zero g = place_rest-ip lib a ps g (parse_ip a) refl
place_rest-step lib a [] (suc zero) g = refl
place_rest-step lib a (p ∷ ps) (suc zero) g = refl
place_rest-step lib a [] (suc (suc pos)) g = refl
place_rest-step lib a (p ∷ ps) (suc (suc pos)) g = refl

-- An argument at its position leaves the options' variables alone.
place_arg-shared :
    (lib : Libc) (a : List ℕ) (ps : List (List ℕ)) (pos : ℕ) (g : Install) (k : Config → Config)
    (ip : Option (List ℕ))
    → parse_ip a ≡ ip
    → (place_arg lib a pos (record g { shared = k g.shared }) >>= λ placed.
        place_rest lib ps placed.0 placed.1)
      ≡ place_arg lib a pos g >>= λ placed.
          place_rest lib ps placed.0 (record placed.1 { shared = k placed.1.shared })
unfolding place_arg
place_arg-shared lib a ps zero g k none e = rw e refl
place_arg-shared lib a ps zero g k (some octets) e = rw e refl
place_arg-shared lib a ps (suc zero) g k ip e = refl
place_arg-shared lib a ps (suc (suc pos)) g k ip e = refl

same_rest :
    {A B : Type 0} (o : Option A) (f h : A → Option B)
    → ((x : A) → f x ≡ h x)
    → (o >>= f) ≡ (o >>= h)
same_rest none f h same = refl
same_rest (some x) f h same = same x

net_args-place_rest :
    (lib : Libc) (args : List (List ℕ)) (pos : ℕ) (g : Install)
    → net_args lib args pos g
      ≡ place_rest lib (positionals lib args) pos (record g { shared = options lib args g.shared })
unfolding net_args place_rest
net_args-place_rest lib [] zero g = refl
net_args-place_rest lib [] (suc pos) g = refl
net_args-place_rest lib (a ∷ rest) pos g = elim (Bool-cases (is_password a)) [
  | inl password ↦ rw password (
      net_args-place_rest lib rest pos
        (record g { shared = telnet_set_password g.shared (drop 3 a) }))
  | inr other ↦ elim (Bool-cases (opt_is lib a (codes "EOF"))) [
    | inl eof ↦ rw (other, eof) (net_args-place_rest lib rest pos (set_eof g))
    | inr positional ↦
        rw (other, positional)
          (same_rest (place_arg lib a pos g) (λ placed. net_args lib rest placed.0 placed.1)
              (λ placed.
                place_rest lib (positionals lib rest) placed.0
                  (record placed.1 { shared = options lib rest placed.1.shared }))
              (λ placed. net_args-place_rest lib rest placed.0 placed.1)
            ∙ sym (
                place_arg-shared lib a (positionals lib rest) pos g (options lib rest) (parse_ip a)
                  refl)
            ∙ sym (
                place_rest-step lib a (positionals lib rest) pos
                  (record g { shared = options lib rest g.shared })))
  ]
]

-- The loop over the arguments behind `/NET`: the first argument that is no option is the IP and the
-- second the port, the last `/P:` sets the password and `/EOF` its flag, wherever they stand; the
-- command line is refused exactly when the first positional argument is no IP.
pub net_args-place_all :
    (lib : Libc) (args : List (List ℕ)) (g : Install)
    → net_args lib args 0 g
      ≡ place_all lib (positionals lib args) (record g { shared = options lib args g.shared })
unfolding place_rest
net_args-place_all lib args g = net_args-place_rest lib args 0 g
