-- ===== src/Telnet/Subnegotiation.antt =====
-- The subnegotiations of dosshd/telnet.c: IAC doubling in the body, and the window size (NAWS).
use mathlib.Core.Path.{ap}
use dossh.Base.{
  ℕ, ◌/◌, ◌%◌, ◌<◌, ◌≤◌, ◌^◌, Bool, true, false, not, ◌&&◌, ◌||◌, List, [], ◌∷◌, ◌++◌, ◌≡◌, refl,
  arith, length, ◌==◌, if◌then◌else◌, length-append, length-take, take, take-all, take-append_full,
  take-append-take, append_assoc, append-nil, Bool-cases, ==_iff, ◌∙◌, inl, inr,
}
use dossh.Telnet.{
  repaint, in_data, in_sb, in_sb_iac, Auth, au_ok, au_pw, Slot, Config, iac_byte, opt_naws, sb_push,
  sb_done, dispatch, telnet_in, telnet_run,
}

-- The body as a client sends it (RFC 855): every 255 twice.
abbrev pub escape : List ℕ → List ℕ
escape [] = []
escape (b ∷ bs) = if b == 255 then 255 ∷ 255 ∷ escape bs else b ∷ escape bs

-- Inside a subnegotiation that has collected `buf`.
abbrev in_body : Slot → List ℕ → Slot
in_body s buf = record s { iac = in_sb; sb_buf = buf }

push :
    (s : Slot) (buf : List ℕ) (b : ℕ)
    → length buf ≤ 8
    → sb_push (in_body s buf) b ≡ in_body s (take 8 (buf ++ (b ∷ [])))
unfolding sb_push
push s buf b short = ground (
  arith,
  take-all 8 (buf ++ (b ∷ [])),
  take-append_full 8 buf (b ∷ []),
  length-append buf (b ∷ []),
)

plain_byte :
    (g : Config) (s : Slot) (buf : List ℕ) (b : ℕ)
    → length buf ≤ 8
    → (b == 255) ≡ false
    → telnet_in g (in_body s buf) b ≡ (in_body s (take 8 (buf ++ (b ∷ []))), [])
unfolding telnet_in dispatch
plain_byte g s buf b short h = rw (h, push s buf b short)

pushed_iac :
    (s : Slot) (buf : List ℕ)
    → length buf ≤ 8
    → record (sb_push (record s { iac = in_sb_iac; sb_buf = buf }) iac_byte) { iac = in_sb }
      ≡ in_body s (take 8 (buf ++ (255 ∷ [])))
unfolding sb_push
pushed_iac s buf short = ground (
  arith,
  take-all 8 (buf ++ (255 ∷ [])),
  take-append_full 8 buf (255 ∷ []),
  length-append buf (255 ∷ []),
)

doubled_byte :
    (g : Config) (s : Slot) (buf rest : List ℕ)
    → length buf ≤ 8
    → telnet_run g (in_body s buf) (255 ∷ 255 ∷ rest)
      ≡ telnet_run g (in_body s (take 8 (buf ++ (255 ∷ [])))) rest
unfolding telnet_run telnet_in dispatch
doubled_byte g s buf rest short = ap (λ t. telnet_run g t rest) (pushed_iac s buf short)

-- A doubled body is collected undoubled, as far as `sb_buf[8]` has room.
run_body :
    (g : Config) (s : Slot) (buf body rest : List ℕ)
    → length buf ≤ 8
    → telnet_run g (in_body s buf) (escape body ++ rest)
      ≡ telnet_run g (in_body s (take 8 (buf ++ body))) rest
unfolding telnet_run
run_body g s buf [] rest short = rw (append-nil, take-all 8 buf short)
run_body g s buf (b ∷ body) rest short = elim (Bool-cases (b == 255)) [
  | inl h ↦
      let e : b ≡ 255 = (==_iff b 255).0 h in
      let next = take 8 (buf ++ (255 ∷ [])) in
      let tail = run_body g s next body rest (omega (arith, length-take 8 (buf ++ (255 ∷ [])))) in
      rw e (
        doubled_byte g s buf (escape body ++ rest) short
        ∙ (tail
            ∙ ap (λ t. telnet_run g (in_body s t) rest)
                (take-append-take 8 (buf ++ (255 ∷ [])) body
                  ∙ ap (take 8) (append_assoc buf (255 ∷ []) body))))
  | inr h ↦
      let next = take 8 (buf ++ (b ∷ [])) in
      let tail = run_body g s next body rest (omega (arith, length-take 8 (buf ++ (b ∷ [])))) in
      rw (
        h,
        plain_byte g s buf b short h,
        tail,
        take-append-take 8 (buf ++ (b ∷ [])) body,
        append_assoc,
      )
]

-- What a subnegotiation that ends with IAC SE does: `sb_done` on the body's first eight bytes.
ends :
    (g : Config) (s : Slot) (buf : List ℕ)
    → telnet_run g (in_body s buf) (255 ∷ 240 ∷ []) ≡ (
        let (t, events) = sb_done (record s { iac = in_sb_iac; sb_buf = buf }) in
        (record t { iac = in_data }, events ++ []))
unfolding telnet_run telnet_in dispatch
ends g s buf = refl

-- A whole subnegotiation from the client: IAC SB, the doubled body, IAC SE.
abbrev pub subnegotiation : List ℕ → List ℕ
subnegotiation body = 255 ∷ 250 ∷ (escape body ++ (255 ∷ 240 ∷ []))

opens :
    (g : Config) (s : Slot) (rest : List ℕ)
    → telnet_run g (record s { iac = in_data }) (255 ∷ 250 ∷ rest)
      ≡ telnet_run g (in_body s []) rest
unfolding telnet_run telnet_in dispatch
opens g s rest = refl

-- From the data state, a subnegotiation whose body has any bytes, each 255 doubled on the wire, is
-- collected undoubled up to eight bytes, handed to `sb_done` once, and leaves the slot in the
-- data state; nothing of it reaches the keyboard or the password line.
pub run-subnegotiation :
    (g : Config) (s : Slot) (body : List ℕ)
    → telnet_run g (record s { iac = in_data }) (subnegotiation body) ≡ (
      record (sb_done (record s { sb_buf = take 8 body })).0 { iac = in_data },
      (sb_done (record s { sb_buf = take 8 body })).1,
    )
unfolding sb_done
run-subnegotiation g s body =
    rw
      (
        opens g s (escape body ++ (255 ∷ 240 ∷ [])),
        run_body g s [] body (255 ∷ 240 ∷ []) (omega arith),
        ends g s (take 8 body),
        append-nil,
      )
      (ground arith)

-- The body of a window-size report (RFC 1073).
abbrev pub naws_body : ℕ → ℕ → List ℕ
naws_body w h = opt_naws ∷ w / 256 ∷ w % 256 ∷ h / 256 ∷ h % 256 ∷ []

abbrev pub is_admitted : Auth → Bool
is_admitted au_ok = true
is_admitted au_pw = false

-- A window report of any 16-bit width and height, sent with its 255s doubled, is recorded exactly;
-- it asks for one full repaint if the slot is admitted, had reported a size before and the new
-- size differs from it, and for nothing otherwise.
pub run-naws :
    (g : Config) (s : Slot) (w h : ℕ)
    → w < 2 ^ 16
    → h < 2 ^ 16
    → let r = telnet_run g (record s { iac = in_data }) (subnegotiation (naws_body w h)) in
      (r.0.naws_w ≡ w)
      × (r.0.naws_h ≡ h)
      × (r.1 ≡ (
          if is_admitted s.au_state
            && (not (s.naws_w == 0) || not (s.naws_h == 0))
            && (not (w == s.naws_w) || not (h == s.naws_h))
          then repaint ∷ []
          else []))
unfolding sb_done
run-naws g s w h hw hh = rw (run-subnegotiation g s (naws_body w h)) (ground arith)
