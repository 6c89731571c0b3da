-- ===== src/Telnet/Negotiation.antt =====
-- The option negotiation of dosshd/telnet.c after the opening hello.
use dossh.Base.{
  ℕ, zero, suc, ◌≤◌, true, false, not, ◌&&◌, ◌||◌, List, [], ◌∷◌, ◌≡◌, refl, arith, length, ◌==◌,
  if◌then◌else◌, length-append, Bool-cases, inl, inr, bit_and,
}
use dossh.Telnet.{
  Event, put, Iac, in_data, after_iac, after_verb, in_sb, in_sb_iac, Slot, Config, iac_byte, will,
  wont, do_it, dont, opt_binary, opt_echo, opt_sga, opt_naws, option_bit, drop_last, feed_data,
  telnet_begin, ours, respond_do, respond_will, respond, sb_push, sb_done, dispatch, telnet_in,
  telnet_run,
}

-- What a slot holds once the hello is out: echo, suppress-go-ahead and binary are asserted on our
-- side, the latter two asked of the client; and the collectors fit their arrays `sb_buf[8]` and
-- `au_buf[32]`, the password's NUL included.
pub record IsGreeted (s : Slot) : Type 0 where
  pub asserted : s.willed ≡ 11
  pub asked : s.doed ≡ 9
  pub sb_fits : length s.sb_buf ≤ 8
  pub au_fits : length s.au_buf ≤ 31

drop_last-length : (xs : List ℕ) → length (drop_last xs) ≤ length xs
unfolding drop_last
drop_last-length [] = omega arith
drop_last-length (x ∷ []) = omega arith
drop_last-length (x ∷ y ∷ ys) = omega (arith, drop_last-length (y ∷ ys))

feed_data-IsGreeted : (g : Config) (s : Slot) (b : ℕ) → IsGreeted s → IsGreeted (feed_data g s b).0
unfolding feed_data
feed_data-IsGreeted g s b v =
    ground (arith, drop_last-length s.au_buf, length-append s.au_buf (b ∷ []))

sb_push-IsGreeted : (s : Slot) (b : ℕ) → IsGreeted s → IsGreeted (sb_push s b)
unfolding sb_push
sb_push-IsGreeted s b v = ground (arith, length-append s.sb_buf (b ∷ []))

sb_done-IsGreeted : (s : Slot) → IsGreeted s → IsGreeted (sb_done s).0
unfolding sb_done
sb_done-IsGreeted s v = ground arith

-- The answer to a verb and an option: WONT to a DO of an option that is not served, DONT to a WILL of
-- one that is not wanted, DONT to every WONT, WONT to every DONT, and otherwise nothing.
pub refusal : ℕ → ℕ → List Event
refusal v opt =
    if v == do_it && not (opt == opt_echo || opt == opt_sga || opt == opt_binary)
    then put iac_byte ∷ put wont ∷ put opt ∷ []
    else if v == will && not (opt == opt_sga || opt == opt_binary || opt == opt_naws)
    then put iac_byte ∷ put dont ∷ put opt ∷ []
    else if v == wont
    then put iac_byte ∷ put dont ∷ put opt ∷ []
    else if v == dont
    then put iac_byte ∷ put wont ∷ put opt ∷ []
    else []

ours_asserted : (opt : ℕ) → ours opt ≡ true → (bit_and 11 (option_bit opt) == 0) ≡ false
unfolding ours
ours_asserted zero h = refl
ours_asserted (suc zero) h = refl
ours_asserted (suc (suc zero)) h = absurd (ground arith)
ours_asserted (suc (suc (suc zero))) h = refl
ours_asserted (suc (suc (suc (suc n)))) h = absurd (ground arith)

theirs_asked :
    (opt : ℕ)
    → (opt == opt_sga || opt == opt_binary) ≡ true
    → (bit_and 9 (option_bit opt) == 0) ≡ false
theirs_asked zero h = refl
theirs_asked (suc zero) h = absurd (ground arith)
theirs_asked (suc (suc zero)) h = absurd (ground arith)
theirs_asked (suc (suc (suc zero))) h = refl
theirs_asked (suc (suc (suc (suc n)))) h = absurd (ground arith)

asserted_bit : (w opt : ℕ) → w ≡ 11 → ours opt ≡ true → (bit_and w (option_bit opt) == 0) ≡ false
asserted_bit w opt e h = rw e (ours_asserted opt h)

asked_bit :
    (d opt : ℕ)
    → d ≡ 9
    → (opt == opt_sga || opt == opt_binary) ≡ true
    → (bit_and d (option_bit opt) == 0) ≡ false
asked_bit d opt e h = rw e (theirs_asked opt h)

respond_do-refusal : (s : Slot) (opt : ℕ) → IsGreeted s → respond_do s opt ≡ (s, refusal do_it opt)
unfolding respond_do refusal ours
respond_do-refusal s opt v = elim (Bool-cases (ours opt)) [
  | inl h ↦ rw (h, asserted_bit s.willed opt v.asserted h)
  | inr h ↦ rw h
]

respond_will-refusal :
    (s : Slot) (opt : ℕ) → IsGreeted s → respond_will s opt ≡ (s, refusal will opt)
unfolding respond_will refusal
respond_will-refusal s opt v = elim (Bool-cases (opt == opt_sga || opt == opt_binary)) [
  | inl h ↦ rw (h, asked_bit s.doed opt v.asked h) (ground arith)
  | inr h ↦ rw h (ground arith)
]

respond-refusal : (s : Slot) (v opt : ℕ) → IsGreeted s → respond s v opt ≡ (s, refusal v opt)
unfolding respond refusal
respond-refusal s v opt greeted =
    ground (arith, respond_do-refusal s opt greeted, respond_will-refusal s opt greeted)

dispatch-IsGreeted :
    (g : Config) (s : Slot) (b : ℕ) (i : Iac) → IsGreeted s → IsGreeted (dispatch g s b i).0
unfolding dispatch
dispatch-IsGreeted g s b in_data v = ground (arith, feed_data-IsGreeted g s b v)
dispatch-IsGreeted g s b after_iac v = ground (arith, feed_data-IsGreeted g s iac_byte v)
dispatch-IsGreeted g s b after_verb v = ground (arith, respond-refusal s s.verb b v)
dispatch-IsGreeted g s b in_sb v = ground (arith, sb_push-IsGreeted s b v)
dispatch-IsGreeted g s b in_sb_iac v =
    ground (arith, sb_push-IsGreeted s iac_byte v, sb_done-IsGreeted s v)

telnet_run-IsGreeted :
    (g : Config) (s : Slot) (bs : List ℕ) → IsGreeted s → IsGreeted (telnet_run g s bs).0
unfolding telnet_run telnet_in
telnet_run-IsGreeted g s [] v = v
telnet_run-IsGreeted g s (b ∷ bs) v =
    telnet_run-IsGreeted g (telnet_in g s b).0 bs (dispatch-IsGreeted g s b s.iac v)

-- A slot that was set up and has then read the bytes.
abbrev pub after_begin : Config → Slot → List ℕ → Slot
after_begin g s bs = (telnet_run g (telnet_begin g s).0 bs).0

-- The hello of `telnet_begin` greets the slot, and every further byte keeps it greeted: what was
-- asserted stays asserted, and neither collector outgrows its array.
pub telnet_begin-IsGreeted : (g : Config) (s : Slot) (bs : List ℕ) → IsGreeted (after_begin g s bs)
unfolding telnet_begin
telnet_begin-IsGreeted g s bs = telnet_run-IsGreeted g (telnet_begin g s).0 bs (ground arith)

-- After any bytes since `telnet_begin`, the option behind a verb of the client is answered by exactly what
-- `refusal` says: by WONT, by DONT or not at all, never by WILL or DO; and the slot keeps all its
-- state but that the command is over. A WONT and a DONT are answered each time they come.
pub negotiation-refusal :
    (g : Config) (s : Slot) (bs : List ℕ) (opt : ℕ)
    → (after_begin g s bs).iac ≡ after_verb
    → telnet_in g (after_begin g s bs) opt
      ≡ (record (after_begin g s bs) { iac = in_data }, refusal (after_begin g s bs).verb opt)
unfolding telnet_in dispatch
negotiation-refusal g s bs opt e = settled (after_begin g s bs) e (telnet_begin-IsGreeted g s bs)
  where
    settled :
        (t : Slot)
        → t.iac ≡ after_verb
        → IsGreeted t
        → telnet_in g t opt ≡ (record t { iac = in_data }, refusal t.verb opt)
    settled t e v = ground (arith, respond-refusal t t.verb opt v)
