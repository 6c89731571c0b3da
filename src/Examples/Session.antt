-- ===== src/Examples/Session.antt =====
-- Telnet sessions: dosshd/telnet.c.
use dossh.Base.{ℕ, true, false, List, [], ◌∷◌, ◌++◌, ◌≡◌, refl, arith, any, codes}
use dossh.Telnet.{
  ready, repaint, in_data, after_verb, au_ok, au_pw, Slot, Config, telnet_run, telnet_in,
  telnet_set_password, telnet_begin, dispatch, feed_data, feed_password, feed_admitted, au_check,
  au_say, drop_last, telnet_hello, telnet_reset, put3,
}
use dossh.Telnet.Gate.{exposes, Opening, telnet_run-Opening}
use dossh.Telnet.Password.{at_prompt, verdict, telnet_run-verdict, set_password-admits}
use dossh.Telnet.Negotiation.{
  refusal, after_begin, IsGreeted, telnet_begin-IsGreeted, negotiation-refusal,
}
use dossh.Telnet.Subnegotiation.{subnegotiation, naws_body, run-naws}

-- A server with the password `dos`, and a slot at its prompt.
abbrev guarded : Config
guarded = record { password = codes "dos"; eof_exit = false }

abbrev asked : Slot
asked = record {
  iac = in_data;
  verb = 0;
  willed = 11;
  doed = 9;
  sb_buf = [];
  naws_w = 80;
  naws_h = 25;
  au_state = au_pw;
  au_buf = [];
  au_tries = 1;
}

-- The line `dox`, corrected to `dos`, and a keystroke.
abbrev typed : List ℕ
typed = codes "dox" ++ (8 ∷ b's' ∷ 13 ∷ b'd' ∷ [])

typed-exposes : any exposes (telnet_run guarded asked typed).1 ≡ true
unfolding telnet_run telnet_in dispatch feed_data feed_password feed_admitted au_check au_say
    drop_last
typed-exposes = refl

after_do : (after_begin guarded asked (255 ∷ 253 ∷ [])).iac ≡ after_verb
unfolding telnet_run telnet_in dispatch telnet_begin telnet_hello telnet_reset au_say put3
after_do = refl

telnet_run-Opening_example : Opening guarded asked typed
telnet_run-Opening_example = telnet_run-Opening guarded asked typed refl typed-exposes

telnet_run-verdict_example :
    telnet_run guarded (at_prompt asked []) (codes "sesame" ++ (13 ∷ []))
    ≡ verdict guarded asked (codes "sesame")
telnet_run-verdict_example = telnet_run-verdict guarded asked (codes "sesame") refl (omega arith)

set_password-admits_example :
    telnet_run
      (telnet_set_password guarded (codes "sesame"))
      (at_prompt asked [])
      (codes "sesame" ++ (13 ∷ []))
    ≡ (record (at_prompt asked []) { au_state = au_ok }, ready ∷ repaint ∷ [])
set_password-admits_example = set_password-admits guarded asked (codes "sesame") refl (omega arith)

telnet_begin-IsGreeted_example :
    IsGreeted (after_begin guarded asked (255 ∷ 250 ∷ 31 ∷ 0 ∷ 255 ∷ 240 ∷ b'd' ∷ []))
telnet_begin-IsGreeted_example =
    telnet_begin-IsGreeted guarded asked (255 ∷ 250 ∷ 31 ∷ 0 ∷ 255 ∷ 240 ∷ b'd' ∷ [])

negotiation-refusal_example : telnet_in guarded (after_begin guarded asked (255 ∷ 253 ∷ [])) 39 ≡ (
  record (after_begin guarded asked (255 ∷ 253 ∷ [])) { iac = in_data },
  refusal (after_begin guarded asked (255 ∷ 253 ∷ [])).verb 39,
)
negotiation-refusal_example = negotiation-refusal guarded asked (255 ∷ 253 ∷ []) 39 after_do

run-naws_example :
    let r =
      telnet_run guarded (record asked { iac = in_data }) (subnegotiation (naws_body 255 50)) in
    (r.0.naws_w ≡ 255) × (r.0.naws_h ≡ 50) × (r.1 ≡ [])
run-naws_example = run-naws guarded asked 255 50 (omega arith) (omega arith)
