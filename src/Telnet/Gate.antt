-- ===== src/Telnet/Gate.antt =====
-- The password gate of dosshd/telnet.c: who may drive the keyboard and see the screen.
use mathlib.Core.Path.{ap}
use dossh.Base.{
  ℕ, Bool, true, false, List, [], ◌∷◌, ◌++◌, map, ◌≡◌, inl, inr, refl, arith, same_bytes_sound, any,
  any-append, codes, Bool-cases,
}
use dossh.Telnet.{
  Event, put, ready, drop_slot, key, repaint, Iac, in_data, after_iac, after_verb, in_sb, in_sb_iac,
  au_pw, Slot, Config, iac_byte, au_check, feed_password, feed_data, respond, sb_done, dispatch,
  telnet_in, telnet_run,
}

-- The calls that hand the machine to the client: a keystroke, the broadcast, a repaint for it.
abbrev pub exposes : Event → Bool
exposes (put b) = false
exposes ready = true
exposes drop_slot = false
exposes (key b) = true
exposes repaint = true

map_put_hides : (bs : List ℕ) → any exposes (map put bs) ≡ false
map_put_hides [] = refl
map_put_hides (b ∷ bs) = map_put_hides bs

-- One step at the password prompt either opens the gate on a matching line, or exposes nothing
-- and stays at the prompt.
record IsGated (g : Config) (s : Slot) (b : ℕ) (r : Slot × List Event) : Type 0 where
  shut : (r.0.au_state ≡ au_pw) → any exposes r.1 ≡ false
  opened : (any exposes r.1 ≡ true) → (b ≡ 13) × (s.au_buf ≡ g.password)
  stays : (any exposes r.1 ≡ false) → r.0.au_state ≡ au_pw

au_check-IsGated : (g : Config) (s : Slot) → s.au_state ≡ au_pw → IsGated g s 13 (au_check g s)
unfolding au_check
au_check-IsGated g s p =
    ground
      (arith, same_bytes_sound s.au_buf g.password, map_put_hides (codes "\r\nAccess denied.\r\n"))

feed_password-IsGated :
    (g : Config) (s : Slot) (b : ℕ) → s.au_state ≡ au_pw → IsGated g s b (feed_password g s b)
unfolding feed_password
feed_password-IsGated g s b p = ground (arith, au_check-IsGated g s p)

feed_data-IsGated :
    (g : Config) (s : Slot) (b : ℕ) → s.au_state ≡ au_pw → IsGated g s b (feed_data g s b)
unfolding feed_data
feed_data-IsGated g s b p = ground (arith, feed_password-IsGated g s b p)

respond-IsGated :
    (g : Config) (s : Slot) (v opt b : ℕ) → s.au_state ≡ au_pw → IsGated g s b (respond s v opt)
unfolding respond
respond-IsGated g s v opt b p = ground arith

sb_done-IsGated : (g : Config) (s : Slot) (b : ℕ) → s.au_state ≡ au_pw → IsGated g s b (sb_done s)
unfolding sb_done
sb_done-IsGated g s b p = ground arith

dispatch-IsGated :
    (g : Config) (s : Slot) (b : ℕ) (i : Iac)
    → s.au_state ≡ au_pw
    → IsGated g s b (dispatch g s b i)
unfolding dispatch
dispatch-IsGated g s b in_data p = ground (arith, feed_data-IsGated g s b p)
dispatch-IsGated g s b after_iac p = ground (arith, feed_data-IsGated g s iac_byte p)
dispatch-IsGated g s b after_verb p = ground (arith, respond-IsGated g s s.verb b b p)
dispatch-IsGated g s b in_sb p = ground arith
dispatch-IsGated g s b in_sb_iac p = ground (arith, sb_done-IsGated g s b p)

telnet_in-IsGated :
    (g : Config) (s : Slot) (b : ℕ) → s.au_state ≡ au_pw → IsGated g s b (telnet_in g s b)
unfolding telnet_in
telnet_in-IsGated g s b p = dispatch-IsGated g s b s.iac p

-- The bytes up to the one that opened the gate.
pub record Opening (g : Config) (s : Slot) (bs : List ℕ) : Type 0 where
  pub before : List ℕ
  pub after : List ℕ
  pub splits : bs ≡ before ++ (13 ∷ after)
  pub hidden : any exposes (telnet_run g s before).1 ≡ false
  pub typed : (telnet_run g s before).0.au_buf ≡ g.password

-- From the password prompt, whatever bytes a client sends: if any of them led to a keystroke, to
-- the broadcast or to a repaint, then one of them was a CR before which nothing of the kind had
-- happened and at which the line collected for the slot was the password.
pub telnet_run-Opening :
    (g : Config) (s : Slot) (bs : List ℕ)
    → s.au_state ≡ au_pw
    → any exposes (telnet_run g s bs).1 ≡ true
    → Opening g s bs
unfolding telnet_run
telnet_run-Opening g s [] p h = absurd (ground arith)
telnet_run-Opening g s (b ∷ bs) p h = elim (Bool-cases (any exposes (telnet_in g s b).1)) [
  | inl now ↦
      let (cr, line) = (telnet_in-IsGated g s b p).opened now in
      record { before = []; after = bs; splits = ap (λ c. c ∷ bs) cr; hidden = refl; typed = line }
  | inr later ↦
      let tail =
        telnet_run-Opening g (telnet_in g s b).0 bs ((telnet_in-IsGated g s b p).stays later)
          (rw (any-append, later) at h) in
      record {
        before = b ∷ tail.before;
        after = tail.after;
        splits = ap (λ t. b ∷ t) tail.splits;
        hidden = rw (any-append, later) tail.hidden;
        typed = tail.typed;
      }
]
