-- ===== src/Telnet.antt =====
-- dosshd/telnet.c: the telnet server glue. The file's arrays are indexed by the connection slot,
-- and every function reads and writes the entries of one slot only: `Slot` is one slot's entries.
-- A function returns the slot's new entries and the calls it makes for the slot, in order.
pub mod Gate
pub mod Password
pub mod Negotiation
pub mod Subnegotiation
use dossh.Base.{
  ℕ, zero, suc, ◌+◌, ◌-◌, ◌*◌, ◌^◌, Bool, true, false, not, ◌&&◌, ◌||◌, List, [], ◌∷◌, ◌++◌, map,
  u8, length, get_or, codes, ltb, leb, ◌==◌, if◌then◌else◌, same_bytes, bit_and, bit_or,
}

-- `net_tx_putc_slot`, `net_slot_ready(i, 1)`, `net_slot_drop`, `ansi_key_byte`, `render_reset`.
pub data Event : Type 0 where
  put : ℕ → Event
  ready : Event
  drop_slot : Event
  key : ℕ → Event
  repaint : Event

abbrev pub iac_byte : ℕ
iac_byte = 255

abbrev pub se : ℕ
se = 240

abbrev pub sb : ℕ
sb = 250

abbrev pub will : ℕ
will = 251

abbrev pub wont : ℕ
wont = 252

abbrev pub do_it : ℕ
do_it = 253

abbrev pub dont : ℕ
dont = 254

abbrev pub opt_binary : ℕ
opt_binary = 0

abbrev pub opt_echo : ℕ
opt_echo = 1

abbrev pub opt_sga : ℕ
opt_sga = 3

abbrev pub opt_naws : ℕ
opt_naws = 31

-- `iac`: the inbound state machine.
pub data Iac : Type 0 where
  in_data after_iac after_verb in_sb in_sb_iac : Iac

-- `AU_OK` and `AU_PW`
pub data Auth : Type 0 where
  au_ok au_pw : Auth

-- `sb_buf[0..sb_len)` and `au_buf[0..au_len)` are lists.
pub record Slot : Type 0 where
  pub iac : Iac
  pub verb : ℕ
  pub willed : ℕ
  pub doed : ℕ
  pub sb_buf : List ℕ
  pub naws_w : ℕ
  pub naws_h : ℕ
  pub au_state : Auth
  pub au_buf : List ℕ
  pub au_tries : ℕ

-- `g_password` up to its NUL, and `g_eof_exit`.
pub record Config : Type 0 where
  pub password : List ℕ
  pub eof_exit : Bool

unfoldable pub put3 : ℕ → ℕ → ℕ → List Event
put3 a b c = put a ∷ put b ∷ put c ∷ []

unfoldable pub telnet_reset : Slot → Slot
telnet_reset s = record s {
  iac = in_data;
  willed = 0;
  doed = 0;
  sb_buf = [];
  naws_w = 0;
  naws_h = 0;
}

unfoldable pub telnet_hello : Slot → Slot × List Event
unfolding put3
telnet_hello s = (
  record s {
    willed = bit_or (bit_or (2 ^ opt_echo) (2 ^ opt_sga)) (2 ^ opt_binary);
    doed = bit_or (2 ^ opt_sga) (2 ^ opt_binary);
  },
  put3 iac_byte will opt_echo
      ++ (put3 iac_byte will opt_sga
          ++ (put3 iac_byte do_it opt_sga
              ++ (put3 iac_byte will opt_binary
                  ++ (put3 iac_byte do_it opt_binary ++ put3 iac_byte do_it opt_naws)))),
)

-- The copy loop of `telnet_set_password`: up to the NUL, while `k < sizeof(g_password) - 1`.
pub copy_password : ℕ → List ℕ → List ℕ
copy_password zero cs = []
copy_password (suc room) [] = []
copy_password (suc room) (c ∷ cs) =
    let rest = copy_password room cs in if c == 0 then [] else c ∷ rest

pub telnet_set_password : Config → List ℕ → Config
unfolding copy_password
telnet_set_password g pw = record g { password = copy_password 31 pw }

unfoldable pub au_say : List ℕ → List Event
au_say s = map put s

-- A full password line has arrived.
unfoldable pub au_check : Config → Slot → Slot × List Event
unfolding au_say
au_check g s =
    let tries = u8 (s.au_tries + 1) in
    let failed = record s { au_buf = []; au_tries = tries } in
    if same_bytes s.au_buf g.password
    then (record s { au_state = au_ok; au_buf = [] }, ready ∷ repaint ∷ [])
    else if leb 3 tries
    then (failed, au_say (codes "\r\nAccess denied.\r\n") ++ (drop_slot ∷ []))
    else (failed, au_say (codes "\r\nWrong password.\r\nPassword: "))

-- `au_len--`
unfoldable pub drop_last : List ℕ → List ℕ
drop_last [] = []
drop_last (x ∷ []) = []
drop_last (x ∷ y ∷ ys) = x ∷ drop_last (y ∷ ys)

-- A byte of the password line, at `AU_PW`.
unfoldable pub feed_password : Config → Slot → ℕ → Slot × List Event
unfolding au_check drop_last
feed_password g s b =
    if b == 13
    then au_check g s
    else if b == 10 || b == 0
    then (s, [])
    else if b == 8 || b == 127
    then (record s { au_buf = drop_last s.au_buf }, [])
    else if ltb (length s.au_buf) 31
    then (record s { au_buf = s.au_buf ++ (b ∷ []) }, [])
    else (s, [])

unfoldable pub feed_admitted : Config → Slot → ℕ → Slot × List Event
feed_admitted g s b = if g.eof_exit && b == 4 then (s, drop_slot ∷ []) else (s, key b ∷ [])

-- One decoded data byte.
unfoldable pub feed_data : Config → Slot → ℕ → Slot × List Event
unfolding feed_password feed_admitted
feed_data g s b = elim s.au_state [ au_ok ↦ feed_admitted g s b | au_pw ↦ feed_password g s b ]

-- `if( g_password[0] )`
abbrev pub has_password : Config → Bool
has_password g = not (get_or g.password 0 0 == 0)

unfoldable pub telnet_begin : Config → Slot → Slot × List Event
unfolding telnet_hello telnet_reset au_say
telnet_begin g s0 =
    let (s, hello) = telnet_hello (telnet_reset s0) in
    let opening = hello ++ au_say (27 ∷ codes "[8;25;80t") in
    let fresh = record s { au_buf = []; au_tries = 0 } in
    if has_password g
    then (record fresh { au_state = au_pw }, opening ++ au_say (codes "\r\nPassword: "))
    else (record fresh { au_state = au_ok }, opening ++ (ready ∷ repaint ∷ []))

pub ours : ℕ → Bool
ours opt = opt == opt_echo || opt == opt_sga || opt == opt_binary

-- The bit of an option in `willed` and `doed`.
abbrev pub option_bit : ℕ → ℕ
option_bit opt = if ltb opt 8 then 2 ^ opt else 0

-- The answers to DO and to WILL.
pub respond_do : Slot → ℕ → Slot × List Event
unfolding ours put3
respond_do s opt =
    if ours opt
    then (if bit_and s.willed (option_bit opt) == 0
        then (record s { willed = bit_or s.willed (option_bit opt) }, put3 iac_byte will opt)
        else (s, []))
    else (s, put3 iac_byte wont opt)

pub respond_will : Slot → ℕ → Slot × List Event
unfolding put3
respond_will s opt =
    if opt == opt_sga || opt == opt_binary
    then (if bit_and s.doed (option_bit opt) == 0
        then (record s { doed = bit_or s.doed (option_bit opt) }, put3 iac_byte do_it opt)
        else (s, []))
    else if opt == opt_naws
    then (s, [])
    else (s, put3 iac_byte dont opt)

pub respond : Slot → ℕ → ℕ → Slot × List Event
unfolding respond_do respond_will put3
respond s v opt =
    if v == do_it
    then respond_do s opt
    else if v == will
    then respond_will s opt
    else if v == wont
    then (s, put3 iac_byte dont opt)
    else if v == dont
    then (s, put3 iac_byte wont opt)
    else (s, [])

pub sb_push : Slot → ℕ → Slot
sb_push s b = if ltb (length s.sb_buf) 8 then record s { sb_buf = s.sb_buf ++ (b ∷ []) } else s

abbrev pub be16 : List ℕ → ℕ → ℕ
be16 buf i = get_or buf i 0 * 2 ^ 8 + get_or buf (i + 1) 0

-- A window size that differs from the last one; the first one repaints nothing.
pub sb_done : Slot → Slot × List Event
sb_done s =
    let w = be16 s.sb_buf 1 in
    let h = be16 s.sb_buf 3 in
    let had = not (s.naws_w == 0) || not (s.naws_h == 0) in
    let admitted : Bool = elim s.au_state [ au_ok ↦ true | au_pw ↦ false ] in
    if leb 5 (length s.sb_buf)
      && get_or s.sb_buf 0 0 == opt_naws
      && (not (w == s.naws_w) || not (h == s.naws_h))
    then (record s { naws_w = w; naws_h = h }, if had && admitted then repaint ∷ [] else [])
    else (s, [])

-- The byte after an IAC.
pub command_byte : Config → Slot → ℕ → Slot × List Event
unfolding feed_data
command_byte g s b =
    let (s', events) = feed_data g s iac_byte in
    if b == iac_byte
    then (record s' { iac = in_data }, events)
    else if b == sb
    then (record s { sb_buf = []; iac = in_sb }, [])
    else if leb will b && leb b dont
    then (record s { verb = b; iac = after_verb }, [])
    else (record s { iac = in_data }, [])

-- `telnet_in` in each state of the machine.
unfoldable pub dispatch : Config → Slot → ℕ → Iac → Slot × List Event
unfolding feed_data command_byte respond sb_push sb_done
dispatch g s b in_data =
    if b == iac_byte then (record s { iac = after_iac }, []) else feed_data g s b
dispatch g s b after_iac = command_byte g s b
dispatch g s b after_verb =
    let (s', events) = respond s s.verb b in (record s' { iac = in_data }, events)
dispatch g s b in_sb =
    if b == iac_byte then (record s { iac = in_sb_iac }, []) else (sb_push s b, [])
dispatch g s b in_sb_iac =
    let (s', events) = sb_done s in
    if b == se
    then (record s' { iac = in_data }, events)
    else if b == iac_byte
    then (record (sb_push s iac_byte) { iac = in_sb }, [])
    else (record s { iac = in_sb }, [])

unfoldable pub telnet_in : Config → Slot → ℕ → Slot × List Event
unfolding dispatch
telnet_in g s b = dispatch g s b s.iac

-- A stream of bytes from one client.
unfoldable pub telnet_run : Config → Slot → List ℕ → Slot × List Event
telnet_run g s [] = (s, [])
telnet_run g s (b ∷ bs) =
    let (s', events) = telnet_in g s b in
    let (s'', rest) = telnet_run g s' bs in (s'', events ++ rest)
