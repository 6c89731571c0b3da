-- ===== src/Keys.antt =====
-- dosshd/ansikey.c: raw terminal bytes become BIOS keystrokes. A function returns the new state
-- and the calls that it makes, in order: `inject_key` and `request_reboot`.
-- The tables are those of `ansi_key_init`, which runs before the program goes resident.
pub mod Tables
pub mod Typed
pub mod Escape
pub mod Sentinel
use dossh.Base.{
  ℕ, zero, suc, ◌+◌, ◌-◌, ◌*◌, Bool, true, false, ◌&&◌, ◌||◌, List, [], ◌∷◌, ◌++◌, u8, u16, length,
  get_or, drop, ltb, leb, ◌==◌, if◌then◌else◌,
}
use Tables.{KeyEvent, inject, reboot, ansi_key_init, csi_final, csi_tilde, ss3_final}

-- The file's static state: `pend[0..pendlen)`, `pend_age`, `swallow`, `rb_state`.
pub record Keys : Type 0 where
  pub pend : List ℕ
  pub pend_age : ℕ
  pub swallow : Bool
  pub rb_state : ℕ

-- The state at load time.
abbrev pub start : Keys
start = record { pend = []; pend_age = 0; swallow = false; rb_state = 0 }

-- `if( sc ) inject_key( sc, ascii )`
pub inject_if : ℕ → ℕ → List KeyEvent
inject_if sc ascii = if sc == 0 then [] else inject sc ascii ∷ []

pub map_byte : ℕ → List KeyEvent
unfolding inject_if
map_byte b =
    let base = get_or ansi_key_init.unshift b 0 in
    let key = if base == 0 then (if leb b'A' b && leb b b'Z' then u8 (b + 32) else b) else base in
    if b == 0x0D || b == 0x0A
    then inject 0x1C 0x0D ∷ []
    else if b == 0x09
    then inject 0x0F 0x09 ∷ []
    else if b == 0x7F || b == 0x08
    then inject 0x0E 0x08 ∷ []
    else if leb 32 b && ltb b 127
    then inject_if (get_or ansi_key_init.scan key 0) b
    else if leb 1 b && leb b 26
    then inject_if (get_or ansi_key_init.scan (b + 96) 0) b
    else []

abbrev pub is_digit : ℕ → Bool
is_digit c = leb b'0' c && leb c b'9'

-- The loop of `finish_csi`: the decimal number in front, in an `unsigned`.
pub csi_number : ℕ → List ℕ → ℕ
csi_number n [] = n
csi_number n (c ∷ cs) =
    let rest = csi_number (u16 (u16 (n * 10) + (c - b'0'))) cs in if is_digit c then rest else n

pub finish_csi : List ℕ → ℕ → List KeyEvent
unfolding csi_number inject_if
finish_csi pend final =
    inject_if (if final == b'~' then csi_tilde (csi_number 0 (drop 2 pend)) else csi_final final) 0

-- `pendlen == 0`: a plain byte, or the start of an escape sequence.
pub idle_byte : Keys → ℕ → Keys × List KeyEvent
unfolding map_byte
idle_byte s b =
    if b == 0x1B
    then (record s { pend = 0x1B ∷ []; pend_age = 0 }, [])
    else if b == 0x0D
    then (record s { swallow = true }, inject 0x1C 0x0D ∷ [])
    else (s, map_byte b)

-- `ESC [` has been read: parameters are kept while `pend[12]` has room, any other byte ends it.
pub csi_byte : Keys → ℕ → Keys × List KeyEvent
unfolding finish_csi
csi_byte s b =
    if is_digit b || b == b';'
    then (if ltb (length s.pend) 12 then record s { pend = s.pend ++ (b ∷ []) } else s, [])
    else (record s { pend = [] }, finish_csi s.pend b)

-- `pendlen > 0`, `pend_age` already cleared. `again` is the function's call of itself.
pub pending_byte : (Keys → ℕ → Keys × List KeyEvent) → Keys → ℕ → Keys × List KeyEvent
unfolding csi_byte inject_if
pending_byte again s b =
    let (s', events) = again (record s { pend = [] }) b in
    if length s.pend == 1
    then (if b == b'[' || b == b'O'
        then (record s { pend = s.pend ++ (b ∷ []) }, [])
        else (s', inject 0x01 0x1B ∷ events))
    else if get_or s.pend 1 0 == b'['
    then csi_byte s b
    else if get_or s.pend 1 0 == b'O'
    then (record s { pend = [] }, inject_if (ss3_final b) 0)
    else (record s { pend = [] }, [])

-- The LF or NUL after a CR is dropped.
pub unswallowed_byte : (Keys → ℕ → Keys × List KeyEvent) → Keys → ℕ → Keys × List KeyEvent
unfolding idle_byte pending_byte
unswallowed_byte again s b =
    let s' = record s { swallow = false } in
    if s.swallow && (b == 0x0A || b == 0x00)
    then (s', [])
    else if length s'.pend == 0
    then idle_byte s' b
    else pending_byte again (record s' { pend_age = 0 }) b

-- The body of `ansi_key_byte`: first the warm-reboot sentinel.
pub key_body : (Keys → ℕ → Keys × List KeyEvent) → Keys → ℕ → Keys × List KeyEvent
unfolding unswallowed_byte
key_body again s b =
    let s' = record s { rb_state = 0 } in
    if b == 0x1E
    then (record s { rb_state = if ltb s.rb_state 3 then s.rb_state + 1 else s.rb_state }, [])
    else if leb 3 s.rb_state && (b == b'Y' || b == b'y')
    then (s', reboot ∷ [])
    else unswallowed_byte again s' b

-- The call of itself is made with `pendlen == 0`, where no further call is made: two levels are
-- the whole recursion (`Escape.ansi_key_byte-eq-key_body`).
abbrev pub unnested_byte : Keys → ℕ → Keys × List KeyEvent
unnested_byte = key_body (λ s b. (s, []))

pub ansi_key_byte : Keys → ℕ → Keys × List KeyEvent
unfolding key_body
ansi_key_byte = key_body unnested_byte

pub ansi_key_tick : Keys → Keys × List KeyEvent
ansi_key_tick s =
    let aged = record s { pend_age = s.pend_age + 1 } in
    if length s.pend == 0
    then (s, [])
    else if leb 2 aged.pend_age
    then (record aged { pend = [] }, if length s.pend == 1 then inject 0x01 0x1B ∷ [] else [])
    else (aged, [])

-- The bytes of a stream, one after the other.
pub feed : Keys → List ℕ → Keys × List KeyEvent
feed s [] = (s, [])
feed s (b ∷ bs) =
    let (s', events) = ansi_key_byte s b in let (s'', rest) = feed s' bs in (s'', events ++ rest)
