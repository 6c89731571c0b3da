-- ===== src/Keys/Tables.antt =====
-- The keyboard tables of dosshd/ansikey.c: the US-layout scancodes that `ansi_key_init` builds,
-- and the extended keys of the CSI and SS3 sequences.
use dossh.Base.{ℕ, ◌+◌, List, [], ◌∷◌, codes, u8, set, replicate, ◌==◌, if◌then◌else◌}

-- `inject_key(scan, ascii)` and `request_reboot()`, which dosshd.c provides.
pub data KeyEvent : Type 0 where
  inject : ℕ → ℕ → KeyEvent
  reboot : KeyEvent

-- The static arrays `scan[128]` and `unshift[128]`.
pub record KeyTables : Type 0 where
  pub scan : List ℕ
  pub unshift : List ℕ

-- One row of keys takes consecutive make codes from `base`.
pub fill_row : List ℕ → ℕ → List ℕ → List ℕ
fill_row tab base [] = tab
fill_row tab base (c ∷ cs) = fill_row (set tab c (u8 base)) (base + 1) cs

-- The shifted characters and their unshifted ones, pair by pair.
pub fill_shift : List ℕ → List ℕ → List ℕ → List ℕ
fill_shift tab [] bs = tab
fill_shift tab (s ∷ ss) [] = tab
fill_shift tab (s ∷ ss) (b ∷ bs) = fill_shift (set tab s b) ss bs

-- The tables start zeroed, as static data does.
unfoldable pub ansi_key_init : KeyTables
unfolding fill_row fill_shift
ansi_key_init =
    let r0 = fill_row (replicate 128 0) 0x02 (codes "1234567890-=") in
    let r1 = fill_row r0 0x10 (codes "qwertyuiop[]") in
    let r2 = fill_row r1 0x1E (codes "asdfghjkl;'`") in
    let r3 = fill_row r2 0x2B (codes "\\zxcvbnm,./") in
    record {
      scan = set r3 b' ' 0x39;
      unshift =
          fill_shift (replicate 128 0) (codes "!@#$%^&*()_+{}:\"~<>?|")
            (codes "1234567890-=[];'`,./\\");
    }

-- The final byte of `ESC [ final`; 0 is no key.
unfoldable pub csi_final : ℕ → ℕ
csi_final f =
    if f == b'A'
    then 0x48
    else if f == b'B'
    then 0x50
    else if f == b'C'
    then 0x4D
    else if f == b'D'
    then 0x4B
    else if f == b'H'
    then 0x47
    else if f == b'F'
    then 0x4F
    else 0

-- A `switch` as a list of its cases, the value of the first that fits.
abbrev pub select : List (ℕ × ℕ) → ℕ → ℕ
select [] n = 0
select ((k, v) ∷ cs) n = if n == k then v else select cs n

-- The number of `ESC [ n ~`.
unfoldable pub csi_tilde : ℕ → ℕ
csi_tilde n =
    select
      ((1, 0x47)
        ∷ (2, 0x52)
        ∷ (3, 0x53)
        ∷ (4, 0x4F)
        ∷ (5, 0x49)
        ∷ (6, 0x51)
        ∷ (11, 0x3B)
        ∷ (12, 0x3C)
        ∷ (13, 0x3D)
        ∷ (14, 0x3E)
        ∷ (15, 0x3F)
        ∷ (17, 0x40)
        ∷ (18, 0x41)
        ∷ (19, 0x42)
        ∷ (20, 0x43)
        ∷ (21, 0x44)
        ∷ (23, 0x57)
        ∷ (24, 0x58)
        ∷ [])
      n

-- The final byte of `ESC O final`.
unfoldable pub ss3_final : ℕ → ℕ
ss3_final f =
    select
      ((b'P', 0x3B) ∷ (b'Q', 0x3C) ∷ (b'R', 0x3D) ∷ (b'S', 0x3E) ∷ (b'H', 0x47) ∷ (b'F', 0x4F) ∷ [])
      f
