-- ===== src/Resident/Ring.antt =====
-- `inject_key` of dosshd/dosshd.c: the type-ahead ring of the BIOS.
pub mod Queue
use dossh.Base.{ℕ, ◌+◌, ◌*◌, Bool, ◌||◌, ltb, leb, ◌==◌, if◌then◌else◌, update, u16}

-- The words of segment 40h by their offset; the ring's are at even distances from its start.
abbrev pub Bios : Type 0
Bios = ℕ → ℕ

abbrev pub head_at : ℕ
head_at = 0x1A

abbrev pub tail_at : ℕ
tail_at = 0x1C

-- The words at 80h and 82h are the ring's bounds, unless they make no sense.
abbrev pub is_fixed : Bios → Bool
is_fixed b = ltb (b 0x80) 0x1E || leb (b 0x82) (b 0x80)

unfoldable pub ring_start : Bios → ℕ
ring_start b = if is_fixed b then 0x1E else b 0x80

unfoldable pub ring_end : Bios → ℕ
ring_end b = if is_fixed b then 0x3E else b 0x82

-- The slot behind `p`.
unfoldable pub next_slot : Bios → ℕ → ℕ
next_slot b p = if leb (ring_end b) (u16 (p + 2)) then ring_start b else u16 (p + 2)

-- A key for which the ring has no room is dropped.
unfoldable pub inject_key : ℕ → ℕ → Bios → Bios
inject_key scan ascii b =
    if next_slot b (b tail_at) == b head_at
    then b
    else update (update b (b tail_at) (scan * 256 + ascii)) tail_at (next_slot b (b tail_at))
