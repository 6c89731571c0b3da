-- ===== src/Net/Driver.antt =====
-- The packet driver's side of dosshd/net.c: `net_open`, `net_close` and what they call. The driver and
-- the interrupt vectors are parameters; what is asked of the driver stands in order.
use dossh.Base.{
  ℕ, zero, suc, ◌+◌, Bool, true, false, not, ◌&&◌, List, [], ◌∷◌, Option, none, some, ◌==◌,
  if◌then◌else◌, same_bytes, codes, u8,
}
use dossh.Net.Conn.{Host}
use dossh.Net.Ip.{Net}
use dossh.Net.Link.{close_all}

-- A far pointer.
pub record Far : Type 0 where
  pub seg : ℕ
  pub off : ℕ

abbrev pub is_null : Far → Bool
is_null p = p.seg == 0 && p.off == 0

-- The vectors, eight bytes of memory from a far pointer, and the driver at an interrupt: the handle that
-- `access_type` gives (`none` with the carry flag set), and the address of the board.
pub record Driver : Type 0 where
  pub vect : ℕ → Far
  pub text_at : Far → List ℕ
  pub access_type : ℕ → Option ℕ
  pub get_address : ℕ → ℕ → List ℕ

-- The static variables of net.c, but for the counters.
pub record NetState : Type 0 where
  pub host : Host
  pub net : Net
  pub pkt_int : ℕ
  pub pkt_handle : ℕ
  pub pkt_flag : Bool

-- A driver's handler has its name behind a three-byte jump.
unfoldable pub is_driver : Driver → ℕ → Bool
is_driver d v =
    let h = d.vect v in
    not (is_null h) && same_bytes (d.text_at (record h { off = h.off + 3 })) (codes "PKT DRVR")

-- The loop over `left` interrupts from `v`.
unfoldable pub find_loop : ℕ → Driver → ℕ → Option ℕ
find_loop zero d v = none
find_loop (suc left) d v =
    let rest = find_loop left d (v + 1) in if is_driver d v then some (u8 v) else rest

unfoldable pub pkt_find : Driver → NetState → NetState × Bool
pkt_find d s = elim (find_loop 31 d 0x60) [
  | none ↦ (s, false)
  | some v ↦ (record s { pkt_int = v }, true)
]

unfoldable pub pkt_access : Driver → NetState → NetState × Bool
pkt_access d s = elim (d.access_type s.pkt_int) [
  | none ↦ (s, false)
  | some handle ↦ (record s { pkt_handle = handle }, true)
]

unfoldable pub pkt_get_address : Driver → NetState → NetState
pkt_get_address d s = record s {
  host = record s.host { mac = d.get_address s.pkt_int s.pkt_handle };
}

unfoldable pub net_open : Driver → List ℕ → ℕ → NetState → NetState × Bool
net_open d ip port s =
    let reset = record s {
      host = record s.host { ip = ip; port = port };
      net = record s.net { conns = close_all s.net.conns };
      pkt_flag = false;
    } in
    let (found, has_driver) = pkt_find d reset in
    let (accessed, has_handle) = pkt_access d found in
    if not has_driver
    then (found, false)
    else if not has_handle
    then (accessed, false)
    else (pkt_get_address d accessed, true)

-- `release_type` of a handle at an interrupt.
pub record Release : Type 0 where
  pub int_no : ℕ
  pub handle : ℕ

unfoldable pub net_release : ℕ → ℕ → Release
net_release int_no handle = record { int_no = int_no; handle = handle }

unfoldable pub net_close : NetState → List Release
net_close s = if s.pkt_int == 0 then [] else net_release s.pkt_int s.pkt_handle ∷ []
