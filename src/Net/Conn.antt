-- ===== src/Net/Conn.antt =====
-- One TCP connection of dosshd/net.c: `struct conn` and the segments it sends. The send ring `sbuf`
-- and the receive ring `rbuf` are functions from the index.
pub mod Segments
use dossh.Base.{
  ℕ, zero, suc, ◌+◌, ◌-◌, ◌*◌, ◌/◌, ◌%◌, ◌^◌, Bool, true, false, List, [], ◌∷◌, ◌++◌, u8, u16, u32,
  sub16, low_bits, has_bit, update, if◌then◌else◌,
}
use dossh.Net.Wire.{wr16, wr32, sum16, fin16}

-- `TS_LISTEN`, `TS_SYNRCVD`, `TS_ESTAB`
pub data TcpState : Type 0 where
  ts_listen ts_synrcvd ts_estab : TcpState

abbrev pub is_listen : TcpState → Bool
is_listen ts_listen = true
is_listen ts_synrcvd = false
is_listen ts_estab = false

abbrev pub is_estab : TcpState → Bool
is_estab ts_listen = false
is_estab ts_synrcvd = false
is_estab ts_estab = true

abbrev pub snd_sz : ℕ
snd_sz = 4096

abbrev pub rcv_sz : ℕ
rcv_sz = 512

abbrev pub mss_tx : ℕ
mss_tx = 1400

abbrev pub rexmit_ticks : ℕ
rexmit_ticks = 9

abbrev pub max_rexmit : ℕ
max_rexmit = 24

-- `x & SND_MASK` and `x & RCV_MASK`
abbrev pub snd_mask : ℕ → ℕ
snd_mask x = low_bits x 12

abbrev pub rcv_mask : ℕ → ℕ
rcv_mask x = low_bits x 9

pub record Conn : Type 0 where
  pub tstate : TcpState
  pub peer_mac : List ℕ
  pub peer_ip : List ℕ
  pub peer_port : ℕ
  pub snd_una : ℕ
  pub snd_nxt : ℕ
  pub rcv_nxt : ℕ
  pub sbuf : ℕ → ℕ
  pub s_una : ℕ
  pub s_nxt : ℕ
  pub s_end : ℕ
  pub rbuf : ℕ → ℕ
  pub r_head : ℕ
  pub r_tail : ℕ
  pub rexmit_at : ℕ
  pub rexmit_count : ℕ
  pub just_estab : Bool
  pub ready : Bool

-- `g_mac`, `g_ip` and `my_port`
pub record Host : Type 0 where
  pub mac : List ℕ
  pub ip : List ℕ
  pub port : ℕ

-- A TCP segment that goes to `ip_send`: the peer's addresses and the segment's bytes.
pub record Outgoing : Type 0 where
  pub dst_mac : List ℕ
  pub dst_ip : List ℕ
  pub bytes : List ℕ

unfoldable pub tcp_reset_listen : Conn → Conn
tcp_reset_listen c = record c {
  tstate = ts_listen;
  s_una = 0;
  s_nxt = 0;
  s_end = 0;
  r_head = 0;
  r_tail = 0;
  rexmit_count = 0;
  ready = false;
}

-- `for( i = 0; i < dlen; i++ ) ... c->sbuf[(doff + i) & SND_MASK]`
unfoldable pub ring_bytes : (ℕ → ℕ) → ℕ → ℕ → List ℕ
ring_bytes buf doff zero = []
ring_bytes buf doff (suc n) = buf (snd_mask doff) ∷ ring_bytes buf (doff + 1) n

-- The free space that a segment advertises.
unfoldable pub window : Conn → ℕ
window c = rcv_sz - 1 - rcv_mask (sub16 c.r_head c.r_tail)

-- The header up to the checksum field, and the segment behind it.
unfoldable pub seg_before : Host → Conn → ℕ → Bool → List ℕ
unfolding window wr16 wr32
seg_before h c flags with_mss =
    let hlen : ℕ = if with_mss then 24 else 20 in
    wr16 h.port
    ++ (wr16 c.peer_port
        ++ (wr32 c.snd_nxt
            ++ (wr32 c.rcv_nxt ++ (u8 (hlen / 4 * 2 ^ 4) ∷ flags ∷ wr16 (window c)))))

unfoldable pub seg_after : Bool → List ℕ → List ℕ
unfolding wr16
seg_after with_mss payload =
    0 ∷ 0 ∷ ((if with_mss then 0x02 ∷ 0x04 ∷ wr16 mss_tx else []) ++ payload)

-- The sum over the pseudo-header.
unfoldable pub pseudo_sum : Host → List ℕ → ℕ → ℕ
unfolding sum16
pseudo_sum h peer_ip len = u32 (u32 (sum16 peer_ip (sum16 h.ip 0) + 6) + len)

unfoldable pub tcp_send_seg : Host → Conn → ℕ → Bool → ℕ → ℕ → Outgoing
unfolding seg_before seg_after ring_bytes
tcp_send_seg h c flags with_mss doff dlen =
    let hlen : ℕ = if with_mss then 24 else 20 in
    let before = seg_before h c flags with_mss in
    let after = seg_after with_mss (ring_bytes c.sbuf doff dlen) in
    let sum = sum16 (before ++ (wr16 0 ++ after)) (pseudo_sum h c.peer_ip (hlen + dlen)) in
    record {
      dst_mac = c.peer_mac;
      dst_ip = c.peer_ip;
      bytes = before ++ (wr16 (fin16 sum) ++ after);
    }
