-- ===== src/Net/Link/Admission.antt =====
-- Admission to the screen broadcast of dosshd/net.c (`ready`) across the life of a slot.
use dossh.Base.{ℕ, ◌+◌, true, List, ◌≡◌, arith, u32}
use dossh.Net.Conn.{Conn, Host, tcp_reset_listen}
use dossh.Net.Tcp.{open_conn, ack_advances, conn_in}
use dossh.Net.Tcp.Handshake.{bare_ack}
use dossh.Net.Link.{is_viewer}

-- A SYN that takes a slot over leaves the admission of the slot's former client in place: once the
-- new client's handshake is done, it is served the screen exactly if the former client was, before
-- the framing code has been told of it.
pub open_conn-keeps_ready :
    (h : Host) (now later i : ℕ) (c : Conn) (mac ip : List ℕ) (sport seq : ℕ)
    → let syn = (open_conn h now i c mac ip sport seq).0 in
      let done = (conn_in h later syn (bare_ack (u32 (seq + 1)) syn.snd_nxt)).0 in
      (is_viewer done ≡ c.ready) × (done.just_estab ≡ true)
unfolding open_conn conn_in ack_advances tcp_reset_listen
open_conn-keeps_ready h now later i c mac ip sport seq = ground arith
