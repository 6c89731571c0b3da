-- ===== src/Resident/Broadcast/Delivery.antt =====
-- A round of `ssh_net_broadcast` of dosshd/dosshd.c gives the chunk to every client, each under its own keys.
use mathlib.Core.Path.{subst}
use dossh.Base.{
  ℕ, ◌+◌, ◌-◌, ◌<◌, ◌≤◌, true, false, List, ◌++◌, ◌≡◌, ◌≢◌, refl, sym, ap, ◌∙◌, arith, u8, u32, map,
  length, get_or, set, length-set, get_or-set, get_or-set_other,
}
use dossh.Net.Link.{net_tx_room_slot}
use dossh.Net.Link.Broadcast.{pending}
use dossh.Resident.Worker.{SshServer, SshSetting, slot_conn, put_bytes, set_slot, with_net}
use dossh.Resident.Worker.Output.{slot_of, HasSlot, put_bytes-IsQueued}
use dossh.Resident.Broadcast.{is_ready, slot_cap, emit_slot}
use dossh.Resident.Broadcast.Pacing.{session_of, IsUntouched}
use dossh.Ssh.State.{Crypto, Ssh, sealed, aead_seal, seal_body, rng_bytes}
use dossh.Ssh.Input.{cleared}
use dossh.Ssh.Channel.{
  data_packet, chan_chunk, chunk_room, ssh_channel_ready, ssh_channel_avail, ssh_channel_emit,
}
use dossh.Ssh.Channel.Packets.{IsCipher, length-data_wire}

-- What the code relies on where a client is ready: its slot is in the table and its transport is encrypted.
pub record IsServed (i : ℕ) (s : SshServer) : Type 0 where
  pub slot : HasSlot i s.base.net
  pub listed : i < length s.ssh_slots
  pub encrypted : (session_of s i).send_encrypted ≡ true

-- The chunk reached one client: its packet, under the session's keys and with some of the random bytes as
-- padding, stands behind what was pending, at least 511 bytes of the ring are left, and the window and
-- the packet count have gone on.
pub record IsSentTo (p : Crypto) (text : List ℕ) (i : ℕ) (s s' : SshServer) : Type 0 where
  pub drawn : ℕ
  pub queued :
      let c = session_of s i in
      pending (slot_of s'.base.net i)
      ≡ pending (slot_of s.base.net i)
        ++ map u8 (sealed p (data_packet c text) (record c { drawn = drawn }))
  pub reserve : 511 ≤ net_tx_room_slot s'.base.net i
  pub paid : (session_of s' i).peer_window + length text ≡ (session_of s i).peer_window
  pub counted : (session_of s' i).send_seq ≡ u32 ((session_of s i).send_seq + 1)

-- A chunk that `slot_cap` allows is sealed.
emit-seals :
    (p : Crypto) (text : List ℕ) (c : Ssh)
    → ssh_channel_ready c ≡ true
    → c.send_encrypted ≡ true
    → 0 < length text
    → length text ≤ chunk_room c
    → ssh_channel_emit p text (chan_chunk + 40) c
      ≡ aead_seal p (data_packet c text) (record c { peer_window = c.peer_window - length text })
unfolding ssh_channel_emit chunk_room
emit-seals p text c ready enc some_text fits = ground arith

cap-bounds :
    (s : SshServer) (i n : ℕ)
    → is_ready s i ≡ true
    → 0 < n
    → n ≤ slot_cap s i
    → (n + 552 ≤ net_tx_room_slot s.base.net i) × (n ≤ chunk_room (slot_conn s i))
unfolding slot_cap ssh_channel_avail
cap-bounds s i n ready some fits = (ground arith, ground arith)

-- The server once a slot's chunk was sealed.
abbrev emitted : Ssh × List ℕ → ℕ → SshServer → SshServer
emitted r i s = set_slot i r.0 (with_net (put_bytes i r.1 s.base.net) s)

emit_slot-ready :
    (w : SshSetting) (text : List ℕ) (i : ℕ) (s : SshServer) (r : Ssh × List ℕ)
    → is_ready s i ≡ true
    → ssh_channel_emit w.crypto text (chan_chunk + 40) (slot_conn s i) ≡ r
    → emit_slot w text i s ≡ emitted r i s
unfolding emit_slot
emit_slot-ready w text i s r ready e = rw ready (ap (λ x. emitted x i s) e)

pub emit_slot-idle :
    (w : SshSetting) (text : List ℕ) (i : ℕ) (s : SshServer)
    → is_ready s i ≡ false
    → emit_slot w text i s ≡ s
unfolding emit_slot
emit_slot-idle w text i s idle = rw idle refl

-- The chunk may go to the slot.
pub record IsFit (text : List ℕ) (i : ℕ) (s : SshServer) : Type 0 where
  pub served : IsServed i s
  pub fits : length text ≤ slot_cap s i

-- What one slot's turn does to it.
pub record IsTurn (p : Crypto) (text : List ℕ) (i : ℕ) (s s' : SshServer) : Type 0 where
  pub here : IsSentTo p text i s s'
  pub others : (j : ℕ) → j ≢ i → IsUntouched j s s'

abbrev sealed_of : SshSetting → List ℕ → ℕ → SshServer → Ssh × List ℕ
sealed_of w text i s =
    let c = slot_conn s i in
    aead_seal w.crypto (data_packet c text) (record c { peer_window = c.peer_window - length text })

sealed_of-wire :
    (w : SshSetting) (text : List ℕ) (i : ℕ) (s : SshServer)
    → let c = session_of s i in
      (sealed_of w text i s).1
      ≡ sealed w.crypto (data_packet c text) (record c { drawn = s.shared.drawn })
unfolding aead_seal sealed seal_body rng_bytes
sealed_of-wire w text i s = refl

sealed_of-counts :
    (w : SshSetting) (text : List ℕ) (i : ℕ) (s : SshServer)
    → ((sealed_of w text i s).0.peer_window ≡ (session_of s i).peer_window - length text)
      × ((sealed_of w text i s).0.send_seq ≡ u32 ((session_of s i).send_seq + 1))
unfolding aead_seal
sealed_of-counts w text i s = (refl, refl)

chunk_room-window : (c : Ssh) → chunk_room c ≤ c.peer_window
unfolding chunk_room
chunk_room-window c = omega arith

emitted-IsTurn :
    (w : SshSetting) (text : List ℕ) (i : ℕ) (s : SshServer)
    → IsCipher w.crypto
    → is_ready s i ≡ true
    → 0 < length text
    → IsFit text i s
    → IsTurn w.crypto text i s (emitted (sealed_of w text i s) i s)
emitted-IsTurn w text i s v ready some_text f =
    let c : Ssh = session_of s i in
    let r = sealed_of w text i s in
    let (room, chunk) = cap-bounds s i (length text) ready some_text f.fits in
    let wire = sealed_of-wire w text i s in
    let (window, seq) = sealed_of-counts w text i s in
    let size = length-data_wire w.crypto text (record c { drawn = s.shared.drawn }) v in
    let size' : length r.1 ≤ length text + 41 =
      subst (λ x. length x ≤ length text + 41) (sym wire) size.1 in
    let q = put_bytes-IsQueued i r.1 s.base.net f.served.slot (omega (arith, size', room)) in
    let listed : get_or (set s.ssh_slots i r.0) i (cleared 0) ≡ r.0 =
      get_or-set s.ssh_slots i r.0 (cleared 0) f.served.listed in
    record {
      here = record {
        drawn = s.shared.drawn;
        queued = q.behind ∙ ap (λ x. pending (slot_of s.base.net i) ++ map u8 x) wire;
        reserve = omega (arith, q.room, size', room);
        paid = omega (
          arith,
          ap (λ x. x.peer_window) listed,
          window,
          chunk,
          chunk_room-window (slot_conn s i),
        );
        counted = ap (λ x. x.send_seq) listed ∙ seq;
      };
      others = λ j ne. record {
        active = refl;
        conn = q.others j ne;
        slots = q.slots;
        session = get_or-set_other s.ssh_slots i j r.0 (cleared 0) ne;
        sessions = length-set s.ssh_slots i r.0;
      };
    }

pub emit_slot-IsTurn :
    (w : SshSetting) (text : List ℕ) (i : ℕ) (s : SshServer)
    → IsCipher w.crypto
    → is_ready s i ≡ true
    → 0 < length text
    → IsFit text i s
    → IsTurn w.crypto text i s (emit_slot w text i s)
unfolding ssh_channel_ready
emit_slot-IsTurn w text i s v ready some_text f =
    let (room, chunk) = cap-bounds s i (length text) ready some_text f.fits in
    let up : ssh_channel_ready (slot_conn s i) ≡ true = ground (arith, ready) in
    subst (IsTurn w.crypto text i s)
      (sym (
        emit_slot-ready w text i s (sealed_of w text i s) ready
          (emit-seals w.crypto text (slot_conn s i) up f.served.encrypted some_text chunk)))
      (emitted-IsTurn w text i s v ready some_text f)
