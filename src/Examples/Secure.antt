-- ===== src/Examples/Secure.antt =====
-- A tick of the SSH server of dosshd/dosshd.c with one client, and inputs of a client of dosshd/ssh.c that
-- is not authenticated.
use mathlib.Core.Path.{subst}
use dossh.Base.{
  ℕ, zero, suc, true, false, List, [], ◌∷◌, ◌≡◌, refl, ap, ◌⊎◌, arith, length, get_or, codes,
}
use dossh.Examples.Machine.{server, setting, source, unseeded}
use dossh.Examples.Peer.{client}
use dossh.Examples.Screen.{fresh}
use dossh.Examples.Shell.{crypto, gate, attached}
use dossh.Ssh.State.{Ssh, st_expect_kexinit}
use dossh.Ssh.Channel.{ssh_channel_ready, ssh_channel_avail, chunk_room}
use dossh.Ssh.State.{sealed, seal_body, rng_bytes, pad_len}
use dossh.Ssh.Wire.{put_u32, put_str, seqbuf8}
use dossh.Resident.Worker.KeyRing.{InKeyRing, Typed, keys_of, key_loop-types}
use dossh.Resident.Worker.{close_slot, key_loop}
use dossh.Ssh.Channel.{data_packet}
use dossh.Ssh.Channel.Packets.{IsCipher}
use dossh.Ssh.Wire.{rd_u32, bytes_at}
use dossh.Ssh.Input.{cleared, ssh_input, write_at, try_one, input_loop, try_packet, try_plain}
use dossh.Ssh.Input.Lock.{IsLocked}
use dossh.Ssh.Input.Whole.{ssh_input-IsLocked}
use dossh.Ssh.Input.Loop.{Runs, Wraps, ssh_input-Ends}
use dossh.Ssh.Input.Endless.{IsLooping, looping-never_ends}
use dossh.Resident.Worker.{SshServer, SshSetting, ssh_pump_output}
use dossh.Resident.Worker.Output.{HasSlot, IsDelivered, ssh_pump_output-IsDelivered}
use dossh.Resident.Broadcast.{is_ready, slot_cap, scan_loop, draw_bytes, broadcast_loop}
use dossh.Resident.Broadcast.Delivery.{IsServed, IsSentTo}
use dossh.Resident.Broadcast.Round.{scanned_of, chunk_of, broadcast_loop-reaches_all}
use dossh.Net.Link.{net_slot_connected, net_tx_room_slot, net_slot_stalled}
use dossh.Net.Tcp.{used}
use dossh.Render.Frame.{render_next_byte}

abbrev secure : SshSetting
secure = record {
  plain = setting;
  crypto = crypto;
  source = source;
  hostkey_sk = [];
  hostkey_pk = [];
  g_ssh_pw = codes "dos";
  g_ssh_have_pw = true;
  g_authkeys = [];
}

-- One client with a shell, two bytes of the screen to send and three bytes of replies.
abbrev attended : SshServer
attended = record {
  base = record server {
    net = record { conns = client ∷ []; ip_id = 3 };
    render = record fresh { o = codes "hi" };
  };
  ssh_slots = attached ∷ [];
  shared = record {
    ob = 1 ∷ 2 ∷ 3 ∷ [];
    cin = λ i. 0;
    cin_head = 0;
    cin_tail = 0;
    cout = [];
    drawn = 7;
  };
  ssh_active = true ∷ [];
  ssh_ready_seen = true ∷ [];
  gate = gate;
  g_ssh_cols = 80;
  g_ssh_rows = 25;
  g_ssh_stir = 0;
  rng = unseeded;
}

client-HasSlot : HasSlot 0 attended.base.net
client-HasSlot = record { inside = omega arith; end_lt = omega arith; una_lt = omega arith }

ssh_pump_output-IsDelivered_example :
    IsDelivered 0 attended.base.net
      (1 ∷ 2 ∷ 3 ∷ [])
      (ssh_pump_output 0 attended).base.net
      (ssh_pump_output 0 attended).shared.ob
ssh_pump_output-IsDelivered_example = ssh_pump_output-IsDelivered 0 attended client-HasSlot

crypto-IsCipher : IsCipher crypto
unfolding bytes_at
crypto-IsCipher = record { cipher_len = λ text key nonce counter. refl; tag_len = λ text key. refl }

attended-IsServed : (i : ℕ) → is_ready attended i ≡ true → IsServed i attended
attended-IsServed zero ready = record {
  slot = client-HasSlot;
  listed = omega arith;
  encrypted = refl;
}
attended-IsServed (suc i) ready = absurd (ground (arith, ready))

attended-ready : is_ready (scanned_of secure attended).1 0 ≡ true
unfolding scan_loop slot_cap net_slot_connected net_tx_room_slot net_slot_stalled used
    ssh_channel_ready ssh_channel_avail chunk_room
attended-ready = refl

attended-chunk : (chunk_of secure 2 attended).0 ≡ codes "hi"
unfolding scan_loop slot_cap net_slot_connected net_tx_room_slot net_slot_stalled used
    ssh_channel_ready ssh_channel_avail chunk_room draw_bytes render_next_byte
attended-chunk = refl

broadcast_loop-reaches_all_example :
    IsSentTo crypto (chunk_of secure 2 attended).0 0 attended (broadcast_loop 1 2 secure attended)
    × ((broadcast_loop 1 2 secure attended).base.render ≡ (chunk_of secure 2 attended).1)
broadcast_loop-reaches_all_example =
    broadcast_loop-reaches_all secure 2 attended 0 crypto-IsCipher attended-IsServed attended-ready
      (omega (arith, ap length attended-chunk))

-- A client at the key exchange, and the start of a packet of 7 bytes.
abbrev greeted : Ssh
greeted = record (cleared 0) { state = st_expect_kexinit }

greeted-IsLocked : IsLocked greeted
greeted-IsLocked = record { no_session = λ e. refl; no_channel = λ e. refl }

abbrev partial : List ℕ
partial = 0 ∷ 0 ∷ 0 ∷ 7 ∷ 1 ∷ []

partial-waits : (ssh_input crypto gate partial greeted).authenticated ≡ false
unfolding ssh_input input_loop try_one try_packet try_plain write_at rd_u32
partial-waits = refl

ssh_input-IsLocked_example :
    IsLocked (ssh_input crypto gate partial greeted)
    × (ssh_channel_ready (ssh_input crypto gate partial greeted) ≡ false)
    × ((ssh_input crypto gate partial greeted).cin_head ≡ 0)
    × ((ssh_input crypto gate partial greeted).cin_tail ≡ 0)
ssh_input-IsLocked_example =
    ssh_input-IsLocked crypto gate partial greeted greeted-IsLocked partial-waits

ssh_input-Ends_example :
    let got = record greeted { ib = write_at partial 0 (λ i. 0); ib_len = 5 } in
    Runs crypto gate got (ssh_input crypto gate partial greeted) ⊎ Wraps crypto gate got
ssh_input-Ends_example = ssh_input-Ends crypto gate partial greeted refl (omega arith)

-- Six bytes that the loop never leaves: an IGNORE packet of 65532 bytes.
abbrev endless : Ssh
endless = record greeted { ib = λ i. get_or (0 ∷ 0 ∷ 255 ∷ 252 ∷ 4 ∷ 2 ∷ []) i 0; ib_len = 6 }

endless-IsLooping : IsLooping endless
unfolding rd_u32
endless-IsLooping = record {
  wrapped = record { greeted = refl; plain = refl; header = omega arith; wraps = refl };
  alive = refl;
  padded = omega arith;
  ignored = refl;
}

looping-never_ends_example : ¬ (Runs crypto gate endless greeted)
looping-never_ends_example = looping-never_ends crypto gate endless greeted endless-IsLooping

-- A chunk of three bytes seals to 44.
padded_chunk : length (sealed crypto (data_packet attached (codes "abc")) attached) ≡ 44
unfolding sealed seal_body rng_bytes pad_len put_u32 put_str bytes_at seqbuf8
padded_chunk = refl

-- Two clients with a shell; the first has sent a Ctrl-D with a key behind it, and the server runs with /EOF.
abbrev with_eof : SshSetting
with_eof = record secure {
  plain = record setting { config = record setting.config { eof_exit = true } };
}

abbrev pair : SshServer
pair = record attended {
  base = record attended.base { net = record { conns = client ∷ client ∷ []; ip_id = 3 } };
  ssh_slots = attached ∷ attached ∷ [];
  ssh_active = true ∷ true ∷ [];
  shared = record {
    ob = [];
    cin = λ i. get_or (4 ∷ b'x' ∷ []) i 0;
    cin_head = 0;
    cin_tail = 2;
    cout = [];
    drawn = 7;
  };
}

pair-InKeyRing : InKeyRing pair.shared
pair-InKeyRing = record { head_lt = omega arith; tail_lt = omega arith }

-- The first client's Ctrl-D ends its session, and the key behind it stays for the second.
key_loop-types_example :
    (s1 : SshServer) × ((key_loop 256 with_eof 0 pair ≡ close_slot with_eof 0 s1)
      × ((s1.base ≡ pair.base) × (keys_of s1.shared ≡ b'x' ∷ [])))
key_loop-types_example = key_loop-types with_eof 0 pair pair-InKeyRing

-- The second client's loop types it.
key_left_behind :
    (left : SshServer)
    → keys_of left.shared ≡ b'x' ∷ []
    → InKeyRing left.shared
    → Typed with_eof 1 left.base (b'x' ∷ []) (key_loop 256 with_eof 1 left)
key_left_behind left keys v =
    subst (λ ks. Typed with_eof 1 left.base ks (key_loop 256 with_eof 1 left)) keys
      (key_loop-types with_eof 1 left v)
