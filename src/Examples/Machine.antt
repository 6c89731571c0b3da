-- ===== src/Examples/Machine.antt =====
-- The resident program of dosshd/dosshd.c and the generator of dosshd/crypto/rng.c.
use dossh.Base.{
  get_or, none, ℕ, ◌*◌, ◌%◌, ◌<◌, Bool, true, false, List, [], ◌∷◌, ◌++◌, some, ◌≡◌, refl, ◌⊎◌,
  arith, ltb, ◌==◌, if◌then◌else◌, length, take, codes, same_bytes, replicate,
}
use dossh.Resident.Ring.{Bios, ring_start, ring_end, inject_key}
use dossh.Resident.Ring.Queue.{IsRing, key_count, capacity, keys, inject_key-keys}
use dossh.Resident.Options.{Libc, at_start, parse_ip, field, ip_fields, take_number, net_args}
use dossh.Resident.Options.Address.{Dotted, parse_ip-Dotted}
use dossh.Resident.Options.Positions.{positionals, options, place_all, net_args-place_all}
use dossh.Resident.Pump.{pump}
use dossh.Resident.Pump.Stream.{IsPumped, pump-IsPumped}
use dossh.Examples.Screen.{screen, fresh}
use dossh.Examples.Peer.{host, table}
use dossh.Keys.{start}
use dossh.Net.Conn.{Conn}
use dossh.Net.Link.{net_take_new_slot, net_rx_getc}
use dossh.Resident.Tick.{Server, Setting, begin_loop, byte_loop, no_slot}
use dossh.Net.Stack.{no_conn}
use dossh.Net.Tcp.Receive.{InRing}
use dossh.Resident.Tick.Backlog.{byte_loop-drains}
use dossh.Resident.Tick.Arrivals.{begin_loop-ends}
use dossh.Rng.{Source, Rng, rng_bytes, rng_init, counted}
use dossh.Rng.Blocks.{stream, rekeyed, rng_bytes-stream}

-- The server with the connections of another run, all of them just established.
abbrev arrived : List Conn → List Conn
arrived [] = []
arrived (c ∷ cs) = record c { just_estab = true } ∷ arrived cs

abbrev pub setting : Setting
setting = record {
  host = host;
  config = record { eof_exit = false; password = [] };
  video = screen;
}

abbrev pub server : Server
server = record {
  net = record table { conns = arrived table.conns };
  slots = no_slot ∷ no_slot ∷ no_slot ∷ no_slot ∷ [];
  keys = start;
  bios = λ o. 0x1E;
  g_reboot = false;
  render = fresh;
  frames = [];
}

begin_loop-ends_example :
    (net_take_new_slot (begin_loop (length (arrived table.conns)) setting server).net).1 ≡ none
begin_loop-ends_example = begin_loop-ends setting server

arrived-InRing : InRing (get_or server.net.conns 0 no_conn)
arrived-InRing = record { head_lt = omega arith; tail_lt = omega arith }

byte_loop-drains_example : (net_rx_getc (byte_loop 512 setting 0 server).net 0).1 ≡ none
byte_loop-drains_example = byte_loop-drains setting 0 server (omega arith) arrived-InRing

-- A ring of 16 slots at 1Eh whose tail is in its last slot, with three keys in it.
abbrev ring : Bios
ring o =
    if o == 0x1A
    then 0x36
    else if o == 0x1C
    then 0x3C
    else if o == 0x80
    then 0x1E
    else if o == 0x82
    then 0x3E
    else 0x1C0D

ring-IsRing : IsRing ring
unfolding ring_start ring_end
ring-IsRing = record {
  starts = omega arith;
  ordered = omega arith;
  even = refl;
  below = omega arith;
  head_lo = omega arith;
  head_hi = omega arith;
  head_even = refl;
  tail_lo = omega arith;
  tail_hi = omega arith;
  tail_even = refl;
}

inject_key-keys_example :
    IsRing (inject_key 30 97 ring)
    × (((key_count ring < capacity ring)
          × (keys (inject_key 30 97 ring) ≡ keys ring ++ (7777 ∷ [])))
        ⊎ ((key_count ring ≡ capacity ring) × (inject_key 30 97 ring ≡ ring)))
inject_key-keys_example = inject_key-keys 30 97 ring ring-IsRing

abbrev address : List ℕ
address = codes "10.0.2.15"

address-Dotted : Dotted 3 address (10 ∷ 0 ∷ 2 ∷ 15 ∷ [])
address-Dotted = (
  codes "10",
  codes "0.2.15",
  0 ∷ 2 ∷ 15 ∷ [],
  (
    record { digits = refl; some_digit = omega arith; small = omega arith },
    refl,
    refl,
    (
      codes "0",
      codes "2.15",
      2 ∷ 15 ∷ [],
      (
        record { digits = refl; some_digit = omega arith; small = omega arith },
        refl,
        refl,
        (
          codes "2",
          codes "15",
          15 ∷ [],
          (
            record { digits = refl; some_digit = omega arith; small = omega arith },
            refl,
            refl,
            (
              codes "15",
              (record { digits = refl; some_digit = omega arith; small = omega arith }, refl, refl),
            ),
          ),
        ),
      ),
    ),
  ),
)

parse_ip-Dotted_example : parse_ip (codes "10.0.2.15") ≡ some (10 ∷ 0 ∷ 2 ∷ 15 ∷ [])
parse_ip-Dotted_example = parse_ip-Dotted address (10 ∷ 0 ∷ 2 ∷ 15 ∷ []) address-Dotted

-- A field that wraps a `long` around is taken for its low 32 bits.
wrapped_field : parse_ip (codes "4294967306.0.0.1") ≡ some (10 ∷ 0 ∷ 0 ∷ 1 ∷ [])
unfolding parse_ip ip_fields field take_number
wrapped_field = refl

-- Comparison without regard to case is left to equality here.
abbrev library : Libc
library = record { stricmp = λ a b. if same_bytes a b then 0 else 1; atoi = λ a. 2323 }

net_args-place_all_example :
    let args = codes "/EOF" ∷ codes "10.0.2.7" ∷ codes "/P:dos" ∷ codes "2323" ∷ [] in
    net_args library args 0 at_start
    ≡ place_all library
        (positionals library args)
        (record at_start { shared = options library args at_start.shared })
net_args-place_all_example =
    net_args-place_all library
      (codes "/EOF" ∷ codes "10.0.2.7" ∷ codes "/P:dos" ∷ codes "2323" ∷ []) at_start

-- A transport that has room for three bytes.
abbrev sink : List ℕ → ℕ → List ℕ × Bool
sink s b = if ltb (length s) 3 then (s ++ (b ∷ []), true) else (s, false)

pump-IsPumped_example :
    IsPumped sink 512 screen [] fresh
      (pump sink 512 screen [] fresh).0
      (pump sink 512 screen [] fresh).1
pump-IsPumped_example = pump-IsPumped sink screen 512 [] fresh

-- A keystream that counts on from its key.
abbrev pub source : Source
source = record {
  rdtsc = λ n. n * 3;
  timer = 5000;
  cmos = λ r. r;
  bios_data = λ i. i % 256;
  low_memory = λ i. 0;
  keystream = λ key nonce. replicate 64 7;
  sha256 = λ text. replicate 32 (length text);
}

abbrev pub unseeded : Rng
unseeded = record {
  pool = λ i. 0;
  pool_idx = 0;
  pool_stir = 0;
  drbg_key = replicate 32 0;
  drbg_ctr = 0;
  drbg_calls = 0;
  drbg_ready = false;
  readings = 0;
}

rng_bytes-stream_example :
    let ready = rng_init source unseeded in
    (rng_bytes source 40 unseeded ≡ (
      take 40 (stream source 2 ready.drbg_key ready.drbg_ctr),
      counted source (rekeyed source 2 ready),
    ))
    × (length (rng_bytes source 40 unseeded).0 ≡ 40)
rng_bytes-stream_example = rng_bytes-stream source 40 unseeded (λ key nonce. refl)
