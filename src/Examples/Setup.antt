-- ===== src/Examples/Setup.antt =====
-- Going resident and coming back, on a machine with a packet driver.
use dossh.Base.{true, [], ◌∷◌, none, some, ◌≡◌, refl, codes, ◌==◌, if◌then◌else◌, replicate}
use dossh.Net.Driver.{
  Far, Driver, NetState, net_open, pkt_find, pkt_access, pkt_get_address, find_loop, is_driver,
}
use dossh.Examples.Peer.{host, table}
use dossh.Resident.Options.{Answer}
use dossh.Resident.Install.{Resident, Dos, Handlers, network, state_magic, install, uninstall}
use dossh.Resident.Install.Unhook.{Machine, Hosts, IsSafe, Always, Verdict, uninstall-IsSafe}
use dossh.Resident.Install.Return.{IsPlaced, Returns, presence, install-Returns}

-- A program at segment 1000h of 800h paragraphs, and vectors into the BIOS.
abbrev dos : Dos
dos = record {
  vect = λ n. record { seg = 0xF000; off = n };
  psp = 0x1000;
  block_paras = λ psp. 0x800;
  env = λ psp. 0xF80;
}

abbrev handlers : Handlers
handlers = record {
  mpx = record { seg = 0x1200; off = 7 };
  tick = record { seg = 0x1200; off = 9 };
}

handlers-IsPlaced : IsPlaced dos handlers
handlers-IsPlaced = record { tick = refl; mpx = refl }

abbrev block : Far
block = record { seg = 0x1400; off = 0x10 }

install-Returns_example :
    Returns dos
      (network (record { int_no = 0x60; handle = 1 }))
      (presence (λ p. state_magic) block)
      (install dos handlers (network (record { int_no = 0x60; handle = 1 })))
install-Returns_example =
    install-Returns dos handlers (network (record { int_no = 0x60; handle = 1 })) (λ p. state_magic)
      block handlers-IsPlaced refl refl

-- The same program, resident.
abbrev hooked : Dos
hooked = record dos { vect = λ n. record { seg = 0x1200; off = n } }

abbrev machine : Machine
machine = record {
  vect = hooked.vect;
  receiver = some (record { int_no = 0x60; handle = 1 });
  freed = [];
}

abbrev state : Resident
state = record {
  magic = state_magic;
  psp = 0x1000;
  mode = true;
  pkt_int = 0x60;
  pkt_handle = 1;
  old_1c = dos.vect 0x1C;
  old_2f = dos.vect 0x2F;
}

machine-Hosts : Hosts state 0x1800 machine
machine-Hosts = record { in_use = refl; old_tick = refl; old_mpx = refl; receiver = refl }

abbrev present : Answer
present = record { al = 0xFF; has_block = true; magic = true }

uninstall-IsSafe_example :
    Always (IsSafe 0x1000 0x1800) (uninstall hooked present state).0 machine
    × Verdict hooked present state machine
        (uninstall hooked present state).1
        (uninstall hooked present state).0
uninstall-IsSafe_example = uninstall-IsSafe hooked present state machine machine-Hosts

-- A machine whose driver is at interrupt 61h.
abbrev driver : Driver
driver = record {
  vect = λ v. record { seg = if v == 0x61 then 0xC800 else 0; off = 0 };
  text_at = λ p. codes "PKT DRVR";
  access_type = λ v. if v == 0x61 then some 5 else none;
  get_address = λ v handle. replicate 6 handle;
}

abbrev closed : NetState
closed = record { host = host; net = table; pkt_int = 0; pkt_handle = 0; pkt_flag = true }

driver_found : (net_open driver (10 ∷ 0 ∷ 2 ∷ 9 ∷ []) 23 closed).0.pkt_int ≡ 0x61
unfolding net_open pkt_find pkt_access pkt_get_address find_loop is_driver
driver_found = refl
