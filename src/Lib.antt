-- ===== src/Lib.antt =====
-- DOSSH: the resident server of dosshd/, which mirrors the text screen of a DOS machine to several
-- network clients and types their keystrokes.
--
-- The parts and how they interact. `net.c` is a TCP/IP stack over a packet driver: it keeps a table
-- of connections (`conns`), reads a frame at a time (`net_poll`), and gives the framing code the
-- bytes that each client sent (`net_rx_getc`) and a broadcast to all admitted clients
-- (`net_tx_putc`). `telnet.c` frames those bytes (RFC 854), holds each client at a password prompt
-- and admits it to the broadcast (`net_slot_ready`). `ansikey.c` turns the admitted clients' bytes
-- into keystrokes of the PC keyboard. `ssh.c` is the SSH-2.0 server that takes the place of telnet.c
-- for encrypted clients, with random bytes of `rng.c`. `render.c` turns the text screen into a stream of
-- escape sequences, with the characters of `cp437.c`, and `dosshd.c` moves that stream to the
-- transport on each timer tick, and puts keystrokes into the BIOS's ring.
--
-- Files. `Base` and `Base/*`: lists, tests and machine words shared by all.
-- `Keys`: dosshd/ansikey.c. `ansi_key_byte` and `ansi_key_tick` act on the record `Keys` (`pend`,
--   `pend_age`, `swallow`, `rb_state`) and return the calls of `inject_key` and `request_reboot`
--   in order. The function calls itself at most once, with nothing pending, so it is written as
--   its body with the body at that state for the call. `Keys/Tables` holds the scancode tables,
--   `Keys/Typed`, `Keys/Escape` and `Keys/Sentinel` the proofs.
-- `Telnet`: dosshd/telnet.c. One slot's entries of the arrays are the record `Slot`; `telnet_in`
--   and `telnet_begin` return the calls into net.c, render.c and ansikey.c as events.
--   `Telnet/Gate`, `Telnet/Password`, `Telnet/Negotiation` and `Telnet/Subnegotiation` are proofs.
-- `Net`: dosshd/net.c. `Net/Wire` is byte order and the Internet checksum, `Net/Conn` the record of
--   `struct conn` and `tcp_send_seg`, `Net/Tcp` one connection's part of `tcp_in`, `tcp_timer` and
--   `tcp_output`, `Net/Ip` IP and ARP, `Net/Stack` the connection table, `tcp_in`,
--   `handle_frame` and `net_poll`, `Net/Link` the interface to the framing code,
--   `Net/Driver` `net_open` and what it asks of the packet driver. Frames that go
--   out are returned in order. `unsigned` is 16 bits and `unsigned long` 32 bits wide (the target
--   is the 8086), and every wrap-around is written out.
-- `Ssh`: dosshd/ssh.c. `Ssh/Wire` is the wire format, `Ssh/State` the connection (`ssh_conn` with the
--   shared buffers), its output queue and the packets, `Ssh/Kex` the key exchange, `Ssh/Auth` user
--   authentication, `Ssh/Channel` the session channel, `Ssh/Input` the decoder, the dispatch and the
--   interface. A packet is a function from the index with a length, as the code has a pointer
--   and a length. The primitives of crypto/ are the fields of the record `Crypto`, a parameter.
-- `Cp437`: the table of dosshd/cp437.c.
-- `Render`: dosshd/render.c. `Render/State` is the BIOS data area with the text buffer (`Video`) and the
--   static variables (`Render`), `Render/Emit` the `e_` helpers, `Render/Frame` `frame_decide`,
--   `frame_fill` and `render_next_byte`. `Render/Terminal` is no code of the repository: it says what a
--   client's terminal does with the bytes, by ECMA-48 and UTF-8. The children of `Frame` are proofs.
-- `Resident`: dosshd/dosshd.c. `Resident/Ring` is `inject_key` on the words of segment 40h,
--   `Resident/Options` `parse_ip`, `opt_is`, `find_resident` and `main` up to the call that acts,
--   `Resident/Tick` `net_tick` as the composition of all parts on one state (`Server`),
--   `Resident/Pump` the loops of `tx_pump` and `ssh_tx_pump` over the renderer's bytes. The SSH server is
--   `Resident/Worker` (`ssh_net_worker` slot by slot; the state `SshServer` has one connection for each
--   slot and, once, the buffers that all share), `Resident/Broadcast` (`ssh_net_broadcast` and a tick) and
--   `Resident/Serial` (COM1 and `tick_isr`). `Resident/Install` is going resident and coming back: the
--   calls that change the machine, in order.
-- `Rng`: dosshd/crypto/rng.c, with the hardware and the two primitives as the record `Source`.
-- `Examples`: runs on concrete input.
--
-- Bounds. The loop of `fin16` recurs on the accessibility of the sum, with no fuel. `output_loop`
-- has a unit of fuel for each unsent byte, and every round sends at least one. Ring contents are
-- functions of the index. `input_loop` has a unit of fuel for each byte held, which is enough but
-- where the loop of the source does not end, `more_key` one for each byte of key, `fill_loop` one
-- for each cell left, `flush_loop` one for each staged byte, and `bytes_loop` one for each byte
-- asked for. `begin_loop` has a round for each slot, `byte_loop` 512 for a ring of at most 511
-- bytes, `key_loop` 256 for a ring of at most 255 keys, `pump_loop` and `serial_output` one for
-- each byte queued, and `broadcast_loop` one for each byte of the budget, of which a round that
-- goes on takes one at least. `ticks()` is an argument. The checksum theorems bound sums below 2 ^
-- 32, far above what a frame of 1514 bytes can reach.
--
-- Not modelled: the packet driver's assembly and interrupt masking; the statistics counters; the set-up
-- of COM1 and the waits for its transmitter; the reboot through the keyboard controller; the wording of
-- the messages on the console. The cryptographic primitives and SHA-256 are other projects' code, and
-- crypto.c only hands calls on to them.
pub mod Base
pub mod Keys
pub mod Telnet
pub mod Net
pub mod Ssh
pub mod Cp437
pub mod Render
pub mod Rng
pub mod Resident
pub mod Examples
