-- ===== src/Net.antt =====
-- dosshd/net.c: a small ARP/IP/TCP stack over a packet driver.
pub mod Wire
pub mod Conn
pub mod Tcp
pub mod Ip
pub mod Stack
pub mod Link
pub mod Driver
