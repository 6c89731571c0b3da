-- ===== src/Resident.antt =====
-- The resident program, dosshd/dosshd.c.
pub mod Ring
pub mod Tick
pub mod Serial
pub mod Broadcast
pub mod Install
pub mod Worker
pub mod Pump
pub mod Options
