-- ===== src/Ssh.antt =====
-- The SSH-2.0 server of dosshd/ssh.c.
pub mod Wire
pub mod State
pub mod Kex
pub mod Auth
pub mod Channel
pub mod Input
