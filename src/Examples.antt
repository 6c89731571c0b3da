-- ===== src/Examples.antt =====
-- Concrete runs of the code: each theorem of the results applied where its conditions hold.
pub mod Typing
pub mod Session
pub mod Wire
pub mod Peer
pub mod Shell
pub mod Screen
pub mod Machine
pub mod Secure
pub mod Setup
