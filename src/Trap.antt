-- ===== src/Trap.antt =====
-- os/src/trap: the trap context and the two trap handlers.
pub mod Context
pub mod Utrap
pub mod Ktrap
pub mod Schedule
pub mod Kill
pub mod Reach
pub mod Init
