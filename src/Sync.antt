-- ===== src/Sync.antt =====
-- os/src/sync: the lock of the kernel's shared state.
pub mod Spin
