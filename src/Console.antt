-- ===== src/Console.antt =====
-- os/src/console: what is logged; and the stack trace of os/src/lang_items.rs.
pub mod Log
pub mod StackTrace
