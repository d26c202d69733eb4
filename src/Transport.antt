-- ===== src/Transport.antt =====
-- crates/rdpcore-transport
pub mod Scheduler
