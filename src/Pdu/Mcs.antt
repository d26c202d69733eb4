-- ===== src/Pdu/Mcs.antt =====
-- crates/rdpcore-pdu/src/mcs.rs
pub mod Connect
pub mod Domain
