-- ===== src/Dvc.antt =====
-- crates/rdpcore-dvc: dynamic channels, multiplexed over the static channel "drdynvc".
pub mod Pdu
pub mod Slot
pub mod Mux
