-- ===== src/Pdu/Rdp6.antt =====
-- crates/rdpcore-pdu/src/rdp6.rs: the planar bitmap codec.
pub mod Rle
pub mod Plane
pub mod Tile
