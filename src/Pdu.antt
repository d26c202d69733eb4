-- ===== src/Pdu.antt =====
-- crates/rdpcore-pdu: the wire-format codecs.
pub mod Result
pub mod Cursor
pub mod Tpkt
pub mod Tpdu
pub mod X224
pub mod Per
pub mod Ber
pub mod Mcs
pub mod Svc
pub mod Rdp6
pub mod ShareControl
pub mod Finalization
pub mod Capabilities
pub mod Licensing
pub mod Gcc
