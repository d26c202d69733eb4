-- ===== src/Server.antt =====
-- crates/rdpcore-server: the parts of the server that keep a state of their own.
pub mod AuthLimit
