-- ===== src/Pdu/Tpkt.antt =====
-- crates/rdpcore-pdu/src/tpkt.rs
pub mod Laws
use kmsrdp.Prelude.{ℕ, ◌==◌, List, ◌++◌}
use kmsrdp.Pdu.Result.{Result, ok, invalid_value, ◌>>=◌, ◌>>◌, guard}
use kmsrdp.Pdu.Cursor.{ReadCursor, ensure, advance, read_u8, read_u16_be, write_u8, write_u16_be}

abbrev pub version : ℕ
version = 3

abbrev pub header_size : ℕ
header_size = 4

pub record TpktHeader : Type 0 where
  pub packet_length : ℕ

unfoldable pub write : TpktHeader → List ℕ
unfolding write_u8
write h = write_u8 version ++ (write_u8 0 ++ write_u16_be h.packet_length)

unfoldable pub decode : ReadCursor → Result (TpktHeader × ReadCursor)
decode c = do
  ensure header_size c
  (v, c) ← read_u8 c
  guard (v == version) (invalid_value "tpkt.version" "unsupported TPKT version")
  let c = advance 1 c
  (packet_length, c) ← read_u16_be c
  ok (record { packet_length = packet_length }, c)
