-- ===== src/Pdu/X224.antt =====
-- crates/rdpcore-pdu/src/x224.rs: the connection confirm and the data TPDU.
pub mod Laws
pub mod Request
use kmsrdp.Prelude.{ℕ, ◌+◌, ◌%◌, List, [], ◌++◌, length, min, not, ltb, ◌==◌, if◌then◌else◌}
use kmsrdp.Pdu.Result.{Result, ok, err, invalid_value, ◌>>=◌, ◌>>◌, guard}
use kmsrdp.Pdu.Cursor.{
  ReadCursor, new, ensure, read_u8, read_u16_le, read_u32_le, read_rest, write_u8, write_u16_le,
  write_u32_le,
}
use kmsrdp.Pdu.Tpkt
use kmsrdp.Pdu.Tpkt.{TpktHeader}
use kmsrdp.Pdu.Tpdu
use kmsrdp.Pdu.Tpdu.{TpduHeader}

abbrev pub nego_response : ℕ
nego_response = 2

abbrev pub nego_failure : ℕ
nego_failure = 3

abbrev pub nego_body_size : ℕ
nego_body_size = 8

unfoldable pub encode_x224 : ℕ → List ℕ → List ℕ
encode_x224 code body =
    let tpdu = Tpdu.for_pdu code (length body) in
    let packet_length = Tpkt.header_size + tpdu.li + 1 in
    Tpkt.write (record { packet_length = packet_length % 0x1_0000 }) ++ (Tpdu.write tpdu ++ body)

unfoldable pub decode_x224_header : ℕ → ReadCursor → Result ((TpktHeader × TpduHeader) × ReadCursor)
decode_x224_header expected c = do
  (tpkt, c) ← Tpkt.decode c
  (tpdu, c) ← Tpdu.decode expected c
  ok ((tpkt, tpdu), c)

-- Flags, protocol and failure code are the numbers that their newtypes hold.
pub data ConnectionConfirm : Type 0 where
  response : ℕ → ℕ → ConnectionConfirm
  failure : ℕ → ConnectionConfirm

unfoldable pub confirm_body : ConnectionConfirm → List ℕ
unfolding write_u8
confirm_body (response flags protocol) =
    write_u8 nego_response
    ++ (write_u8 flags ++ (write_u16_le nego_body_size ++ write_u32_le protocol))
confirm_body (failure code) =
    write_u8 nego_failure ++ (write_u8 0 ++ (write_u16_le nego_body_size ++ write_u32_le code))

unfoldable pub encode_confirm : ConnectionConfirm → List ℕ
encode_confirm confirm = encode_x224 Tpdu.connection_confirm (confirm_body confirm)

unfoldable pub read_confirm : ReadCursor → Result (ConnectionConfirm × ReadCursor)
read_confirm c = do
  (kind, c) ← read_u8 c
  if kind == nego_response
      then (do
        (flags, c) ← read_u8 c
        (_length, c) ← read_u16_le c
        (protocol, c) ← read_u32_le c
        ok (response flags protocol, c))
      else if kind == nego_failure
      then (do
        (_reserved, c) ← read_u8 c
        (_length, c) ← read_u16_le c
        (code, c) ← read_u32_le c
        ok (failure code, c))
      else err (
          invalid_value "x224.connection_confirm.type"
            "expected RDP_NEG_RSP or RDP_NEG_FAILURE type byte")

unfoldable pub decode_confirm : List ℕ → Result ConnectionConfirm
unfolding read_confirm decode_x224_header
decode_confirm input = do
  (headers, c) ← decode_x224_header Tpdu.connection_confirm (new input)
  let variable_part_len = Tpdu.variable_part_size headers.1
  ensure variable_part_len c
  guard (not (ltb variable_part_len nego_body_size))
      (invalid_value "x224.connection_confirm" "missing RDP_NEG_RSP/RDP_NEG_FAILURE body")
  (confirm, _c) ← read_confirm c
  ok confirm

-- LI is 2 for every payload: the code and EOT.
abbrev pub data_header : TpduHeader
data_header = record { li = 2; code = Tpdu.data_code }

unfoldable pub wrap_data : List ℕ → List ℕ
wrap_data payload =
    let packet_length = min (Tpkt.header_size + 3 + length payload) 0xffff in
    Tpkt.write (record { packet_length = packet_length }) ++ (Tpdu.write data_header ++ payload)

unfoldable pub unwrap_data : List ℕ → Result (List ℕ)
unfolding decode_x224_header
unwrap_data input = do
  (_headers, c) ← decode_x224_header Tpdu.data_code (new input)
  ok (read_rest c).0
