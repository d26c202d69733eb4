-- ===== src/Pdu/Tpdu.antt =====
-- crates/rdpcore-pdu/src/tpdu.rs. A `TpduCode` is its byte.
pub mod Laws
use kmsrdp.Prelude.{ℕ, Bool, ◌+◌, ◌-◌, ◌%◌, List, [], ◌∷◌, ◌++◌, not, ltb, ◌==◌, if◌then◌else◌}
use kmsrdp.Pdu.Result.{Result, ok, invalid_value, ◌>>=◌, ◌>>◌, guard}
use kmsrdp.Pdu.Cursor.{ReadCursor, ensure, advance, read_u8, write_u8, write_u16_be}

abbrev pub connection_request : ℕ
connection_request = 0xe0

abbrev pub connection_confirm : ℕ
connection_confirm = 0xd0

abbrev pub data_code : ℕ
data_code = 0xf0

-- `code == TpduCode::DATA`
unfoldable pub is_data : ℕ → Bool
is_data code = code == data_code

abbrev pub header_fixed_part_size : ℕ → ℕ
header_fixed_part_size code = if is_data code then 3 else 7

pub record TpduHeader : Type 0 where
  pub li : ℕ
  pub code : ℕ

-- `as u8` keeps the low byte.
unfoldable pub for_pdu : ℕ → ℕ → TpduHeader
for_pdu code variable_part_len = record {
  li = (header_fixed_part_size code - 1 + variable_part_len) % 0x100;
  code = code;
}

unfoldable pub variable_part_size : TpduHeader → ℕ
variable_part_size h = h.li + 1 - header_fixed_part_size h.code

unfoldable pub write : TpduHeader → List ℕ
unfolding write_u8 write_u16_be
write h =
    write_u8 h.li
    ++ (write_u8 h.code
        ++ (if is_data h.code
            then write_u8 0x80
            else write_u16_be 0 ++ (write_u16_be 0 ++ write_u8 0)))

unfoldable pub decode : ℕ → ReadCursor → Result (TpduHeader × ReadCursor)
decode expected c = do
  ensure 2 c
  (li, c) ← read_u8 c
  (code, c) ← read_u8 c
  guard (code == expected) (invalid_value "tpdu.code" "unexpected TPDU code")
  guard (not (li == 0xff))
      (invalid_value "tpdu.li" "0xFF is reserved for X.224 extensions, unsupported")
  guard (not (ltb (li + 1) (header_fixed_part_size code)))
      (invalid_value "tpdu.li" "too small to hold this TPDU code's fixed header part")
  let remaining_fixed = header_fixed_part_size code - 2
  ensure remaining_fixed c
  ok (record { li = li; code = code }, if is_data code then advance 1 c else advance 5 c)
