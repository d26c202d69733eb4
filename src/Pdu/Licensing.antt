-- ===== src/Pdu/Licensing.antt =====
-- crates/rdpcore-pdu/src/licensing.rs and headers.rs: the license that skips licensing.
use kmsrdp.Prelude.{ℕ, Bool, List, ◌++◌, ◌==◌, bit_and}
use kmsrdp.Pdu.Result.{Result, ok, invalid_value, guard, ◌>>=◌, ◌>>◌}
use kmsrdp.Pdu.Cursor.{
  ReadCursor, new, read_u8, read_u16_le, read_u32_le, write_u8, write_u16_le, write_u32_le,
}

-- `BasicSecurityHeader`, as its flags.
unfoldable pub write_security_header : ℕ → List ℕ
write_security_header flags = write_u16_le flags ++ write_u16_le 0

unfoldable pub decode_security_header : ReadCursor → Result (ℕ × ReadCursor)
decode_security_header c = do
  (flags, c) ← read_u16_le c
  (_flags_hi, c) ← read_u16_le c
  ok (flags, c)

-- `contains`
unfoldable pub has_flag : ℕ → ℕ → Bool
has_flag flags flag = bit_and flags flag == flag

abbrev pub license_pkt : ℕ
license_pkt = 0x0080

abbrev pub preamble_error_alert : ℕ
preamble_error_alert = 0xff

abbrev pub preamble_version_3 : ℕ
preamble_version_3 = 3

abbrev pub status_valid_client : ℕ
status_valid_client = 7

abbrev pub st_no_transition : ℕ
st_no_transition = 2

abbrev pub blob_type_error : ℕ
blob_type_error = 4

abbrev pub msg_size : ℕ
msg_size = 16

unfoldable pub encode_valid_client : List ℕ
encode_valid_client =
    write_security_header license_pkt
    ++ (write_u8 preamble_error_alert
        ++ (write_u8 preamble_version_3
            ++ (write_u16_le msg_size
                ++ (write_u32_le status_valid_client
                    ++ (write_u32_le st_no_transition
                        ++ (write_u16_le blob_type_error ++ write_u16_le 0))))))

unfoldable pub decode_valid_client : List ℕ → Result (Unit {0})
unfolding has_flag
decode_valid_client bytes = do
  (flags, c) ← decode_security_header (new bytes)
  guard (has_flag flags license_pkt)
      (invalid_value "licensing.security_header.flags" "expected LICENSE_PKT set")
  (msg_type, c) ← read_u8 c
  guard (msg_type == preamble_error_alert)
      (invalid_value "licensing.preamble.msg_type" "expected ErrorAlert")
  (_flags_and_version, c) ← read_u8 c
  (_msg_size, c) ← read_u16_le c
  (error_code, c) ← read_u32_le c
  guard (error_code == status_valid_client)
      (invalid_value "licensing.error_code" "expected STATUS_VALID_CLIENT")
  (_state_transition, c) ← read_u32_le c
  (_blob_type, c) ← read_u16_le c
  (blob_len, _c) ← read_u16_le c
  guard (blob_len == 0)
      (invalid_value "licensing.error_info.blob_len" "expected an empty error-info blob")
  ok tt
