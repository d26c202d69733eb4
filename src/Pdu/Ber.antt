-- ===== src/Pdu/Ber.antt =====
-- crates/rdpcore-pdu/src/ber.rs: the basic encoding of the MCS connect PDUs.
pub mod Laws
use kmsrdp.Prelude.{
  ℕ, ◌+◌, ◌*◌, ◌/◌, ◌%◌, ◌^◌, Bool, true, false, ◌&&◌, ◌||◌, not, String, List, [], ◌∷◌, ◌++◌,
  length, get_or, ltb, leb, ◌==◌, if◌then◌else◌, bit_or,
}
use kmsrdp.Pdu.Result.{Result, ok, err, invalid_value, ◌>>=◌, ◌>>◌, guard}
use kmsrdp.Pdu.Cursor.{ReadCursor, read_u8, read_u16_be, read_slice, write_u8, write_u16_be}
use kmsrdp.Pdu.Per.{fold_bytes}

abbrev pub tag_boolean : ℕ
tag_boolean = 0x01

abbrev pub tag_integer : ℕ
tag_integer = 0x02

abbrev pub tag_octet_string : ℕ
tag_octet_string = 0x04

abbrev pub tag_enumerated : ℕ
tag_enumerated = 0x0a

abbrev pub tag_sequence : ℕ
tag_sequence = 0x30

unfoldable pub write_length : ℕ → List ℕ
unfolding write_u8
write_length length =
    if leb length 0x7f
    then write_u8 (length % 0x100)
    else if leb length 0xff
    then write_u8 0x81 ++ write_u8 (length % 0x100)
    else write_u8 0x82 ++ write_u16_be (length % 0x1_0000)

unfoldable pub read_length : ReadCursor → Result (ℕ × ReadCursor)
read_length c = do
  (first, c) ← read_u8 c
  if leb first 0x7f
      then ok (first, c)
      else if first == 0x81
      then read_u8 c
      else if first == 0x82
      then read_u16_be c
      else err (invalid_value "ber.length" "unsupported BER length-of-length form")

unfoldable pub expect_tag : ℕ → String → ReadCursor → Result (Unit {0} × ReadCursor)
expect_tag expected field c = do
  (tag, c) ← read_u8 c
  guard (tag == expected) (invalid_value field "unexpected BER tag byte")
  ok (tt, c)

unfoldable pub write_application_tag : ℕ → ℕ → List ℕ
unfolding write_u8
write_application_tag tag_number body_length =
    write_u8 0x7f ++ (write_u8 tag_number ++ write_length body_length)

unfoldable pub read_application_tag : ℕ → ReadCursor → Result (ℕ × ReadCursor)
read_application_tag expected_tag_number c = do
  (marker, c) ← read_u8 c
  guard (marker == 0x7f)
      (invalid_value "ber.application_tag" "expected the 2-byte [APPLICATION n] tag form")
  (tag_number, c) ← read_u8 c
  guard (tag_number == expected_tag_number)
      (invalid_value "ber.application_tag" "unexpected application tag number")
  read_length c

unfoldable pub write_sequence_tag : ℕ → List ℕ
unfolding write_u8
write_sequence_tag body_length = write_u8 tag_sequence ++ write_length body_length

unfoldable pub read_sequence_tag : ReadCursor → Result (ℕ × ReadCursor)
unfolding expect_tag
read_sequence_tag c = do (_, c) ← expect_tag tag_sequence "ber.sequence" c; read_length c

-- The content of an INTEGER: its length and its bytes.
unfoldable pub integer_bytes : ℕ → List ℕ
unfolding write_u8
integer_bytes value =
    if ltb value 0x80
    then write_u8 (value % 0x100)
    else if ltb value 0x8000
    then write_u16_be (value % 0x1_0000)
    else if ltb value 0x80_0000
    then write_u8 (value / 0x1_0000 % 0x100) ++ write_u16_be (value % 0x1_0000)
    else if ltb value 0x8000_0000
    then write_u16_be (value / 0x1_0000 % 0x1_0000) ++ write_u16_be (value % 0x1_0000)
    else write_u8 0
      ++ (write_u16_be (value / 0x1_0000 % 0x1_0000) ++ write_u16_be (value % 0x1_0000))

unfoldable pub integer_size : ℕ → ℕ
integer_size value =
    if ltb value 0x80
    then 1
    else if ltb value 0x8000
    then 2
    else if ltb value 0x80_0000
    then 3
    else if ltb value 0x8000_0000
    then 4
    else 5

unfoldable pub write_integer : ℕ → List ℕ
unfolding write_u8
write_integer value =
    write_u8 tag_integer ++ (write_length (integer_size value) ++ integer_bytes value)

-- `bytes.is_empty() || bytes.len() > 5 || (bytes.len() == 5 && bytes[0] != 0)`
unfoldable pub bad_integer : List ℕ → Bool
bad_integer bytes =
    length bytes == 0 || ltb 5 (length bytes) || (length bytes == 5 && not (get_or bytes 0 0 == 0))

unfoldable pub read_integer : ReadCursor → Result (ℕ × ReadCursor)
unfolding expect_tag
read_integer c = do
  (_, c) ← expect_tag tag_integer "ber.integer" c
  (length, c) ← read_length c
  (bytes, c) ← read_slice length c
  guard (not (bad_integer bytes)) (
      invalid_value "ber.integer"
        "unsupported INTEGER length (expected 1-4 bytes or 5 bytes with 0x00 pad)")
  let value = fold_bytes 64 0 bytes
  guard (ltb value 0x1_0000_0000) (invalid_value "ber.integer" "integer value exceeds u32")
  ok (value, c)

unfoldable pub write_boolean : Bool → List ℕ
unfolding write_u8
write_boolean value =
    write_u8 tag_boolean ++ (write_length 1 ++ write_u8 (if value then 0xff else 0))

-- `bytes.first().is_some_and(|&b| b != 0)`
unfoldable pub first_is_set : List ℕ → Bool
first_is_set [] = false
first_is_set (b ∷ bytes) = not (b == 0)

unfoldable pub read_boolean : ReadCursor → Result (Bool × ReadCursor)
unfolding expect_tag first_is_set
read_boolean c = do
  (_, c) ← expect_tag tag_boolean "ber.boolean" c
  (length, c) ← read_length c
  (bytes, c) ← read_slice length c
  ok (first_is_set bytes, c)

unfoldable pub write_enumerated : ℕ → List ℕ
unfolding write_u8
write_enumerated value = write_u8 tag_enumerated ++ (write_length 1 ++ write_u8 value)

-- `bytes.first().copied().ok_or(..)`
unfoldable pub first_or_err : List ℕ → Result ℕ
first_or_err [] = err (invalid_value "ber.enumerated" "empty ENUMERATED value")
first_or_err (b ∷ bytes) = ok b

unfoldable pub read_enumerated : ReadCursor → Result (ℕ × ReadCursor)
unfolding expect_tag first_or_err
read_enumerated c = do
  (_, c) ← expect_tag tag_enumerated "ber.enumerated" c
  (length, c) ← read_length c
  (bytes, c) ← read_slice length c
  value ← first_or_err bytes
  ok (value, c)

unfoldable pub write_octet_string : List ℕ → List ℕ
unfolding write_u8
write_octet_string bytes = write_u8 tag_octet_string ++ (write_length (length bytes) ++ bytes)

unfoldable pub read_octet_string : ReadCursor → Result (List ℕ × ReadCursor)
unfolding expect_tag
read_octet_string c = do
  (_, c) ← expect_tag tag_octet_string "ber.octet_string" c
  (length, c) ← read_length c
  read_slice length c
