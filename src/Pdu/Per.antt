-- ===== src/Pdu/Per.antt =====
-- crates/rdpcore-pdu/src/per.rs: the packed encoding of the MCS domain PDUs.
pub mod Laws
use kmsrdp.Prelude.{
  ℕ, zero, suc, ◌+◌, ◌-◌, ◌*◌, ◌/◌, ◌%◌, ◌^◌, List, [], ◌∷◌, ◌++◌, length, get_or, leb, ◌==◌,
  if◌then◌else◌, bit_and, bit_or, replicate,
}
use kmsrdp.Pdu.Result.{Result, ok, invalid_value, ◌>>=◌, ◌>>◌, guard}
use kmsrdp.Pdu.Cursor.{
  ReadCursor, ensure, advance, peek_slice, read_u8, read_u16_be, read_slice, write_u8, write_u16_be,
}

-- `length as u8` and `length as u16` keep the low bits.
unfoldable pub write_length : ℕ → List ℕ
unfolding write_u8
write_length length =
    if leb length 0x7f
    then write_u8 (length % 0x100)
    else write_u16_be (bit_or (length % 0x1_0000) 0x8000)

unfoldable pub read_length : ReadCursor → Result (ℕ × ReadCursor)
read_length c = do
  slice ← peek_slice 1 c
  if bit_and (get_or slice 0 0) 0x80 == 0
      then read_u8 c
      else (do (v, c) ← read_u16_be c; ok (bit_and v 0x7fff, c))

-- `write_choice`, `write_selection`, `write_number_of_sets` and `write_enum` write one byte.
unfoldable pub write_choice : ℕ → List ℕ
unfolding write_u8
write_choice choice = write_u8 choice

unfoldable pub read_choice : ReadCursor → Result (ℕ × ReadCursor)
read_choice c = read_u8 c

unfoldable pub write_enum : ℕ → List ℕ
unfolding write_u8
write_enum value = write_u8 value

unfoldable pub read_enum : ReadCursor → Result (ℕ × ReadCursor)
read_enum c = read_u8 c

unfoldable pub write_u32 : ℕ → List ℕ
unfolding write_length write_u8
write_u32 value =
    if leb value 0xff
    then write_length 1 ++ write_u8 (value % 0x100)
    else if leb value 0xffff
    then write_length 2 ++ write_u16_be (value % 0x1_0000)
    else write_length 4
      ++ (write_u16_be (value / 0x1_0000 % 0x1_0000) ++ write_u16_be (value % 0x1_0000))

-- `(value << 8) | b`, where the shift drops what leaves the `width` bits of `value`.
unfoldable pub shift_in : ℕ → ℕ → ℕ → ℕ
shift_in width value b = bit_or (value * 2 ^ 8 % 2 ^ width) b

unfoldable pub fold_bytes : ℕ → ℕ → List ℕ → ℕ
fold_bytes width value [] = value
fold_bytes width value (b ∷ bytes) = fold_bytes width (shift_in width value b) bytes

unfoldable pub read_u32 : ReadCursor → Result (ℕ × ReadCursor)
read_u32 c = do
  (length, c) ← read_length c
  (bytes, c) ← read_slice length c
  ok (fold_bytes 32 0 bytes, c)

-- `wrapping_sub` and `wrapping_add` on u16. The writer's `debug_assert!(value >= min)` stops a debug
-- build; below `least` these are the bytes of a release build.
unfoldable pub write_u16 : ℕ → ℕ → List ℕ
write_u16 value least = write_u16_be ((value + 0x1_0000 - least) % 0x1_0000)

unfoldable pub read_u16 : ℕ → ReadCursor → Result (ℕ × ReadCursor)
read_u16 least c = do (v, c) ← read_u16_be c; ok ((v + least) % 0x1_0000, c)

-- `id[0] * 40 + id[1]` is computed in u8; the identifiers of GCC keep it below 256.
unfoldable pub write_object_id : (a b c d e f : ℕ) → List ℕ
unfolding write_u8
write_object_id a b c d e f = write_u8 5 ++ (write_u8 (a * 40 + b) ++ (c ∷ d ∷ e ∷ f ∷ []))

unfoldable pub read_object_id : ReadCursor → Result (List ℕ × ReadCursor)
read_object_id c = do
  (length, c) ← read_u8 c
  guard (length == 5) (invalid_value "per.object_id" "expected a 5-byte packed OID body")
  (packed, c) ← read_u8 c
  (rest, c) ← read_slice 4 c
  ok ((packed / 40) ∷ (packed % 40) ∷ rest, c)

-- `saturating_sub`
unfoldable pub write_octet_string : List ℕ → ℕ → List ℕ
write_octet_string bytes least = write_length (length bytes - least) ++ bytes

unfoldable pub read_octet_string : ℕ → ReadCursor → Result (List ℕ × ReadCursor)
read_octet_string least c = do (excess, c) ← read_length c; read_slice (excess + least) c

unfoldable pub write_padding : ℕ → List ℕ
write_padding n = replicate n 0

unfoldable pub read_padding : ℕ → ReadCursor → Result (Unit {0} × ReadCursor)
read_padding n c = do ensure n c; ok (tt, advance n c)

-- `(c.wrapping_sub(b'0')) % 10`, and two digits to a byte.
unfoldable pub digit : ℕ → ℕ
digit c = (c + 0x100 - 0x30) % 0x100 % 10

unfoldable pub pack_digits : List ℕ → List ℕ
unfolding digit
pack_digits [] = []
pack_digits (c ∷ []) = (digit c * 2 ^ 4 % 0x100) ∷ []
pack_digits (c ∷ d ∷ value) = bit_or (digit c * 2 ^ 4 % 0x100) (digit d) ∷ pack_digits value

unfoldable pub write_numeric_string : List ℕ → ℕ → List ℕ
unfolding pack_digits
write_numeric_string value least = write_length (length value - least) ++ pack_digits value

unfoldable pub unpack_digits : ℕ → List ℕ → List ℕ
unpack_digits (suc zero) (b ∷ bytes) = (0x30 + b / 2 ^ 4) ∷ []
unpack_digits (suc (suc n)) (b ∷ bytes) =
    (0x30 + b / 2 ^ 4) ∷ (0x30 + bit_and b 0x0f) ∷ unpack_digits n bytes
unpack_digits _ _ = []

unfoldable pub read_numeric_string : ℕ → ReadCursor → Result (List ℕ × ReadCursor)
unfolding unpack_digits
read_numeric_string least c = do
  (excess, c) ← read_length c
  let digit_count = excess + least
  (bytes, c) ← read_slice ((digit_count + 1) / 2) c
  ok (unpack_digits digit_count bytes, c)
