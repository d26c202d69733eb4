-- ===== src/Dvc/Pdu/Laws.antt =====
-- rdpcore-dvc, pdu.rs: the encoders against the decoder.
use kmsrdp.Prelude.{
  ℕ, ◌+◌, ◌*◌, ◌/◌, ◌%◌, ◌^◌, ◌<◌, ◌≡◌, refl, List, [], ◌++◌, arith, leb, append-nil, bit_and,
  bit_or, or_shifted, and_mask, IsU32, IsU16, Bool-cases, inl, inr, ◌⊎◌,
}
use kmsrdp.Pdu.Result.{ok}
use kmsrdp.Pdu.Cursor.{write_u8}
use kmsrdp.Pdu.Cursor.Laws.{at, new-at, cursor_laws, read_u8-at, read_u16_le-at, read_u32_le-at}
use kmsrdp.Dvc.Pdu.{
  field_size_for, write_variable, read_variable, encode_close, encode_data, encode_data_first,
  cmd_data, cmd_data_first, cmd_close, channel_data, data_first, close, decode_body,
  decode_client_message,
}

-- The three widths of a field.
widths :
    (v : ℕ)
    → IsU32 v
    → ((field_size_for v ≡ (0, 1)) × (v < 0x100))
      ⊎ (((field_size_for v ≡ (1, 2)) × IsU16 v) ⊎ (field_size_for v ≡ (2, 4)))
unfolding field_size_for
widths v h = elim (Bool-cases (leb v 0xff)) [
  | inl one ↦ inl (rw one refl, ground arith)
  | inr more ↦ elim (Bool-cases (leb v 0xffff)) [
    | inl two ↦ inr (inl (rw (more, two) refl, ground arith))
    | inr four ↦ inr (inr (rw (more, four) refl))
  ]
]

pub read_variable-write_variable :
    (f r : List ℕ) (v : ℕ)
    → IsU32 v
    → read_variable (field_size_for v).0 (at f (write_variable v (field_size_for v).1 ++ r))
      ≡ ok (v, at (f ++ write_variable v (field_size_for v).1) r)
unfolding read_variable write_variable write_u8
read_variable-write_variable f r v h = elim (widths v h) [
  | inl (size, small) ↦
      let same : v % 0x100 ≡ v = omega (arith, small) in rw (size, same) (read_u8-at f v r)
  | inr (inl (size, small)) ↦
      let same : v % 0x1_0000 ≡ v = omega (arith, small) in
      rw (size, same) (read_u16_le-at f r v small)
  | inr (inr size) ↦ rw size (read_u32_le-at f r v h)
]

selector_small : (v : ℕ) → (field_size_for v).0 < 3
unfolding field_size_for
selector_small v = ground arith

-- The header of a message, and what is read of it.
record Header (byte cmd sp cb : ℕ) : Type 0 where
  command : byte / 2 ^ 4 ≡ cmd
  middle : bit_and (byte / 2 ^ 2) 3 ≡ sp
  low : bit_and byte 3 ≡ cb

header :
    (byte cmd sp cb : ℕ) → byte ≡ cmd * 16 + sp * 4 + cb → sp < 4 → cb < 4 → Header byte cmd sp cb
header byte cmd sp cb e h k = record {
  command = omega arith;
  middle = omega (arith, and_mask 2 (byte / 2 ^ 2));
  low = omega (arith, and_mask 2 byte);
}

plain_byte : (cmd cb : ℕ) → cb < 4 → bit_or (cmd * 2 ^ 4) cb ≡ cmd * 16 + 0 * 4 + cb
plain_byte cmd cb h = omega (arith, or_shifted 4 cmd cb (omega arith))

first_byte :
    (cmd sp cb : ℕ)
    → sp < 4
    → cb < 4
    → bit_or (bit_or (cmd * 2 ^ 4) (sp * 2 ^ 2)) cb ≡ cmd * 16 + sp * 4 + cb
first_byte cmd sp cb h k =
    let inner : bit_or (cmd * 2 ^ 4) (sp * 2 ^ 2) ≡ (cmd * 4 + sp) * 2 ^ 2 =
      omega (arith, or_shifted 4 cmd (sp * 2 ^ 2) (omega arith)) in
    rw inner (omega (arith, or_shifted 2 (cmd * 4 + sp) cb k))

decode-Header :
    (byte cmd sp cb : ℕ) (r : List ℕ)
    → Header byte cmd sp cb
    → decode_client_message (write_u8 byte ++ r) ≡ decode_body cmd sp cb (at (write_u8 byte) r)
unfolding decode_client_message write_u8
decode-Header byte cmd sp cb r h = simp (new-at, read_u8-at, h.command, h.middle, h.low)

-- A Data message is decoded from its encoding.
pub decode-encode_data :
    (channel_id : ℕ) (bytes : List ℕ)
    → IsU32 channel_id
    → decode_client_message (encode_data channel_id bytes) ≡ ok (channel_data channel_id bytes)
unfolding encode_data decode_body
decode-encode_data channel_id bytes h =
    let cb = (field_size_for channel_id).0 in
    let small : cb < 4 = omega (arith, selector_small channel_id) in
    let head =
      header (bit_or (cmd_data * 2 ^ 4) cb) cmd_data 0 cb (plain_byte cmd_data cb small)
        (omega arith) small in
    rw (decode-Header _ cmd_data 0 cb _ head)
      (simp (read_variable-write_variable _ bytes channel_id h, cursor_laws))

-- A Data First message with a 32-bit channel id and total length is decoded from its encoding,
-- in every combination of field widths.
pub decode-encode_data_first :
    (channel_id total_length : ℕ) (bytes : List ℕ)
    → IsU32 channel_id
    → IsU32 total_length
    → decode_client_message (encode_data_first channel_id total_length bytes)
      ≡ ok (data_first channel_id total_length bytes)
unfolding encode_data_first decode_body
decode-encode_data_first channel_id total_length bytes h k =
    let cb = (field_size_for channel_id).0 in
    let sp = (field_size_for total_length).0 in
    let small : cb < 4 = omega (arith, selector_small channel_id) in
    let small_sp : sp < 4 = omega (arith, selector_small total_length) in
    let head =
      header (bit_or (bit_or (cmd_data_first * 2 ^ 4) (sp * 2 ^ 2)) cb) cmd_data_first sp cb
        (first_byte cmd_data_first sp cb small_sp small) small_sp small in
    rw (decode-Header _ cmd_data_first sp cb _ head) (
      simp (
        read_variable-write_variable _ _ channel_id h,
        read_variable-write_variable _ bytes total_length k,
        cursor_laws,
      ))

-- A Close message with a 32-bit channel id is decoded from its encoding.
pub decode-encode_close :
    (channel_id : ℕ)
    → IsU32 channel_id
    → decode_client_message (encode_close channel_id) ≡ ok (close channel_id)
unfolding encode_close decode_body
decode-encode_close channel_id h =
    let cb = (field_size_for channel_id).0 in
    let small : cb < 4 = omega (arith, selector_small channel_id) in
    let head =
      header (bit_or (cmd_close * 2 ^ 4) cb) cmd_close 0 cb (plain_byte cmd_close cb small)
        (omega arith) small in
    let read =
      rw append-nil at
        (read_variable-write_variable (write_u8 (bit_or (cmd_close * 2 ^ 4) cb)) [] channel_id h) in
    rw (decode-Header _ cmd_close 0 cb _ head) (simp (read))
