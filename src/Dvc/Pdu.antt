-- ===== src/Dvc/Pdu.antt =====
-- crates/rdpcore-dvc/src/pdu.rs: the messages of the dynamic channels.
pub mod Laws
use kmsrdp.Prelude.{
  ℕ, zero, suc, ◌+◌, ◌*◌, ◌/◌, ◌%◌, ◌^◌, Bool, true, false, Option, none, some, List, [], ◌∷◌, ◌++◌,
  length, map, ltb, leb, ◌==◌, if◌then◌else◌, bit_and, bit_or,
}
use kmsrdp.Pdu.Result.{Result, ok, err, invalid_value, ◌>>=◌}
use kmsrdp.Pdu.Cursor.{
  ReadCursor, new, read_u8, read_u16_le, read_u32_le, read_rest, write_u8, write_u16_le,
  write_u32_le,
}
use kmsrdp.Pdu.Svc.{chunks}

abbrev pub cmd_create : ℕ
cmd_create = 1

abbrev pub cmd_data_first : ℕ
cmd_data_first = 2

abbrev pub cmd_data : ℕ
cmd_data = 3

abbrev pub cmd_close : ℕ
cmd_close = 4

abbrev pub cmd_capability : ℕ
cmd_capability = 5

abbrev pub max_data_size : ℕ
max_data_size = 1590

unfoldable pub field_size_for : ℕ → ℕ × ℕ
field_size_for value =
    if leb value 0xff then (0, 1) else if leb value 0xffff then (1, 2) else (2, 4)

-- A size other than 1, 2 and 4 is a panic in the code, which no caller asks for.
unfoldable pub write_variable : ℕ → ℕ → List ℕ
write_variable value size =
    if size == 1
    then write_u8 (value % 0x100)
    else if size == 2
    then write_u16_le (value % 0x1_0000)
    else if size == 4
    then write_u32_le value
    else []

unfoldable pub read_variable : ℕ → ReadCursor → Result (ℕ × ReadCursor)
read_variable selector c =
    if selector == 0
    then read_u8 c
    else if selector == 1
    then read_u16_le c
    else if selector == 2
    then read_u32_le c
    else err (invalid_value "dvc.field_selector" "selector value 3 is reserved/unused")

unfoldable pub encode_capability_request : List ℕ
encode_capability_request =
    write_u8 (cmd_capability * 2 ^ 4)
    ++ (write_u8 0
        ++ (write_u16_le 2
            ++ (write_u16_le 0 ++ (write_u16_le 0 ++ (write_u16_le 0 ++ write_u16_le 0)))))

unfoldable pub encode_create_request : ℕ → List ℕ → List ℕ
encode_create_request channel_id channel_name =
    let (cb_sel, cb_size) = field_size_for channel_id in
    write_u8 (bit_or (cmd_create * 2 ^ 4) cb_sel)
    ++ (write_variable channel_id cb_size ++ (channel_name ++ write_u8 0))

unfoldable pub encode_close : ℕ → List ℕ
encode_close channel_id =
    let (cb_sel, cb_size) = field_size_for channel_id in
    write_u8 (bit_or (cmd_close * 2 ^ 4) cb_sel) ++ write_variable channel_id cb_size

unfoldable pub encode_data : ℕ → List ℕ → List ℕ
encode_data channel_id bytes =
    let (cb_sel, cb_size) = field_size_for channel_id in
    write_u8 (bit_or (cmd_data * 2 ^ 4) cb_sel) ++ (write_variable channel_id cb_size ++ bytes)

unfoldable pub encode_data_first : ℕ → ℕ → List ℕ → List ℕ
encode_data_first channel_id total_length first_chunk =
    let (cb_sel, cb_size) = field_size_for channel_id in
    let (len_sel, len_size) = field_size_for total_length in
    write_u8 (bit_or (bit_or (cmd_data_first * 2 ^ 4) (len_sel * 2 ^ 2)) cb_sel)
    ++ (write_variable channel_id cb_size ++ (write_variable total_length len_size ++ first_chunk))

-- The frames of a payload that is split; `chunks` is `slice::chunks`.
unfoldable pub split_frames : ℕ → ℕ → List (List ℕ) → List (List ℕ)
split_frames channel_id total_length [] = []
split_frames channel_id total_length (first ∷ rest) =
    encode_data_first channel_id total_length first ∷ map (encode_data channel_id) rest

unfoldable pub encode_channel_payload : ℕ → List ℕ → List (List ℕ)
unfolding split_frames
encode_channel_payload channel_id payload =
    if leb (length payload) max_data_size
    then encode_data channel_id payload ∷ []
    else split_frames channel_id (length payload % 0x1_0000_0000) (chunks max_data_size payload)

pub data ClientMessage : Type 0 where
  capability_response : ℕ → ClientMessage
  create_response : (channel_id creation_status : ℕ) → ClientMessage
  channel_data : (channel_id : ℕ) (bytes : List ℕ) → ClientMessage
  data_first : (channel_id total_length : ℕ) (bytes : List ℕ) → ClientMessage
  close : (channel_id : ℕ) → ClientMessage
  other : ClientMessage

unfoldable pub decode_body : ℕ → ℕ → ℕ → ReadCursor → Result ClientMessage
decode_body cmd sp cb_id c =
    if cmd == cmd_capability
    then (do (pad, c) ← read_u8 c; (version, c) ← read_u16_le c; ok (capability_response version))
    else if cmd == cmd_create
    then (do
      (channel_id, c) ← read_variable cb_id c
      (creation_status, c) ← read_u32_le c
      ok (create_response channel_id creation_status))
    else if cmd == cmd_data
    then (do (channel_id, c) ← read_variable cb_id c; ok (channel_data channel_id (read_rest c).0))
    else if cmd == cmd_data_first
    then (do
      (channel_id, c) ← read_variable cb_id c
      (total_length, c) ← read_variable sp c
      ok (data_first channel_id total_length (read_rest c).0))
    else if cmd == cmd_close
    then (do (channel_id, c) ← read_variable cb_id c; ok (close channel_id))
    else ok other

unfoldable pub decode_client_message : List ℕ → Result ClientMessage
unfolding decode_body
decode_client_message input = do
  (header, c) ← read_u8 (new input)
  decode_body (header / 2 ^ 4) (bit_and (header / 2 ^ 2) 3) (bit_and header 3) c
