-- ===== src/Pdu/Gcc/Conference.antt =====
-- gcc.rs: ConferenceCreateRequest and ConferenceCreateResponse.
pub mod Laws
use kmsrdp.Prelude.{ℕ, ◌+◌, List, [], ◌∷◌, ◌++◌, length, String, ◌==◌}
use kmsrdp.Pdu.Result.{Result, ok, invalid_value, guard, ◌>>=◌, ◌>>◌}
use kmsrdp.Pdu.Cursor.{ReadCursor, new, read_u8, read_slice, write_u8}
use kmsrdp.Pdu.Per

abbrev pub client_to_server_h221 : List ℕ
client_to_server_h221 = 0x44 ∷ 0x75 ∷ 0x63 ∷ 0x61 ∷ []

abbrev pub server_to_client_h221 : List ℕ
server_to_client_h221 = 0x4d ∷ 0x63 ∷ 0x44 ∷ 0x6e ∷ []

-- "1"
abbrev pub conference_name : List ℕ
conference_name = 0x31 ∷ []

abbrev pub request_overhead : ℕ
request_overhead = 12

abbrev pub response_overhead : ℕ
response_overhead = 13

unfoldable pub write_conference_object_id : List ℕ
write_conference_object_id = Per.write_object_id 0 0 20 124 0 1

unfoldable pub encode_request : List ℕ → List ℕ
encode_request client_gcc_blocks =
    write_u8 0x00
    ++ (write_conference_object_id
        ++ (Per.write_length (length client_gcc_blocks + request_overhead)
            ++ (write_u8 0x00
                ++ (write_u8 0x08
                    ++ (Per.write_numeric_string conference_name 1
                        ++ (Per.write_padding 1
                            ++ (Per.write_choice 1
                                ++ (write_u8 0xc0
                                    ++ (Per.write_octet_string client_to_server_h221 4
                                        ++ (Per.write_length (length client_gcc_blocks)
                                            ++ client_gcc_blocks))))))))))

unfoldable pub expect_byte : ℕ → String → ReadCursor → Result (Unit {0} × ReadCursor)
expect_byte expected field c = do
  (got, c) ← read_u8 c
  guard (got == expected) (invalid_value field "unexpected fixed byte value")
  ok (tt, c)

unfoldable pub decode_request : List ℕ → Result (List ℕ)
decode_request input = do
  (_key, c) ← expect_byte 0x00 "gcc.conference_request.key_choice" (new input)
  (_oid, c) ← Per.read_object_id c
  (_connect_pdu_len, c) ← Per.read_length c
  (_pdu, c) ← expect_byte 0x00 "gcc.conference_request.gcc_pdu_choice" c
  (_selection, c) ← Per.read_choice c
  (_conference_name, c) ← Per.read_numeric_string 1 c
  (_padding, c) ← Per.read_padding 1 c
  (_number_of_sets, c) ← Per.read_choice c
  (_entry_key_choice, c) ← read_u8 c
  (_h221_id, c) ← Per.read_octet_string 4 c
  (blocks_len, c) ← Per.read_length c
  (client_gcc_blocks, _c) ← read_slice blocks_len c
  ok client_gcc_blocks

abbrev pub response_choice : ℕ
response_choice = 0x14

pub record ConferenceCreateResponse : Type 0 where
  pub node_id : ℕ
  pub server_gcc_blocks : List ℕ

unfoldable pub encode_response : ConferenceCreateResponse → List ℕ
encode_response x =
    write_u8 0x00
    ++ (write_conference_object_id
        ++ (Per.write_length (length x.server_gcc_blocks + response_overhead)
            ++ (write_u8 response_choice
                ++ (Per.write_u16 x.node_id 1001
                    ++ (Per.write_u32 1
                        ++ (Per.write_enum 0
                            ++ (Per.write_choice 1
                                ++ (write_u8 0xc0
                                    ++ (Per.write_octet_string server_to_client_h221 4
                                        ++ (Per.write_length (length x.server_gcc_blocks)
                                            ++ x.server_gcc_blocks))))))))))

unfoldable pub decode_response : List ℕ → Result ConferenceCreateResponse
decode_response input = do
  (_key, c) ← expect_byte 0x00 "gcc.conference_response.key_choice" (new input)
  (_oid, c) ← Per.read_object_id c
  (_connect_pdu_len, c) ← Per.read_length c
  (_pdu, c) ← expect_byte response_choice "gcc.conference_response.gcc_pdu_choice" c
  (node_id, c) ← Per.read_u16 1001 c
  (_tag, c) ← Per.read_u32 c
  (_result, c) ← Per.read_enum c
  (_number_of_sets, c) ← Per.read_choice c
  (_entry_key_choice, c) ← read_u8 c
  (_h221_id, c) ← Per.read_octet_string 4 c
  (blocks_len, c) ← Per.read_length c
  (server_gcc_blocks, _c) ← read_slice blocks_len c
  ok (record { node_id = node_id; server_gcc_blocks = server_gcc_blocks })
