-- ===== src/Pdu/Gcc/Conference/Laws.antt =====
-- gcc.rs: `ConferenceCreateRequest::decode` and `ConferenceCreateResponse::decode` after `encode`.
use kmsrdp.Prelude.{
  ◌≤◌, leb, Bool-cases, inl, inr, length-append, ℕ, ◌+◌, ◌<◌, ◌≡◌, refl, List, [], ◌∷◌, ◌++◌,
  length, String, true, ◌==◌, arith, IsU16, IsU32, append_assoc, append-nil,
}
use kmsrdp.Pdu.Result.{ok}
use kmsrdp.Pdu.Cursor.{write_u8, write_u16_be, read_u8, read_slice}
use kmsrdp.Pdu.Cursor.Laws.{at, new-at, read_slice-at, read_u8-at}
use kmsrdp.Pdu.Per
use kmsrdp.Pdu.Per.Laws as PerLaws
use kmsrdp.Pdu.Gcc.Conference.{
  conference_name, write_conference_object_id, encode_request, decode_request, expect_byte,
  ConferenceCreateResponse, encode_response, decode_response, client_to_server_h221,
  server_to_client_h221, request_overhead, response_overhead,
}

read_slice-end : (f s : List ℕ) → read_slice (length s) (at f s) ≡ ok (s, at (f ++ s) [])
read_slice-end f s = rw append-nil at (read_slice-at f s [] (length s) refl)

read_conference_name :
    (f r : List ℕ)
    → Per.read_numeric_string 1 (at f (Per.write_numeric_string conference_name 1 ++ r))
      ≡ ok (conference_name, at (f ++ Per.write_numeric_string conference_name 1) r)
unfolding Per.read_numeric_string Per.write_numeric_string
read_conference_name f r =
    let size = Per.write_length 0 in
    let read = PerLaws.read_length-write_length f (0x10 ∷ r) 0 (omega arith) in
    simp (append_assoc, read, read_slice-at (f ++ size) (0x10 ∷ []) r 1 refl)

expect_byte-at :
    (f r : List ℕ) (expected : ℕ) (field : String)
    → expect_byte expected field (at f (write_u8 expected ++ r))
      ≡ ok (tt, at (f ++ write_u8 expected) r)
unfolding expect_byte write_u8
expect_byte-at f r expected field =
    let same : (expected == expected) ≡ true = ground arith in rw (read_u8-at, same) refl

read_conference_object_id :
    (f r : List ℕ)
    → Per.read_object_id (at f (write_conference_object_id ++ r))
      ≡ ok (0 ∷ 0 ∷ 20 ∷ 124 ∷ 0 ∷ 1 ∷ [], at (f ++ write_conference_object_id) r)
unfolding write_conference_object_id
read_conference_object_id f r =
    PerLaws.read_object_id-write_object_id f r 0 0 20 124 0 1 (omega arith) (omega arith)

read_byte :
    (f r : List ℕ) (value : ℕ)
    → read_u8 (at f (write_u8 value ++ r)) ≡ ok (value, at (f ++ write_u8 value) r)
unfolding write_u8
read_byte f r value = read_u8-at f value r

read_choice-at :
    (f r : List ℕ) (choice : ℕ)
    → Per.read_choice (at f (Per.write_choice choice ++ r))
      ≡ ok (choice, at (f ++ Per.write_choice choice) r)
unfolding Per.read_choice Per.write_choice write_u8
read_choice-at f r choice = read_u8-at f choice r

read_enum-at :
    (f r : List ℕ) (value : ℕ)
    → Per.read_enum (at f (Per.write_enum value ++ r))
      ≡ ok (value, at (f ++ Per.write_enum value) r)
unfolding Per.read_enum Per.write_enum write_u8
read_enum-at f r value = read_u8-at f value r

read_h221 :
    (f r key : List ℕ)
    → length key ≡ 4
    → Per.read_octet_string 4 (at f (Per.write_octet_string key 4 ++ r))
      ≡ ok (key, at (f ++ Per.write_octet_string key 4) r)
read_h221 f r key h =
    PerLaws.read_octet_string-write_octet_string f r key 4 (omega arith) (omega arith)

-- A conference create response with a 16-bit node of at least 1001 and fewer than 32755 bytes of blocks is decoded
-- from its encoding.
pub decode_conference_response :
    (x : ConferenceCreateResponse)
    → 1001 ≤ x.node_id
    → IsU16 x.node_id
    → length x.server_gcc_blocks + response_overhead < 0x8000
    → decode_response (encode_response x) ≡ ok x
unfolding decode_response encode_response
decode_conference_response x least h small =
    let size : length x.server_gcc_blocks < 0x8000 = omega arith in
    let base : IsU16 1001 = omega arith in
    let one : IsU32 1 = omega arith in
    let key : length server_to_client_h221 ≡ 4 = refl in
    simp (
      new-at, append_assoc, expect_byte-at, read_conference_object_id,
      PerLaws.read_length-write_length, small, size, base, least, h, one,
      PerLaws.read_u16-write_u16, PerLaws.read_u32-write_u32, read_enum-at, read_choice-at,
      read_byte, read_h221, key, read_slice-end,
    )

-- A conference create request with fewer than 32756 bytes of blocks is decoded from its
-- encoding.
pub decode_conference_request :
    (blocks : List ℕ)
    → length blocks + request_overhead < 0x8000
    → decode_request (encode_request blocks) ≡ ok blocks
unfolding decode_request encode_request Per.read_choice
decode_conference_request blocks small =
    let size : length blocks < 0x8000 = omega arith in
    let key : length client_to_server_h221 ≡ 4 = refl in
    simp (
      new-at, append_assoc, expect_byte-at, read_conference_object_id,
      PerLaws.read_length-write_length, small, size, PerLaws.read_padding-write_padding,
      read_conference_name, read_choice-at, read_byte, read_h221, key, read_slice-end,
    )

length-write_length : (n : ℕ) → length (Per.write_length n) ≤ 2
unfolding Per.write_length write_u8 write_u16_be
length-write_length n = elim (Bool-cases (leb n 0x7f)) [
  | inl short ↦ rw short (omega arith)
  | inr long ↦ rw long (omega arith)
]

pub length-encode_response :
    (x : ConferenceCreateResponse) → length (encode_response x) ≤ length x.server_gcc_blocks + 64
unfolding encode_response write_conference_object_id Per.write_object_id Per.write_choice
    Per.write_enum Per.write_octet_string Per.write_u16 Per.write_u32 write_u8 write_u16_be
length-encode_response x = omega (
  arith,
  length-append (Per.write_length (length x.server_gcc_blocks + response_overhead)),
  length-append (Per.write_length (length x.server_gcc_blocks)),
  length-write_length (length x.server_gcc_blocks + response_overhead),
  length-write_length 0,
  length-write_length (length x.server_gcc_blocks),
)
