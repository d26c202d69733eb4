-- ===== src/Pdu/X224/Request.antt =====
-- crates/rdpcore-pdu/src/x224.rs: the Connection Request. A cookie is its bytes; that they are UTF-8
-- is asked of the test `is_utf8`, which stands for `core::str::from_utf8`.
pub mod Laws
use kmsrdp.Prelude.{
  bytes_equal, ℕ, zero, suc, ◌+◌, ◌-◌, ◌*◌, ◌%◌, ◌≤◌, ◌<◌, ◌≡◌, refl, sym, ap, ◌∙◌, Bool, true,
  false, not, ◌&&◌, Option, none, some, List, [], ◌∷◌, ◌++◌, length, ltb, ◌==◌, if◌then◌else◌,
  bit_and, arith, All, IsByte, IsU32,
}
use kmsrdp.Pdu.Result.{Result, ok, err, invalid_value, not_enough_bytes, ◌>>=◌, ◌>>◌, guard}
use kmsrdp.Pdu.Cursor.{
  ReadCursor, new, remaining, ensure, advance, peek_slice, slice_from_to, read_u8, read_u16_le,
  read_u32_le, write_u8, write_u16_le, write_u32_le,
}
use kmsrdp.Pdu.Tpdu
use kmsrdp.Pdu.X224.{nego_body_size, encode_x224, decode_x224_header}

-- "Cookie: mstshash="
abbrev pub cookie_prefix : List ℕ
cookie_prefix =
    0x43 ∷ 0x6f ∷ 0x6f ∷ 0x6b ∷ 0x69 ∷ 0x65 ∷ 0x3a ∷ 0x20 ∷ 0x6d ∷ 0x73 ∷ 0x74 ∷ 0x73 ∷ 0x68 ∷ 0x61
    ∷ 0x73 ∷ 0x68 ∷ 0x3d ∷ []

abbrev pub crlf : ℕ
crlf = 0x0a0d

abbrev pub nego_request : ℕ
nego_request = 1

abbrev pub protocol_ssl : ℕ
protocol_ssl = 1

abbrev pub protocol_hybrid : ℕ
protocol_hybrid = 2

-- `SecurityProtocol::contains`
unfoldable pub contains : ℕ → ℕ → Bool
contains protocol flag = bit_and protocol flag == flag

pub record ConnectionRequest : Type 0 where
  pub cookie : Option (List ℕ)
  pub flags : ℕ
  pub protocol : ℕ

unfoldable pub cookie_line : Option (List ℕ) → List ℕ
cookie_line none = []
cookie_line (some cookie) = cookie_prefix ++ (cookie ++ write_u16_le crlf)

unfoldable pub encode_request : ConnectionRequest → List ℕ
encode_request x = encode_x224 Tpdu.connection_request (
    cookie_line x.cookie
    ++ (write_u8 nego_request
        ++ (write_u8 x.flags ++ (write_u16_le nego_body_size ++ write_u32_le x.protocol))))

unfoldable pub next_place : Option ℕ → Option ℕ
next_place none = none
next_place (some n) = some (suc n)

-- `rest.windows(2).position(|w| w == [0x0D, 0x0A])`
unfoldable pub find_crlf : List ℕ → Option ℕ
unfolding next_place
find_crlf (x ∷ y ∷ bytes) =
    let later = next_place (find_crlf (y ∷ bytes)) in
    if x == 0x0d && y == 0x0a then some 0 else later
find_crlf _ = none

unfoldable pub found_at : Option ℕ → ℕ → Result ℕ
found_at none size = err (not_enough_bytes (size + 1) size)
found_at (some n) size = ok n

-- The cookie behind its prefix.
unfoldable pub read_cookie_value : (List ℕ → Bool) → ReadCursor → Result (List ℕ × ReadCursor)
unfolding found_at
read_cookie_value is_utf8 c = do
  let value_start = c.pos
  rest ← peek_slice (remaining c) c
  crlf_offset ← found_at (find_crlf rest) (length rest)
  let c = advance crlf_offset c
  let value_end = c.pos
  let c = advance 2 c
  let value = slice_from_to value_start value_end c
  guard (is_utf8 value) (invalid_value "x224.cookie" "not valid UTF-8")
  ok (value, c)

unfoldable pub read_cookie : (List ℕ → Bool) → ReadCursor → Result (Option (List ℕ) × ReadCursor)
unfolding bytes_equal read_cookie_value
read_cookie is_utf8 c = elim (ltb (remaining c) (length cookie_prefix + 2)) [
  | true ↦ ok (none, c)
  | false ↦ (do
    front ← peek_slice (length cookie_prefix) c
    elim (bytes_equal front cookie_prefix) [
      | false ↦ ok (none, c)
      | true ↦ (do
        (value, c) ← read_cookie_value is_utf8 (advance (length cookie_prefix) c)
        ok (some value, c))
    ])
]

unfoldable pub decode_request : (List ℕ → Bool) → List ℕ → Result ConnectionRequest
decode_request is_utf8 input = do
  (headers, c) ← decode_x224_header Tpdu.connection_request (new input)
  ensure (Tpdu.variable_part_size headers.1) c
  (cookie, c) ← read_cookie is_utf8 c
  (kind, c) ← read_u8 c
  guard (kind == nego_request)
      (invalid_value "x224.nego_request.type" "expected RDP_NEG_REQ type byte")
  (flags, c) ← read_u8 c
  (_length, c) ← read_u16_le c
  (protocol, _c) ← read_u32_le c
  ok (record { cookie = cookie; flags = flags; protocol = protocol })
