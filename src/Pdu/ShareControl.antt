-- ===== src/Pdu/ShareControl.antt =====
-- crates/rdpcore-pdu/src/capability_sets.rs: the Share Control header, and the Deactivate All PDU.
pub mod Laws
use kmsrdp.Prelude.{
  ℕ, ◌+◌, ◌-◌, ◌%◌, Bool, Option, none, some, List, ◌++◌, length, String, ◌==◌, if◌then◌else◌,
  bit_and, bit_or,
}
use kmsrdp.Pdu.Result.{Result, ok, err, invalid_value, guard, ◌>>=◌, ◌>>◌}
use kmsrdp.Pdu.Cursor.{ReadCursor, read_u16_le, read_u32_le, write_u16_le, write_u32_le}

abbrev pub share_control_version_sentinel : ℕ
share_control_version_sentinel = 0x10

abbrev pub share_control_type_mask : ℕ
share_control_type_mask = 0xf

pub data ShareControlPduType : Type 0 where
  demand_active confirm_active deactivate_all data_pdu : ShareControlPduType

unfoldable pub as_u16 : ShareControlPduType → ℕ
as_u16 demand_active = 0x1
as_u16 confirm_active = 0x3
as_u16 deactivate_all = 0x6
as_u16 data_pdu = 0x7

unfoldable pub from_u16 : ℕ → Option ShareControlPduType
from_u16 value =
    if value == 0x1
    then some demand_active
    else if value == 0x3
    then some confirm_active
    else if value == 0x6
    then some deactivate_all
    else if value == 0x7
    then some data_pdu
    else none

-- The derived equality: `as_u16` tells the variants apart.
unfoldable pub is_type : ShareControlPduType → ShareControlPduType → Bool
unfolding as_u16
is_type x y = as_u16 x == as_u16 y

pub record ShareControlHeader : Type 0 where
  pub pdu_type : ShareControlPduType
  pub pdu_source : ℕ
  pub share_id : ℕ

abbrev pub header_size : ℕ
header_size = 10

unfoldable pub write : ShareControlHeader → ℕ → List ℕ
write header body_len =
    write_u16_le ((header_size + body_len) % 0x1_0000)
    ++ (write_u16_le (bit_or share_control_version_sentinel (as_u16 header.pdu_type))
        ++ (write_u16_le header.pdu_source ++ write_u32_le header.share_id))

-- `option.ok_or(error)`
unfoldable pub ok_or {ℓ} : {A : Type ℓ} (found : Option A) (field reason : String) → Result A
ok_or none field reason = err (invalid_value field reason)
ok_or (some value) field reason = ok value

unfoldable pub decode : ReadCursor → Result ((ShareControlHeader × ℕ) × ReadCursor)
unfolding from_u16 ok_or
decode c = do
  (total_length, c) ← read_u16_le c
  (raw_type, c) ← read_u16_le c
  guard (bit_and raw_type 0xfff0 == share_control_version_sentinel)
      (invalid_value "share_control_header.pdu_type" "expected the fixed 0x10 version sentinel")
  pdu_type ←
      ok_or (from_u16 (bit_and raw_type share_control_type_mask)) "share_control_header.pdu_type"
        "unrecognized PDU type"
  (pdu_source, c) ← read_u16_le c
  (share_id, c) ← read_u32_le c
  ok (
    (
      record { pdu_type = pdu_type; pdu_source = pdu_source; share_id = share_id },
      total_length - header_size,
    ),
    c,
  )

-- A PDU that ends with its body.
unfoldable pub with_header : ShareControlHeader → List ℕ → List ℕ
with_header header body = write header (length body) ++ body

unfoldable pub encode_deactivate_all : ℕ → ℕ → List ℕ
unfolding with_header
encode_deactivate_all share_id pdu_source =
    with_header (record { pdu_type = deactivate_all; pdu_source = pdu_source; share_id = share_id })
      (write_u16_le 0)
