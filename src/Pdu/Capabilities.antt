-- ===== src/Pdu/Capabilities.antt =====
-- crates/rdpcore-pdu/src/capability_sets.rs: what both sides read of a Confirm Active.
pub mod Server
pub mod Laws
use kmsrdp.Prelude.{
  bytes_equal, ℕ, zero, suc, ◌+◌, ◌-◌, ◌%◌, Bool, true, false, Option, none, some, List, [], ◌∷◌,
  ◌++◌, length, min, max, ltb, leb, ◌==◌, not, if◌then◌else◌,
}
use kmsrdp.Pdu.Result.{Result, ok, err, invalid_value, guard, ◌>>=◌, ◌>>◌}
use kmsrdp.Pdu.Cursor.{
  ReadCursor, new, remaining, read_u8, read_u16_le, read_u32_le, read_slice, write_u16_le,
}
use kmsrdp.Pdu.ShareControl as Control
use kmsrdp.Pdu.ShareControl.{is_type}

abbrev pub capset_general : ℕ
capset_general = 0x01

abbrev pub capset_bitmap : ℕ
capset_bitmap = 0x02

abbrev pub capset_order : ℕ
capset_order = 0x03

abbrev pub capset_pointer : ℕ
capset_pointer = 0x08

abbrev pub capset_input : ℕ
capset_input = 0x0d

abbrev pub capset_virtual_channel : ℕ
capset_virtual_channel = 0x14

abbrev pub capset_multifragment_update : ℕ
capset_multifragment_update = 0x1a

abbrev pub capset_surface_commands : ℕ
capset_surface_commands = 0x1c

abbrev pub capset_bitmap_codecs : ℕ
capset_bitmap_codecs = 0x1d

abbrev pub nscodec_guid : List ℕ
nscodec_guid =
    0xb9 ∷ 0x1b ∷ 0x8d ∷ 0xca ∷ 0x0f ∷ 0x00 ∷ 0x4f ∷ 0x15 ∷ 0x58 ∷ 0x9f ∷ 0xae ∷ 0x2d ∷ 0x1a ∷ 0x87
    ∷ 0xe2 ∷ 0xd6 ∷ []

pub record RawCapabilitySet : Type 0 where
  pub set_type : ℕ
  pub body : List ℕ

-- `RawCapabilitySet::write` and `write_capset`.
unfoldable pub write_capset : ℕ → List ℕ → List ℕ
write_capset set_type body =
    write_u16_le set_type ++ (write_u16_le ((length body + 4) % 0x1_0000) ++ body)

unfoldable pub decode_capset : ReadCursor → Result (RawCapabilitySet × ReadCursor)
decode_capset c = do
  (set_type, c) ← read_u16_le c
  (size, c) ← read_u16_le c
  (body, c) ← read_slice (size - 4) c
  ok (record { set_type = set_type; body = body }, c)

-- `result.unwrap_or(0)`, with the cursor, which a read that fails does not move.
unfoldable pub unwrap_or_zero : Result (ℕ × ReadCursor) → ReadCursor → ℕ × ReadCursor
unwrap_or_zero (err e) c = (0, c)
unwrap_or_zero (ok read) c = read

-- The cursor behind a read whose result is dropped.
unfoldable pub skipped {ℓ} :
    {A : Type ℓ} (result : Result (A × ReadCursor)) (c : ReadCursor) → ReadCursor
skipped (err e) c = c
skipped (ok (value, moved)) c = moved

-- The loop over the sets, which stops at the first that does not decode.
unfoldable pub decode_sets : ℕ → ReadCursor → List RawCapabilitySet
decode_sets zero c = []
decode_sets (suc count) c = elim (decode_capset c) [
  | err e ↦ []
  | ok (entry, c) ↦ entry ∷ decode_sets count c
]

unfoldable pub read_count : ReadCursor → Result (ℕ × ReadCursor)
read_count c = do
  (number_capabilities, c) ← read_u16_le c
  (_pad, c) ← read_u16_le c
  ok (number_capabilities, c)

-- `if let (Ok(number_capabilities), Ok(_)) = (...)`
unfoldable pub decode_counted_sets : ReadCursor → List RawCapabilitySet
unfolding decode_sets read_count
decode_counted_sets c = elim (read_count c) [
  | err e ↦ []
  | ok (number_capabilities, c) ↦ decode_sets number_capabilities c
]

unfoldable pub decode_capabilities : ReadCursor → List RawCapabilitySet
unfolding skipped decode_counted_sets
decode_capabilities c = elim (read_u16_le c) [
  | err e ↦ []
  | ok (length_source_descriptor, c) ↦
      let c = skipped (read_u16_le c) c in
      decode_counted_sets (skipped (read_slice (min length_source_descriptor (remaining c)) c) c)
]

pub record ConfirmActive : Type 0 where
  pub share_id : ℕ
  pub pdu_source : ℕ
  pub originator_id : ℕ
  pub capabilities : List RawCapabilitySet

unfoldable pub decode_confirm_active : List ℕ → Result ConfirmActive
unfolding unwrap_or_zero decode_capabilities
decode_confirm_active bytes = do
  (declared, c) ← Control.decode (new bytes)
  guard (is_type declared.0.pdu_type Control.confirm_active)
      (invalid_value "confirm_active.share_control_header.pdu_type" "expected ConfirmActivePdu")
  let (originator_id, c) = unwrap_or_zero (read_u16_le c) c
  ok (record {
    share_id = declared.0.share_id;
    pdu_source = declared.0.pdu_source;
    originator_id = originator_id;
    capabilities = decode_capabilities c;
  })

-- `capabilities.iter().find(|c| c.set_type == set_type)`, and its body.
unfoldable pub find_set : ℕ → List RawCapabilitySet → Option (List ℕ)
find_set set_type [] = none
find_set set_type (entry ∷ capabilities) =
    let rest = find_set set_type capabilities in
    if entry.set_type == set_type then some entry.body else rest

unfoldable pub decode_max_request_size : List ℕ → Result ℕ
decode_max_request_size body = do (size, _c) ← read_u32_le (new body); ok size

unfoldable pub parse_client_max_request_size : List RawCapabilitySet → Option ℕ
unfolding find_set decode_max_request_size
parse_client_max_request_size capabilities =
    elim (find_set capset_multifragment_update capabilities) [
      | none ↦ none
      | some body ↦ elim (decode_max_request_size body) [
        | err e ↦ none
        | ok n ↦ if ltb 0 n then some n else none
      ]
    ]

pub record NsCodecNegotiated : Type 0 where
  pub codec_id : ℕ
  pub color_loss_level : ℕ

unfoldable pub clamp : ℕ → ℕ → ℕ → ℕ
clamp v low high = min (max v low) high

-- The entry of a codec with another GUID.
unfoldable pub skip_codec : ReadCursor → Result ReadCursor
skip_codec c = do
  (_id, c) ← read_u8 c
  (prop_len, c) ← read_u16_le c
  (_properties, c) ← read_slice prop_len c
  ok c

unfoldable pub read_nscodec : ℕ → ReadCursor → Result (Option NsCodecNegotiated)
unfolding clamp
read_nscodec server_cll c = do
  (codec_id, c) ← read_u8 c
  (prop_len, c) ← read_u16_le c
  if ltb prop_len 3 then ok none else (do
    (_dynamic, c) ← read_u8 c
    (_subsampling, c) ← read_u8 c
    (level, _c) ← read_u8 c
    ok (
        some (record {
          codec_id = codec_id;
          color_loss_level = min (clamp level 1 7) (max server_cll 1);
        })))

unfoldable pub find_nscodec : ℕ → ℕ → ReadCursor → Result (Option NsCodecNegotiated)
unfolding bytes_equal skip_codec read_nscodec
find_nscodec zero server_cll c = ok none
find_nscodec (suc codec_count) server_cll c = do
  (guid, c) ← read_slice 16 c
  elim (bytes_equal guid nscodec_guid) [
    | true ↦ read_nscodec server_cll c
    | false ↦ (do c ← skip_codec c; find_nscodec codec_count server_cll c)
  ]

-- A failed read gives nothing.
unfoldable pub flat_ok {ℓ} : {A : Type ℓ} → Result (Option A) → Option A
flat_ok (err e) = none
flat_ok (ok found) = found

unfoldable pub parse_client_nscodec : List RawCapabilitySet → ℕ → Option NsCodecNegotiated
unfolding find_set find_nscodec flat_ok
parse_client_nscodec capabilities server_cll = elim (find_set capset_bitmap_codecs capabilities) [
  | none ↦ none
  | some body ↦
      flat_ok (do (codec_count, c) ← read_u8 (new body); find_nscodec codec_count server_cll c)
]
