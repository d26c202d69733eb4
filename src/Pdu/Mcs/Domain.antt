-- ===== src/Pdu/Mcs/Domain.antt =====
-- crates/rdpcore-pdu/src/mcs.rs: the domain PDUs, in PER.
pub mod Laws
use kmsrdp.Prelude.{
  ℕ, ◌*◌, ◌/◌, ◌%◌, ◌^◌, Bool, true, false, not, Option, none, some, List, [], ◌∷◌, ◌++◌, length,
  ◌==◌, if◌then◌else◌, bit_and, bit_or,
}
use kmsrdp.Pdu.Result.{Result, ok, invalid_value, ◌>>=◌, ◌>>◌, guard}
use kmsrdp.Pdu.Cursor.{ReadCursor, new, ensure, advance, read_u8, read_slice, write_u8}
use kmsrdp.Pdu.Per

abbrev pub base_channel_id : ℕ
base_channel_id = 1001

pub data DomainMcsPdu : Type 0 where
  erect_domain_request disconnect_provider_ultimatum attach_user_request : DomainMcsPdu
  attach_user_confirm channel_join_request channel_join_confirm : DomainMcsPdu
  send_data_request send_data_indication : DomainMcsPdu

unfoldable pub as_u8 : DomainMcsPdu → ℕ
as_u8 erect_domain_request = 1
as_u8 disconnect_provider_ultimatum = 8
as_u8 attach_user_request = 10
as_u8 attach_user_confirm = 11
as_u8 channel_join_request = 14
as_u8 channel_join_confirm = 15
as_u8 send_data_request = 25
as_u8 send_data_indication = 26

unfoldable pub from_u8 : ℕ → Option DomainMcsPdu
from_u8 value =
    if value == 1
    then some erect_domain_request
    else if value == 8
    then some disconnect_provider_ultimatum
    else if value == 10
    then some attach_user_request
    else if value == 11
    then some attach_user_confirm
    else if value == 14
    then some channel_join_request
    else if value == 15
    then some channel_join_confirm
    else if value == 25
    then some send_data_request
    else if value == 26
    then some send_data_indication
    else none

-- `pdu == Some(expected)`, by the derived equality: `as_u8` tells the variants apart.
unfoldable pub is_pdu : Option DomainMcsPdu → DomainMcsPdu → Bool
is_pdu none expected = false
is_pdu (some pdu) expected = as_u8 pdu == as_u8 expected

unfoldable pub write_choice_byte : DomainMcsPdu → ℕ → List ℕ
write_choice_byte pdu options = Per.write_choice (bit_or (as_u8 pdu * 2 ^ 2 % 0x100) options)

unfoldable pub read_choice_byte : DomainMcsPdu → ReadCursor → Result (ℕ × ReadCursor)
unfolding from_u8 is_pdu
read_choice_byte expected c = do
  (byte, c) ← Per.read_choice c
  guard (is_pdu (from_u8 (byte / 4)) expected)
      (invalid_value "mcs.domain_pdu.choice" "unexpected domain PDU choice byte")
  ok (bit_and byte 0x3, c)

unfoldable pub skip_optional_non_standard : ℕ → ReadCursor → Result (Unit {0} × ReadCursor)
skip_optional_non_standard options c =
    if bit_and options 0x2 == 0 then ok (tt, c) else (do ensure 2 c; ok (tt, advance 2 c))

pub record ErectDomainRequest : Type 0 where
  pub sub_height : ℕ
  pub sub_interval : ℕ

unfoldable pub encode_erect : ErectDomainRequest → List ℕ
encode_erect x =
    write_choice_byte erect_domain_request 0
    ++ (Per.write_u32 x.sub_height ++ Per.write_u32 x.sub_interval)

unfoldable pub decode_erect : ReadCursor → Result (ErectDomainRequest × ReadCursor)
decode_erect c = do
  (options, c) ← read_choice_byte erect_domain_request c
  (sub_height, c) ← Per.read_u32 c
  (sub_interval, c) ← Per.read_u32 c
  (_, c) ← skip_optional_non_standard options c
  ok (record { sub_height = sub_height; sub_interval = sub_interval }, c)

unfoldable pub encode_attach_request : List ℕ
encode_attach_request = write_choice_byte attach_user_request 0

unfoldable pub decode_attach_request : ReadCursor → Result (Unit {0} × ReadCursor)
decode_attach_request c = do
  (options, c) ← read_choice_byte attach_user_request c
  skip_optional_non_standard options c

pub record AttachUserConfirm : Type 0 where
  pub result : ℕ
  pub initiator : ℕ

unfoldable pub encode_attach_confirm : AttachUserConfirm → List ℕ
encode_attach_confirm x =
    write_choice_byte attach_user_confirm 2
    ++ (Per.write_enum x.result ++ Per.write_u16 x.initiator base_channel_id)

unfoldable pub decode_attach_confirm : ReadCursor → Result (AttachUserConfirm × ReadCursor)
decode_attach_confirm c = do
  (_options, c) ← read_choice_byte attach_user_confirm c
  (result, c) ← Per.read_enum c
  (initiator, c) ← Per.read_u16 base_channel_id c
  ok (record { result = result; initiator = initiator }, c)

pub record ChannelJoinRequest : Type 0 where
  pub initiator : ℕ
  pub channel_id : ℕ

unfoldable pub encode_join_request : ChannelJoinRequest → List ℕ
encode_join_request x =
    write_choice_byte channel_join_request 0
    ++ (Per.write_u16 x.initiator base_channel_id ++ Per.write_u16 x.channel_id 0)

unfoldable pub decode_join_request : ReadCursor → Result (ChannelJoinRequest × ReadCursor)
decode_join_request c = do
  (_options, c) ← read_choice_byte channel_join_request c
  (initiator, c) ← Per.read_u16 base_channel_id c
  (channel_id, c) ← Per.read_u16 0 c
  ok (record { initiator = initiator; channel_id = channel_id }, c)

pub record ChannelJoinConfirm : Type 0 where
  pub result : ℕ
  pub initiator : ℕ
  pub requested_channel_id : ℕ
  pub channel_id : ℕ

unfoldable pub encode_join_confirm : ChannelJoinConfirm → List ℕ
encode_join_confirm x =
    write_choice_byte channel_join_confirm 2
    ++ (Per.write_enum x.result
        ++ (Per.write_u16 x.initiator base_channel_id
            ++ (Per.write_u16 x.requested_channel_id 0 ++ Per.write_u16 x.channel_id 0)))

unfoldable pub decode_join_confirm : ReadCursor → Result (ChannelJoinConfirm × ReadCursor)
decode_join_confirm c = do
  (_options, c) ← read_choice_byte channel_join_confirm c
  (result, c) ← Per.read_enum c
  (initiator, c) ← Per.read_u16 base_channel_id c
  (requested_channel_id, c) ← Per.read_u16 0 c
  (channel_id, c) ← Per.read_u16 0 c
  ok (
    record {
      result = result;
      initiator = initiator;
      requested_channel_id = requested_channel_id;
      channel_id = channel_id;
    },
    c,
  )

pub record SendData : Type 0 where
  pub initiator : ℕ
  pub channel_id : ℕ
  pub payload : List ℕ
  pub complete : Bool

-- The byte 0x70 is high priority with both segmentation bits, whatever `complete` is.
unfoldable pub encode_send_data : DomainMcsPdu → SendData → List ℕ
unfolding write_u8
encode_send_data pdu x =
    write_choice_byte pdu 0
    ++ (Per.write_u16 x.initiator base_channel_id
        ++ (Per.write_u16 x.channel_id 0
            ++ (write_u8 0x70 ++ (Per.write_length (length x.payload) ++ x.payload))))

unfoldable pub decode_send_data : DomainMcsPdu → ReadCursor → Result (SendData × ReadCursor)
decode_send_data pdu c = do
  (_options, c) ← read_choice_byte pdu c
  (initiator, c) ← Per.read_u16 base_channel_id c
  (channel_id, c) ← Per.read_u16 0 c
  (priority_and_segmentation, c) ← read_u8 c
  (length, c) ← Per.read_length c
  (payload, c) ← read_slice length c
  ok (
    record {
      initiator = initiator;
      channel_id = channel_id;
      payload = payload;
      complete = not (bit_and priority_and_segmentation 0x10 == 0);
    },
    c,
  )

-- `decode_request` and `decode_indication`
unfoldable pub decode_send_data_bytes : DomainMcsPdu → List ℕ → Result SendData
decode_send_data_bytes pdu input = do (x, _c) ← decode_send_data pdu (new input); ok x

-- The reason of a Disconnect Provider Ultimatum, spread over two bytes.
unfoldable pub encode_disconnect : ℕ → List ℕ
encode_disconnect reason =
    bit_or (as_u8 disconnect_provider_ultimatum * 4) (bit_and (reason / 2) 0x03)
    ∷ bit_and (reason * 2 ^ 7) 0xff
    ∷ []

unfoldable pub decode_disconnect : List ℕ → Result ℕ
decode_disconnect input = do
  (byte1, c) ← read_u8 (new input)
  (byte2, _c) ← read_u8 c
  guard (is_pdu (from_u8 (byte1 / 4)) disconnect_provider_ultimatum)
      (invalid_value "mcs.disconnect_provider_ultimatum.choice" "unexpected choice byte")
  ok (bit_or (bit_and byte1 0x03 * 2) (byte2 / 128))
