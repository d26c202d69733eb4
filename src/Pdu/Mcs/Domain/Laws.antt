-- ===== src/Pdu/Mcs/Domain/Laws.antt =====
-- mcs.rs, the domain PDUs: the encoders against the decoders.
use kmsrdp.Prelude.{
  ◌≤◌, ℕ, zero, suc, ◌≢◌, ne→false, ◌+◌, ◌*◌, ◌/◌, ◌%◌, ◌^◌, ◌<◌, ◌≡◌, refl, true, false, some,
  List, [], ◌∷◌, ◌++◌, length, arith, append_assoc, append-nil, bit_and, bit_or, or_shifted,
  and_mask, ==_self, IsU16, IsU32,
}
use kmsrdp.Pdu.Result.{ok, err, invalid_value}
use kmsrdp.Pdu.Cursor.{ReadCursor, new, read_u8}
use kmsrdp.Pdu.Cursor.Laws.{at, new-at, ensure-at, advance-at, read_slice-at, cursor_laws}
use kmsrdp.Pdu.Per
use kmsrdp.Pdu.Per.Laws as PerLaws
use kmsrdp.Pdu.Mcs.Domain.{
  DomainMcsPdu, erect_domain_request, attach_user_request, attach_user_confirm,
  channel_join_request, channel_join_confirm, as_u8, from_u8, is_pdu, write_choice_byte,
  read_choice_byte, skip_optional_non_standard, ErectDomainRequest, encode_erect, decode_erect,
  encode_attach_request, decode_attach_request, AttachUserConfirm, encode_attach_confirm,
  decode_attach_confirm, ChannelJoinRequest, encode_join_request, decode_join_request,
  ChannelJoinConfirm, encode_join_confirm, decode_join_confirm, SendData, encode_send_data,
  decode_send_data, decode_send_data_bytes, encode_disconnect, decode_disconnect, base_channel_id,
}

pub from_u8-as_u8 : (pdu : DomainMcsPdu) → from_u8 (as_u8 pdu) ≡ some pdu
unfolding from_u8 as_u8
from_u8-as_u8 erect_domain_request = refl
from_u8-as_u8 _ = refl

as_u8_small : (pdu : DomainMcsPdu) → as_u8 pdu < 64
unfolding as_u8
as_u8_small erect_domain_request = omega arith
as_u8_small _ = omega arith

is_pdu_self : (pdu : DomainMcsPdu) → is_pdu (some pdu) pdu ≡ true
unfolding is_pdu
is_pdu_self pdu = ==_self (as_u8 pdu)

as_u8_inj : (a b : DomainMcsPdu) → as_u8 a ≡ as_u8 b → a ≡ b
as_u8_inj a b e = cc (from_u8-as_u8 a, from_u8-as_u8 b)

is_pdu_other : (a b : DomainMcsPdu) → a ≢ b → is_pdu (some a) b ≡ false
unfolding is_pdu
is_pdu_other a b ne = ne→false (as_u8 a) (as_u8 b) (λ e. ne (as_u8_inj a b e))

-- The choice byte carries the PDU and its options.
pub read_choice_byte-write_choice_byte :
    (f r : List ℕ) (pdu : DomainMcsPdu) (options : ℕ)
    → options < 4
    → read_choice_byte pdu (at f (write_choice_byte pdu options ++ r))
      ≡ ok (options, at (f ++ write_choice_byte pdu options) r)
unfolding read_choice_byte write_choice_byte Per.write_choice Per.read_choice
read_choice_byte-write_choice_byte f r pdu options h =
    let k = as_u8 pdu in
    let small : k * 2 ^ 2 % 0x100 ≡ k * 2 ^ 2 = omega (arith, as_u8_small pdu) in
    let byte : bit_or (k * 2 ^ 2 % 0x100) options ≡ k * 2 ^ 2 + options =
      rw small (or_shifted 2 k options h) in
    let top : (k * 2 ^ 2 + options) / 4 ≡ k = omega arith in
    let low : bit_and (k * 2 ^ 2 + options) 0x3 ≡ options =
      omega (arith, and_mask 2 (k * 2 ^ 2 + options)) in
    rw byte (simp (top, low, from_u8-as_u8, is_pdu_self, cursor_laws))

skip_none : (c : ReadCursor) → skip_optional_non_standard 0 c ≡ ok (tt, c)
unfolding skip_optional_non_standard
skip_none c = refl

-- The writer of an initiator asserts that it is at least the base of the user ids.
abbrev pub IsUserId : ℕ → Type 0
IsUserId initiator = (base_channel_id ≤ initiator) × IsU16 initiator

-- A Send Data PDU with 16-bit ids, the initiator at least 1001, and fewer than 32768 bytes of
-- payload is decoded wherever it stands, as a complete one, with the cursor behind it.
pub decode_send_data-encode_send_data :
    (f r : List ℕ) (pdu : DomainMcsPdu) (x : SendData)
    → IsUserId x.initiator
    → IsU16 x.channel_id
    → length x.payload < 0x8000
    → decode_send_data pdu (at f (encode_send_data pdu x ++ r))
      ≡ ok (record x { complete = true }, at (f ++ encode_send_data pdu x) r)
unfolding decode_send_data encode_send_data
decode_send_data-encode_send_data f r pdu x hi hc hp =
    let base : IsU16 base_channel_id = omega arith in
    let zero_ok : IsU16 0 = omega arith in
    let least : 0 ≤ x.channel_id = omega arith in
    let front =
      f
      ++ (write_choice_byte pdu 0
          ++ (Per.write_u16 x.initiator base_channel_id
              ++ (Per.write_u16 x.channel_id 0 ++ 0x70 ∷ Per.write_length (length x.payload)))) in
    simp (
      append_assoc,
      read_choice_byte-write_choice_byte f _ pdu 0 (omega arith),
      PerLaws.read_u16-write_u16,
      base,
      zero_ok,
      hi.0,
      hi.1,
      least,
      hc,
      PerLaws.read_length-write_length,
      hp,
      read_slice-at front x.payload r (length x.payload) refl,
      cursor_laws,
    )

-- So it is when it is all of the input.
pub decode_send_data_bytes-encode_send_data :
    (pdu : DomainMcsPdu) (x : SendData)
    → IsUserId x.initiator
    → IsU16 x.channel_id
    → length x.payload < 0x8000
    → decode_send_data_bytes pdu (encode_send_data pdu x) ≡ ok (record x { complete = true })
unfolding decode_send_data_bytes
decode_send_data_bytes-encode_send_data pdu x hi hc hp =
    let back = rw append-nil at (decode_send_data-encode_send_data [] [] pdu x hi hc hp) in
    simp (new-at, back)

-- An Erect Domain Request of 32-bit numbers is decoded wherever it stands, with the cursor
-- behind it.
pub decode_erect-encode_erect :
    (f r : List ℕ) (x : ErectDomainRequest)
    → IsU32 x.sub_height
    → IsU32 x.sub_interval
    → decode_erect (at f (encode_erect x ++ r)) ≡ ok (x, at (f ++ encode_erect x) r)
unfolding decode_erect encode_erect
decode_erect-encode_erect f r x h k = simp (
  append_assoc,
  read_choice_byte-write_choice_byte f _ erect_domain_request 0 (omega arith),
  PerLaws.read_u32-write_u32,
  h,
  k,
  skip_none,
)

pub decode_attach_request-encode_attach_request :
    (f r : List ℕ)
    → decode_attach_request (at f (encode_attach_request ++ r))
      ≡ ok (tt, at (f ++ encode_attach_request) r)
unfolding decode_attach_request encode_attach_request
decode_attach_request-encode_attach_request f r =
    simp (read_choice_byte-write_choice_byte f _ attach_user_request 0 (omega arith), skip_none)

-- With the option bit 0x2 set, two more bytes are skipped.
pub decode_attach_request_non_standard :
    (f r : List ℕ) (a b : ℕ)
    → decode_attach_request (at f (write_choice_byte attach_user_request 2 ++ (a ∷ b ∷ r)))
      ≡ ok (tt, at (f ++ (write_choice_byte attach_user_request 2 ++ a ∷ b ∷ [])) r)
unfolding decode_attach_request skip_optional_non_standard
decode_attach_request_non_standard f r a b =
    let front = f ++ write_choice_byte attach_user_request 2 in
    simp (
      read_choice_byte-write_choice_byte f (a ∷ b ∷ r) attach_user_request 2 (omega arith),
      ensure-at front (a ∷ b ∷ r) 2 (omega arith),
      advance-at front (a ∷ b ∷ []) r 2 refl,
      append_assoc,
    )

pub decode_attach_confirm-encode_attach_confirm :
    (f r : List ℕ) (x : AttachUserConfirm)
    → IsUserId x.initiator
    → decode_attach_confirm (at f (encode_attach_confirm x ++ r))
      ≡ ok (x, at (f ++ encode_attach_confirm x) r)
unfolding decode_attach_confirm encode_attach_confirm Per.write_enum Per.read_enum
decode_attach_confirm-encode_attach_confirm f r x h =
    let base : IsU16 base_channel_id = omega arith in
    simp (
      append_assoc,
      read_choice_byte-write_choice_byte f _ attach_user_confirm 2 (omega arith),
      PerLaws.read_u16-write_u16,
      base,
      h.0,
      h.1,
      cursor_laws,
    )

-- A Channel Join Request with 16-bit ids, the initiator at least 1001, is decoded wherever it stands, with the cursor behind
-- it.
pub decode_join_request-encode_join_request :
    (f r : List ℕ) (x : ChannelJoinRequest)
    → IsUserId x.initiator
    → IsU16 x.channel_id
    → decode_join_request (at f (encode_join_request x ++ r))
      ≡ ok (x, at (f ++ encode_join_request x) r)
unfolding decode_join_request encode_join_request
decode_join_request-encode_join_request f r x h k =
    let base : IsU16 base_channel_id = omega arith in
    let zero_ok : IsU16 0 = omega arith in
    let least : 0 ≤ x.channel_id = omega arith in
    simp (
      append_assoc,
      read_choice_byte-write_choice_byte f _ channel_join_request 0 (omega arith),
      PerLaws.read_u16-write_u16,
      base,
      zero_ok,
      h.0,
      h.1,
      least,
      k,
    )

-- A Channel Join Confirm with 16-bit ids, the initiator at least 1001, is decoded wherever it stands, with the cursor behind
-- it.
pub decode_join_confirm-encode_join_confirm :
    (f r : List ℕ) (x : ChannelJoinConfirm)
    → IsUserId x.initiator
    → IsU16 x.requested_channel_id
    → IsU16 x.channel_id
    → decode_join_confirm (at f (encode_join_confirm x ++ r))
      ≡ ok (x, at (f ++ encode_join_confirm x) r)
unfolding decode_join_confirm encode_join_confirm Per.write_enum Per.read_enum
decode_join_confirm-encode_join_confirm f r x h k l =
    let base : IsU16 base_channel_id = omega arith in
    let zero_ok : IsU16 0 = omega arith in
    let least : 0 ≤ x.requested_channel_id = omega arith in
    let least' : 0 ≤ x.channel_id = omega arith in
    simp (
      append_assoc,
      read_choice_byte-write_choice_byte f _ channel_join_confirm 2 (omega arith),
      PerLaws.read_u16-write_u16,
      base,
      zero_ok,
      h.0,
      h.1,
      least,
      least',
      k,
      l,
      cursor_laws,
    )

-- Every reason below 8 is decoded from the Disconnect Provider Ultimatum that carries it.
pub decode_disconnect-encode_disconnect :
    (reason : ℕ) → reason < 8 → decode_disconnect (encode_disconnect reason) ≡ ok reason
unfolding decode_disconnect encode_disconnect from_u8 is_pdu as_u8 read_u8 new
decode_disconnect-encode_disconnect zero h = refl
decode_disconnect-encode_disconnect (suc zero) h = refl
decode_disconnect-encode_disconnect (suc (suc zero)) h = refl
decode_disconnect-encode_disconnect (suc (suc (suc zero))) h = refl
decode_disconnect-encode_disconnect (suc (suc (suc (suc zero)))) h = refl
decode_disconnect-encode_disconnect (suc (suc (suc (suc (suc zero))))) h = refl
decode_disconnect-encode_disconnect (suc (suc (suc (suc (suc (suc zero)))))) h = refl
decode_disconnect-encode_disconnect (suc (suc (suc (suc (suc (suc (suc zero))))))) h = refl
decode_disconnect-encode_disconnect (suc (suc (suc (suc (suc (suc (suc (suc n)))))))) h =
    absurd (omega arith)

-- With options below 4, the choice byte of one domain PDU is refused where another is expected.
pub read_choice_byte_other :
    (f r : List ℕ) (pdu expected : DomainMcsPdu) (options : ℕ)
    → options < 4
    → pdu ≢ expected
    → read_choice_byte expected (at f (write_choice_byte pdu options ++ r))
      ≡ err (invalid_value "mcs.domain_pdu.choice" "unexpected domain PDU choice byte")
unfolding read_choice_byte write_choice_byte Per.write_choice Per.read_choice
read_choice_byte_other f r pdu expected options h ne =
    let k = as_u8 pdu in
    let small : k * 2 ^ 2 % 0x100 ≡ k * 2 ^ 2 = omega (arith, as_u8_small pdu) in
    let byte : bit_or (k * 2 ^ 2 % 0x100) options ≡ k * 2 ^ 2 + options =
      rw small (or_shifted 2 k options h) in
    let top : (k * 2 ^ 2 + options) / 4 ≡ k = omega arith in
    rw byte (simp (top, from_u8-as_u8, is_pdu_other pdu expected ne, cursor_laws))
