-- ===== src/Pdu/X224/Laws.antt =====
-- x224.rs: the encoders against the decoders.
use kmsrdp.Prelude.{
  ℕ, ◌%◌, ◌+◌, ◌≤◌, ◌<◌, ◌≡◌, ◌∙◌, refl, List, [], ◌++◌, length, min, arith, append-nil, IsU16,
  IsU32,
}
use kmsrdp.Pdu.Result.{ok}
use kmsrdp.Pdu.Cursor.{new, write_u16_be, write_u16_le, write_u32_le}
use kmsrdp.Pdu.Cursor.Laws.{at, new-at, ensure-at, read_rest-at, cursor_laws}
use kmsrdp.Pdu.Tpkt
use kmsrdp.Pdu.Tpkt.{TpktHeader}
use kmsrdp.Pdu.Tpkt.Laws as TpktLaws
use kmsrdp.Pdu.Tpdu
use kmsrdp.Pdu.Tpdu.Laws as TpduLaws
use kmsrdp.Pdu.X224.{
  ConnectionConfirm, response, failure, nego_body_size, read_confirm, confirm_body, encode_confirm,
  decode_confirm, wrap_data, unwrap_data, encode_x224, decode_x224_header, data_header,
}

-- unwrap_data gives back every payload that wrap_data wrapped, whatever its size.
pub unwrap_data-wrap_data : (payload : List ℕ) → unwrap_data (wrap_data payload) ≡ ok payload
unfolding unwrap_data wrap_data Tpdu.is_data
unwrap_data-wrap_data payload = simp (
  new-at,
  wrap_data,
  TpktLaws.decode-write [] (Tpdu.write data_header ++ payload)
      (record { packet_length = min (7 + length payload) 0xffff }) (omega arith),
  TpduLaws.decode-write (Tpkt.write (record { packet_length = min (7 + length payload) 0xffff }))
      payload data_header (omega arith) (omega arith),
  read_rest-at,
)

-- The TPKT length of a data TPDU is its size, as long as that fits 16 bits.
pub length-wrap_data :
    (payload : List ℕ)
    → length payload ≤ 65528
    → wrap_data payload
      ≡ Tpkt.write (record { packet_length = length (wrap_data payload) })
        ++ (Tpdu.write data_header ++ payload)
unfolding wrap_data Tpkt.write Tpdu.write Tpdu.is_data write_u16_be
length-wrap_data payload h = ground arith

-- The fields of a confirm fit their widths.
abbrev pub IsConfirm : ConnectionConfirm → Type 0
IsConfirm (response flags protocol) = (flags < 256) × IsU32 protocol
IsConfirm (failure code) = IsU32 code

read_confirm-body :
    (f r : List ℕ) (x : ConnectionConfirm)
    → IsConfirm x
    → read_confirm (at f (confirm_body x ++ r)) ≡ ok (x, at (f ++ confirm_body x) r)
unfolding read_confirm confirm_body
read_confirm-body f r (response flags protocol) h =
    let eight : IsU16 nego_body_size = omega arith in simp (eight, h.1, cursor_laws)
read_confirm-body f r (failure code) h =
    let eight : IsU16 nego_body_size = omega arith in simp (eight, cursor_laws)

length-confirm_body : (x : ConnectionConfirm) → length (confirm_body x) ≡ 8
unfolding confirm_body write_u16_le write_u32_le
length-confirm_body (response flags protocol) = refl
length-confirm_body (failure code) = refl

abbrev pub x224_tpkt : ℕ → List ℕ → TpktHeader
x224_tpkt code body = record {
  packet_length = (Tpkt.header_size + (Tpdu.for_pdu code (length body)).li + 1) % 0x1_0000;
}

pub decode_x224_header-encode_x224 :
    (code : ℕ) (body : List ℕ)
    → length body ≤ 248
    → decode_x224_header code (new (encode_x224 code body))
      ≡ ok (
        (x224_tpkt code body, Tpdu.for_pdu code (length body)),
        at (Tpkt.write (x224_tpkt code body) ++ Tpdu.write (Tpdu.for_pdu code (length body))) body,
      )
unfolding decode_x224_header encode_x224
decode_x224_header-encode_x224 code body h =
    let tpkt = x224_tpkt code body in
    let tpdu = Tpdu.for_pdu code (length body) in
    simp (
      new-at,
      TpktLaws.decode-write [] (Tpdu.write tpdu ++ body) tpkt (omega arith),
      (TpduLaws.decode-for_pdu (Tpkt.write tpkt) body code (length body) h).0,
    )

-- A Connection Confirm, a response or a failure, whose fields fit their widths is decoded from
-- its encoding.
pub decode_confirm-encode_confirm :
    (x : ConnectionConfirm) → IsConfirm x → decode_confirm (encode_confirm x) ≡ ok x
unfolding decode_confirm encode_confirm
decode_confirm-encode_confirm x h =
    let body = confirm_body x in
    let code = Tpdu.connection_confirm in
    let size = length-confirm_body x in
    let front = Tpkt.write (x224_tpkt code body) ++ Tpdu.write (Tpdu.for_pdu code (length body)) in
    let back : read_confirm (at front body) ≡ ok (x, at (front ++ body) []) =
      rw append-nil at (read_confirm-body front [] x h) in
    let part : Tpdu.variable_part_size (Tpdu.for_pdu code (length body)) ≡ 8 =
      (TpduLaws.decode-for_pdu [] [] code (length body) (omega (arith, size))).1 ∙ size in
    simp (
      decode_x224_header-encode_x224 code body (omega (arith, size)),
      part,
      ensure-at front body 8 (omega (arith, size)),
      back,
    )
