-- ===== src/Pdu/Finalization/Laws.antt =====
-- finalization.rs: each decoder after its encoder.
use kmsrdp.Prelude.{
  ℕ, ◌+◌, ◌-◌, ◌*◌, ◌%◌, ◌<◌, ◌≡◌, refl, Bool, true, false, not, some, List, [], ◌∷◌, ◌++◌, length,
  min, arith, IsU16, IsU32, All, append-nil, append_assoc, length-append, if◌then◌else◌, ltb, ◌==◌,
  bit_and,
}
use kmsrdp.Pdu.Result.{ok}
use kmsrdp.Pdu.Cursor.{write_u8, write_u16_le, write_u32_le}
use kmsrdp.Pdu.Cursor.Laws.{
  at, new-at, cursor_laws, pos-at, remaining-at, read_slice-at, read_u16_le-end, read_u32_le-end,
}
use kmsrdp.Pdu.ShareControl as Control
use kmsrdp.Pdu.ShareControl.{ok_or, is_type}
use kmsrdp.Pdu.ShareControl.Laws as ControlLaws
use kmsrdp.Pdu.Finalization.{
  ShareDataPduType, synchronize, control, font_list, font_map, refresh_rect, suppress_output,
  save_session_info, monitor_layout, input, as_u8, from_u8, ShareDataHeader, write_share_data,
  decode_share_data, DataPdu, encode, decode, encode_synchronize, decode_synchronize, ControlPdu,
  encode_control, decode_control, MonitorDef, encode_monitor, decode_monitor, encode_monitors,
  decode_monitors, encode_monitor_layout, decode_monitor_layout, monitor_primary,
}

from_u8-as_u8 : (t : ShareDataPduType) → from_u8 (as_u8 t) ≡ some t
unfolding from_u8 as_u8
from_u8-as_u8 synchronize = refl
from_u8-as_u8 control = refl
from_u8-as_u8 font_list = refl
from_u8-as_u8 font_map = refl
from_u8-as_u8 refresh_rect = refl
from_u8-as_u8 suppress_output = refl
from_u8-as_u8 save_session_info = refl
from_u8-as_u8 monitor_layout = refl
from_u8-as_u8 input = refl

decode_share_data-write_share_data :
    (f r : List ℕ) (header : ShareDataHeader) (inner_len : ℕ)
    → IsU16 inner_len
    → decode_share_data (at f (write_share_data header inner_len ++ r))
      ≡ ok ((header, inner_len), at (f ++ write_share_data header inner_len) r)
unfolding decode_share_data write_share_data write_u8 ok_or
decode_share_data-write_share_data f r header inner_len h =
    let narrow : inner_len % 0x1_0000 ≡ inner_len = omega arith in
    let nothing : IsU16 0 = omega arith in
    simp (narrow, h, nothing, from_u8-as_u8 header.pdu_type2, cursor_laws)

-- The fields fit their widths, and the whole PDU the 16 bits of its length.
unfoldable pub IsDataPdu : DataPdu → Type 0
IsDataPdu pdu = IsU16 pdu.pdu_source × IsU32 pdu.share_id × (length pdu.body + 18 < 0x1_0000)

length-write_share_data :
    (header : ShareDataHeader) (inner_len : ℕ) → length (write_share_data header inner_len) ≡ 8
unfolding write_share_data write_u8 write_u16_le
length-write_share_data header inner_len = refl

consumed-at : (f s r : List ℕ) → (at (f ++ s) r).pos - length f ≡ length s
consumed-at f s r = omega (arith, pos-at (f ++ s) r, length-append f s)

-- A Data PDU with fields in their widths and a total length of 16 bits is decoded from its
-- encoding, whatever padding follows it.
pub decode_data-encode_data :
    (padding : List ℕ) (pdu : DataPdu) → IsDataPdu pdu → decode (encode pdu ++ padding) ≡ ok pdu
unfolding decode encode IsDataPdu Control.with_header ControlLaws.IsHeader is_type Control.as_u16
decode_data-encode_data padding pdu h =
    let header : Control.ShareControlHeader = record {
      pdu_type = Control.data_pdu;
      pdu_source = pdu.pdu_source;
      share_id = pdu.share_id;
    } in
    let fits : ControlLaws.IsHeader header = (h.0, h.1) in
    let kind : ShareDataHeader = record { stream_id = pdu.stream_id; pdu_type2 = pdu.pdu_type2 } in
    let sd = write_share_data kind (length pdu.body) in
    let n = length (sd ++ pdu.body) in
    let front = Control.write header n in
    let size : n ≡ 8 + length pdu.body =
      omega (arith, length-append sd pdu.body, length-write_share_data kind (length pdu.body)) in
    let narrow : IsU16 (length pdu.body) = omega arith in
    let bytes : (front ++ (sd ++ pdu.body)) ++ padding ≡ front ++ (sd ++ (pdu.body ++ padding)) =
      simp (append_assoc) in
    let body_len : min (n - 8) (length (pdu.body ++ padding)) ≡ length pdu.body =
      omega (arith, length-append pdu.body padding) in
    simp (
      bytes,
      new-at,
      ControlLaws.decode-write [] (sd ++ (pdu.body ++ padding)) header n fits
          (omega (arith, size, h.2)),
      decode_share_data-write_share_data front (pdu.body ++ padding) kind (length pdu.body) narrow,
      pos-at front (sd ++ (pdu.body ++ padding)),
      consumed-at front sd (pdu.body ++ padding),
      length-write_share_data kind (length pdu.body),
      remaining-at,
      body_len,
      read_slice-at (front ++ sd) pdu.body padding (length pdu.body) refl,
    )

-- A 16-bit target user is decoded from its Synchronize body.
pub decode_synchronize-encode_synchronize :
    (target_user : ℕ)
    → IsU16 target_user
    → decode_synchronize (encode_synchronize target_user) ≡ ok target_user
unfolding decode_synchronize encode_synchronize
decode_synchronize-encode_synchronize target_user h =
    let one : IsU16 1 = omega arith in simp (new-at, one, h, cursor_laws, read_u16_le-end)

pub decode_control-encode_control :
    (x : ControlPdu)
    → IsU16 x.action
    → IsU16 x.grant_id
    → IsU32 x.control_id
    → decode_control (encode_control x) ≡ ok x
unfolding decode_control encode_control
decode_control-encode_control x h1 h2 h3 = simp (new-at, h1, h2, h3, cursor_laws, read_u32_le-end)

unfoldable pub IsMonitor : MonitorDef → Type 0
IsMonitor m = IsU32 m.left × IsU32 m.top × IsU32 m.right × IsU32 m.bottom

primary_flag :
    (primary : Bool)
    → IsU32 (if primary then monitor_primary else 0)
      × (not (bit_and (if primary then monitor_primary else 0) monitor_primary == 0) ≡ primary)
primary_flag true = (omega arith, refl)
primary_flag false = (omega arith, refl)

decode_monitor-encode_monitor :
    (f r : List ℕ) (m : MonitorDef)
    → IsMonitor m
    → decode_monitor (at f (encode_monitor m ++ r)) ≡ ok (m, at (f ++ encode_monitor m) r)
unfolding decode_monitor encode_monitor IsMonitor
decode_monitor-encode_monitor f r m h =
    let p = primary_flag m.primary in simp (h.0, h.1, h.2, h.3, p.0, p.1, cursor_laws)

decode_monitors-encode_monitors :
    (f : List ℕ) (monitors : List MonitorDef)
    → All IsMonitor monitors
    → decode_monitors (length monitors) (at f (encode_monitors monitors))
      ≡ ok (monitors, at (f ++ encode_monitors monitors) [])
unfolding decode_monitors encode_monitors
decode_monitors-encode_monitors f [] h = simp (append-nil)
decode_monitors-encode_monitors f (m ∷ monitors) h = rw (
  decode_monitor-encode_monitor f (encode_monitors monitors) m h.0,
  decode_monitors-encode_monitors (f ++ encode_monitor m) monitors h.1,
  append_assoc,
)

length-encode_monitors :
    (monitors : List MonitorDef) → length (encode_monitors monitors) ≡ length monitors * 20
unfolding encode_monitors encode_monitor write_u32_le
length-encode_monitors [] = refl
length-encode_monitors (m ∷ monitors) = omega (arith, length-encode_monitors monitors)

-- A list of fewer than 2 to the 32 monitors with 32-bit coordinates is decoded from its Monitor
-- Layout body.
pub decode_monitor_layout-encode_monitor_layout :
    (monitors : List MonitorDef)
    → All IsMonitor monitors
    → IsU32 (length monitors)
    → decode_monitor_layout (encode_monitor_layout monitors) ≡ ok monitors
unfolding decode_monitor_layout encode_monitor_layout
decode_monitor_layout-encode_monitor_layout monitors h few =
    let narrow : length monitors % 0x1_0000_0000 ≡ length monitors = omega arith in
    let enough : ltb (length (encode_monitors monitors)) (length monitors * 20) ≡ false =
      ground (arith, length-encode_monitors monitors) in
    simp
      (narrow, few, new-at, remaining-at, enough, decode_monitors-encode_monitors, h, cursor_laws)
