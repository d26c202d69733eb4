-- ===== src/Pdu/Finalization.antt =====
-- crates/rdpcore-pdu/src/finalization.rs: the Share Data header, and the PDUs of the finalization.
pub mod Laws
use kmsrdp.Prelude.{
  ℕ, zero, suc, ◌+◌, ◌-◌, ◌*◌, ◌%◌, Bool, true, false, not, Option, none, some, List, [], ◌∷◌, ◌++◌,
  length, replicate, min, ltb, leb, ◌==◌, if◌then◌else◌, bit_and, bit_or,
}
use kmsrdp.Pdu.Result.{Result, ok, err, invalid_value, not_enough_bytes, guard, ◌>>=◌, ◌>>◌}
use kmsrdp.Pdu.Cursor.{
  ReadCursor, new, remaining, read_u8, read_u16_le, read_u32_le, read_slice, write_u8, write_u16_le,
  write_u32_le,
}
use kmsrdp.Pdu.ShareControl as Control
use kmsrdp.Pdu.ShareControl.{ok_or, is_type}

pub data ShareDataPduType : Type 0 where
  synchronize control font_list font_map refresh_rect suppress_output : ShareDataPduType
  save_session_info monitor_layout input : ShareDataPduType

unfoldable pub as_u8 : ShareDataPduType → ℕ
as_u8 control = 0x14
as_u8 font_list = 0x27
as_u8 font_map = 0x28
as_u8 synchronize = 0x1f
as_u8 refresh_rect = 0x21
as_u8 suppress_output = 0x23
as_u8 save_session_info = 0x26
as_u8 monitor_layout = 0x37
as_u8 input = 0x1c

unfoldable pub from_u8 : ℕ → Option ShareDataPduType
from_u8 value =
    if value == 0x14
    then some control
    else if value == 0x27
    then some font_list
    else if value == 0x28
    then some font_map
    else if value == 0x1f
    then some synchronize
    else if value == 0x21
    then some refresh_rect
    else if value == 0x23
    then some suppress_output
    else if value == 0x26
    then some save_session_info
    else if value == 0x37
    then some monitor_layout
    else if value == 0x1c
    then some input
    else none

pub record ShareDataHeader : Type 0 where
  pub stream_id : ℕ
  pub pdu_type2 : ShareDataPduType

unfoldable pub write_share_data : ShareDataHeader → ℕ → List ℕ
write_share_data header inner_len =
    write_u8 0
    ++ (write_u8 header.stream_id
        ++ (write_u16_le (inner_len % 0x1_0000)
            ++ (write_u8 (as_u8 header.pdu_type2) ++ (write_u8 0 ++ write_u16_le 0))))

unfoldable pub decode_share_data : ReadCursor → Result ((ShareDataHeader × ℕ) × ReadCursor)
unfolding from_u8 ok_or
decode_share_data c = do
  (_pad1, c) ← read_u8 c
  (stream_id, c) ← read_u8 c
  (uncompressed_length, c) ← read_u16_le c
  (byte, c) ← read_u8 c
  pdu_type2 ← ok_or (from_u8 byte) "share_data_header.pdu_type2" "unrecognized data PDU subtype"
  (_compressed_type, c) ← read_u8 c
  (_compressed_length, c) ← read_u16_le c
  ok ((record { stream_id = stream_id; pdu_type2 = pdu_type2 }, uncompressed_length), c)

abbrev pub stream_undefined : ℕ
stream_undefined = 0

pub record DataPdu : Type 0 where
  pub share_id : ℕ
  pub pdu_source : ℕ
  pub stream_id : ℕ
  pub pdu_type2 : ShareDataPduType
  pub body : List ℕ

unfoldable pub encode : DataPdu → List ℕ
encode pdu =
    Control.with_header
      (record { pdu_type = Control.data_pdu; pdu_source = pdu.pdu_source; share_id = pdu.share_id })
      (write_share_data (record { stream_id = pdu.stream_id; pdu_type2 = pdu.pdu_type2 })
          (length pdu.body)
        ++ pdu.body)

unfoldable pub decode : List ℕ → Result DataPdu
decode bytes = do
  (declared, c) ← Control.decode (new bytes)
  guard (is_type declared.0.pdu_type Control.data_pdu)
      (invalid_value "data_pdu.share_control_header.pdu_type" "expected DataPdu")
  let before_share_data = c.pos
  (header, c) ← decode_share_data c
  let share_data_consumed = c.pos - before_share_data
  let body_len = min (declared.1 - share_data_consumed) (remaining c)
  (body, _c) ← read_slice body_len c
  ok (record {
    share_id = declared.0.share_id;
    pdu_source = declared.0.pdu_source;
    stream_id = header.0.stream_id;
    pdu_type2 = header.0.pdu_type2;
    body = body;
  })

-- The only field of a `SynchronizePdu` is its target user.
unfoldable pub encode_synchronize : ℕ → List ℕ
encode_synchronize target_user = write_u16_le 1 ++ write_u16_le target_user

unfoldable pub decode_synchronize : List ℕ → Result ℕ
decode_synchronize body = do
  (message_type, c) ← read_u16_le (new body)
  guard (message_type == 1) (invalid_value "synchronize_pdu.message_type" "must be 1")
  (target_user, _c) ← read_u16_le c
  ok target_user

pub record ControlPdu : Type 0 where
  pub action : ℕ
  pub grant_id : ℕ
  pub control_id : ℕ

abbrev pub cooperate : ℕ
cooperate = 4

abbrev pub request_control : ℕ
request_control = 1

abbrev pub granted_control : ℕ
granted_control = 2

unfoldable pub encode_control : ControlPdu → List ℕ
encode_control x = write_u16_le x.action ++ (write_u16_le x.grant_id ++ write_u32_le x.control_id)

unfoldable pub decode_control : List ℕ → Result ControlPdu
decode_control body = do
  (action, c) ← read_u16_le (new body)
  (grant_id, c) ← read_u16_le c
  (control_id, _c) ← read_u32_le c
  ok (record { action = action; grant_id = grant_id; control_id = control_id })

pub record FontPdu : Type 0 where
  pub number_fonts : ℕ
  pub total_num_fonts : ℕ
  pub flags : ℕ
  pub entry_size : ℕ

abbrev pub font_first : ℕ
font_first = 1

abbrev pub font_last : ℕ
font_last = 2

unfoldable pub font_map_default : FontPdu
font_map_default = record {
  number_fonts = 0;
  total_num_fonts = 0;
  flags = bit_or font_first font_last;
  entry_size = 4;
}

unfoldable pub encode_font : FontPdu → List ℕ
encode_font x =
    write_u16_le x.number_fonts
    ++ (write_u16_le x.total_num_fonts ++ (write_u16_le x.flags ++ write_u16_le x.entry_size))

unfoldable pub decode_font : List ℕ → Result FontPdu
decode_font body = do
  (number_fonts, c) ← read_u16_le (new body)
  (total_num_fonts, c) ← read_u16_le c
  (flags, c) ← read_u16_le c
  (entry_size, _c) ← read_u16_le c
  ok (record {
    number_fonts = number_fonts;
    total_num_fonts = total_num_fonts;
    flags = flags;
    entry_size = entry_size;
  })

pub record InclusiveRect : Type 0 where
  pub left : ℕ
  pub top : ℕ
  pub right : ℕ
  pub bottom : ℕ

unfoldable pub decode_rect : ReadCursor → Result (InclusiveRect × ReadCursor)
decode_rect c = do
  (left, c) ← read_u16_le c
  (top, c) ← read_u16_le c
  (right, c) ← read_u16_le c
  (bottom, c) ← read_u16_le c
  ok (record { left = left; top = top; right = right; bottom = bottom }, c)

-- A byte, and three that are skipped.
unfoldable pub read_padded_u8 : ReadCursor → Result (ℕ × ReadCursor)
read_padded_u8 c = do
  (value, c) ← read_u8 c
  (_pad0, c) ← read_u8 c
  (_pad1, c) ← read_u8 c
  (_pad2, c) ← read_u8 c
  ok (value, c)

unfoldable pub decode_suppress_output : List ℕ → Result Bool
unfolding read_padded_u8
decode_suppress_output body = do
  (allow, c) ← read_padded_u8 (new body)
  if allow == 0
      then ok false
      else if allow == 1
      then (if leb 8 (remaining c) then (do (_rect, _c) ← decode_rect c; ok true) else ok true)
      else err (invalid_value "suppress_output.allow_display_updates" "expected 0 or 1")

unfoldable pub decode_rects : ℕ → ReadCursor → Result (List InclusiveRect × ReadCursor)
decode_rects zero c = ok ([], c)
decode_rects (suc count) c = do
  (rect, c) ← decode_rect c
  (rects, c) ← decode_rects count c
  ok (rect ∷ rects, c)

unfoldable pub decode_refresh_rect : List ℕ → Result (List InclusiveRect)
unfolding read_padded_u8
decode_refresh_rect body = do
  (count, c) ← read_padded_u8 (new body)
  (rects, _c) ← decode_rects count c
  ok rects

abbrev pub info_type_plain_notify : ℕ
info_type_plain_notify = 2

abbrev pub plain_notify_pad : ℕ
plain_notify_pad = 576

unfoldable pub encode_save_session_info_plain_notify : List ℕ
encode_save_session_info_plain_notify =
    write_u32_le info_type_plain_notify ++ replicate plain_notify_pad 0

-- A coordinate is the 32-bit word that its two's complement is.
pub record MonitorDef : Type 0 where
  pub left : ℕ
  pub top : ℕ
  pub right : ℕ
  pub bottom : ℕ
  pub primary : Bool

abbrev pub monitor_primary : ℕ
monitor_primary = 1

unfoldable pub encode_monitor : MonitorDef → List ℕ
encode_monitor m =
    write_u32_le m.left
    ++ (write_u32_le m.top
        ++ (write_u32_le m.right
            ++ (write_u32_le m.bottom ++ write_u32_le (if m.primary then monitor_primary else 0))))

unfoldable pub decode_monitor : ReadCursor → Result (MonitorDef × ReadCursor)
decode_monitor c = do
  (left, c) ← read_u32_le c
  (top, c) ← read_u32_le c
  (right, c) ← read_u32_le c
  (bottom, c) ← read_u32_le c
  (flags, c) ← read_u32_le c
  ok (
    record {
      left = left;
      top = top;
      right = right;
      bottom = bottom;
      primary = not (bit_and flags monitor_primary == 0);
    },
    c,
  )

unfoldable pub encode_monitors : List MonitorDef → List ℕ
encode_monitors [] = []
encode_monitors (m ∷ monitors) = encode_monitor m ++ encode_monitors monitors

unfoldable pub encode_monitor_layout : List MonitorDef → List ℕ
encode_monitor_layout monitors =
    write_u32_le (length monitors % 0x1_0000_0000) ++ encode_monitors monitors

unfoldable pub decode_monitors : ℕ → ReadCursor → Result (List MonitorDef × ReadCursor)
decode_monitors zero c = ok ([], c)
decode_monitors (suc count) c = do
  (m, c) ← decode_monitor c
  (monitors, c) ← decode_monitors count c
  ok (m ∷ monitors, c)

abbrev pub monitor_def_bytes : ℕ
monitor_def_bytes = 20

-- `checked_mul` cannot fail: a `usize` has 64 bits, and the count 32.
unfoldable pub decode_monitor_layout : List ℕ → Result (List MonitorDef)
decode_monitor_layout body = do
  (count, c) ← read_u32_le (new body)
  let needed = count * monitor_def_bytes
  guard (not (ltb (remaining c) needed)) (not_enough_bytes needed (remaining c))
  (monitors, _c) ← decode_monitors count c
  ok monitors
