-- ===== src/Tests/Session.antt =====
-- The PDUs of the connection sequence, on concrete fields.
use kmsrdp.Prelude.{◌≡◌, ◌≤◌, refl, true, false, some, List, [], ◌∷◌, ◌++◌, arith, min, max, All}
use kmsrdp.Pdu.Result.{ok}
use kmsrdp.Pdu.Cursor.{new, read_u8, read_u16_le, read_slice}
use kmsrdp.Pdu.ShareControl as Control
use kmsrdp.Pdu.Capabilities.{
  RawCapabilitySet, NsCodecNegotiated, decode_confirm_active, parse_client_nscodec, find_set,
  find_nscodec, flat_ok, nscodec_guid,
}
use kmsrdp.Pdu.Capabilities.Laws.{
  IsCapset, IsClientBody, client_body, decode_confirm_active-client_body,
  parse_client_nscodec-bounds,
}
use kmsrdp.Pdu.Finalization.{
  DataPdu, synchronize, encode, decode, MonitorDef, encode_monitor_layout, decode_monitor_layout,
}
use kmsrdp.Pdu.Finalization.Laws.{
  IsDataPdu, IsMonitor, decode_data-encode_data, decode_monitor_layout-encode_monitor_layout,
}
use kmsrdp.Pdu.Gcc.Conference as Conference
use kmsrdp.Pdu.Gcc.Conference.Laws.{decode_conference_request}
use kmsrdp.Pdu.X224.Request.{ConnectionRequest, encode_request, decode_request}
use kmsrdp.Pdu.X224.Request.Laws.{IsLine, IsCookie, decode_request-encode_request}

abbrev sets : List RawCapabilitySet
sets =
    record { set_type = 26; body = 0 ∷ 0 ∷ 128 ∷ 0 ∷ [] }
    ∷ record { set_type = 29; body = 1 ∷ (nscodec_guid ++ 1 ∷ 3 ∷ 0 ∷ 1 ∷ 1 ∷ 9 ∷ []) }
    ∷ []

sets-IsClientBody : IsClientBody 0x03ea 46 (77 ∷ 0 ∷ []) sets
unfolding IsClientBody IsCapset
sets-IsClientBody = (
  omega arith,
  omega arith,
  omega arith,
  omega arith,
  ((omega arith, omega arith), ((omega arith, omega arith), tt)),
)

decode_confirm_active-client_body_example :
    decode_confirm_active (
      Control.write
        (record { pdu_type = Control.confirm_active; pdu_source = 1002; share_id = 0x1_0000 })
        50
      ++ client_body 0x03ea 46 (77 ∷ 0 ∷ []) sets (9 ∷ []))
    ≡ ok (record {
      share_id = 0x1_0000;
      pdu_source = 1002;
      originator_id = 0x03ea;
      capabilities = sets;
    })
decode_confirm_active-client_body_example =
    decode_confirm_active-client_body 0x1_0000 1002 0x03ea 46 50 (77 ∷ 0 ∷ []) (9 ∷ []) sets
      (omega arith) (omega arith) (omega arith) sets-IsClientBody

abbrev negotiated : NsCodecNegotiated
negotiated = record { codec_id = 1; color_loss_level = 3 }

sets-negotiated : parse_client_nscodec sets 3 ≡ some negotiated
unfolding parse_client_nscodec find_set find_nscodec flat_ok read_u8 new read_slice read_u16_le
sets-negotiated = refl

parse_client_nscodec-bounds_example : (1 ≤ 3) × (3 ≤ min 7 (max 3 1))
parse_client_nscodec-bounds_example = parse_client_nscodec-bounds sets 3 negotiated sets-negotiated

abbrev sync : DataPdu
sync = record {
  share_id = 0x1_0000;
  pdu_source = 1003;
  stream_id = 1;
  pdu_type2 = synchronize;
  body = 1 ∷ 0 ∷ 0xea ∷ 3 ∷ [];
}

sync-IsDataPdu : IsDataPdu sync
unfolding IsDataPdu
sync-IsDataPdu = (omega arith, omega arith, omega arith)

decode_data-encode_data_example : decode (encode sync ++ 0 ∷ 0 ∷ []) ≡ ok sync
decode_data-encode_data_example = decode_data-encode_data (0 ∷ 0 ∷ []) sync sync-IsDataPdu

abbrev monitors : List MonitorDef
monitors =
    record { left = 0; top = 0; right = 1919; bottom = 1079; primary = true }
    ∷ record { left = 0xffff_f880; top = 0; right = 0xffff_ffff; bottom = 1079; primary = false }
    ∷ []

monitors-IsMonitor : All IsMonitor monitors
unfolding IsMonitor
monitors-IsMonitor = (
  (omega arith, omega arith, omega arith, omega arith),
  ((omega arith, omega arith, omega arith, omega arith), tt),
)

decode_monitor_layout-encode_monitor_layout_example :
    decode_monitor_layout (encode_monitor_layout monitors) ≡ ok monitors
decode_monitor_layout-encode_monitor_layout_example =
    decode_monitor_layout-encode_monitor_layout monitors monitors-IsMonitor (omega arith)

abbrev request : ConnectionRequest
request = record { cookie = some (97 ∷ 98 ∷ []); flags = 0; protocol = 3 }

request-IsCookie : IsCookie (λ _. true) request.cookie
unfolding IsCookie IsLine
request-IsCookie = ((refl, (refl, tt)), refl, omega arith)

decode_request-encode_request_example :
    decode_request (λ _. true) (encode_request request) ≡ ok request
decode_request-encode_request_example =
    decode_request-encode_request (λ _. true) request request-IsCookie (omega arith)

decode_conference_request_example :
    Conference.decode_request (Conference.encode_request (1 ∷ 2 ∷ 3 ∷ [])) ≡ ok (1 ∷ 2 ∷ 3 ∷ [])
decode_conference_request_example = decode_conference_request (1 ∷ 2 ∷ 3 ∷ []) (omega arith)
