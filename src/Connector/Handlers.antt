-- ===== src/Connector/Handlers.antt =====
-- crates/rdpcore-connector/src/lib.rs: what the acceptor does with one PDU, in each of its states.
use kmsrdp.Prelude.{
  ℕ, ◌+◌, ◌-◌, ◌%◌, Bool, true, false, not, ◌&&◌, Option, none, some, List, [], ◌∷◌, ◌++◌, length,
  map, drop, ltb, leb, ◌==◌, if◌then◌else◌,
}
use kmsrdp.Pdu.Result.{Result, err, ok, invalid_value}
use kmsrdp.Pdu.Cursor.{new}
use kmsrdp.Pdu.X224.{response, failure, encode_confirm, wrap_data, unwrap_data}
use kmsrdp.Pdu.X224.Request.{protocol_ssl, protocol_hybrid, contains, decode_request}
use kmsrdp.Pdu.Mcs.Connect.{decode_initial, encode_response, parameters_target}
use kmsrdp.Pdu.Mcs.Domain.{
  encode_attach_confirm, encode_join_confirm, SendData, send_data_request, decode_send_data_bytes,
}
use kmsrdp.Pdu.Licensing.{encode_valid_client}
use kmsrdp.Pdu.ShareControl as Control
use kmsrdp.Pdu.ShareControl.{ShareControlPduType, is_type}
use kmsrdp.Pdu.Capabilities.{
  ConfirmActive, decode_confirm_active, parse_client_nscodec, parse_client_max_request_size,
}
use kmsrdp.Pdu.Finalization.{
  ShareDataPduType, control, font_list, decode, decode_control, request_control,
}
use kmsrdp.Connector.{
  user_channel_id, io_channel_id, share_id, max_confirm_active_len, Text, rejected_event,
  tls_upgrade, client_info_received, accepted_event, wait_connect_initial,
  wait_erect_domain_request, wait_channel_join_request, wait_client_info, wait_auth_approval,
  wait_confirm_active, wait_finalization, accepted, rejected, Acceptor, Outcome, failed, done,
  decode_failed, ConnectorError, AcceptedConnection, and_then, in_state, just,
}
use kmsrdp.Connector.Codecs.{Codecs, ClientBlocks}
use kmsrdp.Connector.Replies.{
  send_io_indication, server_synchronize_pdu, server_cooperate_pdu, server_granted_control_pdu,
  server_font_map_pdu, server_save_session_info_plain_notify,
}

unfoldable pub select_protocol : Bool → ℕ → Option ℕ
select_protocol require_nla requested =
    if contains requested protocol_hybrid
    then some protocol_hybrid
    else if not require_nla && contains requested protocol_ssl
    then some protocol_ssl
    else none

-- HYBRID_REQUIRED_BY_SERVER and SSL_REQUIRED_BY_SERVER
unfoldable pub failure_code : Bool → ℕ
failure_code true = 5
failure_code false = 1

unfoldable pub answer_request : Option ℕ → ℕ → Acceptor → Outcome
unfolding failure_code
answer_request none requested acceptor =
    done
      (record {
        response = encode_confirm (failure (failure_code acceptor.require_nla));
        event = rejected_event;
      })
      (in_state rejected acceptor)
answer_request (some selected) requested acceptor =
    done (record { response = encode_confirm (response 0 selected); event = tls_upgrade })
      (record acceptor {
        client_requested_protocols = requested;
        selected_protocol = selected;
        state = wait_connect_initial;
      })

-- `IO_CHANNEL_ID + 1 + i as u16`
unfoldable pub static_channel_id : ℕ → ℕ
static_channel_id i = (io_channel_id + 1 + i % 0x1_0000) % 0x1_0000

-- One id for each channel from the `i`th on.
unfoldable pub number_channels : ℕ → List Text → List (Text × ℕ)
unfolding static_channel_id
number_channels i [] = []
number_channels i (name ∷ names) = (name, static_channel_id i) ∷ number_channels (i + 1) names

abbrev pub channel_id_of : Text × ℕ → ℕ
channel_id_of (name, id) = id

unfoldable pub names_of : Option (List Text) → List Text
names_of none = []
names_of (some names) = names

unfoldable pub message_channel_of : Bool → ℕ → Option ℕ
message_channel_of false count = none
message_channel_of true count = some (static_channel_id count)

unfoldable pub join_count : List Text → Option ℕ → ℕ
join_count names none = 2 + length names % 0x1_0000_0000
join_count names (some id) = 2 + length names % 0x1_0000_0000 + 1

module _ (codecs : Codecs) where
  unfoldable pub on_connection_request : List ℕ → Acceptor → Outcome
  on_connection_request input acceptor =
      and_then (decode_request codecs.is_utf8 input) acceptor (λ request.
        answer_request (select_protocol acceptor.require_nla request.protocol) request.protocol
          acceptor)

  unfoldable pub answer_initial : ClientBlocks → Acceptor → Outcome
  answer_initial blocks acceptor =
      let names = names_of blocks.network in
      let message_channel_id = message_channel_of blocks.message_channel (length names) in
      let user_data = codecs.encode_conference (record {
        client_requested_protocols = acceptor.client_requested_protocols;
        channel_ids = map channel_id_of (number_channels 0 names);
        message_channel = message_channel_id;
      }) in
      done
        (just (
          wrap_data (
            encode_response (record {
              called_connect_id = 0;
              domain_parameters = parameters_target;
              user_data = user_data;
            }))))
        (record acceptor {
          client_name = blocks.client_name;
          static_channel_names = names;
          message_channel_id = message_channel_id;
          state = wait_erect_domain_request;
        })

  unfoldable pub on_connect_initial : List ℕ → Acceptor → Outcome
  on_connect_initial input acceptor = and_then (unwrap_data input) acceptor (λ payload.
      and_then (decode_initial payload) acceptor (λ initial.
        and_then (codecs.decode_conference initial.user_data) acceptor
          (λ blocks. answer_initial blocks acceptor)))

  unfoldable pub on_client_info : List ℕ → Acceptor → Outcome
  on_client_info input acceptor = and_then (unwrap_data input) acceptor (λ payload.
      and_then (decode_send_data_bytes send_data_request payload) acceptor (λ send_data.
        and_then (codecs.decode_client_info send_data.payload) acceptor (λ credentials.
          done
            (record {
              response = send_io_indication encode_valid_client;
              event = client_info_received credentials;
            })
            (in_state wait_auth_approval acceptor))))

unfoldable pub attach_user : Acceptor → Outcome
attach_user acceptor =
    done
      (just
        (wrap_data (encode_attach_confirm (record { result = 0; initiator = user_channel_id }))))
      (in_state
        (wait_channel_join_request
          (join_count acceptor.static_channel_names acceptor.message_channel_id))
        acceptor)

unfoldable pub join_channel : ℕ → ℕ → ℕ → Acceptor → Outcome
join_channel initiator channel_id remaining acceptor =
    done
      (just (
        wrap_data (
          encode_join_confirm (record {
            result = 0;
            initiator = initiator;
            requested_channel_id = channel_id;
            channel_id = channel_id;
          }))))
      (in_state
        (if remaining - 1 == 0 then wait_client_info else wait_channel_join_request (remaining - 1))
        acceptor)

-- Whether a body has a Share Control header of another type.
unfoldable pub is_other : ShareControlPduType → List ℕ → Bool
is_other expected body = elim (Control.decode (new body)) [
  | err error ↦ false
  | ok (declared, c) ↦ not (is_type declared.0.pdu_type expected)
]

unfoldable pub try_decode_confirm_active : List ℕ → Result ConfirmActive
try_decode_confirm_active bytes = elim (decode_confirm_active bytes) [
  | ok confirm ↦ ok confirm
  | err first ↦
      if leb 14 (length bytes)
      then elim (decode_confirm_active (drop 4 bytes)) [
        | ok confirm ↦ ok confirm
        | err _ ↦ err first
      ]
      else err first
]

unfoldable pub confirm : ConfirmActive → Acceptor → Outcome
confirm x acceptor =
    done
      (just (send_io_indication server_synchronize_pdu ++ send_io_indication server_cooperate_pdu))
      (record acceptor {
        nscodec = parse_client_nscodec x.capabilities 3;
        max_request_size = parse_client_max_request_size x.capabilities;
        state = wait_finalization false;
      })

abbrev pub confirm_active_too_long : ConnectorError
confirm_active_too_long =
    decode_failed
      (invalid_value "confirm_active.reassembly" "exceeded maximum allowed reassembled size")

unfoldable pub on_confirm_active_send_data : SendData → Acceptor → Outcome
on_confirm_active_send_data send_data acceptor =
    let buffer = acceptor.confirm_active_buf ++ send_data.payload in
    let cleared = record acceptor { confirm_active_buf = [] } in
    let waiting = in_state wait_confirm_active acceptor in
    if not (send_data.channel_id == io_channel_id)
    then done (just []) waiting
    else if is_other Control.confirm_active send_data.payload
    then done (just []) waiting
    else if ltb max_confirm_active_len
        (length acceptor.confirm_active_buf + length send_data.payload)
    then failed confirm_active_too_long cleared
    else if not send_data.complete
    then done (just []) (record waiting { confirm_active_buf = buffer })
    else and_then (try_decode_confirm_active buffer) cleared (λ x. confirm x cleared)

unfoldable pub accepted_connection : Acceptor → AcceptedConnection
accepted_connection acceptor = record {
  io_channel = io_channel_id;
  user_channel = user_channel_id;
  static_channels = number_channels 0 acceptor.static_channel_names;
  share = share_id;
  desktop_width = acceptor.desktop_width;
  desktop_height = acceptor.desktop_height;
  client_name = acceptor.client_name;
  nscodec = acceptor.nscodec;
  max_request_size = acceptor.max_request_size;
}

-- Whether a Control PDU asks for the control.
unfoldable pub asks_control : List ℕ → Bool
asks_control body = elim (decode_control body) [
  | err _ ↦ false
  | ok x ↦ x.action == request_control
]

unfoldable pub on_data_pdu : ShareDataPduType → List ℕ → Bool → Acceptor → Outcome
unfolding accepted_connection
on_data_pdu control body granted acceptor =
    if asks_control body && not granted
    then done (just (send_io_indication server_granted_control_pdu))
        (in_state (wait_finalization true) acceptor)
    else done (just []) (in_state (wait_finalization granted) acceptor)
on_data_pdu font_list body granted acceptor =
    done
      (record {
        response =
            send_io_indication server_font_map_pdu
            ++ send_io_indication server_save_session_info_plain_notify;
        event = accepted_event (accepted_connection acceptor);
      })
      (in_state accepted acceptor)
on_data_pdu _ body granted acceptor = done (just []) (in_state (wait_finalization granted) acceptor)

unfoldable pub on_finalization_send_data : SendData → Bool → Acceptor → Outcome
on_finalization_send_data send_data granted acceptor =
    let waiting = done (just []) (in_state (wait_finalization granted) acceptor) in
    if not (send_data.channel_id == io_channel_id)
    then waiting
    else if is_other Control.data_pdu send_data.payload
    then waiting
    else elim (decode send_data.payload) [
      | err _ ↦ waiting
      | ok pdu ↦ on_data_pdu pdu.pdu_type2 pdu.body granted acceptor
    ]
