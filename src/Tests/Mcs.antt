-- ===== src/Tests/Mcs.antt =====
-- MCS PDUs, written and read back.
use kmsrdp.Prelude.{◌≡◌, ◌≢◌, ◌++◌, true, false, [], ◌∷◌, arith}
use kmsrdp.Pdu.Result.{ok}
use kmsrdp.Pdu.Cursor.Laws.{at}
use kmsrdp.Pdu.Mcs.Connect.{
  ConnectInitial, parameters_target, parameters_min, parameters_max, ConnectResponse,
  encode_initial, decode_initial, encode_response, decode_response,
}
use kmsrdp.Pdu.Mcs.Connect.Laws.{
  AreParameters, IsInitial, IsResponse, decode_initial-encode_initial,
  decode_response-encode_response,
}
use kmsrdp.Pdu.Mcs.Domain.{
  send_data_request, send_data_indication, SendData, encode_send_data, decode_send_data,
  ErectDomainRequest, ChannelJoinRequest, ChannelJoinConfirm, AttachUserConfirm,
  encode_attach_confirm, decode_attach_confirm,
}
use kmsrdp.Pdu.Mcs.Domain.Laws.{
  decode_send_data-encode_send_data, decode_attach_confirm-encode_attach_confirm,
}

parameters_target-AreParameters : AreParameters parameters_target
parameters_target-AreParameters = record {
  max_channel_ids = omega arith;
  max_user_ids = omega arith;
  max_token_ids = omega arith;
  num_priorities = omega arith;
  min_throughput = omega arith;
  max_height = omega arith;
  max_mcs_pdu_size = omega arith;
  protocol_version = omega arith;
}

parameters_min-AreParameters : AreParameters parameters_min
parameters_min-AreParameters = record {
  max_channel_ids = omega arith;
  max_user_ids = omega arith;
  max_token_ids = omega arith;
  num_priorities = omega arith;
  min_throughput = omega arith;
  max_height = omega arith;
  max_mcs_pdu_size = omega arith;
  protocol_version = omega arith;
}

parameters_max-AreParameters : AreParameters parameters_max
parameters_max-AreParameters = record {
  max_channel_ids = omega arith;
  max_user_ids = omega arith;
  max_token_ids = omega arith;
  num_priorities = omega arith;
  min_throughput = omega arith;
  max_height = omega arith;
  max_mcs_pdu_size = omega arith;
  protocol_version = omega arith;
}

abbrev initial : ConnectInitial
initial = record {
  target_parameters = parameters_target;
  min_parameters = parameters_min;
  max_parameters = parameters_max;
  user_data = 1 ∷ 2 ∷ [];
}

initial-IsInitial : IsInitial initial
initial-IsInitial = record {
  target = parameters_target-AreParameters;
  least = parameters_min-AreParameters;
  most = parameters_max-AreParameters;
  size = omega arith;
}

decode_initial-encode_initial_example : decode_initial (encode_initial initial) ≡ ok initial
decode_initial-encode_initial_example = decode_initial-encode_initial initial initial-IsInitial

abbrev response : ConnectResponse
response = record {
  called_connect_id = 1;
  domain_parameters = parameters_target;
  user_data = 0xab ∷ [];
}

response-IsResponse : IsResponse response
response-IsResponse = record {
  connect_id = omega arith;
  parameters = parameters_target-AreParameters;
  size = omega arith;
}

decode_response-encode_response_example : decode_response (encode_response response) ≡ ok response
decode_response-encode_response_example =
    decode_response-encode_response response response-IsResponse

abbrev sent : SendData
sent = record { initiator = 1002; channel_id = 1003; payload = 9 ∷ 8 ∷ 7 ∷ []; complete = false }

decode_send_data-encode_send_data_example :
    decode_send_data send_data_request
      (at (1 ∷ []) (encode_send_data send_data_request sent ++ 2 ∷ []))
    ≡ ok (
      record sent { complete = true },
      at ((1 ∷ []) ++ encode_send_data send_data_request sent) (2 ∷ []),
    )
decode_send_data-encode_send_data_example =
    decode_send_data-encode_send_data (1 ∷ []) (2 ∷ []) send_data_request sent
      (omega arith, omega arith) (omega arith) (omega arith)

abbrev erect : ErectDomainRequest
erect = record { sub_height = 0; sub_interval = 300 }

abbrev join : ChannelJoinRequest
join = record { initiator = 1002; channel_id = 1003 }

abbrev joined : ChannelJoinConfirm
joined = record { result = 0; initiator = 1002; requested_channel_id = 1003; channel_id = 1003 }

abbrev attached : AttachUserConfirm
attached = record { result = 0; initiator = 1002 }

decode_attach_confirm-encode_attach_confirm_example :
    decode_attach_confirm (at [] (encode_attach_confirm attached ++ []))
    ≡ ok (attached, at ([] ++ encode_attach_confirm attached) [])
decode_attach_confirm-encode_attach_confirm_example =
    decode_attach_confirm-encode_attach_confirm [] [] attached (omega arith)

kinds_differ : send_data_request ≢ send_data_indication
kinds_differ e = absurd (cc)
