-- ===== src/Pdu/Mcs/Connect/Laws.antt =====
-- mcs.rs, the connect PDUs: the encoders against the decoders.
use kmsrdp.Prelude.{
  ℕ, ◌≤◌, ◌≡◌, List, [], ◌++◌, length, arith, append_assoc, append-nil, IsU16, IsU32,
}
use kmsrdp.Pdu.Result.{ok}
use kmsrdp.Pdu.Cursor.Laws.{at, new-at}
use kmsrdp.Pdu.Ber.Laws as BerLaws
use kmsrdp.Pdu.Mcs.Connect.Size.{length-parameters_body, length-initial_body, length-response_body}
use kmsrdp.Pdu.Mcs.Connect.{
  DomainParameters, parameters_body, write_parameters, decode_parameters, ConnectInitial,
  initial_body, encode_initial, read_initial, decode_initial, ConnectResponse, response_body,
  encode_response, read_response, decode_response, mcs_type_connect_initial,
  mcs_type_connect_response,
}

-- Each parameter is a u32.
pub record AreParameters (p : DomainParameters) : Type 0 where
  pub max_channel_ids : IsU32 p.max_channel_ids
  pub max_user_ids : IsU32 p.max_user_ids
  pub max_token_ids : IsU32 p.max_token_ids
  pub num_priorities : IsU32 p.num_priorities
  pub min_throughput : IsU32 p.min_throughput
  pub max_height : IsU32 p.max_height
  pub max_mcs_pdu_size : IsU32 p.max_mcs_pdu_size
  pub protocol_version : IsU32 p.protocol_version

pub decode_parameters-write_parameters :
    (f r : List ℕ) (p : DomainParameters)
    → AreParameters p
    → decode_parameters (at f (write_parameters p ++ r)) ≡ ok (p, at (f ++ write_parameters p) r)
unfolding decode_parameters write_parameters
decode_parameters-write_parameters f r p h =
    simp
      (
        append_assoc,
        BerLaws.read_sequence_tag-write_sequence_tag f (parameters_body p ++ r)
            (length (parameters_body p)) (omega (arith, length-parameters_body p)),
      )
      (unfold parameters_body in
        simp (
          append_assoc, BerLaws.read_integer-write_integer, h.max_channel_ids, h.max_user_ids,
          h.max_token_ids, h.num_priorities, h.min_throughput, h.max_height, h.max_mcs_pdu_size,
          h.protocol_version,
        ))

-- The fields of a Connect-Initial fit their widths, and its user data leaves room for the rest.
pub record IsInitial (x : ConnectInitial) : Type 0 where
  pub target : AreParameters x.target_parameters
  pub least : AreParameters x.min_parameters
  pub most : AreParameters x.max_parameters
  pub size : length x.user_data ≤ 65000

-- A Connect-Initial whose parameters are 32-bit numbers and whose user data has at most 65000
-- bytes is decoded from its encoding.
pub decode_initial-encode_initial :
    (x : ConnectInitial) → IsInitial x → decode_initial (encode_initial x) ≡ ok x
unfolding decode_initial read_initial encode_initial
decode_initial-encode_initial x h =
    let body = initial_body x in
    let size : IsU16 (length body) = omega (arith, length-initial_body x) in
    let one : IsU16 1 = omega arith in
    let room : IsU16 (length x.user_data) = omega arith in
    let last = λ (f : List ℕ).
      rw append-nil at (BerLaws.read_octet_string-write_octet_string f [] x.user_data room) in
    simp
      (
        new-at,
        BerLaws.read_application_tag-write_application_tag [] body mcs_type_connect_initial
            (length body) size,
      )
      (unfold initial_body in
        simp (
          append_assoc, BerLaws.read_octet_string-write_octet_string, one,
          BerLaws.read_boolean-write_boolean, decode_parameters-write_parameters, h.target, h.least,
          h.most, last,
        ))

-- The fields of a Connect-Response fit their widths, and its user data leaves room for the rest.
pub record IsResponse (x : ConnectResponse) : Type 0 where
  pub connect_id : IsU32 x.called_connect_id
  pub parameters : AreParameters x.domain_parameters
  pub size : length x.user_data ≤ 65000

-- A Connect-Response whose numbers are 32-bit and whose user data has at most 65000 bytes is
-- decoded from its encoding.
pub decode_response-encode_response :
    (x : ConnectResponse) → IsResponse x → decode_response (encode_response x) ≡ ok x
unfolding decode_response read_response encode_response
decode_response-encode_response x h =
    let body = response_body x in
    let size : IsU16 (length body) = omega (arith, length-response_body x) in
    let room : IsU16 (length x.user_data) = omega arith in
    let last = λ (f : List ℕ).
      rw append-nil at (BerLaws.read_octet_string-write_octet_string f [] x.user_data room) in
    simp
      (
        new-at,
        BerLaws.read_application_tag-write_application_tag [] body mcs_type_connect_response
            (length body) size,
      )
      (unfold response_body in
        simp (
          append_assoc, BerLaws.read_enumerated-write_enumerated,
          BerLaws.read_integer-write_integer, h.connect_id, decode_parameters-write_parameters,
          h.parameters, last,
        ))
