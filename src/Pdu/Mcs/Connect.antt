-- ===== src/Pdu/Mcs/Connect.antt =====
-- crates/rdpcore-pdu/src/mcs.rs: Connect-Initial and Connect-Response, in BER.
mod Size
pub mod Laws
use kmsrdp.Prelude.{ℕ, Bool, true, List, [], ◌∷◌, ◌++◌, length}
use kmsrdp.Pdu.Result.{Result, ok, ◌>>=◌}
use kmsrdp.Pdu.Cursor.{ReadCursor, new}
use kmsrdp.Pdu.Ber

abbrev pub mcs_type_connect_initial : ℕ
mcs_type_connect_initial = 0x65

abbrev pub mcs_type_connect_response : ℕ
mcs_type_connect_response = 0x66

pub record DomainParameters : Type 0 where
  pub max_channel_ids : ℕ
  pub max_user_ids : ℕ
  pub max_token_ids : ℕ
  pub num_priorities : ℕ
  pub min_throughput : ℕ
  pub max_height : ℕ
  pub max_mcs_pdu_size : ℕ
  pub protocol_version : ℕ

-- `DomainParameters::target`, `min` and `max`.
abbrev pub parameters_target : DomainParameters
parameters_target = record {
  max_channel_ids = 34;
  max_user_ids = 2;
  max_token_ids = 0;
  num_priorities = 1;
  min_throughput = 0;
  max_height = 1;
  max_mcs_pdu_size = 65535;
  protocol_version = 2;
}

abbrev pub parameters_min : DomainParameters
parameters_min = record {
  max_channel_ids = 1;
  max_user_ids = 1;
  max_token_ids = 1;
  num_priorities = 1;
  min_throughput = 0;
  max_height = 1;
  max_mcs_pdu_size = 1056;
  protocol_version = 2;
}

abbrev pub parameters_max : DomainParameters
parameters_max = record {
  max_channel_ids = 65535;
  max_user_ids = 64535;
  max_token_ids = 65535;
  num_priorities = 1;
  min_throughput = 0;
  max_height = 1;
  max_mcs_pdu_size = 65535;
  protocol_version = 2;
}

unfoldable pub parameters_body : DomainParameters → List ℕ
parameters_body p =
    Ber.write_integer p.max_channel_ids
    ++ (Ber.write_integer p.max_user_ids
        ++ (Ber.write_integer p.max_token_ids
            ++ (Ber.write_integer p.num_priorities
                ++ (Ber.write_integer p.min_throughput
                    ++ (Ber.write_integer p.max_height
                        ++ (Ber.write_integer p.max_mcs_pdu_size
                            ++ Ber.write_integer p.protocol_version))))))

unfoldable pub write_parameters : DomainParameters → List ℕ
write_parameters p = Ber.write_sequence_tag (length (parameters_body p)) ++ parameters_body p

unfoldable pub decode_parameters : ReadCursor → Result (DomainParameters × ReadCursor)
decode_parameters c = do
  (_len, c) ← Ber.read_sequence_tag c
  (max_channel_ids, c) ← Ber.read_integer c
  (max_user_ids, c) ← Ber.read_integer c
  (max_token_ids, c) ← Ber.read_integer c
  (num_priorities, c) ← Ber.read_integer c
  (min_throughput, c) ← Ber.read_integer c
  (max_height, c) ← Ber.read_integer c
  (max_mcs_pdu_size, c) ← Ber.read_integer c
  (protocol_version, c) ← Ber.read_integer c
  ok (
    record {
      max_channel_ids = max_channel_ids;
      max_user_ids = max_user_ids;
      max_token_ids = max_token_ids;
      num_priorities = num_priorities;
      min_throughput = min_throughput;
      max_height = max_height;
      max_mcs_pdu_size = max_mcs_pdu_size;
      protocol_version = protocol_version;
    },
    c,
  )

pub record ConnectInitial : Type 0 where
  pub target_parameters : DomainParameters
  pub min_parameters : DomainParameters
  pub max_parameters : DomainParameters
  pub user_data : List ℕ

unfoldable pub initial_body : ConnectInitial → List ℕ
initial_body x =
    Ber.write_octet_string (0x01 ∷ [])
    ++ (Ber.write_octet_string (0x01 ∷ [])
        ++ (Ber.write_boolean true
            ++ (write_parameters x.target_parameters
                ++ (write_parameters x.min_parameters
                    ++ (write_parameters x.max_parameters ++ Ber.write_octet_string x.user_data)))))

unfoldable pub encode_initial : ConnectInitial → List ℕ
encode_initial x =
    Ber.write_application_tag mcs_type_connect_initial (length (initial_body x)) ++ initial_body x

unfoldable pub read_initial : ReadCursor → Result (ConnectInitial × ReadCursor)
read_initial c = do
  (_len, c) ← Ber.read_application_tag mcs_type_connect_initial c
  (_calling_domain_selector, c) ← Ber.read_octet_string c
  (_called_domain_selector, c) ← Ber.read_octet_string c
  (_upward_flag, c) ← Ber.read_boolean c
  (target_parameters, c) ← decode_parameters c
  (min_parameters, c) ← decode_parameters c
  (max_parameters, c) ← decode_parameters c
  (user_data, c) ← Ber.read_octet_string c
  ok (
    record {
      target_parameters = target_parameters;
      min_parameters = min_parameters;
      max_parameters = max_parameters;
      user_data = user_data;
    },
    c,
  )

unfoldable pub decode_initial : List ℕ → Result ConnectInitial
decode_initial input = do (x, _c) ← read_initial (new input); ok x

pub record ConnectResponse : Type 0 where
  pub called_connect_id : ℕ
  pub domain_parameters : DomainParameters
  pub user_data : List ℕ

unfoldable pub response_body : ConnectResponse → List ℕ
response_body x =
    Ber.write_enumerated 0
    ++ (Ber.write_integer x.called_connect_id
        ++ (write_parameters x.domain_parameters ++ Ber.write_octet_string x.user_data))

unfoldable pub encode_response : ConnectResponse → List ℕ
encode_response x =
    Ber.write_application_tag mcs_type_connect_response (length (response_body x))
    ++ response_body x

unfoldable pub read_response : ReadCursor → Result (ConnectResponse × ReadCursor)
read_response c = do
  (_len, c) ← Ber.read_application_tag mcs_type_connect_response c
  (_result, c) ← Ber.read_enumerated c
  (called_connect_id, c) ← Ber.read_integer c
  (domain_parameters, c) ← decode_parameters c
  (user_data, c) ← Ber.read_octet_string c
  ok (
    record {
      called_connect_id = called_connect_id;
      domain_parameters = domain_parameters;
      user_data = user_data;
    },
    c,
  )

unfoldable pub decode_response : List ℕ → Result ConnectResponse
decode_response input = do (x, _c) ← read_response (new input); ok x
