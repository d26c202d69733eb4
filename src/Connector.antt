-- ===== src/Connector.antt =====
-- crates/rdpcore-connector/src/lib.rs: the acceptor, its events and what the server answers.
pub mod Codecs
pub mod Replies
pub mod Handlers
pub mod Steps
pub mod Phases
pub mod Progress
pub mod Termination
pub mod Bounds
use kmsrdp.Prelude.{ℕ, ◌+◌, ◌*◌, Bool, true, false, Option, none, some, List, []}
use kmsrdp.Pdu.Result.{Result, err, ok, DecodeError}
use kmsrdp.Pdu.Mcs.Domain.{base_channel_id}
use kmsrdp.Pdu.Capabilities.{NsCodecNegotiated}
use kmsrdp.Pdu.X224.Request.{protocol_ssl, protocol_hybrid, contains}

abbrev pub user_channel_id : ℕ
user_channel_id = base_channel_id + 1

abbrev pub io_channel_id : ℕ
io_channel_id = user_channel_id + 1

abbrev pub share_id : ℕ
share_id = 0x1_0000

abbrev pub max_confirm_active_len : ℕ
max_confirm_active_len = 1024 * 1024

-- Text is its bytes.
abbrev pub Text : Type 0
Text = List ℕ

pub record ClientCredentials : Type 0 where
  pub domain : Text
  pub username : Text
  pub password : Text

pub record AcceptedConnection : Type 0 where
  pub io_channel : ℕ
  pub user_channel : ℕ
  pub static_channels : List (Text × ℕ)
  pub share : ℕ
  pub desktop_width : ℕ
  pub desktop_height : ℕ
  pub client_name : Text
  pub nscodec : Option NsCodecNegotiated
  pub max_request_size : Option ℕ

pub data AcceptorEvent : Type 0 where
  no_event rejected_event tls_upgrade : AcceptorEvent
  client_info_received : ClientCredentials → AcceptorEvent
  accepted_event : AcceptedConnection → AcceptorEvent

pub record StepResult : Type 0 where
  pub response : List ℕ
  pub event : AcceptorEvent

-- The field of `FinalizationProgress` is whether the control was granted.
pub data State : Type 0 where
  wait_connection_request wait_connect_initial wait_erect_domain_request : State
  wait_attach_user_request : State
  wait_channel_join_request : ℕ → State
  wait_client_info wait_auth_approval wait_confirm_active : State
  wait_finalization : Bool → State
  accepted rejected : State

pub record Acceptor : Type 0 where
  pub state : State
  pub desktop_width : ℕ
  pub desktop_height : ℕ
  pub static_channel_names : List Text
  pub message_channel_id : Option ℕ
  pub client_name : Text
  pub client_requested_protocols : ℕ
  pub selected_protocol : ℕ
  pub require_nla : Bool
  pub confirm_active_buf : List ℕ
  pub nscodec : Option NsCodecNegotiated
  pub max_request_size : Option ℕ

unfoldable pub new_acceptor : ℕ → ℕ → Acceptor
new_acceptor desktop_width desktop_height = record {
  state = wait_connection_request;
  desktop_width = desktop_width;
  desktop_height = desktop_height;
  static_channel_names = [];
  message_channel_id = none;
  client_name = [];
  client_requested_protocols = protocol_ssl;
  selected_protocol = protocol_ssl;
  require_nla = false;
  confirm_active_buf = [];
  nscodec = none;
  max_request_size = none;
}

unfoldable pub with_require_nla : Bool → Acceptor → Acceptor
with_require_nla require_nla acceptor = record acceptor { require_nla = require_nla }

unfoldable pub requires_credssp : Acceptor → Bool
requires_credssp acceptor = contains acceptor.selected_protocol protocol_hybrid

unfoldable pub is_over : State → Bool
is_over accepted = true
is_over rejected = true
is_over _ = false

unfoldable pub is_finished : Acceptor → Bool
is_finished acceptor = is_over acceptor.state

pub data ConnectorError : Type 0 where
  decode_failed : DecodeError → ConnectorError
  already_finished not_ready : ConnectorError

-- What a call returns, with what it leaves of the acceptor, also where it fails.
pub data Outcome : Type 0 where
  failed : ConnectorError → Acceptor → Outcome
  done : StepResult → Acceptor → Outcome

unfoldable pub left : Outcome → Acceptor
left (failed error acceptor) = acceptor
left (done step acceptor) = acceptor

-- `result?`, in a method that has changed nothing yet.
unfoldable pub and_then {ℓ} :
    {A : Type ℓ} (result : Result A) (acceptor : Acceptor) (next : A → Outcome) → Outcome
and_then (err error) acceptor next = failed (decode_failed error) acceptor
and_then (ok value) acceptor next = next value

abbrev pub in_state : State → Acceptor → Acceptor
in_state state acceptor = record acceptor { state = state }

-- `StepResult::just`
abbrev pub just : List ℕ → StepResult
just response = record { response = response; event = no_event }
