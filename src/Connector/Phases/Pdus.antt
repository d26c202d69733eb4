-- ===== src/Connector/Phases/Pdus.antt =====
-- crates/rdpcore-connector/src/lib.rs: the phases of the connection sequence, each transition with
-- the PDU of the input that makes it.
pub mod Domain
pub mod Active
pub mod Step
use kmsrdp.Prelude.{ℕ, ◌-◌, ◌≤◌, ◌≡◌, Bool, true, false, Option, none, some, List}
use kmsrdp.Pdu.Result.{DecodeError, ok, err}
use kmsrdp.Pdu.Cursor.{ReadCursor, new, remaining}
use kmsrdp.Pdu.X224.{unwrap_data}
use kmsrdp.Pdu.X224.Request.{ConnectionRequest, decode_request}
use kmsrdp.Pdu.Mcs.Connect.{ConnectInitial, decode_initial}
use kmsrdp.Pdu.Mcs.Domain.{
  ErectDomainRequest, ChannelJoinRequest, SendData, send_data_request, decode_erect,
  decode_attach_request, decode_join_request, decode_send_data, decode_send_data_bytes,
}
use kmsrdp.Pdu.ShareControl as Control
use kmsrdp.Pdu.Finalization.{DataPdu, decode, control, font_list}
use kmsrdp.Connector.{
  State, wait_connection_request, wait_connect_initial, wait_erect_domain_request,
  wait_attach_user_request, wait_channel_join_request, wait_client_info, wait_auth_approval,
  wait_confirm_active, wait_finalization, accepted, rejected, Acceptor, is_over, io_channel_id,
  ClientCredentials, Outcome, failed, done,
}
use kmsrdp.Connector.Codecs.{Codecs, ClientBlocks}
use kmsrdp.Connector.Handlers.{select_protocol, join_count, is_other, asks_control}
use kmsrdp.Connector.Phases.{is_domain}
use kmsrdp.Connector.Steps.{peek_is_disconnect}

abbrev pub succeeds : Outcome → Bool
succeeds (failed error acceptor) = false
succeeds (done result acceptor) = true

-- One domain PDU, from the cursor before it to the one behind it; `joins` is the number of channel
-- joins that the acceptor waits for.
pub data DomainMove (joins : ℕ) : ReadCursor → State → ReadCursor → State → Type 0 where
  erect :
      {c c' : ReadCursor} (x : ErectDomainRequest)
      → decode_erect c ≡ ok (x, c')
      → DomainMove joins c wait_erect_domain_request c' wait_attach_user_request
  attach :
      {c c' : ReadCursor}
      → decode_attach_request c ≡ ok (tt, c')
      → DomainMove joins c wait_attach_user_request c' (wait_channel_join_request joins)
  join :
      {c c' : ReadCursor} (n : ℕ) (x : ChannelJoinRequest)
      → decode_join_request c ≡ ok (x, c')
      → 2 ≤ n
      → DomainMove joins c (wait_channel_join_request n) c' (wait_channel_join_request (n - 1))
  last_join :
      {c c' : ReadCursor} (n : ℕ) (x : ChannelJoinRequest)
      → decode_join_request c ≡ ok (x, c')
      → n ≤ 1
      → DomainMove joins c (wait_channel_join_request n) c' wait_client_info

-- A PDU that does not decode.
pub data Undecoded : ReadCursor → State → Type 0 where
  no_erect :
      {c : ReadCursor} (e : DecodeError)
      → decode_erect c ≡ err e
      → Undecoded c wait_erect_domain_request
  no_attach :
      {c : ReadCursor} (e : DecodeError)
      → decode_attach_request c ≡ err e
      → Undecoded c wait_attach_user_request
  no_join :
      {c : ReadCursor} (n : ℕ) (e : DecodeError)
      → decode_join_request c ≡ err e
      → Undecoded c (wait_channel_join_request n)

-- The PDUs of one message, to its end, to the last channel join, or to one that ends the
-- connection. The flag says whether the call succeeds.
pub data DomainRun (joins : ℕ) : ReadCursor → State → Bool → State → Type 0 where
  at_end : {c : ReadCursor} {s : State} → remaining c ≡ 0 → DomainRun joins c s true s
  joined : {c : ReadCursor} → DomainRun joins c wait_client_info true wait_client_info
  disconnected :
      {c : ReadCursor} {s : State}
      → peek_is_disconnect c ≡ true
      → DomainRun joins c s false rejected
  undecoded : {c : ReadCursor} {s : State} → Undecoded c s → DomainRun joins c s false rejected
  move :
      {c c' : ReadCursor} {s t u : State} {succeeds : Bool}
      → DomainMove joins c s c' t
      → DomainRun joins c' t succeeds u
      → DomainRun joins c s succeeds u

-- One Send Data Request, from the cursor before it to the one behind it.
pub data ActiveMove : ReadCursor → State → ReadCursor → State → Type 0 where
  pass :
      {c c' : ReadCursor} {s : State} (x : SendData)
      → decode_send_data send_data_request c ≡ ok (x, c')
      → ActiveMove c s c' s
  confirmed :
      {c c' : ReadCursor} (x : SendData)
      → decode_send_data send_data_request c ≡ ok (x, c')
      → x.channel_id ≡ io_channel_id
      → is_other Control.confirm_active x.payload ≡ false
      → x.complete ≡ true
      → ActiveMove c wait_confirm_active c' (wait_finalization false)
  grant :
      {c c' : ReadCursor} (x : SendData) (pdu : DataPdu)
      → decode_send_data send_data_request c ≡ ok (x, c')
      → x.channel_id ≡ io_channel_id
      → decode x.payload ≡ ok pdu
      → pdu.pdu_type2 ≡ control
      → asks_control pdu.body ≡ true
      → ActiveMove c (wait_finalization false) c' (wait_finalization true)
  finish :
      {c c' : ReadCursor} (granted : Bool) (x : SendData) (pdu : DataPdu)
      → decode_send_data send_data_request c ≡ ok (x, c')
      → x.channel_id ≡ io_channel_id
      → decode x.payload ≡ ok pdu
      → pdu.pdu_type2 ≡ font_list
      → ActiveMove c (wait_finalization granted) c' accepted

pub data ActiveRun : ReadCursor → State → Bool → State → Type 0 where
  at_end : {c : ReadCursor} {s : State} → remaining c ≡ 0 → ActiveRun c s true s
  over : {c : ReadCursor} {s : State} → is_over s ≡ true → ActiveRun c s true s
  undecoded :
      {c : ReadCursor} {s : State} (e : DecodeError)
      → decode_send_data send_data_request c ≡ err e
      → ActiveRun c s false s
  unconfirmed :
      {c c' : ReadCursor} (x : SendData)
      → decode_send_data send_data_request c ≡ ok (x, c')
      → ActiveRun c wait_confirm_active false wait_confirm_active
  move :
      {c c' : ReadCursor} {s t u : State} {succeeds : Bool}
      → ActiveMove c s c' t
      → ActiveRun c' t succeeds u
      → ActiveRun c s succeeds u

-- Whether a state waits for a Send Data Request.
abbrev pub is_active : State → Bool
is_active wait_confirm_active = true
is_active (wait_finalization granted) = true
is_active _ = false

-- What one input does to an acceptor in a state.
pub data Effect (codecs : Codecs) (input : List ℕ) (acceptor : Acceptor)
    : State → Bool → State → Type 0 where
  offer :
      (request : ConnectionRequest) (selected : ℕ)
      → decode_request codecs.is_utf8 input ≡ ok request
      → select_protocol acceptor.require_nla request.protocol ≡ some selected
      → Effect codecs input acceptor wait_connection_request true wait_connect_initial
  refuse :
      (request : ConnectionRequest)
      → decode_request codecs.is_utf8 input ≡ ok request
      → select_protocol acceptor.require_nla request.protocol ≡ none
      → Effect codecs input acceptor wait_connection_request true rejected
  connect :
      (payload : List ℕ) (initial : ConnectInitial) (blocks : ClientBlocks)
      → unwrap_data input ≡ ok payload
      → decode_initial payload ≡ ok initial
      → codecs.decode_conference initial.user_data ≡ ok blocks
      → Effect codecs input acceptor wait_connect_initial true wait_erect_domain_request
  domain :
      {s t : State} {succeeds : Bool} (payload : List ℕ)
      → is_domain s ≡ true
      → unwrap_data input ≡ ok payload
      → DomainRun
          (join_count acceptor.static_channel_names acceptor.message_channel_id)
          (new payload)
          s
          succeeds
          t
      → Effect codecs input acceptor s succeeds t
  log_in :
      (payload : List ℕ) (send_data : SendData) (credentials : ClientCredentials)
      → unwrap_data input ≡ ok payload
      → decode_send_data_bytes send_data_request payload ≡ ok send_data
      → codecs.decode_client_info send_data.payload ≡ ok credentials
      → Effect codecs input acceptor wait_client_info true wait_auth_approval
  active :
      {s t : State} {succeeds : Bool} (payload : List ℕ)
      → is_active s ≡ true
      → unwrap_data input ≡ ok payload
      → ActiveRun (new payload) s succeeds t
      → Effect codecs input acceptor s succeeds t
  failure : {s : State} → Effect codecs input acceptor s false s
