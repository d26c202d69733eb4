-- ===== src/Connector/Steps.antt =====
-- crates/rdpcore-connector/src/lib.rs: `Acceptor::step` with its loops, and the other calls.
use kmsrdp.Prelude.{
  ℕ, zero, suc, ◌+◌, ◌/◌, Option, none, some, Bool, true, false, ◌||◌, List, [], ◌∷◌, ◌++◌, ◌==◌,
}
use kmsrdp.Pdu.Result.{Result, err, ok, invalid_value}
use kmsrdp.Pdu.Cursor.{ReadCursor, new, remaining, peek_slice}
use kmsrdp.Pdu.X224.{unwrap_data}
use kmsrdp.Pdu.Mcs.Domain.{
  from_u8, is_pdu, disconnect_provider_ultimatum, send_data_request, decode_send_data, decode_erect,
  decode_attach_request, decode_join_request, SendData,
}
use kmsrdp.Connector.{
  State, wait_connection_request, wait_connect_initial, wait_erect_domain_request,
  wait_attach_user_request, wait_channel_join_request, wait_client_info, wait_auth_approval,
  wait_confirm_active, wait_finalization, accepted, rejected, Acceptor, AcceptorEvent, no_event,
  accepted_event, StepResult, ConnectorError, decode_failed, already_finished, not_ready, Outcome,
  failed, done, and_then, in_state, is_over, just,
}
use kmsrdp.Connector.Codecs.{Codecs}
use kmsrdp.Connector.Replies.{send_io_indication, demand_active, deactivate_all}
use kmsrdp.Connector.Handlers.{
  on_connection_request, on_connect_initial, on_client_info, attach_user, join_channel,
  on_confirm_active_send_data, on_finalization_send_data,
}

-- What one round of a loop gives: an error, or an answer and the cursor behind the PDU.
pub data Round : Type 0 where
  round_failed : ConnectorError → Acceptor → Round
  round_done : StepResult → Acceptor → ReadCursor → Round

unfoldable pub with_cursor : ReadCursor → Outcome → Round
with_cursor c (failed error acceptor) = round_failed error acceptor
with_cursor c (done step acceptor) = round_done step acceptor c

-- A PDU that does not decode leaves the state that `mem::replace` put there.
unfoldable pub decoded {ℓ} :
    {A : Type ℓ} (result : Result (A × ReadCursor)) (acceptor : Acceptor) (next : A → Outcome)
    → Round
unfolding with_cursor
decoded (err error) acceptor next = round_failed (decode_failed error) (in_state rejected acceptor)
decoded (ok (value, c)) acceptor next = with_cursor c (next value)

unfoldable pub handle_domain_pdu : State → ReadCursor → Acceptor → Round
unfolding decoded
handle_domain_pdu wait_erect_domain_request c acceptor =
    decoded (decode_erect c) acceptor
      (λ _. done (just []) (in_state wait_attach_user_request acceptor))
handle_domain_pdu wait_attach_user_request c acceptor =
    decoded (decode_attach_request c) acceptor (λ _. attach_user acceptor)
handle_domain_pdu (wait_channel_join_request remaining) c acceptor =
    decoded (decode_join_request c) acceptor
      (λ request. join_channel request.initiator request.channel_id remaining acceptor)
handle_domain_pdu _ c acceptor = round_failed not_ready acceptor

unfoldable pub peek_is_disconnect : ReadCursor → Bool
peek_is_disconnect c = elim (peek_slice 1 c) [
  | ok (byte ∷ rest) ↦ is_pdu (from_u8 (byte / 4)) disconnect_provider_ultimatum
  | _ ↦ false
]

abbrev pub client_disconnected : ConnectorError
client_disconnected =
    decode_failed (invalid_value "mcs.domain_pdu" "client disconnected during MCS domain setup")

unfoldable pub has_event : AcceptorEvent → Bool
has_event no_event = false
has_event _ = true

unfoldable pub is_client_info : State → Bool
is_client_info wait_client_info = true
is_client_info _ = false

abbrev pub answer : List ℕ → StepResult → StepResult
answer before step = record step { response = before ++ step.response }

-- The loop of `step_mcs_domain_pdus`; `none` is one that is not over when the fuel is. Each round
-- takes a byte at least, so one round more than there are bytes is enough.
unfoldable pub domain_loop : ℕ → List ℕ → ReadCursor → Acceptor → Option Outcome
unfolding has_event is_client_info
domain_loop zero before c acceptor = none
domain_loop (suc fuel) before c acceptor = elim (remaining c == 0) [
  | true ↦ some (done (just before) acceptor)
  | false ↦ elim (peek_is_disconnect c) [
    | true ↦ some (failed client_disconnected (in_state rejected acceptor))
    | false ↦ elim (handle_domain_pdu acceptor.state c acceptor) [
      | round_failed error after ↦ some (failed error after)
      | round_done step after c' ↦ elim (has_event step.event || is_client_info after.state) [
        | true ↦ some (done (answer before step) after)
        | false ↦ domain_loop fuel (before ++ step.response) c' after
      ]
    ]
  ]
]

-- What a loop ended with; with the fuel below, none is without an end.
unfoldable pub settle : Acceptor → Option Outcome → Outcome
settle acceptor (some outcome) = outcome
settle acceptor none = failed not_ready acceptor

unfoldable pub step_mcs_domain_pdus : List ℕ → Acceptor → Outcome
step_mcs_domain_pdus input acceptor = and_then (unwrap_data input) acceptor (λ payload.
    settle acceptor (domain_loop (remaining (new payload) + 1) [] (new payload) acceptor))

unfoldable pub reactivate : State → SendData → Acceptor → Outcome
reactivate wait_confirm_active send_data acceptor = on_confirm_active_send_data send_data acceptor
reactivate (wait_finalization granted) send_data acceptor =
    on_finalization_send_data send_data granted acceptor
reactivate accepted send_data acceptor = done (just []) acceptor
reactivate rejected send_data acceptor = done (just []) acceptor
reactivate _ send_data acceptor = failed not_ready acceptor

unfoldable pub is_accepted_event : AcceptorEvent → Bool
is_accepted_event (accepted_event connection) = true
is_accepted_event _ = false

-- The loop of `step_reactivation`, with fuel like the one above. An event ends it, so there is
-- no event when a PDU fails to decode.
unfoldable pub reactivation_loop : ℕ → List ℕ → ReadCursor → Acceptor → Option Outcome
unfolding is_accepted_event
reactivation_loop zero before c acceptor = none
reactivation_loop (suc fuel) before c acceptor = elim (remaining c == 0 || is_over acceptor.state) [
  | true ↦ some (done (just before) acceptor)
  | false ↦ elim (decode_send_data send_data_request c) [
    | err error ↦ some (failed (decode_failed error) acceptor)
    | ok (send_data, c') ↦ elim (reactivate acceptor.state send_data acceptor) [
      | failed error after ↦ some (failed error after)
      | done step after ↦ elim (is_accepted_event step.event) [
        | true ↦ some (done (answer before step) after)
        | false ↦ reactivation_loop fuel (before ++ step.response) c' after
      ]
    ]
  ]
]

unfoldable pub step_reactivation : List ℕ → Acceptor → Outcome
step_reactivation input acceptor = and_then (unwrap_data input) acceptor (λ payload.
    settle acceptor (reactivation_loop (remaining (new payload) + 1) [] (new payload) acceptor))

-- `if result.is_err() && matches!(self.state, State::Rejected) { self.state = previous; }`
unfoldable pub restore : State → Outcome → Outcome
restore previous (done step acceptor) = done step acceptor
restore previous (failed error acceptor) = elim acceptor.state [
  | rejected ↦ failed error (in_state previous acceptor)
  | _ ↦ failed error acceptor
]

module _ (codecs : Codecs) where
  -- `step` in a state; the last handlers run with `Rejected` in the place of the state.
  unfoldable pub step_in : State → List ℕ → Acceptor → Outcome
  step_in wait_erect_domain_request input acceptor = step_mcs_domain_pdus input acceptor
  step_in wait_attach_user_request input acceptor = step_mcs_domain_pdus input acceptor
  step_in (wait_channel_join_request remaining) input acceptor = step_mcs_domain_pdus input acceptor
  step_in accepted input acceptor = failed already_finished acceptor
  step_in rejected input acceptor = failed already_finished acceptor
  step_in wait_confirm_active input acceptor = step_reactivation input acceptor
  step_in (wait_finalization granted) input acceptor = step_reactivation input acceptor
  step_in wait_connection_request input acceptor =
      restore wait_connection_request
        (on_connection_request codecs input (in_state rejected acceptor))
  step_in wait_connect_initial input acceptor =
      restore wait_connect_initial (on_connect_initial codecs input (in_state rejected acceptor))
  step_in wait_client_info input acceptor =
      restore wait_client_info (on_client_info codecs input (in_state rejected acceptor))
  step_in wait_auth_approval input acceptor =
      restore wait_auth_approval (failed not_ready (in_state rejected acceptor))

  unfoldable pub step : List ℕ → Acceptor → Outcome
  step input acceptor = step_in acceptor.state input acceptor

-- `approve_client_info` and `begin_resize` answer with bytes and no event.
unfoldable pub approve_in : State → Acceptor → Outcome
approve_in wait_auth_approval acceptor =
    let approved = in_state wait_confirm_active acceptor in
    done (just (send_io_indication (demand_active approved))) approved
approve_in _ acceptor = failed not_ready acceptor

unfoldable pub approve_client_info : Acceptor → Outcome
approve_client_info acceptor = approve_in acceptor.state acceptor

unfoldable pub reject_in : State → Acceptor → Acceptor
reject_in wait_auth_approval acceptor = in_state rejected acceptor
reject_in _ acceptor = acceptor

unfoldable pub reject_client_info : Acceptor → Acceptor
reject_client_info acceptor = reject_in acceptor.state acceptor

unfoldable pub resize_in : State → ℕ → ℕ → Acceptor → Outcome
resize_in accepted desktop_width desktop_height acceptor =
    let resized = record acceptor {
      desktop_width = desktop_width;
      desktop_height = desktop_height;
    } in
    done (just (send_io_indication deactivate_all ++ send_io_indication (demand_active resized)))
      (record resized { confirm_active_buf = []; state = wait_confirm_active })
resize_in _ desktop_width desktop_height acceptor = failed not_ready acceptor

unfoldable pub begin_resize : ℕ → ℕ → Acceptor → Outcome
begin_resize desktop_width desktop_height acceptor =
    resize_in acceptor.state desktop_width desktop_height acceptor
