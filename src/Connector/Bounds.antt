-- ===== src/Connector/Bounds.antt =====
-- crates/rdpcore-connector/src/lib.rs: the buffer that a Confirm Active is put together in.
pub mod Calls
use kmsrdp.Prelude.{
  ℕ, zero, suc, ◌+◌, ◌≤◌, ◌≡◌, refl, Bool, true, false, not, ◌&&◌, ◌||◌, List, [], ◌∷◌, ◌++◌, ◌==◌,
  arith, Bool-cases, inl, inr, length, length-append, ltb, if◌then◌else◌, Option, none, some,
}
use kmsrdp.Pdu.Result.{Result, ok, err, DecodeError, Result-cases}
use kmsrdp.Pdu.Cursor.{ReadCursor, new, remaining}
use kmsrdp.Pdu.X224.{unwrap_data}
use kmsrdp.Pdu.X224.Request.{decode_request}
use kmsrdp.Pdu.Mcs.Connect.{decode_initial}
use kmsrdp.Pdu.Mcs.Domain.{
  SendData, send_data_request, decode_send_data, decode_send_data_bytes, decode_erect,
  decode_attach_request, decode_join_request,
}
use kmsrdp.Pdu.ShareControl as Control
use kmsrdp.Pdu.Finalization.{
  ShareDataPduType, decode, synchronize, control, font_list, font_map, refresh_rect,
  suppress_output, save_session_info, monitor_layout, input,
}
use kmsrdp.Connector.{
  State, wait_connection_request, wait_connect_initial, wait_erect_domain_request,
  wait_attach_user_request, wait_channel_join_request, wait_client_info, wait_auth_approval,
  wait_confirm_active, wait_finalization, accepted, rejected, Acceptor, StepResult, ConnectorError,
  Outcome, failed, done, left, in_state, is_over, io_channel_id, max_confirm_active_len,
}
use kmsrdp.Connector.Codecs.{Codecs}
use kmsrdp.Connector.Handlers.{
  answer_request, on_connection_request, on_connect_initial, answer_initial, on_client_info,
  attach_user, join_channel, is_other, try_decode_confirm_active, confirm,
  on_confirm_active_send_data, asks_control, on_data_pdu, on_finalization_send_data,
}
use kmsrdp.Connector.Steps.{
  Round, round_failed, round_done, with_cursor, decoded, handle_domain_pdu, peek_is_disconnect,
  has_event, is_client_info, domain_loop, step_mcs_domain_pdus, reactivate, is_accepted_event,
  reactivation_loop, step_reactivation, restore, step_in, step, approve_in, approve_client_info,
  reject_in, reject_client_info, resize_in, begin_resize,
}
use kmsrdp.Connector.Phases.{Round-cases, Outcome-cases, OnEnd}
use kmsrdp.Connector.Phases.Active.{if_P, and_then_P, read_P}
use kmsrdp.Connector.Phases.Approval.{
  Call, step_call, approve_call, reject_call, resize_call, run_call, run_calls,
}

-- The buffer is within its limit.
unfoldable pub IsBounded : Acceptor → Type 0
IsBounded acceptor = length acceptor.confirm_active_buf ≤ max_confirm_active_len

unfoldable pub Leaves : Outcome → Type 0
Leaves outcome = IsBounded (left outcome)

pub done_Leaves :
    (result : StepResult) (acceptor : Acceptor) → IsBounded acceptor → Leaves (done result acceptor)
unfolding Leaves left
done_Leaves result acceptor h = h

pub failed_Leaves :
    (error : ConnectorError) (acceptor : Acceptor)
    → IsBounded acceptor
    → Leaves (failed error acceptor)
unfolding Leaves left
failed_Leaves error acceptor h = h

pub Leaves-done :
    (result : StepResult) (acceptor : Acceptor) → Leaves (done result acceptor) → IsBounded acceptor
unfolding Leaves left
Leaves-done result acceptor h = h

-- Of both branches of a test, with what the test says.
test_P :
    (P : Outcome → Type 0) (test : Bool) (x y : Outcome)
    → (test ≡ true → P x)
    → (test ≡ false → P y)
    → P (if test then x else y)
test_P P true x y h k = h refl
test_P P false x y h k = k refl

on_confirm_active-Leaves :
    (send_data : SendData) (acceptor : Acceptor)
    → IsBounded acceptor
    → Leaves (on_confirm_active_send_data send_data acceptor)
unfolding on_confirm_active_send_data confirm IsBounded
on_confirm_active-Leaves send_data acceptor h =
    let total = length acceptor.confirm_active_buf + length send_data.payload in
    if_P Leaves (not (send_data.channel_id == io_channel_id)) _ _ (done_Leaves _ _ h) (
      if_P Leaves (is_other Control.confirm_active send_data.payload) _ _ (done_Leaves _ _ h) (
        test_P Leaves (ltb max_confirm_active_len total) _ _ (λ e. failed_Leaves _ _ (omega arith))
          (λ e.
            if_P Leaves (not send_data.complete) _ _
              (done_Leaves _ _
                (ground (arith, e, length-append acceptor.confirm_active_buf send_data.payload)))
              (and_then_P Leaves
                (try_decode_confirm_active (acceptor.confirm_active_buf ++ send_data.payload)) _ _
                (λ error. failed_Leaves _ _ (omega arith)) (λ x. done_Leaves _ _ (omega arith))))))

on_data_pdu-Leaves :
    (pdu_type2 : ShareDataPduType) (body : List ℕ) (granted : Bool) (acceptor : Acceptor)
    → IsBounded acceptor
    → Leaves (on_data_pdu pdu_type2 body granted acceptor)
unfolding on_data_pdu IsBounded
on_data_pdu-Leaves control body granted acceptor h =
    if_P Leaves (asks_control body && not granted) _ _ (done_Leaves _ _ h) (done_Leaves _ _ h)
on_data_pdu-Leaves font_list body granted acceptor h = done_Leaves _ _ h
on_data_pdu-Leaves synchronize body granted acceptor h = done_Leaves _ _ h
on_data_pdu-Leaves font_map body granted acceptor h = done_Leaves _ _ h
on_data_pdu-Leaves refresh_rect body granted acceptor h = done_Leaves _ _ h
on_data_pdu-Leaves suppress_output body granted acceptor h = done_Leaves _ _ h
on_data_pdu-Leaves save_session_info body granted acceptor h = done_Leaves _ _ h
on_data_pdu-Leaves monitor_layout body granted acceptor h = done_Leaves _ _ h
on_data_pdu-Leaves input body granted acceptor h = done_Leaves _ _ h

on_finalization-Leaves :
    (send_data : SendData) (granted : Bool) (acceptor : Acceptor)
    → IsBounded acceptor
    → Leaves (on_finalization_send_data send_data granted acceptor)
unfolding on_finalization_send_data IsBounded
on_finalization-Leaves send_data granted acceptor h =
    if_P Leaves (not (send_data.channel_id == io_channel_id)) _ _ (done_Leaves _ _ h) (
      if_P Leaves (is_other Control.data_pdu send_data.payload) _ _ (done_Leaves _ _ h) (
        read_P Leaves (decode send_data.payload) _ _ (λ error. done_Leaves _ _ h)
          (λ pdu. on_data_pdu-Leaves pdu.pdu_type2 pdu.body granted acceptor h)))

reactivate-Leaves :
    (s : State) (send_data : SendData) (acceptor : Acceptor)
    → IsBounded acceptor
    → Leaves (reactivate s send_data acceptor)
unfolding reactivate
reactivate-Leaves wait_confirm_active send_data acceptor h =
    on_confirm_active-Leaves send_data acceptor h
reactivate-Leaves (wait_finalization granted) send_data acceptor h =
    on_finalization-Leaves send_data granted acceptor h
reactivate-Leaves accepted send_data acceptor h = done_Leaves _ _ h
reactivate-Leaves rejected send_data acceptor h = done_Leaves _ _ h
reactivate-Leaves wait_connection_request send_data acceptor h = failed_Leaves _ _ h
reactivate-Leaves wait_connect_initial send_data acceptor h = failed_Leaves _ _ h
reactivate-Leaves wait_erect_domain_request send_data acceptor h = failed_Leaves _ _ h
reactivate-Leaves wait_attach_user_request send_data acceptor h = failed_Leaves _ _ h
reactivate-Leaves (wait_channel_join_request n) send_data acceptor h = failed_Leaves _ _ h
reactivate-Leaves wait_client_info send_data acceptor h = failed_Leaves _ _ h
reactivate-Leaves wait_auth_approval send_data acceptor h = failed_Leaves _ _ h

pub reactivation_loop-Leaves :
    (fuel : ℕ) (before : List ℕ) (c : ReadCursor) (acceptor : Acceptor)
    → IsBounded acceptor
    → OnEnd Leaves (reactivation_loop fuel before c acceptor)
unfolding reactivation_loop OnEnd
reactivation_loop-Leaves zero before c acceptor h = tt
reactivation_loop-Leaves (suc fuel) before c acceptor h =
    elim (Bool-cases (remaining c == 0 || is_over acceptor.state)) [
      | inl e ↦ rw (e, reactivation_loop) (done_Leaves _ _ h)
      | inr e ↦ elim (Result-cases (decode_send_data send_data_request c)) [
        | inl (error, e1) ↦ rw (e, e1, reactivation_loop) (failed_Leaves _ _ h)
        | inr ((send_data, c'), e1) ↦
            let leaves = reactivate-Leaves acceptor.state send_data acceptor h in
            elim (Outcome-cases (reactivate acceptor.state send_data acceptor)) [
              | inl (error, after, e2) ↦ rw (e, e1, e2, reactivation_loop) (rw e2 at leaves)
              | inr (result, after, e2) ↦
                  let kept : IsBounded after = Leaves-done result after (rw e2 at leaves) in
                  elim (Bool-cases (is_accepted_event result.event)) [
                    | inl e3 ↦ rw (e, e1, e2, e3, reactivation_loop) (done_Leaves _ _ kept)
                    | inr e3 ↦
                        rw (e, e1, e2, e3, reactivation_loop)
                          (reactivation_loop-Leaves fuel (before ++ result.response) c' after kept)
                  ]
            ]
      ]
    ]
