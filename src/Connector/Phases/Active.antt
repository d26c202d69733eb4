-- ===== src/Connector/Phases/Active.antt =====
-- crates/rdpcore-connector/src/lib.rs: `step` and its handlers in the phases of the connection
-- sequence.
use kmsrdp.Prelude.{
  ℕ, zero, suc, ◌+◌, ◌≡◌, refl, Bool, true, false, not, ◌&&◌, ◌||◌, inl, inr, List, ◌++◌, ◌==◌,
  Bool-cases, if◌then◌else◌, ltb, length,
}
use kmsrdp.Pdu.Result.{Result, err, ok, DecodeError, Result-cases}
use kmsrdp.Pdu.Cursor.{ReadCursor, remaining}
use kmsrdp.Pdu.Mcs.Domain.{SendData, decode_send_data, send_data_request}
use kmsrdp.Pdu.ShareControl as Control
use kmsrdp.Pdu.Finalization.{
  ShareDataPduType, decode, synchronize, control, font_list, font_map, refresh_rect,
  suppress_output, save_session_info, monitor_layout, input,
}
use kmsrdp.Connector.{
  State, wait_connection_request, wait_connect_initial, wait_erect_domain_request,
  wait_attach_user_request, wait_channel_join_request, wait_client_info, wait_auth_approval,
  wait_confirm_active, wait_finalization, accepted, rejected, Acceptor, StepResult, Outcome,
  ConnectorError, decode_failed, failed, done, left, and_then, is_over, io_channel_id,
  max_confirm_active_len,
}
use kmsrdp.Connector.Handlers.{
  on_confirm_active_send_data, confirm, is_other, try_decode_confirm_active,
  on_finalization_send_data, on_data_pdu, asks_control,
}
use kmsrdp.Connector.Steps.{reactivate, is_accepted_event, reactivation_loop}
use kmsrdp.Connector.Phases.{
  confirmed, grant, finish, Run, stop, Run-trans, once, same, Outcome-cases, OnEnd, OnEnd-map,
}

-- Of both branches of a test, and of a read that may fail.
pub if_P :
    (P : Outcome → Type 0) (test : Bool) (x y : Outcome) → P x → P y → P (if test then x else y)
if_P P true x y h k = h
if_P P false x y h k = k

pub and_then_P {ℓ} :
    {A : Type ℓ} (P : Outcome → Type 0) (read : Result A) (acceptor : Acceptor) (next : A → Outcome)
    → ((error : ConnectorError) → P (failed error acceptor))
    → ((x : A) → P (next x))
    → P (and_then read acceptor next)
unfolding and_then
and_then_P P (err error) acceptor next h k = h (decode_failed error)
and_then_P P (ok x) acceptor next h k = k x

unfoldable pub RunsTo : State → Outcome → Type 0
RunsTo s outcome = Run s (left outcome).state

pub done_RunsTo :
    (s : State) (result : StepResult) (acceptor : Acceptor)
    → Run s acceptor.state
    → RunsTo s (done result acceptor)
unfolding RunsTo left
done_RunsTo s result acceptor r = r

pub failed_RunsTo :
    (s : State) (error : ConnectorError) (acceptor : Acceptor)
    → Run s acceptor.state
    → RunsTo s (failed error acceptor)
unfolding RunsTo left
failed_RunsTo s error acceptor r = r

on_confirm_active-Run :
    (send_data : SendData) (acceptor : Acceptor)
    → acceptor.state ≡ wait_confirm_active
    → RunsTo wait_confirm_active (on_confirm_active_send_data send_data acceptor)
unfolding on_confirm_active_send_data confirm
on_confirm_active-Run send_data acceptor e =
    let P = RunsTo wait_confirm_active in
    let unmoved = same wait_confirm_active acceptor e in
    if_P P (not (send_data.channel_id == io_channel_id)) _ _ (done_RunsTo _ _ _ stop) (
      if_P P (is_other Control.confirm_active send_data.payload) _ _ (done_RunsTo _ _ _ stop) (
        if_P P
          (ltb max_confirm_active_len
            (length acceptor.confirm_active_buf + length send_data.payload))
          _ _ (failed_RunsTo _ _ _ unmoved)
          (if_P P (not send_data.complete) _ _ (done_RunsTo _ _ _ stop) (
            and_then_P P
              (try_decode_confirm_active (acceptor.confirm_active_buf ++ send_data.payload)) _ _
              (λ error. failed_RunsTo _ _ _ unmoved) (λ x. done_RunsTo _ _ _ (once confirmed))))))

grant_Run : (granted : Bool) → Run (wait_finalization granted) (wait_finalization true)
grant_Run true = stop
grant_Run false = once grant

on_data_pdu-Run :
    (pdu_type2 : ShareDataPduType) (body : List ℕ) (granted : Bool) (acceptor : Acceptor)
    → RunsTo (wait_finalization granted) (on_data_pdu pdu_type2 body granted acceptor)
unfolding on_data_pdu
on_data_pdu-Run control body granted acceptor =
    if_P (RunsTo (wait_finalization granted)) (asks_control body && not granted) _ _
      (done_RunsTo _ _ _ (grant_Run granted)) (done_RunsTo _ _ _ stop)
on_data_pdu-Run font_list body granted acceptor = done_RunsTo _ _ _ (once (finish granted))
on_data_pdu-Run synchronize body granted acceptor = done_RunsTo _ _ _ stop
on_data_pdu-Run font_map body granted acceptor = done_RunsTo _ _ _ stop
on_data_pdu-Run refresh_rect body granted acceptor = done_RunsTo _ _ _ stop
on_data_pdu-Run suppress_output body granted acceptor = done_RunsTo _ _ _ stop
on_data_pdu-Run save_session_info body granted acceptor = done_RunsTo _ _ _ stop
on_data_pdu-Run monitor_layout body granted acceptor = done_RunsTo _ _ _ stop
on_data_pdu-Run input body granted acceptor = done_RunsTo _ _ _ stop

-- Of an outcome that depends on a read.
pub read_P {ℓ} :
    {A : Type ℓ} (P : Outcome → Type 0) (read : Result A) (x : DecodeError → Outcome)
    (y : A → Outcome)
    → ((error : DecodeError) → P (x error))
    → ((value : A) → P (y value))
    → P (elim read [ err error ↦ x error | ok value ↦ y value ])
read_P P (err error) x y h k = h error
read_P P (ok value) x y h k = k value

on_finalization-Run :
    (send_data : SendData) (granted : Bool) (acceptor : Acceptor)
    → RunsTo (wait_finalization granted) (on_finalization_send_data send_data granted acceptor)
unfolding on_finalization_send_data
on_finalization-Run send_data granted acceptor =
    let P = RunsTo (wait_finalization granted) in
    if_P P (not (send_data.channel_id == io_channel_id)) _ _ (done_RunsTo _ _ _ stop) (
      if_P P (is_other Control.data_pdu send_data.payload) _ _ (done_RunsTo _ _ _ stop) (
        read_P P (decode send_data.payload) _ _ (λ error. done_RunsTo _ _ _ stop)
          (λ pdu. on_data_pdu-Run pdu.pdu_type2 pdu.body granted acceptor)))

reactivate-Run :
    (s : State) (send_data : SendData) (acceptor : Acceptor)
    → acceptor.state ≡ s
    → RunsTo s (reactivate s send_data acceptor)
unfolding reactivate
reactivate-Run wait_confirm_active send_data acceptor e = on_confirm_active-Run send_data acceptor e
reactivate-Run (wait_finalization granted) send_data acceptor e =
    on_finalization-Run send_data granted acceptor
reactivate-Run accepted send_data acceptor e = done_RunsTo _ _ _ (same _ acceptor e)
reactivate-Run rejected send_data acceptor e = done_RunsTo _ _ _ (same _ acceptor e)
reactivate-Run wait_connection_request send_data acceptor e =
    failed_RunsTo _ _ _ (same _ acceptor e)
reactivate-Run wait_connect_initial send_data acceptor e = failed_RunsTo _ _ _ (same _ acceptor e)
reactivate-Run wait_erect_domain_request send_data acceptor e =
    failed_RunsTo _ _ _ (same _ acceptor e)
reactivate-Run wait_attach_user_request send_data acceptor e =
    failed_RunsTo _ _ _ (same _ acceptor e)
reactivate-Run (wait_channel_join_request n) send_data acceptor e =
    failed_RunsTo _ _ _ (same _ acceptor e)
reactivate-Run wait_client_info send_data acceptor e = failed_RunsTo _ _ _ (same _ acceptor e)
reactivate-Run wait_auth_approval send_data acceptor e = failed_RunsTo _ _ _ (same _ acceptor e)

RunsTo-failed :
    (s : State) (outcome : Outcome) (error : ConnectorError) (acceptor : Acceptor)
    → outcome ≡ failed error acceptor
    → RunsTo s outcome
    → Run s acceptor.state
unfolding RunsTo left
RunsTo-failed s outcome error acceptor e r = rw e at r

RunsTo-done :
    (s : State) (outcome : Outcome) (result : StepResult) (acceptor : Acceptor)
    → outcome ≡ done result acceptor
    → RunsTo s outcome
    → Run s acceptor.state
unfolding RunsTo left
RunsTo-done s outcome result acceptor e r = rw e at r

pub RunsTo-after : (s t : State) (outcome : Outcome) → Run s t → RunsTo t outcome → RunsTo s outcome
unfolding RunsTo
RunsTo-after s t outcome r q = Run-trans r q

pub reactivation_loop-Run :
    (fuel : ℕ) (before : List ℕ) (c : ReadCursor) (acceptor : Acceptor)
    → OnEnd (RunsTo acceptor.state) (reactivation_loop fuel before c acceptor)
unfolding reactivation_loop OnEnd
reactivation_loop-Run zero before c acceptor = tt
reactivation_loop-Run (suc fuel) before c acceptor =
    elim (Bool-cases (remaining c == 0 || is_over acceptor.state)) [
      | inl e ↦ rw (e, reactivation_loop) (done_RunsTo _ _ _ stop)
      | inr e ↦ elim (Result-cases (decode_send_data send_data_request c)) [
        | inl (error, e1) ↦ rw (e, e1, reactivation_loop) (failed_RunsTo _ _ _ stop)
        | inr ((send_data, c'), e1) ↦
            let outcome = reactivate acceptor.state send_data acceptor in
            let runs = reactivate-Run acceptor.state send_data acceptor refl in
            elim (Outcome-cases outcome) [
              | inl (error, after, e2) ↦
                  rw (e, e1, e2, reactivation_loop)
                    (failed_RunsTo _ _ _ (RunsTo-failed _ outcome error after e2 runs))
              | inr (result, after, e2) ↦
                  let reached = RunsTo-done _ outcome result after e2 runs in
                  elim (Bool-cases (is_accepted_event result.event)) [
                    | inl e3 ↦ rw (e, e1, e2, e3, reactivation_loop) (done_RunsTo _ _ _ reached)
                    | inr e3 ↦
                        rw (e, e1, e2, e3, reactivation_loop)
                          (OnEnd-map _ _
                            (reactivation_loop fuel (before ++ result.response) c' after)
                            (λ end. RunsTo-after acceptor.state after.state end reached)
                            (reactivation_loop-Run fuel (before ++ result.response) c' after))
                  ]
            ]
      ]
    ]
