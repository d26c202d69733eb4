-- ===== src/Connector/Phases/Sequence.antt =====
-- crates/rdpcore-connector/src/lib.rs: `step` and the phases of the connection sequence.
use kmsrdp.Prelude.{ℕ, ◌≡◌, refl, true, Option, none, some, List}
use kmsrdp.Pdu.Cursor.{ReadCursor, remaining}
use kmsrdp.Pdu.X224.{unwrap_data}
use kmsrdp.Pdu.X224.Request.{decode_request}
use kmsrdp.Pdu.Mcs.Connect.{decode_initial}
use kmsrdp.Pdu.Mcs.Domain.{send_data_request, decode_send_data_bytes}
use kmsrdp.Connector.{
  State, wait_connection_request, wait_connect_initial, wait_erect_domain_request,
  wait_attach_user_request, wait_channel_join_request, wait_client_info, wait_auth_approval,
  wait_confirm_active, wait_finalization, accepted, rejected, Acceptor, StepResult, Outcome,
  ConnectorError, failed, done, left, in_state,
}
use kmsrdp.Connector.Codecs.{Codecs}
use kmsrdp.Connector.Handlers.{
  answer_request, on_connection_request, on_connect_initial, answer_initial, on_client_info,
}
use kmsrdp.Connector.Steps.{
  domain_loop, step_mcs_domain_pdus, step_reactivation, restore, step_in, step,
}
use kmsrdp.Connector.Phases.{
  offer, refuse, connect, log_in, Run, stop, once, same, is_domain, domain_loop-Run, OnEnd,
  settle_P,
}
use kmsrdp.Connector.Phases.Active.{
  RunsTo, done_RunsTo, failed_RunsTo, RunsTo-after, and_then_P, reactivation_loop-Run,
}

-- What a handler does that runs with `Rejected` in the place of the state.
Handled : State → Outcome → Type 0
Handled s (failed error acceptor) = acceptor.state ≡ rejected
Handled s (done result acceptor) = Run s acceptor.state

failed_Handled :
    (s : State) (error : ConnectorError) (acceptor : Acceptor)
    → acceptor.state ≡ rejected
    → Handled s (failed error acceptor)
unfolding Handled
failed_Handled s error acceptor e = e

done_Handled :
    (s : State) (result : StepResult) (acceptor : Acceptor)
    → Run s acceptor.state
    → Handled s (done result acceptor)
unfolding Handled
done_Handled s result acceptor r = r

restore-Run : (s : State) (outcome : Outcome) → Handled s outcome → RunsTo s (restore s outcome)
unfolding restore Handled
restore-Run s (done result acceptor) h = done_RunsTo _ _ _ h
restore-Run s (failed error acceptor) h = rw (h, restore) (failed_RunsTo _ _ _ stop)

answer_request-Handled :
    (selected : Option ℕ) (requested : ℕ) (acceptor : Acceptor)
    → Handled wait_connection_request (answer_request selected requested acceptor)
unfolding answer_request Handled
answer_request-Handled none requested acceptor = once refuse
answer_request-Handled (some selected) requested acceptor = once offer

domain_loop-RunsTo :
    (fuel : ℕ) (before : List ℕ) (c : ReadCursor) (acceptor : Acceptor)
    → is_domain acceptor.state ≡ true
    → OnEnd (RunsTo acceptor.state) (domain_loop fuel before c acceptor)
unfolding RunsTo
domain_loop-RunsTo fuel before c acceptor d = domain_loop-Run fuel before c acceptor d

module _ (codecs : Codecs) (input : List ℕ) where
  on_connection_request-Handled :
      (acceptor : Acceptor)
      → acceptor.state ≡ rejected
      → Handled wait_connection_request (on_connection_request codecs input acceptor)
  unfolding on_connection_request
  on_connection_request-Handled acceptor e =
      and_then_P (Handled wait_connection_request) (decode_request codecs.is_utf8 input) acceptor _
        (λ error. failed_Handled _ _ _ e) (λ request. answer_request-Handled _ _ _)

  on_connect_initial-Handled :
      (acceptor : Acceptor)
      → acceptor.state ≡ rejected
      → Handled wait_connect_initial (on_connect_initial codecs input acceptor)
  unfolding on_connect_initial answer_initial
  on_connect_initial-Handled acceptor e =
      let P = Handled wait_connect_initial in
      and_then_P P (unwrap_data input) acceptor _ (λ error. failed_Handled _ _ _ e)
        (λ payload.
          and_then_P P (decode_initial payload) acceptor _ (λ error. failed_Handled _ _ _ e)
            (λ initial.
              and_then_P P (codecs.decode_conference initial.user_data) acceptor _
                (λ error. failed_Handled _ _ _ e) (λ blocks. done_Handled _ _ _ (once connect))))

  on_client_info-Handled :
      (acceptor : Acceptor)
      → acceptor.state ≡ rejected
      → Handled wait_client_info (on_client_info codecs input acceptor)
  unfolding on_client_info
  on_client_info-Handled acceptor e =
      let P = Handled wait_client_info in
      and_then_P P (unwrap_data input) acceptor _ (λ error. failed_Handled _ _ _ e)
        (λ payload.
          and_then_P P (decode_send_data_bytes send_data_request payload) acceptor _
            (λ error. failed_Handled _ _ _ e)
            (λ send_data.
              and_then_P P (codecs.decode_client_info send_data.payload) acceptor _
                (λ error. failed_Handled _ _ _ e)
                (λ credentials. done_Handled _ _ _ (once log_in))))

  domain-Run :
      (s : State) (acceptor : Acceptor)
      → acceptor.state ≡ s
      → is_domain s ≡ true
      → RunsTo s (step_mcs_domain_pdus input acceptor)
  unfolding step_mcs_domain_pdus
  domain-Run s acceptor e d =
      and_then_P (RunsTo s) (unwrap_data input) acceptor _
        (λ error. failed_RunsTo _ _ _ (same s acceptor e))
        (λ payload. RunsTo-after s acceptor.state _ (same s acceptor e) (
          settle_P (RunsTo acceptor.state) acceptor _ (failed_RunsTo _ _ _ stop)
            (domain_loop-RunsTo _ _ _ acceptor (rw e d))))

  reactivation-Run :
      (s : State) (acceptor : Acceptor)
      → acceptor.state ≡ s
      → RunsTo s (step_reactivation input acceptor)
  unfolding step_reactivation
  reactivation-Run s acceptor e =
      and_then_P (RunsTo s) (unwrap_data input) acceptor _
        (λ error. failed_RunsTo _ _ _ (same s acceptor e))
        (λ payload. RunsTo-after s acceptor.state _ (same s acceptor e) (
          settle_P (RunsTo acceptor.state) acceptor _ (failed_RunsTo _ _ _ stop)
            (reactivation_loop-Run _ _ _ acceptor)))

  step_in-Run :
      (s : State) (acceptor : Acceptor)
      → acceptor.state ≡ s
      → RunsTo s (step_in codecs s input acceptor)
  unfolding step_in
  step_in-Run wait_erect_domain_request acceptor e = domain-Run _ acceptor e refl
  step_in-Run wait_attach_user_request acceptor e = domain-Run _ acceptor e refl
  step_in-Run (wait_channel_join_request remaining) acceptor e = domain-Run _ acceptor e refl
  step_in-Run accepted acceptor e = failed_RunsTo _ _ _ (same _ acceptor e)
  step_in-Run rejected acceptor e = failed_RunsTo _ _ _ (same _ acceptor e)
  step_in-Run wait_confirm_active acceptor e = reactivation-Run _ acceptor e
  step_in-Run (wait_finalization granted) acceptor e = reactivation-Run _ acceptor e
  step_in-Run wait_connection_request acceptor e =
      restore-Run _ _ (on_connection_request-Handled (in_state rejected acceptor) refl)
  step_in-Run wait_connect_initial acceptor e =
      restore-Run _ _ (on_connect_initial-Handled (in_state rejected acceptor) refl)
  step_in-Run wait_client_info acceptor e =
      restore-Run _ _ (on_client_info-Handled (in_state rejected acceptor) refl)
  step_in-Run wait_auth_approval acceptor e = restore-Run _ _ (failed_Handled _ _ _ refl)

-- The state that step leaves, also where it fails, is reached from the one before by transitions of
-- the connection sequence.
pub step-Run :
    (codecs : Codecs) (input : List ℕ) (acceptor : Acceptor)
    → Run acceptor.state (left (step codecs input acceptor)).state
unfolding step RunsTo
step-Run codecs input acceptor = step_in-Run codecs input acceptor.state acceptor refl
