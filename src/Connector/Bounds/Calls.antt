-- ===== src/Connector/Bounds/Calls.antt =====
-- crates/rdpcore-connector/src/lib.rs: the buffer of the Confirm Active through all calls.
use kmsrdp.Prelude.{
  ℕ, zero, suc, ◌≡◌, refl, ◌||◌, List, [], ◌∷◌, ◌++◌, ◌==◌, arith, Bool-cases, inl, inr, Option,
  none, some,
}
use kmsrdp.Pdu.Result.{Result, ok, err}
use kmsrdp.Pdu.Cursor.{ReadCursor, remaining}
use kmsrdp.Pdu.X224.{unwrap_data}
use kmsrdp.Pdu.X224.Request.{decode_request}
use kmsrdp.Pdu.Mcs.Connect.{decode_initial}
use kmsrdp.Pdu.Mcs.Domain.{
  send_data_request, decode_send_data_bytes, decode_erect, decode_attach_request,
  decode_join_request,
}
use kmsrdp.Connector.{
  State, wait_connection_request, wait_connect_initial, wait_erect_domain_request,
  wait_attach_user_request, wait_channel_join_request, wait_client_info, wait_auth_approval,
  wait_confirm_active, wait_finalization, accepted, rejected, Acceptor, StepResult, ConnectorError,
  Outcome, failed, done, left, in_state,
}
use kmsrdp.Connector.Codecs.{Codecs}
use kmsrdp.Connector.Handlers.{
  answer_request, on_connection_request, on_connect_initial, answer_initial, on_client_info,
  attach_user, join_channel,
}
use kmsrdp.Connector.Steps.{
  Round, round_failed, round_done, with_cursor, decoded, handle_domain_pdu, peek_is_disconnect,
  has_event, is_client_info, domain_loop, step_mcs_domain_pdus, step_reactivation, restore, step_in,
  step, approve_in, approve_client_info, reject_in, reject_client_info, resize_in, begin_resize,
}
use kmsrdp.Connector.Phases.{Round-cases, OnEnd, settle_P}
use kmsrdp.Connector.Phases.Active.{and_then_P}
use kmsrdp.Connector.Phases.Approval.{
  Call, step_call, approve_call, reject_call, resize_call, run_call, run_calls,
}
use kmsrdp.Connector.Bounds.{
  IsBounded, Leaves, done_Leaves, failed_Leaves, reactivation_loop-Leaves,
}

LeavesRound : Round → Type 0
LeavesRound (round_failed error acceptor) = IsBounded acceptor
LeavesRound (round_done result acceptor c) = IsBounded acceptor

with_cursor-LeavesRound :
    (c : ReadCursor) (outcome : Outcome) → Leaves outcome → LeavesRound (with_cursor c outcome)
unfolding with_cursor LeavesRound Leaves left
with_cursor-LeavesRound c (failed error acceptor) h = h
with_cursor-LeavesRound c (done result acceptor) h = h

decoded-LeavesRound {ℓ} :
    {A : Type ℓ} (read : Result (A × ReadCursor)) (acceptor : Acceptor) (next : A → Outcome)
    → IsBounded acceptor
    → ((x : A) → Leaves (next x))
    → LeavesRound (decoded read acceptor next)
unfolding decoded LeavesRound IsBounded
decoded-LeavesRound (err error) acceptor next h k = h
decoded-LeavesRound (ok (x, c)) acceptor next h k = with_cursor-LeavesRound c (next x) (k x)

handle_domain_pdu-LeavesRound :
    (s : State) (c : ReadCursor) (acceptor : Acceptor)
    → IsBounded acceptor
    → LeavesRound (handle_domain_pdu s c acceptor)
unfolding handle_domain_pdu LeavesRound IsBounded attach_user join_channel
handle_domain_pdu-LeavesRound wait_erect_domain_request c acceptor h =
    decoded-LeavesRound (decode_erect c) acceptor _ h (λ x. done_Leaves _ _ h)
handle_domain_pdu-LeavesRound wait_attach_user_request c acceptor h =
    decoded-LeavesRound (decode_attach_request c) acceptor _ h (λ x. done_Leaves _ _ h)
handle_domain_pdu-LeavesRound (wait_channel_join_request n) c acceptor h =
    decoded-LeavesRound (decode_join_request c) acceptor _ h (λ x. done_Leaves _ _ h)
handle_domain_pdu-LeavesRound wait_connection_request c acceptor h = h
handle_domain_pdu-LeavesRound wait_connect_initial c acceptor h = h
handle_domain_pdu-LeavesRound wait_client_info c acceptor h = h
handle_domain_pdu-LeavesRound wait_auth_approval c acceptor h = h
handle_domain_pdu-LeavesRound wait_confirm_active c acceptor h = h
handle_domain_pdu-LeavesRound (wait_finalization granted) c acceptor h = h
handle_domain_pdu-LeavesRound accepted c acceptor h = h
handle_domain_pdu-LeavesRound rejected c acceptor h = h

LeavesRound-done :
    (result : StepResult) (acceptor : Acceptor) (c : ReadCursor)
    → LeavesRound (round_done result acceptor c)
    → IsBounded acceptor
unfolding LeavesRound
LeavesRound-done result acceptor c h = h

LeavesRound-failed :
    (error : ConnectorError) (acceptor : Acceptor)
    → LeavesRound (round_failed error acceptor)
    → IsBounded acceptor
unfolding LeavesRound
LeavesRound-failed error acceptor h = h

domain_loop-Leaves :
    (fuel : ℕ) (before : List ℕ) (c : ReadCursor) (acceptor : Acceptor)
    → IsBounded acceptor
    → OnEnd Leaves (domain_loop fuel before c acceptor)
unfolding domain_loop OnEnd IsBounded
domain_loop-Leaves zero before c acceptor h = tt
domain_loop-Leaves (suc fuel) before c acceptor h = elim (Bool-cases (remaining c == 0)) [
  | inl e ↦ rw (e, domain_loop) (done_Leaves _ _ h)
  | inr e ↦ elim (Bool-cases (peek_is_disconnect c)) [
    | inl e1 ↦ rw (e, e1, domain_loop) (failed_Leaves _ _ h)
    | inr e1 ↦
        let leaves = handle_domain_pdu-LeavesRound acceptor.state c acceptor h in
        elim (Round-cases (handle_domain_pdu acceptor.state c acceptor)) [
          | inl (error, after, e2) ↦
              rw (e, e1, e2, domain_loop)
                (failed_Leaves _ _ (LeavesRound-failed error after (rw e2 at leaves)))
          | inr (result, after, c', e2) ↦
              let kept = LeavesRound-done result after c' (rw e2 at leaves) in
              elim (Bool-cases (has_event result.event || is_client_info after.state)) [
                | inl e3 ↦ rw (e, e1, e2, e3, domain_loop) (done_Leaves _ _ kept)
                | inr e3 ↦
                    rw (e, e1, e2, e3, domain_loop)
                      (domain_loop-Leaves fuel (before ++ result.response) c' after kept)
              ]
        ]
  ]
]

restored_fits :
    (s : State) (error : ConnectorError) (acceptor : Acceptor) (t : State)
    → acceptor.state ≡ t
    → IsBounded acceptor
    → Leaves (restore s (failed error acceptor))
unfolding restore IsBounded
restored_fits s error acceptor wait_connection_request e h = rw (e, restore) (failed_Leaves _ _ h)
restored_fits s error acceptor wait_connect_initial e h = rw (e, restore) (failed_Leaves _ _ h)
restored_fits s error acceptor wait_erect_domain_request e h = rw (e, restore) (failed_Leaves _ _ h)
restored_fits s error acceptor wait_attach_user_request e h = rw (e, restore) (failed_Leaves _ _ h)
restored_fits s error acceptor (wait_channel_join_request n) e h =
    rw (e, restore) (failed_Leaves _ _ h)
restored_fits s error acceptor wait_client_info e h = rw (e, restore) (failed_Leaves _ _ h)
restored_fits s error acceptor wait_auth_approval e h = rw (e, restore) (failed_Leaves _ _ h)
restored_fits s error acceptor wait_confirm_active e h = rw (e, restore) (failed_Leaves _ _ h)
restored_fits s error acceptor (wait_finalization granted) e h =
    rw (e, restore) (failed_Leaves _ _ h)
restored_fits s error acceptor accepted e h = rw (e, restore) (failed_Leaves _ _ h)
restored_fits s error acceptor rejected e h = rw (e, restore) (failed_Leaves _ _ h)

restore-Leaves : (s : State) (outcome : Outcome) → Leaves outcome → Leaves (restore s outcome)
unfolding restore Leaves left IsBounded
restore-Leaves s (done result acceptor) h = h
restore-Leaves s (failed error acceptor) h = restored_fits s error acceptor acceptor.state refl h

answer_request-Leaves :
    (selected : Option ℕ) (requested : ℕ) (acceptor : Acceptor)
    → IsBounded acceptor
    → Leaves (answer_request selected requested acceptor)
unfolding answer_request IsBounded
answer_request-Leaves none requested acceptor h = done_Leaves _ _ h
answer_request-Leaves (some selected) requested acceptor h = done_Leaves _ _ h

module _ (codecs : Codecs) (input : List ℕ) (acceptor : Acceptor) (h : IsBounded acceptor) where
  on_connection_request-Leaves : Leaves (on_connection_request codecs input acceptor)
  unfolding on_connection_request
  on_connection_request-Leaves =
      and_then_P Leaves (decode_request codecs.is_utf8 input) acceptor _
        (λ error. failed_Leaves _ _ h) (λ request. answer_request-Leaves _ _ acceptor h)

  on_connect_initial-Leaves : Leaves (on_connect_initial codecs input acceptor)
  unfolding on_connect_initial answer_initial IsBounded
  on_connect_initial-Leaves =
      and_then_P Leaves (unwrap_data input) acceptor _ (λ error. failed_Leaves _ _ h)
        (λ payload.
          and_then_P Leaves (decode_initial payload) acceptor _ (λ error. failed_Leaves _ _ h)
            (λ initial.
              and_then_P Leaves (codecs.decode_conference initial.user_data) acceptor _
                (λ error. failed_Leaves _ _ h) (λ blocks. done_Leaves _ _ h)))

  on_client_info-Leaves : Leaves (on_client_info codecs input acceptor)
  unfolding on_client_info IsBounded
  on_client_info-Leaves =
      and_then_P Leaves (unwrap_data input) acceptor _ (λ error. failed_Leaves _ _ h)
        (λ payload.
          and_then_P Leaves (decode_send_data_bytes send_data_request payload) acceptor _
            (λ error. failed_Leaves _ _ h)
            (λ send_data.
              and_then_P Leaves (codecs.decode_client_info send_data.payload) acceptor _
                (λ error. failed_Leaves _ _ h) (λ credentials. done_Leaves _ _ h)))

  mcs-Leaves : Leaves (step_mcs_domain_pdus input acceptor)
  unfolding step_mcs_domain_pdus
  mcs-Leaves =
      and_then_P Leaves (unwrap_data input) acceptor _ (λ error. failed_Leaves _ _ h)
        (λ payload.
          settle_P Leaves acceptor _ (failed_Leaves _ _ h) (domain_loop-Leaves _ _ _ acceptor h))

  reactivation-Leaves : Leaves (step_reactivation input acceptor)
  unfolding step_reactivation
  reactivation-Leaves =
      and_then_P Leaves (unwrap_data input) acceptor _ (λ error. failed_Leaves _ _ h)
        (λ payload.
          settle_P Leaves acceptor _ (failed_Leaves _ _ h)
            (reactivation_loop-Leaves _ _ _ acceptor h))

still-IsBounded :
    (s : State) (acceptor : Acceptor) → IsBounded acceptor → IsBounded (in_state s acceptor)
unfolding IsBounded
still-IsBounded s acceptor h = h

step_in-Leaves :
    (codecs : Codecs) (s : State) (input : List ℕ) (acceptor : Acceptor)
    → IsBounded acceptor
    → Leaves (step_in codecs s input acceptor)
unfolding step_in
step_in-Leaves codecs wait_erect_domain_request input acceptor h =
    mcs-Leaves codecs input acceptor h
step_in-Leaves codecs wait_attach_user_request input acceptor h = mcs-Leaves codecs input acceptor h
step_in-Leaves codecs (wait_channel_join_request n) input acceptor h =
    mcs-Leaves codecs input acceptor h
step_in-Leaves codecs accepted input acceptor h = failed_Leaves _ _ h
step_in-Leaves codecs rejected input acceptor h = failed_Leaves _ _ h
step_in-Leaves codecs wait_confirm_active input acceptor h =
    reactivation-Leaves codecs input acceptor h
step_in-Leaves codecs (wait_finalization granted) input acceptor h =
    reactivation-Leaves codecs input acceptor h
step_in-Leaves codecs wait_connection_request input acceptor h =
    restore-Leaves _ _
      (on_connection_request-Leaves codecs input _ (still-IsBounded rejected acceptor h))
step_in-Leaves codecs wait_connect_initial input acceptor h =
    restore-Leaves _ _
      (on_connect_initial-Leaves codecs input _ (still-IsBounded rejected acceptor h))
step_in-Leaves codecs wait_client_info input acceptor h =
    restore-Leaves _ _ (on_client_info-Leaves codecs input _ (still-IsBounded rejected acceptor h))
step_in-Leaves codecs wait_auth_approval input acceptor h =
    restore-Leaves _ _ (failed_Leaves _ _ (still-IsBounded rejected acceptor h))

approve_in-Leaves :
    (s : State) (acceptor : Acceptor) → IsBounded acceptor → Leaves (approve_in s acceptor)
unfolding approve_in IsBounded
approve_in-Leaves wait_connection_request acceptor h = failed_Leaves _ _ h
approve_in-Leaves wait_connect_initial acceptor h = failed_Leaves _ _ h
approve_in-Leaves wait_erect_domain_request acceptor h = failed_Leaves _ _ h
approve_in-Leaves wait_attach_user_request acceptor h = failed_Leaves _ _ h
approve_in-Leaves (wait_channel_join_request n) acceptor h = failed_Leaves _ _ h
approve_in-Leaves wait_client_info acceptor h = failed_Leaves _ _ h
approve_in-Leaves wait_auth_approval acceptor h = done_Leaves _ _ h
approve_in-Leaves wait_confirm_active acceptor h = failed_Leaves _ _ h
approve_in-Leaves (wait_finalization granted) acceptor h = failed_Leaves _ _ h
approve_in-Leaves accepted acceptor h = failed_Leaves _ _ h
approve_in-Leaves rejected acceptor h = failed_Leaves _ _ h

reject_in-IsBounded :
    (s : State) (acceptor : Acceptor) → IsBounded acceptor → IsBounded (reject_in s acceptor)
unfolding reject_in IsBounded
reject_in-IsBounded wait_connection_request acceptor h = h
reject_in-IsBounded wait_connect_initial acceptor h = h
reject_in-IsBounded wait_erect_domain_request acceptor h = h
reject_in-IsBounded wait_attach_user_request acceptor h = h
reject_in-IsBounded (wait_channel_join_request n) acceptor h = h
reject_in-IsBounded wait_client_info acceptor h = h
reject_in-IsBounded wait_auth_approval acceptor h = h
reject_in-IsBounded wait_confirm_active acceptor h = h
reject_in-IsBounded (wait_finalization granted) acceptor h = h
reject_in-IsBounded accepted acceptor h = h
reject_in-IsBounded rejected acceptor h = h

resize_in-Leaves :
    (width height : ℕ) (s : State) (acceptor : Acceptor)
    → IsBounded acceptor
    → Leaves (resize_in s width height acceptor)
unfolding resize_in IsBounded
resize_in-Leaves width height wait_connection_request acceptor h = failed_Leaves _ _ h
resize_in-Leaves width height wait_connect_initial acceptor h = failed_Leaves _ _ h
resize_in-Leaves width height wait_erect_domain_request acceptor h = failed_Leaves _ _ h
resize_in-Leaves width height wait_attach_user_request acceptor h = failed_Leaves _ _ h
resize_in-Leaves width height (wait_channel_join_request n) acceptor h = failed_Leaves _ _ h
resize_in-Leaves width height wait_client_info acceptor h = failed_Leaves _ _ h
resize_in-Leaves width height wait_auth_approval acceptor h = failed_Leaves _ _ h
resize_in-Leaves width height wait_confirm_active acceptor h = failed_Leaves _ _ h
resize_in-Leaves width height (wait_finalization granted) acceptor h = failed_Leaves _ _ h
resize_in-Leaves width height accepted acceptor h = done_Leaves _ _ (omega arith)
resize_in-Leaves width height rejected acceptor h = failed_Leaves _ _ h

run_call-IsBounded :
    (codecs : Codecs) (call : Call) (acceptor : Acceptor)
    → IsBounded acceptor
    → IsBounded (run_call codecs call acceptor)
unfolding run_call Leaves step approve_client_info reject_client_info begin_resize
run_call-IsBounded codecs (step_call input) acceptor h =
    step_in-Leaves codecs acceptor.state input acceptor h
run_call-IsBounded codecs approve_call acceptor h = approve_in-Leaves acceptor.state acceptor h
run_call-IsBounded codecs reject_call acceptor h = reject_in-IsBounded acceptor.state acceptor h
run_call-IsBounded codecs (resize_call width height) acceptor h =
    resize_in-Leaves width height acceptor.state acceptor h

-- Whatever calls are made in a row, with any inputs and any codecs, the buffer of the Confirm
-- Active stays within its 1 MiB if it was before.
pub run_calls-IsBounded :
    (codecs : Codecs) (calls : List Call) (acceptor : Acceptor)
    → IsBounded acceptor
    → IsBounded (run_calls codecs calls acceptor)
unfolding run_calls
run_calls-IsBounded codecs [] acceptor h = h
run_calls-IsBounded codecs (call ∷ calls) acceptor h =
    run_calls-IsBounded codecs calls (run_call codecs call acceptor)
      (run_call-IsBounded codecs call acceptor h)
