-- ===== src/Connector/Phases/Approval.antt =====
-- crates/rdpcore-connector/src/lib.rs: the calls of a server, and what they need of the approval.
use kmsrdp.Prelude.{ℕ, ◌≡◌, refl, ap, ◌∙◌, Bool, true, false, List, [], ◌∷◌, All}
use kmsrdp.Connector.{
  State, wait_connection_request, wait_connect_initial, wait_erect_domain_request,
  wait_attach_user_request, wait_channel_join_request, wait_client_info, wait_auth_approval,
  wait_confirm_active, wait_finalization, accepted, rejected, Acceptor, left,
}
use kmsrdp.Connector.Codecs.{Codecs}
use kmsrdp.Connector.Steps.{
  step, approve_client_info, reject_in, reject_client_info, resize_in, begin_resize,
}
use kmsrdp.Connector.Phases.{
  Moves, offer, refuse, connect, erect, erect_abort, attach, attach_abort, join, last_join,
  join_abort, log_in, confirmed, grant, finish, Run, stop, go_on,
}
use kmsrdp.Connector.Phases.Sequence.{step-Run}

-- Whether the client's credentials were approved.
unfoldable pub is_approved : State → Bool
is_approved wait_confirm_active = true
is_approved (wait_finalization granted) = true
is_approved accepted = true
is_approved _ = false

Moves-approved : {s t : State} → Moves s t → is_approved t ≡ is_approved s
unfolding is_approved
Moves-approved offer = refl
Moves-approved refuse = refl
Moves-approved connect = refl
Moves-approved erect = refl
Moves-approved erect_abort = refl
Moves-approved (attach n h) = refl
Moves-approved attach_abort = refl
Moves-approved (join n h) = refl
Moves-approved (last_join n h) = refl
Moves-approved (join_abort n) = refl
Moves-approved log_in = refl
Moves-approved confirmed = refl
Moves-approved grant = refl
Moves-approved (finish granted) = refl

Run-approved : {s t : State} → Run s t → is_approved t ≡ is_approved s
Run-approved stop = refl
Run-approved (go_on m rest) = Run-approved rest ∙ Moves-approved m

-- No step changes whether the client is approved.
pub step-is_approved :
    (codecs : Codecs) (input : List ℕ) (acceptor : Acceptor)
    → is_approved (left (step codecs input acceptor)).state ≡ is_approved acceptor.state
step-is_approved codecs input acceptor = Run-approved (step-Run codecs input acceptor)

-- The calls of the server.
pub data Call : Type 0 where
  step_call : List ℕ → Call
  approve_call reject_call : Call
  resize_call : ℕ → ℕ → Call

unfoldable pub run_call : Codecs → Call → Acceptor → Acceptor
run_call codecs (step_call input) acceptor = left (step codecs input acceptor)
run_call codecs approve_call acceptor = left (approve_client_info acceptor)
run_call codecs reject_call acceptor = reject_client_info acceptor
run_call codecs (resize_call width height) acceptor = left (begin_resize width height acceptor)

unfoldable pub run_calls : Codecs → List Call → Acceptor → Acceptor
unfolding run_call
run_calls codecs [] acceptor = acceptor
run_calls codecs (call ∷ calls) acceptor = run_calls codecs calls (run_call codecs call acceptor)

unfoldable pub is_approval : Call → Bool
is_approval approve_call = true
is_approval _ = false

reject_in-is_approved :
    (s : State) (acceptor : Acceptor)
    → acceptor.state ≡ s
    → is_approved (reject_in s acceptor).state ≡ is_approved s
unfolding reject_in is_approved
reject_in-is_approved wait_connection_request acceptor e = ap is_approved e
reject_in-is_approved wait_connect_initial acceptor e = ap is_approved e
reject_in-is_approved wait_erect_domain_request acceptor e = ap is_approved e
reject_in-is_approved wait_attach_user_request acceptor e = ap is_approved e
reject_in-is_approved (wait_channel_join_request n) acceptor e = ap is_approved e
reject_in-is_approved wait_client_info acceptor e = ap is_approved e
reject_in-is_approved wait_auth_approval acceptor e = refl
reject_in-is_approved wait_confirm_active acceptor e = ap is_approved e
reject_in-is_approved (wait_finalization granted) acceptor e = ap is_approved e
reject_in-is_approved accepted acceptor e = ap is_approved e
reject_in-is_approved rejected acceptor e = ap is_approved e

resize_in-is_approved :
    (width height : ℕ) (s : State) (acceptor : Acceptor)
    → acceptor.state ≡ s
    → is_approved (left (resize_in s width height acceptor)).state ≡ is_approved s
unfolding resize_in is_approved left
resize_in-is_approved width height wait_connection_request acceptor e = ap is_approved e
resize_in-is_approved width height wait_connect_initial acceptor e = ap is_approved e
resize_in-is_approved width height wait_erect_domain_request acceptor e = ap is_approved e
resize_in-is_approved width height wait_attach_user_request acceptor e = ap is_approved e
resize_in-is_approved width height (wait_channel_join_request n) acceptor e = ap is_approved e
resize_in-is_approved width height wait_client_info acceptor e = ap is_approved e
resize_in-is_approved width height wait_auth_approval acceptor e = ap is_approved e
resize_in-is_approved width height wait_confirm_active acceptor e = ap is_approved e
resize_in-is_approved width height (wait_finalization granted) acceptor e = ap is_approved e
resize_in-is_approved width height accepted acceptor e = refl
resize_in-is_approved width height rejected acceptor e = ap is_approved e

run_call-is_approved :
    (codecs : Codecs) (call : Call) (acceptor : Acceptor)
    → is_approval call ≡ false
    → is_approved (run_call codecs call acceptor).state ≡ is_approved acceptor.state
unfolding run_call is_approval reject_client_info begin_resize
run_call-is_approved codecs (step_call input) acceptor h = step-is_approved codecs input acceptor
run_call-is_approved codecs approve_call acceptor h = absurd (cc)
run_call-is_approved codecs reject_call acceptor h =
    reject_in-is_approved acceptor.state acceptor refl
run_call-is_approved codecs (resize_call width height) acceptor h =
    resize_in-is_approved width height acceptor.state acceptor refl

-- Whatever calls of step, reject_client_info and begin_resize are made in a row, with any inputs
-- and any codecs, an acceptor whose client was not approved is not in a phase behind the
-- approval after them, and one whose client was approved still is.
pub run_calls-is_approved :
    (codecs : Codecs) (calls : List Call) (acceptor : Acceptor)
    → All (λ call. is_approval call ≡ false) calls
    → is_approved (run_calls codecs calls acceptor).state ≡ is_approved acceptor.state
unfolding run_calls
run_calls-is_approved codecs [] acceptor h = refl
run_calls-is_approved codecs (call ∷ calls) acceptor h =
    run_calls-is_approved codecs calls (run_call codecs call acceptor) h.1
    ∙ run_call-is_approved codecs call acceptor h.0
