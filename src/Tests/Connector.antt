-- ===== src/Tests/Connector.antt =====
-- The acceptor on concrete inputs.
use kmsrdp.Prelude.{ℕ, ◌≡◌, refl, true, false, some, none, List, [], ◌∷◌, All, arith, ◌<◌, ◌+◌}
use kmsrdp.Pdu.Result.{ok}
use kmsrdp.Pdu.X224.Request.{encode_request}
use kmsrdp.Connector.{
  Acceptor, Outcome, new_acceptor, in_state, wait_erect_domain_request, wait_finalization,
}
use kmsrdp.Connector.Codecs.{Codecs}
use kmsrdp.Pdu.Cursor.{remaining}
use kmsrdp.Pdu.Cursor.Laws.{at}
use kmsrdp.Connector.Steps.{domain_loop, reactivation_loop}
use kmsrdp.Connector.Bounds.{IsBounded}
use kmsrdp.Connector.Bounds.Calls.{run_calls-IsBounded}
use kmsrdp.Connector.Termination.{domain_loop-fuel, reactivation_loop-fuel}
use kmsrdp.Connector.Phases.Approval.{
  Call, step_call, reject_call, resize_call, is_approved, is_approval, run_calls,
  run_calls-is_approved,
}

-- A client with one channel.
abbrev codecs : Codecs
codecs = record {
  decode_conference = λ _. ok (record {
    client_name = 112 ∷ 99 ∷ [];
    network = some ((99 ∷ []) ∷ []);
    message_channel = false;
  });
  encode_conference = λ _. 1 ∷ [];
  decode_client_info = λ _. ok (record { domain = []; username = 97 ∷ []; password = 98 ∷ [] });
  is_utf8 = λ _. true;
}

abbrev hello : List ℕ
hello = encode_request (record { cookie = none; flags = 0; protocol = 3 })

abbrev start : Acceptor
start = new_acceptor 1920 1080

abbrev calls : List Call
calls = step_call hello ∷ reject_call ∷ resize_call 800 600 ∷ []

no_approval : All (λ call. is_approval call ≡ false) calls
unfolding is_approval
no_approval = (refl, (refl, (refl, tt)))

run_calls-is_approved_example :
    is_approved (run_calls codecs calls start).state ≡ is_approved start.state
run_calls-is_approved_example = run_calls-is_approved codecs calls start no_approval

start-IsBounded : IsBounded start
unfolding IsBounded new_acceptor
start-IsBounded = omega arith

run_calls-IsBounded_example : IsBounded (run_calls codecs calls start)
run_calls-IsBounded_example = run_calls-IsBounded codecs calls start start-IsBounded

-- An Erect Domain Request of five bytes, with an Attach User Request behind it.
abbrev erect_attach : List ℕ
erect_attach = 4 ∷ 1 ∷ 0 ∷ 1 ∷ 0 ∷ 40 ∷ []

abbrev attaching : Acceptor
attaching = in_state wait_erect_domain_request start

erect_attach_size : remaining (at [] erect_attach) < 9
unfolding at remaining
erect_attach_size = omega arith

domain_loop-fuel_example :
    (outcome : Outcome) × (domain_loop 9 [] (at [] erect_attach) attaching ≡ some outcome)
    × (domain_loop (remaining (at [] erect_attach) + 1) [] (at [] erect_attach) attaching
        ≡ some outcome)
domain_loop-fuel_example = domain_loop-fuel 9 [] (at [] erect_attach) attaching erect_attach_size

-- Two Send Data Requests on another channel than the I/O channel.
abbrev two_requests : List ℕ
two_requests = 100 ∷ 0 ∷ 1 ∷ 3 ∷ 240 ∷ 0x70 ∷ 1 ∷ 7 ∷ 100 ∷ 0 ∷ 1 ∷ 3 ∷ 240 ∷ 0x70 ∷ 1 ∷ 8 ∷ []

abbrev finishing : Acceptor
finishing = in_state (wait_finalization false) start

two_requests_size : remaining (at [] two_requests) < 20
unfolding at remaining
two_requests_size = omega arith

reactivation_loop-fuel_example :
    (outcome : Outcome) × (reactivation_loop 20 [] (at [] two_requests) finishing ≡ some outcome)
    × (reactivation_loop (remaining (at [] two_requests) + 1) [] (at [] two_requests) finishing
        ≡ some outcome)
reactivation_loop-fuel_example =
    reactivation_loop-fuel 20 [] (at [] two_requests) finishing two_requests_size
