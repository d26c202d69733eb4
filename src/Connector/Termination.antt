-- ===== src/Connector/Termination.antt =====
-- crates/rdpcore-connector/src/lib.rs: the rounds of `step_mcs_domain_pdus` and `step_reactivation`.
use kmsrdp.Prelude.{
  Option, some, ◌<◌, ℕ, zero, suc, ◌+◌, ◌≤◌, ◌≡◌, refl, ◌||◌, List, ◌++◌, ◌==◌, arith, Bool-cases,
  inl, inr,
}
use kmsrdp.Pdu.Result.{Result, ok, err, Result-cases}
use kmsrdp.Pdu.Cursor.{ReadCursor, remaining}
use kmsrdp.Pdu.Mcs.Domain.{
  send_data_request, decode_send_data, decode_erect, decode_attach_request, decode_join_request,
}
use kmsrdp.Connector.{
  State, wait_connection_request, wait_connect_initial, wait_erect_domain_request,
  wait_attach_user_request, wait_channel_join_request, wait_client_info, wait_auth_approval,
  wait_confirm_active, wait_finalization, accepted, rejected, Acceptor, Outcome, failed, done,
  is_over,
}
use kmsrdp.Connector.Steps.{
  Round, round_failed, round_done, with_cursor, decoded, handle_domain_pdu, peek_is_disconnect,
  has_event, is_client_info, domain_loop, reactivate, is_accepted_event, reactivation_loop,
}
use kmsrdp.Connector.Phases.{Round-cases, Outcome-cases}
use kmsrdp.Connector.Progress.{
  Takes, decode_erect-Takes, decode_attach_request-Takes, decode_join_request-Takes,
  decode_send_data-Takes,
}

-- A round that succeeds takes a byte.
RoundTakes : ReadCursor → Round → Type 0
RoundTakes c (round_failed error acceptor) = Unit
RoundTakes c (round_done result acceptor c') = remaining c' + 1 ≤ remaining c

with_cursor-RoundTakes :
    (c c' : ReadCursor) (outcome : Outcome)
    → remaining c' + 1 ≤ remaining c
    → RoundTakes c (with_cursor c' outcome)
unfolding RoundTakes with_cursor
with_cursor-RoundTakes c c' (failed error acceptor) h = tt
with_cursor-RoundTakes c c' (done result acceptor) h = h

decoded-RoundTakes {ℓ} :
    {A : Type ℓ} (c : ReadCursor) (read : Result (A × ReadCursor)) (acceptor : Acceptor)
    (next : A → Outcome)
    → Takes 1 c read
    → RoundTakes c (decoded read acceptor next)
unfolding decoded RoundTakes Takes
decoded-RoundTakes c (err error) acceptor next h = tt
decoded-RoundTakes c (ok (value, c')) acceptor next h = with_cursor-RoundTakes c c' (next value) h

handle_domain_pdu-RoundTakes :
    (s : State) (c : ReadCursor) (acceptor : Acceptor)
    → RoundTakes c (handle_domain_pdu s c acceptor)
unfolding handle_domain_pdu RoundTakes
handle_domain_pdu-RoundTakes wait_erect_domain_request c acceptor =
    decoded-RoundTakes c (decode_erect c) acceptor _ (decode_erect-Takes c)
handle_domain_pdu-RoundTakes wait_attach_user_request c acceptor =
    decoded-RoundTakes c (decode_attach_request c) acceptor _ (decode_attach_request-Takes c)
handle_domain_pdu-RoundTakes (wait_channel_join_request n) c acceptor =
    decoded-RoundTakes c (decode_join_request c) acceptor _ (decode_join_request-Takes c)
handle_domain_pdu-RoundTakes wait_connection_request c acceptor = tt
handle_domain_pdu-RoundTakes wait_connect_initial c acceptor = tt
handle_domain_pdu-RoundTakes wait_client_info c acceptor = tt
handle_domain_pdu-RoundTakes wait_auth_approval c acceptor = tt
handle_domain_pdu-RoundTakes wait_confirm_active c acceptor = tt
handle_domain_pdu-RoundTakes (wait_finalization granted) c acceptor = tt
handle_domain_pdu-RoundTakes accepted c acceptor = tt
handle_domain_pdu-RoundTakes rejected c acceptor = tt

-- A loop with this much and that much fuel comes to the same end.
BothEnd : Option Outcome → Option Outcome → Type 0
BothEnd x y = (outcome : Outcome) × (x ≡ some outcome) × (y ≡ some outcome)

domain_loop-enough :
    (fuel more : ℕ) (before : List ℕ) (c : ReadCursor) (acceptor : Acceptor)
    → remaining c < fuel
    → remaining c < more
    → BothEnd (domain_loop fuel before c acceptor) (domain_loop more before c acceptor)
unfolding domain_loop RoundTakes BothEnd
domain_loop-enough zero more before c acceptor h k = absurd (omega arith)
domain_loop-enough (suc fuel) zero before c acceptor h k = absurd (omega arith)
domain_loop-enough (suc fuel) (suc more) before c acceptor h k =
    elim (Bool-cases (remaining c == 0)) [
      | inl e ↦ rw (e, domain_loop) (_, refl, refl)
      | inr e ↦ elim (Bool-cases (peek_is_disconnect c)) [
        | inl e1 ↦ rw (e, e1, domain_loop) (_, refl, refl)
        | inr e1 ↦
            let takes = handle_domain_pdu-RoundTakes acceptor.state c acceptor in
            elim (Round-cases (handle_domain_pdu acceptor.state c acceptor)) [
              | inl (error, after, e2) ↦ rw (e, e1, e2, domain_loop) (_, refl, refl)
              | inr (result, after, c', e2) ↦
                  elim (Bool-cases (has_event result.event || is_client_info after.state)) [
                    | inl e3 ↦ rw (e, e1, e2, e3, domain_loop) (_, refl, refl)
                    | inr e3 ↦
                        let less : remaining c' + 1 ≤ remaining c = rw e2 at takes in
                        rw (e, e1, e2, e3, domain_loop)
                          (domain_loop-enough fuel more (before ++ result.response) c' after
                            (omega arith) (omega arith))
                  ]
            ]
      ]
    ]

-- Whatever the acceptor and the input, with more fuel than there are bytes left the loop over
-- the domain PDUs ends, and with the same outcome as with one round more than there are bytes.
pub domain_loop-fuel :
    (fuel : ℕ) (before : List ℕ) (c : ReadCursor) (acceptor : Acceptor)
    → remaining c < fuel
    → (outcome : Outcome) × (domain_loop fuel before c acceptor ≡ some outcome)
      × (domain_loop (remaining c + 1) before c acceptor ≡ some outcome)
unfolding BothEnd
domain_loop-fuel fuel before c acceptor h =
    domain_loop-enough fuel (remaining c + 1) before c acceptor h (omega arith)

reactivation_loop-enough :
    (fuel more : ℕ) (before : List ℕ) (c : ReadCursor) (acceptor : Acceptor)
    → remaining c < fuel
    → remaining c < more
    → BothEnd (reactivation_loop fuel before c acceptor) (reactivation_loop more before c acceptor)
unfolding reactivation_loop Takes BothEnd
reactivation_loop-enough zero more before c acceptor h k = absurd (omega arith)
reactivation_loop-enough (suc fuel) zero before c acceptor h k = absurd (omega arith)
reactivation_loop-enough (suc fuel) (suc more) before c acceptor h k =
    elim (Bool-cases (remaining c == 0 || is_over acceptor.state)) [
      | inl e ↦ rw (e, reactivation_loop) (_, refl, refl)
      | inr e ↦
          let takes = decode_send_data-Takes send_data_request c in
          elim (Result-cases (decode_send_data send_data_request c)) [
            | inl (error, e1) ↦ rw (e, e1, reactivation_loop) (_, refl, refl)
            | inr ((send_data, c'), e1) ↦
                elim (Outcome-cases (reactivate acceptor.state send_data acceptor)) [
                  | inl (error, after, e2) ↦ rw (e, e1, e2, reactivation_loop) (_, refl, refl)
                  | inr (result, after, e2) ↦ elim (Bool-cases (is_accepted_event result.event)) [
                    | inl e3 ↦ rw (e, e1, e2, e3, reactivation_loop) (_, refl, refl)
                    | inr e3 ↦
                        let less : remaining c' + 1 ≤ remaining c = rw e1 at takes in
                        rw (e, e1, e2, e3, reactivation_loop)
                          (reactivation_loop-enough fuel more (before ++ result.response) c' after
                            (omega arith) (omega arith))
                  ]
                ]
          ]
    ]

-- Whatever the acceptor and the input, with more fuel than there are bytes left the loop over
-- the Send Data Requests of one message ends, and with the same outcome as with one round more
-- than there are bytes.
pub reactivation_loop-fuel :
    (fuel : ℕ) (before : List ℕ) (c : ReadCursor) (acceptor : Acceptor)
    → remaining c < fuel
    → (outcome : Outcome) × (reactivation_loop fuel before c acceptor ≡ some outcome)
      × (reactivation_loop (remaining c + 1) before c acceptor ≡ some outcome)
unfolding BothEnd
reactivation_loop-fuel fuel before c acceptor h =
    reactivation_loop-enough fuel (remaining c + 1) before c acceptor h (omega arith)
