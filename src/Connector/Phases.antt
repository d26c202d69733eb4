-- ===== src/Connector/Phases.antt =====
-- crates/rdpcore-connector/src/lib.rs: the phases of the connection sequence as a step relation, and
-- `step` against it.
pub mod Active
pub mod Approval
pub mod Sequence
pub mod Pdus
use kmsrdp.Prelude.{
  ℕ, zero, suc, ◌+◌, ◌-◌, ◌≤◌, ◌≡◌, ◌⊎◌, inl, inr, refl, sym, Bool, true, false, not, ◌&&◌, ◌||◌,
  Option, none, some, List, ◌++◌, ◌==◌, arith, Bool-cases, if◌then◌else◌, ltb, length, map,
}
use mathlib.Core.Path.{subst}
use kmsrdp.Pdu.Result.{Result, err, ok, Result-cases}
use kmsrdp.Pdu.Cursor.{ReadCursor, new, remaining}
use kmsrdp.Pdu.X224.{unwrap_data}
use kmsrdp.Pdu.Mcs.Domain.{
  SendData, decode_send_data, send_data_request, decode_erect, decode_attach_request,
  decode_join_request,
}
use kmsrdp.Pdu.ShareControl as Control
use kmsrdp.Connector.{
  Text, State, wait_connection_request, wait_connect_initial, wait_erect_domain_request,
  wait_attach_user_request, wait_channel_join_request, wait_client_info, wait_auth_approval,
  wait_confirm_active, wait_finalization, accepted, rejected, Acceptor, StepResult, ConnectorError,
  not_ready, Outcome, failed, done, left, and_then, in_state, is_over, just,
}
use kmsrdp.Connector.Codecs.{Codecs}
use kmsrdp.Connector.Handlers.{
  on_connection_request, answer_request, on_connect_initial, answer_initial, on_client_info,
  attach_user, join_count, join_channel, on_confirm_active_send_data, confirm, is_other,
  on_finalization_send_data, on_data_pdu, asks_control,
}
use kmsrdp.Connector.Steps.{
  Round, round_failed, round_done, with_cursor, decoded, handle_domain_pdu, peek_is_disconnect,
  has_event, is_client_info, domain_loop, step_mcs_domain_pdus, reactivate, is_accepted_event,
  reactivation_loop, step_reactivation, restore, step_in, step, settle,
}

-- What one PDU of the client does to the state, as the protocol has it.
pub data Moves : State → State → Type 0 where
  offer : Moves wait_connection_request wait_connect_initial
  refuse : Moves wait_connection_request rejected
  connect : Moves wait_connect_initial wait_erect_domain_request
  erect : Moves wait_erect_domain_request wait_attach_user_request
  erect_abort : Moves wait_erect_domain_request rejected
  attach : (n : ℕ) → 2 ≤ n → Moves wait_attach_user_request (wait_channel_join_request n)
  attach_abort : Moves wait_attach_user_request rejected
  join : (n : ℕ) → 2 ≤ n → Moves (wait_channel_join_request n) (wait_channel_join_request (n - 1))
  last_join : (n : ℕ) → n ≤ 1 → Moves (wait_channel_join_request n) wait_client_info
  join_abort : (n : ℕ) → Moves (wait_channel_join_request n) rejected
  log_in : Moves wait_client_info wait_auth_approval
  confirmed : Moves wait_confirm_active (wait_finalization false)
  grant : Moves (wait_finalization false) (wait_finalization true)
  finish : (granted : Bool) → Moves (wait_finalization granted) accepted

pub data Run : State → State → Type 0 where
  stop : {s : State} → Run s s
  go_on : {s t u : State} → Moves s t → Run t u → Run s u

pub Run-trans : {s t u : State} → Run s t → Run t u → Run s u
Run-trans stop r = r
Run-trans (go_on m rest) r = go_on m (Run-trans rest r)

pub once : {s t : State} → Moves s t → Run s t
once m = go_on m stop

pub same : (s : State) (acceptor : Acceptor) → acceptor.state ≡ s → Run s acceptor.state
same s acceptor e = subst (λ x. Run s x) (sym e) stop

-- What a round, and a call, leave.
after_round : Round → Acceptor
after_round (round_failed error acceptor) = acceptor
after_round (round_done result acceptor c) = acceptor

join_Moves :
    (n : ℕ)
    → Moves
        (wait_channel_join_request n)
        (if n - 1 == 0 then wait_client_info else wait_channel_join_request (n - 1))
join_Moves n = elim (Bool-cases (n - 1 == 0)) [
  | inl last ↦ rw last (last_join n (ground arith))
  | inr more ↦ rw more (join n (ground arith))
]

with_cursor-state :
    (P : State → Type 0) (c : ReadCursor) (outcome : Outcome)
    → P (left outcome).state
    → P (after_round (with_cursor c outcome)).state
unfolding with_cursor left after_round
with_cursor-state P c (failed error acceptor) h = h
with_cursor-state P c (done result acceptor) h = h

-- Through `?` and the cursor, a state is that of the error or of what comes next.
decoded-state {ℓ} :
    {A : Type ℓ} (P : State → Type 0) (result : Result (A × ReadCursor)) (acceptor : Acceptor)
    (next : A → Outcome)
    → P rejected
    → ((x : A) → P (left (next x)).state)
    → P (after_round (decoded result acceptor next)).state
unfolding decoded after_round
decoded-state P (err error) acceptor next h k = h
decoded-state P (ok (x, c)) acceptor next h k = with_cursor-state P c (next x) (k x)

join_count_two :
    (names : List Text) (message_channel_id : Option ℕ) → 2 ≤ join_count names message_channel_id
unfolding join_count
join_count_two names none = omega arith
join_count_two names (some id) = omega arith

handle_domain_pdu-Run :
    (s : State) (c : ReadCursor) (acceptor : Acceptor)
    → acceptor.state ≡ s
    → Run s (after_round (handle_domain_pdu s c acceptor)).state
unfolding handle_domain_pdu attach_user join_channel after_round left
handle_domain_pdu-Run wait_erect_domain_request c acceptor e =
    decoded-state (Run wait_erect_domain_request) (decode_erect c) acceptor _ (once erect_abort)
      (λ x. once erect)
handle_domain_pdu-Run wait_attach_user_request c acceptor e =
    decoded-state (Run wait_attach_user_request) (decode_attach_request c) acceptor _
      (once attach_abort)
      (λ x. once (
        attach (join_count acceptor.static_channel_names acceptor.message_channel_id)
          (join_count_two acceptor.static_channel_names acceptor.message_channel_id)))
handle_domain_pdu-Run (wait_channel_join_request n) c acceptor e =
    decoded-state (Run (wait_channel_join_request n)) (decode_join_request c) acceptor _
      (once (join_abort n)) (λ x. once (join_Moves n))
handle_domain_pdu-Run wait_connection_request c acceptor e = same _ acceptor e
handle_domain_pdu-Run wait_connect_initial c acceptor e = same _ acceptor e
handle_domain_pdu-Run wait_client_info c acceptor e = same _ acceptor e
handle_domain_pdu-Run wait_auth_approval c acceptor e = same _ acceptor e
handle_domain_pdu-Run wait_confirm_active c acceptor e = same _ acceptor e
handle_domain_pdu-Run (wait_finalization granted) c acceptor e = same _ acceptor e
handle_domain_pdu-Run accepted c acceptor e = same _ acceptor e
handle_domain_pdu-Run rejected c acceptor e = same _ acceptor e

pub Round-cases :
    (round : Round)
    → ((error : ConnectorError) × (acceptor : Acceptor) × (round ≡ round_failed error acceptor))
      ⊎ ((result : StepResult) × (acceptor : Acceptor) × (c : ReadCursor) × (round
            ≡ round_done result acceptor c))
Round-cases (round_failed error acceptor) = inl (error, acceptor, refl)
Round-cases (round_done result acceptor c) = inr (result, acceptor, c, refl)

pub Outcome-cases :
    (outcome : Outcome)
    → ((error : ConnectorError) × (acceptor : Acceptor) × (outcome ≡ failed error acceptor))
      ⊎ ((result : StepResult) × (acceptor : Acceptor) × (outcome ≡ done result acceptor))
Outcome-cases (failed error acceptor) = inl (error, acceptor, refl)
Outcome-cases (done result acceptor) = inr (result, acceptor, refl)

-- Whether a state waits for a domain PDU.
abbrev pub is_domain : State → Bool
is_domain wait_erect_domain_request = true
is_domain wait_attach_user_request = true
is_domain (wait_channel_join_request remaining) = true
is_domain _ = false

abort_Run : (s : State) → is_domain s ≡ true → Run s rejected
abort_Run wait_erect_domain_request e = once erect_abort
abort_Run wait_attach_user_request e = once attach_abort
abort_Run (wait_channel_join_request n) e = once (join_abort n)
abort_Run wait_connection_request e = absurd (cc)
abort_Run wait_connect_initial e = absurd (cc)
abort_Run wait_client_info e = absurd (cc)
abort_Run wait_auth_approval e = absurd (cc)
abort_Run wait_confirm_active e = absurd (cc)
abort_Run (wait_finalization granted) e = absurd (cc)
abort_Run accepted e = absurd (cc)
abort_Run rejected e = absurd (cc)

-- A round that succeeds leaves a state that waits for a domain PDU, or for the client info.
goes_on : State → Bool
goes_on s = is_domain s || is_client_info s

GoesOn : Round → Type 0
GoesOn (round_failed error acceptor) = Unit
GoesOn (round_done result acceptor c) = goes_on acceptor.state ≡ true

with_cursor-GoesOn :
    (c : ReadCursor) (outcome : Outcome)
    → goes_on (left outcome).state ≡ true
    → GoesOn (with_cursor c outcome)
unfolding with_cursor GoesOn left
with_cursor-GoesOn c (failed error acceptor) h = tt
with_cursor-GoesOn c (done result acceptor) h = h

decoded-GoesOn {ℓ} :
    {A : Type ℓ} (read : Result (A × ReadCursor)) (acceptor : Acceptor) (next : A → Outcome)
    → ((x : A) → goes_on (left (next x)).state ≡ true)
    → GoesOn (decoded read acceptor next)
unfolding decoded GoesOn
decoded-GoesOn (err error) acceptor next k = tt
decoded-GoesOn (ok (x, c)) acceptor next k = with_cursor-GoesOn c (next x) (k x)

joined_goes_on :
    (n : ℕ)
    → goes_on (if n - 1 == 0 then wait_client_info else wait_channel_join_request (n - 1)) ≡ true
unfolding goes_on is_client_info
joined_goes_on n = elim (Bool-cases (n - 1 == 0)) [ inl e ↦ rw (e) refl | inr e ↦ rw (e) refl ]

handle_domain_pdu-GoesOn :
    (s : State) (c : ReadCursor) (acceptor : Acceptor) → GoesOn (handle_domain_pdu s c acceptor)
unfolding handle_domain_pdu GoesOn goes_on is_client_info attach_user join_channel left
handle_domain_pdu-GoesOn wait_erect_domain_request c acceptor =
    decoded-GoesOn (decode_erect c) acceptor _ (λ x. refl)
handle_domain_pdu-GoesOn wait_attach_user_request c acceptor =
    decoded-GoesOn (decode_attach_request c) acceptor _ (λ x. refl)
handle_domain_pdu-GoesOn (wait_channel_join_request n) c acceptor =
    decoded-GoesOn (decode_join_request c) acceptor _ (λ x. joined_goes_on n)
handle_domain_pdu-GoesOn wait_connection_request c acceptor = tt
handle_domain_pdu-GoesOn wait_connect_initial c acceptor = tt
handle_domain_pdu-GoesOn wait_client_info c acceptor = tt
handle_domain_pdu-GoesOn wait_auth_approval c acceptor = tt
handle_domain_pdu-GoesOn wait_confirm_active c acceptor = tt
handle_domain_pdu-GoesOn (wait_finalization granted) c acceptor = tt
handle_domain_pdu-GoesOn accepted c acceptor = tt
handle_domain_pdu-GoesOn rejected c acceptor = tt

still_domain :
    (s : State) (event : Bool)
    → goes_on s ≡ true
    → event || is_client_info s ≡ false
    → is_domain s ≡ true
unfolding goes_on
still_domain s true h e = absurd (cc)
still_domain s false h e = elim (Bool-cases (is_domain s)) [
  | inl waits ↦ waits
  | inr other ↦ absurd (cc)
]

-- Of the end of a loop, if it has one.
unfoldable pub OnEnd : (P : Outcome → Type 0) → Option Outcome → Type 0
OnEnd P none = Unit
OnEnd P (some outcome) = P outcome

pub settle_P :
    (P : Outcome → Type 0) (acceptor : Acceptor) (end : Option Outcome)
    → P (failed not_ready acceptor)
    → OnEnd P end
    → P (settle acceptor end)
unfolding settle OnEnd
settle_P P acceptor none h k = h
settle_P P acceptor (some outcome) h k = k

pub OnEnd-map :
    (P Q : Outcome → Type 0) (end : Option Outcome)
    → ((outcome : Outcome) → P outcome → Q outcome)
    → OnEnd P end
    → OnEnd Q end
unfolding OnEnd
OnEnd-map P Q none f h = tt
OnEnd-map P Q (some outcome) f h = f outcome h

pub domain_loop-Run :
    (fuel : ℕ) (before : List ℕ) (c : ReadCursor) (acceptor : Acceptor)
    → is_domain acceptor.state ≡ true
    → OnEnd (λ end. Run acceptor.state (left end).state) (domain_loop fuel before c acceptor)
unfolding domain_loop left after_round GoesOn OnEnd
domain_loop-Run zero before c acceptor d = tt
domain_loop-Run (suc fuel) before c acceptor d = elim (Bool-cases (remaining c == 0)) [
  | inl e ↦ rw (e, domain_loop) stop
  | inr e ↦ elim (Bool-cases (peek_is_disconnect c)) [
    | inl e1 ↦ rw (e, e1, domain_loop) (abort_Run acceptor.state d)
    | inr e1 ↦
        let moved = handle_domain_pdu-Run acceptor.state c acceptor refl in
        let good = handle_domain_pdu-GoesOn acceptor.state c acceptor in
        elim (Round-cases (handle_domain_pdu acceptor.state c acceptor)) [
          | inl (error, after, e2) ↦ rw (e, e1, e2, domain_loop) (rw e2 at moved)
          | inr (result, after, c', e2) ↦
              let reached : Run acceptor.state after.state = rw e2 at moved in
              elim (Bool-cases (has_event result.event || is_client_info after.state)) [
                | inl e3 ↦ rw (e, e1, e2, e3, domain_loop) reached
                | inr e3 ↦
                    let d' = still_domain after.state (has_event result.event) (rw e2 at good) e3 in
                    rw (e, e1, e2, e3, domain_loop)
                      (OnEnd-map _ _ (domain_loop fuel (before ++ result.response) c' after)
                        (λ end. Run-trans reached)
                        (domain_loop-Run fuel (before ++ result.response) c' after d'))
              ]
        ]
  ]
]
