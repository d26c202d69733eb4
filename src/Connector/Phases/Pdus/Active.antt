-- ===== src/Connector/Phases/Pdus/Active.antt =====
-- crates/rdpcore-connector/src/lib.rs: `step_reactivation`, PDU by PDU.
use kmsrdp.Prelude.{
  ℕ, zero, suc, ◌⊎◌, ◌+◌, ◌≡◌, refl, Bool, true, false, not, ◌&&◌, ◌||◌, inl, inr, List, ◌++◌, ◌==◌,
  Bool-cases, if◌then◌else◌, ltb, length, arith,
}
use kmsrdp.Pdu.Result.{Result-cases, ok}
use kmsrdp.Pdu.Cursor.{ReadCursor, remaining}
use kmsrdp.Pdu.Mcs.Domain.{SendData, decode_send_data, send_data_request}
use kmsrdp.Pdu.ShareControl as Control
use kmsrdp.Pdu.Finalization.{
  DataPdu, ShareDataPduType, decode, synchronize, control, font_list, font_map, refresh_rect,
  suppress_output, save_session_info, monitor_layout, input,
}
use kmsrdp.Connector.{
  State, wait_connection_request, wait_connect_initial, wait_erect_domain_request,
  wait_attach_user_request, wait_channel_join_request, wait_client_info, wait_auth_approval,
  wait_confirm_active, wait_finalization, accepted, rejected, Acceptor, StepResult, Outcome,
  ConnectorError, failed, done, left, is_over, io_channel_id, max_confirm_active_len,
}
use kmsrdp.Connector.Handlers.{
  on_confirm_active_send_data, confirm, is_other, try_decode_confirm_active,
  on_finalization_send_data, on_data_pdu, asks_control,
}
use kmsrdp.Connector.Steps.{reactivate, is_accepted_event, reactivation_loop}
use kmsrdp.Connector.Phases.{Outcome-cases, OnEnd, OnEnd-map}
use kmsrdp.Connector.Phases.Active.{and_then_P}
use kmsrdp.Connector.Phases.Pdus.{
  ActiveMove, pass, confirmed, grant, finish, ActiveRun, at_end, over, undecoded, unconfirmed, move,
  is_active, succeeds,
}

-- Of both branches of a test, with what it gave.
if_gives :
    (P : Outcome → Type 0) (test : Bool) (x y : Outcome)
    → (test ≡ true → P x)
    → (test ≡ false → P y)
    → P (if test then x else y)
if_gives P true x y h k = h refl
if_gives P false x y h k = k refl

-- What one Send Data Request leaves.
Lands : ReadCursor → State → ReadCursor → Outcome → Type 0
Lands c s c' (failed error after) = ActiveRun c s false after.state
Lands c s c' (done result after) =
    ActiveMove c s c' after.state
    × ((is_accepted_event result.event ≡ false) ⊎ (is_over after.state ≡ true))

done_Lands :
    (c : ReadCursor) (s : State) (c' : ReadCursor) (result : StepResult) (after : Acceptor)
    → is_accepted_event result.event ≡ false
    → ActiveMove c s c' after.state
    → Lands c s c' (done result after)
unfolding Lands
done_Lands c s c' result after e m = (m, inl e)

over_Lands :
    (c : ReadCursor) (s : State) (c' : ReadCursor) (result : StepResult) (after : Acceptor)
    → is_over after.state ≡ true
    → ActiveMove c s c' after.state
    → Lands c s c' (done result after)
unfolding Lands
over_Lands c s c' result after e m = (m, inr e)

failed_Lands :
    (c : ReadCursor) (s : State) (c' : ReadCursor) (error : ConnectorError) (after : Acceptor)
    → ActiveRun c s false after.state
    → Lands c s c' (failed error after)
unfolding Lands
failed_Lands c s c' error after m = m

-- Where the cursor stands, and the request that it reads.
module _ (c c' : ReadCursor) (x : SendData)
    (read : decode_send_data send_data_request c ≡ ok (x, c')) where
  on_confirm_active-Lands :
      (acceptor : Acceptor)
      → acceptor.state ≡ wait_confirm_active
      → Lands c wait_confirm_active c' (on_confirm_active_send_data x acceptor)
  unfolding on_confirm_active_send_data confirm is_accepted_event
  on_confirm_active-Lands acceptor e =
      let P = Lands c wait_confirm_active c' in
      let unmoved : ActiveRun c wait_confirm_active false acceptor.state =
        rw e (unconfirmed x read) in
      if_gives P (not (x.channel_id == io_channel_id)) _ _
        (λ _. done_Lands _ _ _ _ _ refl (pass x read))
        (λ io.
          if_gives P (is_other Control.confirm_active x.payload) _ _
            (λ _. done_Lands _ _ _ _ _ refl (pass x read))
            (λ same.
              if_gives P
                (ltb max_confirm_active_len (length acceptor.confirm_active_buf + length x.payload))
                _ _ (λ _. failed_Lands _ _ _ _ _ unmoved)
                (λ _.
                  if_gives P (not x.complete) _ _ (λ _. done_Lands _ _ _ _ _ refl (pass x read))
                    (λ whole.
                      and_then_P P
                        (try_decode_confirm_active (acceptor.confirm_active_buf ++ x.payload)) _ _
                        (λ error. failed_Lands _ _ _ _ _ unmoved)
                        (λ y.
                          done_Lands _ _ _ _ _ refl
                            (confirmed x read (ground arith) same (ground arith)))))))

  on_data_pdu-Lands :
      (pdu_type2 : ShareDataPduType) (pdu : DataPdu) (granted : Bool) (acceptor : Acceptor)
      → x.channel_id ≡ io_channel_id
      → decode x.payload ≡ ok pdu
      → pdu.pdu_type2 ≡ pdu_type2
      → Lands c (wait_finalization granted) c' (on_data_pdu pdu_type2 pdu.body granted acceptor)
  unfolding on_data_pdu is_accepted_event is_over
  on_data_pdu-Lands control pdu true acceptor io d t =
      if_gives (Lands c (wait_finalization true) c') (asks_control pdu.body && not true) _ _
        (λ asked. absurd (ground arith)) (λ _. done_Lands _ _ _ _ _ refl (pass x read))
  on_data_pdu-Lands control pdu false acceptor io d t =
      if_gives (Lands c (wait_finalization false) c') (asks_control pdu.body && not false) _ _
        (λ asked. done_Lands _ _ _ _ _ refl (grant x pdu read io d t (ground arith)))
        (λ _. done_Lands _ _ _ _ _ refl (pass x read))
  on_data_pdu-Lands font_list pdu granted acceptor io d t =
      over_Lands _ _ _ _ _ refl (finish granted x pdu read io d t)
  on_data_pdu-Lands synchronize pdu granted acceptor io d t =
      done_Lands _ _ _ _ _ refl (pass x read)
  on_data_pdu-Lands font_map pdu granted acceptor io d t = done_Lands _ _ _ _ _ refl (pass x read)
  on_data_pdu-Lands refresh_rect pdu granted acceptor io d t =
      done_Lands _ _ _ _ _ refl (pass x read)
  on_data_pdu-Lands suppress_output pdu granted acceptor io d t =
      done_Lands _ _ _ _ _ refl (pass x read)
  on_data_pdu-Lands save_session_info pdu granted acceptor io d t =
      done_Lands _ _ _ _ _ refl (pass x read)
  on_data_pdu-Lands monitor_layout pdu granted acceptor io d t =
      done_Lands _ _ _ _ _ refl (pass x read)
  on_data_pdu-Lands input pdu granted acceptor io d t = done_Lands _ _ _ _ _ refl (pass x read)

  on_finalization-Lands :
      (granted : Bool) (acceptor : Acceptor)
      → Lands c (wait_finalization granted) c' (on_finalization_send_data x granted acceptor)
  unfolding on_finalization_send_data is_accepted_event
  on_finalization-Lands granted acceptor =
      let P = Lands c (wait_finalization granted) c' in
      if_gives P (not (x.channel_id == io_channel_id)) _ _
        (λ _. done_Lands _ _ _ _ _ refl (pass x read))
        (λ io.
          if_gives P (is_other Control.data_pdu x.payload) _ _
            (λ _. done_Lands _ _ _ _ _ refl (pass x read))
            (λ _. elim (Result-cases (decode x.payload)) [
              | inl (error, d) ↦ rw d (done_Lands _ _ _ _ _ refl (pass x read))
              | inr (pdu, d) ↦
                  rw d (on_data_pdu-Lands pdu.pdu_type2 pdu granted acceptor (ground arith) d refl)
            ]))

  reactivate-Lands :
      (s : State) (acceptor : Acceptor)
      → acceptor.state ≡ s
      → is_active s ≡ true
      → Lands c s c' (reactivate s x acceptor)
  unfolding reactivate
  reactivate-Lands wait_confirm_active acceptor e a = on_confirm_active-Lands acceptor e
  reactivate-Lands (wait_finalization granted) acceptor e a = on_finalization-Lands granted acceptor
  reactivate-Lands accepted acceptor e a = absurd (cc)
  reactivate-Lands rejected acceptor e a = absurd (cc)
  reactivate-Lands wait_connection_request acceptor e a = absurd (cc)
  reactivate-Lands wait_connect_initial acceptor e a = absurd (cc)
  reactivate-Lands wait_erect_domain_request acceptor e a = absurd (cc)
  reactivate-Lands wait_attach_user_request acceptor e a = absurd (cc)
  reactivate-Lands (wait_channel_join_request n) acceptor e a = absurd (cc)
  reactivate-Lands wait_client_info acceptor e a = absurd (cc)
  reactivate-Lands wait_auth_approval acceptor e a = absurd (cc)

stays_active :
    {c c' : ReadCursor} {s t : State}
    → ActiveMove c s c' t
    → is_active s || is_over s ≡ true
    → is_active t || is_over t ≡ true
unfolding is_over
stays_active (pass x p) h = h
stays_active (confirmed x p io same whole) h = refl
stays_active (grant x pdu p io d t asked) h = refl
stays_active (finish granted x pdu p io d t) h = refl

pub reactivation_loop-ActiveRun :
    (fuel : ℕ) (before : List ℕ) (c : ReadCursor) (acceptor : Acceptor)
    → is_active acceptor.state || is_over acceptor.state ≡ true
    → OnEnd
        (λ end. ActiveRun c acceptor.state (succeeds end) (left end).state)
        (reactivation_loop fuel before c acceptor)
unfolding reactivation_loop left Lands OnEnd
reactivation_loop-ActiveRun zero before c acceptor a = tt
reactivation_loop-ActiveRun (suc fuel) before c acceptor a = elim (Bool-cases (remaining c == 0)) [
  | inl e ↦ rw (e, reactivation_loop) (at_end (ground arith))
  | inr e ↦ elim (Bool-cases (is_over acceptor.state)) [
    | inl e0 ↦ rw (e, e0, reactivation_loop) (over e0)
    | inr e0 ↦ elim (Result-cases (decode_send_data send_data_request c)) [
      | inl (error, e1) ↦ rw (e, e0, e1, reactivation_loop) (undecoded error e1)
      | inr ((send_data, c'), e1) ↦
          let waits : is_active acceptor.state ≡ true = ground arith in
          let lands = reactivate-Lands c c' send_data e1 acceptor.state acceptor refl waits in
          elim (Outcome-cases (reactivate acceptor.state send_data acceptor)) [
            | inl (error, after, e2) ↦ rw (e, e0, e1, e2, reactivation_loop) (rw e2 at lands)
            | inr (result, after, e2) ↦
                let (moved, event) = rw e2 at lands in
                let still = stays_active moved a in
                elim (Bool-cases (is_accepted_event result.event)) [
                  | inl e3 ↦
                      rw (e, e0, e1, e2, e3, reactivation_loop) (move moved (over (ground arith)))
                  | inr e3 ↦
                      rw (e, e0, e1, e2, e3, reactivation_loop)
                        (OnEnd-map _ _ (reactivation_loop fuel (before ++ result.response) c' after)
                          (λ end. move moved)
                          (reactivation_loop-ActiveRun fuel (before ++ result.response) c' after
                            still))
                ]
          ]
    ]
  ]
]
