-- ===== src/Connector/Phases/Pdus/Domain.antt =====
-- crates/rdpcore-connector/src/lib.rs: `step_mcs_domain_pdus`, PDU by PDU.
use kmsrdp.Prelude.{
  ℕ, zero, suc, ◌-◌, ◌≡◌, refl, true, false, List, ◌++◌, ◌==◌, arith, Bool-cases, inl, inr,
  if◌then◌else◌,
}
use kmsrdp.Pdu.Result.{Result-cases}
use kmsrdp.Pdu.Cursor.{ReadCursor, remaining}
use kmsrdp.Pdu.Mcs.Domain.{
  ChannelJoinRequest, decode_erect, decode_attach_request, decode_join_request,
}
use kmsrdp.Pdu.Result.{ok}
use kmsrdp.Connector.{
  State, wait_connection_request, wait_connect_initial, wait_erect_domain_request,
  wait_attach_user_request, wait_channel_join_request, wait_client_info, wait_auth_approval,
  wait_confirm_active, wait_finalization, accepted, rejected, Acceptor, left,
}
use kmsrdp.Connector.Handlers.{join_count, attach_user, join_channel}
use kmsrdp.Connector.Steps.{
  Round, round_failed, round_done, with_cursor, decoded, handle_domain_pdu, peek_is_disconnect,
  has_event, is_client_info, domain_loop,
}
use kmsrdp.Connector.Phases.{is_domain, Round-cases, OnEnd, OnEnd-map}
use kmsrdp.Connector.Phases.Pdus.{
  DomainMove, erect, attach, join, last_join, Undecoded, no_erect, no_attach, no_join, DomainRun,
  at_end, joined, disconnected, undecoded, move, succeeds,
}

unfoldable pub joins_of : Acceptor → ℕ
joins_of acceptor = join_count acceptor.static_channel_names acceptor.message_channel_id

module _ (joins : ℕ) where
  -- A round takes one PDU, and answers without an event.
  Takes : State → ReadCursor → Round → Type 0
  Takes s c (round_failed error after) = (after.state ≡ rejected) × Undecoded c s
  Takes s c (round_done result after c') =
      DomainMove joins c s c' after.state
      × (joins_of after ≡ joins)
      × (has_event result.event ≡ false)

  join_move :
      {c c' : ReadCursor} (n : ℕ) (x : ChannelJoinRequest)
      → decode_join_request c ≡ ok (x, c')
      → DomainMove joins c
          (wait_channel_join_request n)
          c'
          (if n - 1 == 0 then wait_client_info else wait_channel_join_request (n - 1))
  join_move n x p = elim (Bool-cases (n - 1 == 0)) [
    | inl last ↦ rw last (last_join n x p (ground arith))
    | inr more ↦ rw more (join n x p (ground arith))
  ]

  handle_domain_pdu-Takes :
      (s : State) (c : ReadCursor) (acceptor : Acceptor)
      → is_domain s ≡ true
      → joins_of acceptor ≡ joins
      → Takes s c (handle_domain_pdu s c acceptor)
  unfolding handle_domain_pdu decoded with_cursor attach_user join_channel Takes has_event joins_of
  handle_domain_pdu-Takes wait_erect_domain_request c acceptor d h =
      elim (Result-cases (decode_erect c)) [
        | inl (e, p) ↦ rw (p, decoded) (refl, no_erect e p)
        | inr ((x, c'), p) ↦ rw (p, decoded) (erect x p, h, refl)
      ]
  handle_domain_pdu-Takes wait_attach_user_request c acceptor d h =
      elim (Result-cases (decode_attach_request c)) [
        | inl (e, p) ↦ rw (p, decoded) (refl, no_attach e p)
        | inr ((x, c'), p) ↦ rw (p, decoded, h) (attach p, refl, refl)
      ]
  handle_domain_pdu-Takes (wait_channel_join_request n) c acceptor d h =
      elim (Result-cases (decode_join_request c)) [
        | inl (e, p) ↦ rw (p, decoded) (refl, no_join n e p)
        | inr ((x, c'), p) ↦ rw (p, decoded) (join_move n x p, h, refl)
      ]
  handle_domain_pdu-Takes wait_connection_request c acceptor d h = absurd (cc)
  handle_domain_pdu-Takes wait_connect_initial c acceptor d h = absurd (cc)
  handle_domain_pdu-Takes wait_client_info c acceptor d h = absurd (cc)
  handle_domain_pdu-Takes wait_auth_approval c acceptor d h = absurd (cc)
  handle_domain_pdu-Takes wait_confirm_active c acceptor d h = absurd (cc)
  handle_domain_pdu-Takes (wait_finalization granted) c acceptor d h = absurd (cc)
  handle_domain_pdu-Takes accepted c acceptor d h = absurd (cc)
  handle_domain_pdu-Takes rejected c acceptor d h = absurd (cc)

  stays_domain :
      {c c' : ReadCursor} {s t : State}
      → DomainMove joins c s c' t
      → is_client_info t ≡ false
      → is_domain t ≡ true
  unfolding is_client_info
  stays_domain (erect x p) h = refl
  stays_domain (attach p) h = refl
  stays_domain (join n x p k) h = refl
  stays_domain (last_join n x p k) h = absurd (cc)

  client_info_end :
      (c : ReadCursor) (s : State) → is_client_info s ≡ true → DomainRun joins c s true s
  unfolding is_client_info
  client_info_end c wait_client_info h = joined
  client_info_end c wait_connection_request h = absurd (cc)
  client_info_end c wait_connect_initial h = absurd (cc)
  client_info_end c wait_erect_domain_request h = absurd (cc)
  client_info_end c wait_attach_user_request h = absurd (cc)
  client_info_end c (wait_channel_join_request n) h = absurd (cc)
  client_info_end c wait_auth_approval h = absurd (cc)
  client_info_end c wait_confirm_active h = absurd (cc)
  client_info_end c (wait_finalization granted) h = absurd (cc)
  client_info_end c accepted h = absurd (cc)
  client_info_end c rejected h = absurd (cc)

  pub domain_loop-DomainRun :
      (fuel : ℕ) (before : List ℕ) (c : ReadCursor) (acceptor : Acceptor)
      → is_domain acceptor.state ≡ true
      → joins_of acceptor ≡ joins
      → OnEnd
          (λ end. DomainRun joins c acceptor.state (succeeds end) (left end).state)
          (domain_loop fuel before c acceptor)
  unfolding domain_loop left Takes OnEnd
  domain_loop-DomainRun zero before c acceptor d h = tt
  domain_loop-DomainRun (suc fuel) before c acceptor d h = elim (Bool-cases (remaining c == 0)) [
    | inl e ↦ rw (e, domain_loop) (at_end (ground arith))
    | inr e ↦ elim (Bool-cases (peek_is_disconnect c)) [
      | inl e1 ↦ rw (e, e1, domain_loop) (disconnected e1)
      | inr e1 ↦
          let takes = handle_domain_pdu-Takes acceptor.state c acceptor d h in
          elim (Round-cases (handle_domain_pdu acceptor.state c acceptor)) [
            | inl (error, after, e2) ↦
                let lost = rw e2 at takes in rw (e, e1, e2, domain_loop, lost.0) (undecoded lost.1)
            | inr (result, after, c', e2) ↦
                let (moved, same, silent) = rw e2 at takes in
                elim (Bool-cases (is_client_info after.state)) [
                  | inl e3 ↦
                      rw (e, e1, e2, silent, e3, domain_loop)
                        (move moved (client_info_end c' after.state e3))
                  | inr e3 ↦
                      rw (e, e1, e2, silent, e3, domain_loop)
                        (OnEnd-map _ _ (domain_loop fuel (before ++ result.response) c' after)
                          (λ end. move moved)
                          (domain_loop-DomainRun fuel (before ++ result.response) c' after
                            (stays_domain moved e3) same))
                ]
          ]
    ]
  ]
