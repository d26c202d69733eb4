-- ===== src/Dvc/Mux/Ids.antt =====
-- rdpcore-dvc, `DvcMux`: the ids of the channels, and the handlers that wait.
use kmsrdp.Prelude.{
  ℕ, ◌+◌, ◌%◌, ◌<◌, ◌≡◌, ◌≢◌, refl, true, Option, none, some, List, [], ◌∷◌, ◌++◌, length, ◌==◌,
  arith, All, All-append, Bool-cases, Option-cases, inl, inr,
}
use kmsrdp.Pdu.Result.{Result, ok, err}
use kmsrdp.Pdu.Svc.{reassemble}
use kmsrdp.Dvc.Pdu.{
  ClientMessage, capability_response, create_response, channel_data, data_first, close, other,
  decode_client_message,
}
use kmsrdp.Dvc.Slot.{max_dvc_message_size, Reassembly, Answer, take_in}
use kmsrdp.Dvc.Mux.{
  Frames, ChannelSlot, DvcMux, retain_others, find_slot, set_slot, open_channel, open_all, deliver,
  handle_incoming_data, on_create_response, dispatch, on_message, on_channel_data,
}

module _ {H : Type 0} where
  -- The ids of the slots are distinct and below `next`.
  abbrev pub Fresh : ℕ → List (ChannelSlot H) → Type 0
  Fresh next [] = Unit
  Fresh next (slot ∷ slots) =
      (slot.id < next) × All (λ other. other.id ≢ slot.id) slots × Fresh next slots

  -- The ids are distinct and were all given already; once the capabilities are negotiated no handler
  -- waits; and there are ids for those that wait.
  pub record IsValid (mux : DvcMux H) : Type 0 where
    pub fresh : Fresh mux.next_dynamic_id mux.channels
    pub opened : mux.capability_negotiated ≡ true → mux.pending ≡ []
    pub room : mux.next_dynamic_id + length mux.pending < 0x1_0000_0000

  All-retain_others :
      (k id : ℕ) (slots : List (ChannelSlot H))
      → All (λ other. other.id ≢ k) slots
      → All (λ other. other.id ≢ k) (retain_others id slots)
  unfolding retain_others
  All-retain_others k id [] h = tt
  All-retain_others k id (slot ∷ slots) h = elim (Bool-cases (slot.id == id)) [
    | inl same ↦ rw same (All-retain_others k id slots h.1)
    | inr differs ↦ rw differs (h.0, All-retain_others k id slots h.1)
  ]

  Fresh-retain_others :
      (next id : ℕ) (slots : List (ChannelSlot H))
      → Fresh next slots
      → Fresh next (retain_others id slots)
  unfolding retain_others
  Fresh-retain_others next id [] h = tt
  Fresh-retain_others next id (slot ∷ slots) h = elim (Bool-cases (slot.id == id)) [
    | inl same ↦ rw same (Fresh-retain_others next id slots h.2)
    | inr differs ↦
        rw differs
          (h.0, All-retain_others slot.id id slots h.1, Fresh-retain_others next id slots h.2)
  ]

  All-set_slot :
      (k id : ℕ) (handler : H) (left : Reassembly) (slots : List (ChannelSlot H))
      → All (λ other. other.id ≢ k) slots
      → All (λ other. other.id ≢ k) (set_slot id handler left slots)
  unfolding set_slot
  All-set_slot k id handler left [] h = tt
  All-set_slot k id handler left (slot ∷ slots) h = elim (Bool-cases (slot.id == id)) [
    | inl same ↦ rw same h
    | inr differs ↦ rw differs (h.0, All-set_slot k id handler left slots h.1)
  ]

  Fresh-set_slot :
      (next id : ℕ) (handler : H) (left : Reassembly) (slots : List (ChannelSlot H))
      → Fresh next slots
      → Fresh next (set_slot id handler left slots)
  unfolding set_slot
  Fresh-set_slot next id handler left [] h = tt
  Fresh-set_slot next id handler left (slot ∷ slots) h = elim (Bool-cases (slot.id == id)) [
    | inl same ↦ rw same h
    | inr differs ↦ rw differs (
      h.0,
      All-set_slot slot.id id handler left slots h.1,
      Fresh-set_slot next id handler left slots h.2,
    )
  ]

  Fresh-append :
      (next : ℕ) (slots : List (ChannelSlot H)) (slot : ChannelSlot H)
      → Fresh next slots
      → slot.id ≡ next
      → Fresh (next + 1) (slots ++ slot ∷ [])
  Fresh-append next [] slot h e = (omega (arith, e), tt, tt)
  Fresh-append next (s ∷ slots) slot h e = (
    omega (arith, h.0),
    All-append (λ o. o.id ≢ s.id) slots (slot ∷ []) h.1
        (λ same. absurd (omega (arith, h.0, e, same)), tt),
    Fresh-append next slots slot h.2 e,
  )

  IsValid-channels :
      (mux : DvcMux H) (channels : List (ChannelSlot H))
      → IsValid mux
      → Fresh mux.next_dynamic_id channels
      → IsValid (record mux { channels = channels })
  IsValid-channels mux channels v h = record { fresh = h; opened = v.opened; room = v.room }

module _ {H : Type 0} (channel_name : H → List ℕ) (on_open : H → Frames × H)
    (on_data : H → List ℕ → Frames × H) where
  open_all-IsValid :
      (handlers : List H) (mux : DvcMux H)
      → IsValid mux
      → mux.next_dynamic_id + length handlers < 0x1_0000_0000
      → mux.pending ≡ []
      → IsValid (open_all channel_name on_open on_data handlers mux).1
  unfolding open_all open_channel
  open_all-IsValid [] mux v h e = v
  open_all-IsValid (handler ∷ handlers) mux v h e =
      let next : (mux.next_dynamic_id + 1) % 0x1_0000_0000 ≡ mux.next_dynamic_id + 1 =
        omega (arith, h) in
      open_all-IsValid handlers (open_channel channel_name on_open on_data handler mux).1
        (record {
          fresh = rw next (Fresh-append mux.next_dynamic_id mux.channels _ v.fresh refl);
          opened = v.opened;
          room = rw (next, e) (omega (arith, h));
        })
        (rw next (omega (arith, h))) e

  deliver-IsValid :
      (id : ℕ) (slot : ChannelSlot H) (answer : Answer) (mux : DvcMux H)
      → IsValid mux
      → IsValid (deliver channel_name on_open on_data id slot answer mux).1
  unfolding deliver
  deliver-IsValid id slot (err e, left) mux v =
      IsValid-channels mux _ v (Fresh-set_slot _ id slot.handler left mux.channels v.fresh)
  deliver-IsValid id slot (ok none, left) mux v =
      IsValid-channels mux _ v (Fresh-set_slot _ id slot.handler left mux.channels v.fresh)
  deliver-IsValid id slot (ok (some message), left) mux v =
      IsValid-channels mux _ v
        (Fresh-set_slot _ id (on_data slot.handler message).1 left mux.channels v.fresh)

  data-IsValid :
      (id : ℕ) (bytes : List ℕ) (starts_new : Option ℕ) (mux : DvcMux H)
      → IsValid mux
      → IsValid (handle_incoming_data channel_name on_open on_data id bytes starts_new mux).1
  unfolding handle_incoming_data
  data-IsValid id bytes starts_new mux v = elim (Option-cases (find_slot id mux.channels)) [
    | inl gone ↦ rw (gone, handle_incoming_data) v
    | inr (slot, found) ↦
        rw (found, handle_incoming_data)
          (deliver-IsValid id slot (take_in slot.reassembly bytes starts_new) mux v)
  ]

  create-IsValid :
      (id creation_status : ℕ) (mux : DvcMux H)
      → IsValid mux
      → IsValid (on_create_response channel_name on_open on_data id creation_status mux).1
  unfolding on_create_response
  create-IsValid id creation_status mux v = elim (Bool-cases (creation_status == 0)) [
    | inr refused ↦
        rw refused (IsValid-channels mux _ v (Fresh-retain_others _ id mux.channels v.fresh))
    | inl accepted ↦ elim (Option-cases (find_slot id mux.channels)) [
      | inl gone ↦ rw (accepted, gone) v
      | inr (slot, found) ↦
          rw (accepted, found)
            (IsValid-channels mux _ v
              (Fresh-set_slot _ id (on_open slot.handler).1 slot.reassembly mux.channels v.fresh))
    ]
  ]

  dispatch-IsValid :
      (message : Result ClientMessage) (mux : DvcMux H)
      → IsValid mux
      → IsValid (dispatch channel_name on_open on_data message mux).1
  unfolding dispatch
  dispatch-IsValid (err e) mux v = v
  dispatch-IsValid (ok (capability_response version)) mux v =
      open_all-IsValid mux.pending (record mux { capability_negotiated = true; pending = [] })
        (record { fresh = v.fresh; opened = λ _. refl; room = omega (arith, v.room) }) v.room refl
  dispatch-IsValid (ok (create_response id creation_status)) mux v =
      create-IsValid id creation_status mux v
  dispatch-IsValid (ok (channel_data id bytes)) mux v = data-IsValid id bytes none mux v
  dispatch-IsValid (ok (data_first id total_length bytes)) mux v =
      data-IsValid id bytes (some total_length) mux v
  dispatch-IsValid (ok (close id)) mux v =
      IsValid-channels mux _ v (Fresh-retain_others _ id mux.channels v.fresh)
  dispatch-IsValid (ok other) mux v = v

  message-IsValid :
      (message : Result (Option (List ℕ))) (mux : DvcMux H)
      → IsValid mux
      → IsValid (on_message channel_name on_open on_data message mux).1
  unfolding on_message
  message-IsValid (err e) mux v = v
  message-IsValid (ok none) mux v = v
  message-IsValid (ok (some message)) mux v = dispatch-IsValid (decode_client_message message) mux v

  -- For any handlers and any payload, on_channel_data keeps the ids of the dynamic channels
  -- distinct and below the next id, keeps handlers from waiting once the capabilities are
  -- negotiated, and keeps the ids of those that wait within 32 bits, if all this was so before.
  pub on_channel_data-IsValid :
      (payload : List ℕ) (mux : DvcMux H)
      → IsValid mux
      → IsValid (on_channel_data channel_name on_open on_data payload mux).1
  unfolding on_channel_data
  on_channel_data-IsValid payload mux v =
      let put = reassemble mux.svc_incoming payload max_dvc_message_size "dvc.svc_incoming" in
      message-IsValid put.0 (record mux { svc_incoming = put.1 })
        (record { fresh = v.fresh; opened = v.opened; room = v.room })
