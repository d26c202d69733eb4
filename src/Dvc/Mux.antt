-- ===== src/Dvc/Mux.antt =====
-- crates/rdpcore-dvc/src/lib.rs: the multiplexer of the dynamic channels. The handlers are outside
-- this file: `H` is their state, and what they do is a parameter.
pub mod Ids
use kmsrdp.Prelude.{
  ℕ, ◌+◌, ◌%◌, Bool, true, false, not, Option, none, some, List, [], ◌∷◌, ◌++◌, map, ◌==◌,
  if◌then◌else◌,
}
use mathlib.Core.List.{flatten}
use kmsrdp.Pdu.Result.{Result, ok, err}
use kmsrdp.Pdu.Svc.{wrap_indication, reassemble}
use kmsrdp.Dvc.Pdu.{
  encode_capability_request, encode_create_request, encode_channel_payload, ClientMessage,
  capability_response, create_response, channel_data, data_first, close, other,
  decode_client_message,
}
use kmsrdp.Dvc.Slot.{max_dvc_message_size, Reassembly, Answer, take_in}

abbrev pub Frames : Type 0
Frames = List (List ℕ)

pub record ChannelSlot (H : Type 0) : Type 0 where
  pub id : ℕ
  pub handler : H
  pub reassembly : Reassembly

pub record DvcMux (H : Type 0) : Type 0 where
  pub channel_id : ℕ
  pub user_channel_id : ℕ
  pub svc_incoming : List ℕ
  pub next_dynamic_id : ℕ
  pub capability_negotiated : Bool
  pub pending : List H
  pub channels : List (ChannelSlot H)

unfoldable pub new : (H : Type 0) → ℕ → ℕ → DvcMux H × Frames
new H channel_id user_channel_id = (
  record {
    channel_id = channel_id;
    user_channel_id = user_channel_id;
    svc_incoming = [];
    next_dynamic_id = 1;
    capability_negotiated = false;
    pending = [];
    channels = [];
  },
  wrap_indication user_channel_id channel_id encode_capability_request,
)

-- `retain(|slot| slot.id != channel_id)`, `find` and a change of the slot that is found.
unfoldable pub retain_others : {H : Type 0} → ℕ → List (ChannelSlot H) → List (ChannelSlot H)
retain_others id [] = []
retain_others id (slot ∷ slots) =
    let rest = retain_others id slots in if slot.id == id then rest else slot ∷ rest

unfoldable pub find_slot : {H : Type 0} → ℕ → List (ChannelSlot H) → Option (ChannelSlot H)
find_slot id [] = none
find_slot id (slot ∷ slots) =
    let rest = find_slot id slots in if slot.id == id then some slot else rest

unfoldable pub set_slot :
    {H : Type 0} → ℕ → H → Reassembly → List (ChannelSlot H) → List (ChannelSlot H)
set_slot id handler reassembly [] = []
set_slot id handler reassembly (slot ∷ slots) =
    let rest = set_slot id handler reassembly slots in
    if slot.id == id
    then record slot { handler = handler; reassembly = reassembly } ∷ slots
    else slot ∷ rest

unfoldable pub encode_payloads : {H : Type 0} → ℕ → Frames → DvcMux H → Frames
encode_payloads id payloads mux = flatten (
    map (wrap_indication mux.user_channel_id mux.channel_id)
      (flatten (map (encode_channel_payload id) payloads)))

-- `DvcHandler`: its name, and its two callbacks.
module _ {H : Type 0} (channel_name : H → List ℕ) (on_open : H → Frames × H)
    (on_data : H → List ℕ → Frames × H) where
  unfoldable pub open_channel : H → DvcMux H → Frames × DvcMux H
  open_channel handler mux =
      let id = mux.next_dynamic_id in
      (
        wrap_indication mux.user_channel_id mux.channel_id
            (encode_create_request id (channel_name handler)),
        record mux {
          next_dynamic_id = (id + 1) % 0x1_0000_0000;
          channels = mux.channels ++ record { id = id; handler = handler; reassembly = none } ∷ [];
        },
      )

  unfoldable pub register_channel : H → DvcMux H → Frames × DvcMux H
  register_channel handler mux =
      if mux.capability_negotiated
      then open_channel handler mux
      else ([], record mux { pending = mux.pending ++ handler ∷ [] })

  -- The loop over the handlers that waited.
  unfoldable pub open_all : List H → DvcMux H → Frames × DvcMux H
  open_all [] mux = ([], mux)
  open_all (handler ∷ handlers) mux =
      let opened = open_channel handler mux in
      let rest = open_all handlers opened.1 in (opened.0 ++ rest.0, rest.1)

  -- What the handler of a slot does with what the slot has put together.
  unfoldable pub deliver : ℕ → ChannelSlot H → Answer → DvcMux H → Result Frames × DvcMux H
  deliver id slot (err e, left) mux =
      (err e, record mux { channels = set_slot id slot.handler left mux.channels })
  deliver id slot (ok none, left) mux =
      (ok [], record mux { channels = set_slot id slot.handler left mux.channels })
  deliver id slot (ok (some message), left) mux =
      let called = on_data slot.handler message in
      (
        ok (encode_payloads id called.0 mux),
        record mux { channels = set_slot id called.1 left mux.channels },
      )

  unfoldable pub handle_incoming_data : ℕ → List ℕ → Option ℕ → DvcMux H → Result Frames × DvcMux H
  unfolding deliver
  handle_incoming_data id bytes starts_new mux = elim (find_slot id mux.channels) [
    | none ↦ (ok [], mux)
    | some slot ↦ deliver id slot (take_in slot.reassembly bytes starts_new) mux
  ]

  unfoldable pub on_create_response : ℕ → ℕ → DvcMux H → Result Frames × DvcMux H
  on_create_response id creation_status mux =
      if not (creation_status == 0)
      then (ok [], record mux { channels = retain_others id mux.channels })
      else elim (find_slot id mux.channels) [
        | none ↦ (ok [], mux)
        | some slot ↦
            let called = on_open slot.handler in
            (
              ok (encode_payloads id called.0 mux),
              record mux { channels = set_slot id called.1 slot.reassembly mux.channels },
            )
      ]

  unfoldable pub dispatch : Result ClientMessage → DvcMux H → Result Frames × DvcMux H
  unfolding open_all handle_incoming_data on_create_response
  dispatch (err e) mux = (err e, mux)
  dispatch (ok (capability_response version)) mux =
      let opened =
        open_all mux.pending (record mux { capability_negotiated = true; pending = [] }) in
      (ok opened.0, opened.1)
  dispatch (ok (create_response id creation_status)) mux = on_create_response id creation_status mux
  dispatch (ok (channel_data id bytes)) mux = handle_incoming_data id bytes none mux
  dispatch (ok (data_first id total_length bytes)) mux =
      handle_incoming_data id bytes (some total_length) mux
  dispatch (ok (close id)) mux = (ok [], record mux { channels = retain_others id mux.channels })
  dispatch (ok other) mux = (ok [], mux)

  -- The message that the static channel has put together, if it has.
  unfoldable pub on_message : Result (Option (List ℕ)) → DvcMux H → Result Frames × DvcMux H
  unfolding dispatch
  on_message (err e) mux = (err e, mux)
  on_message (ok none) mux = (ok [], mux)
  on_message (ok (some message)) mux = dispatch (decode_client_message message) mux

  unfoldable pub on_channel_data : List ℕ → DvcMux H → Result Frames × DvcMux H
  unfolding on_message
  on_channel_data payload mux =
      let put = reassemble mux.svc_incoming payload max_dvc_message_size "dvc.svc_incoming" in
      on_message put.0 (record mux { svc_incoming = put.1 })
