-- ===== src/Tests/Dvc.antt =====
-- Dynamic channel messages, written, read back and put together.
use kmsrdp.Prelude.{ℕ, ◌+◌, true, ◌≡◌, ◌-◌, refl, none, some, List, [], ◌∷◌, length, arith}
use kmsrdp.Pdu.Result.{ok}
use kmsrdp.Pdu.Svc.Laws.{answers}
use kmsrdp.Dvc.Pdu.{encode_channel_payload}
use kmsrdp.Pdu.Svc.{with_header}
use kmsrdp.Dvc.Mux.{DvcMux, on_channel_data}
use kmsrdp.Dvc.Mux.Ids.{IsValid, on_channel_data-IsValid}
use kmsrdp.Dvc.Slot.{max_dvc_message_size, Reassembly, take_in}
use kmsrdp.Dvc.Slot.Bounds.{IsPartial, Completes, take_in-IsPartial, stale_continues}
use kmsrdp.Dvc.Slot.Stream.{receive, receive-encode_channel_payload}

receive-encode_channel_payload_example :
    receive none (encode_channel_payload 7 (1 ∷ 2 ∷ 3 ∷ []))
    ≡ (answers (length (encode_channel_payload 7 (1 ∷ 2 ∷ 3 ∷ [])) - 1) (1 ∷ 2 ∷ 3 ∷ []), none)
receive-encode_channel_payload_example =
    receive-encode_channel_payload 7 (omega arith) (1 ∷ 2 ∷ 3 ∷ []) (omega arith)

abbrev begun : Reassembly
begun = some (5, 1 ∷ 2 ∷ [])

take_in-IsPartial_example :
    IsPartial (take_in begun (3 ∷ []) none).1
    × Completes max_dvc_message_size (take_in begun (3 ∷ []) none).0
take_in-IsPartial_example =
    take_in-IsPartial begun (3 ∷ []) none (omega arith, omega arith) (omega arith)

stale_continues_example :
    (take_in begun (9 ∷ []) (some 1) ≡ (ok (some (9 ∷ [])), begun))
    × (take_in (take_in begun (9 ∷ []) (some 1)).1 (8 ∷ []) none
        ≡ (ok none, some (5, 1 ∷ 2 ∷ 8 ∷ [])))
stale_continues_example =
    stale_continues (1 ∷ 2 ∷ []) (9 ∷ []) (8 ∷ []) 5 (omega arith) (omega arith) (omega arith)

-- A handler that sends back what it gets, and counts it.
abbrev echo_name : ℕ → List ℕ
echo_name seen = 69 ∷ 67 ∷ 72 ∷ 79 ∷ []

abbrev echo_open : ℕ → List (List ℕ) × ℕ
echo_open seen = ([], seen)

abbrev echo_data : ℕ → List ℕ → List (List ℕ) × ℕ
echo_data seen message = (message ∷ [], seen + 1)

-- One open channel, before the next message comes in.
abbrev open_mux : DvcMux ℕ
open_mux = record {
  channel_id = 1005;
  user_channel_id = 1002;
  svc_incoming = [];
  next_dynamic_id = 2;
  capability_negotiated = true;
  pending = [];
  channels = record { id = 1; handler = 0; reassembly = none } ∷ [];
}

open_mux-IsValid : IsValid open_mux
open_mux-IsValid = record { fresh = (omega arith, tt, tt); opened = λ _. refl; room = omega arith }

on_channel_data-IsValid_example :
    IsValid
      (on_channel_data echo_name echo_open echo_data
        (with_header 3 3 (0x30 ∷ 1 ∷ 7 ∷ []))
        open_mux).1
on_channel_data-IsValid_example =
    on_channel_data-IsValid echo_name echo_open echo_data (with_header 3 3 (0x30 ∷ 1 ∷ 7 ∷ []))
      open_mux open_mux-IsValid
