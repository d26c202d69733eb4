-- ===== src/Dvc/Slot/Bounds.antt =====
-- rdpcore-dvc, `handle_incoming_data`: the sizes of what a channel holds and hands out.
use kmsrdp.Prelude.{
  ℕ, ◌+◌, ◌%◌, ◌≤◌, ◌<◌, ◌≡◌, Option, none, some, List, ◌++◌, length, ltb, leb, arith,
  length-append, length-take, take_all, Bool-cases, inl, inr,
}
use native.Mathlib.Nat.{le_refl}
use kmsrdp.Pdu.Result.{Result, ok}
use kmsrdp.Dvc.Slot.{
  max_dvc_message_size, Reassembly, low_length, start_message, continue_message, take_in,
}

-- A message that is put together has a declared length, and fewer bytes than that so far.
abbrev pub IsPartial : Reassembly → Type 0
IsPartial none = Unit
IsPartial (some (total_length, buffered)) =
    (total_length ≤ max_dvc_message_size) × (length buffered < total_length)

-- The message that an answer completes has at most `limit` bytes.
abbrev pub Completes : ℕ → Result (Option (List ℕ)) → Type 0
Completes limit (ok (some message)) = length message ≤ limit
Completes limit _ = Unit

start_bounds :
    (reassembly : Reassembly) (bytes : List ℕ) (total_length : ℕ)
    → IsPartial reassembly
    → length bytes ≤ max_dvc_message_size
    → IsPartial (start_message reassembly bytes total_length).1
      × Completes max_dvc_message_size (start_message reassembly bytes total_length).0
unfolding start_message low_length
start_bounds reassembly bytes total_length p h =
    elim (Bool-cases (ltb max_dvc_message_size total_length)) [
      | inl over ↦ rw over (p, tt)
      | inr fits ↦ elim (Bool-cases (leb total_length (length bytes % 0x1_0000_0000))) [
        | inl all ↦ rw (fits, all) (p, ground (arith, length-take total_length bytes))
        | inr more ↦ rw (fits, more) ((ground arith, ground arith), tt)
      ]
    ]

continue_bounds :
    (reassembly : Reassembly) (bytes : List ℕ)
    → IsPartial reassembly
    → length bytes ≤ max_dvc_message_size
    → IsPartial (continue_message reassembly bytes).1
      × Completes max_dvc_message_size (continue_message reassembly bytes).0
unfolding continue_message low_length
continue_bounds none bytes p h = (tt, h)
continue_bounds (some (total_length, buffered)) bytes p h =
    elim (Bool-cases (ltb max_dvc_message_size (length buffered + length bytes))) [
      | inl over ↦ rw over (tt, tt)
      | inr fits ↦
          elim (Bool-cases (leb total_length (length (buffered ++ bytes) % 0x1_0000_0000))) [
            | inl all ↦
                rw (fits, all)
                  (
                    tt,
                    ground (
                      arith,
                      length-take total_length (buffered ++ bytes),
                      length-append buffered bytes,
                    ),
                  )
            | inr more ↦
                rw (fits, more) ((ground arith, ground (arith, length-append buffered bytes)), tt)
          ]
    ]

-- If a begun message has fewer bytes than it declares and declares at most 16 MiB, and the new
-- bytes are at most 16 MiB, then the same holds of what take_in leaves, and a message that it
-- completes has at most 16 MiB.
pub take_in-IsPartial :
    (reassembly : Reassembly) (bytes : List ℕ) (starts_new : Option ℕ)
    → IsPartial reassembly
    → length bytes ≤ max_dvc_message_size
    → IsPartial (take_in reassembly bytes starts_new).1
      × Completes max_dvc_message_size (take_in reassembly bytes starts_new).0
unfolding take_in
take_in-IsPartial reassembly bytes none p h = continue_bounds reassembly bytes p h
take_in-IsPartial reassembly bytes (some total_length) p h =
    start_bounds reassembly bytes total_length p h

start_all :
    (reassembly : Reassembly) (bytes : List ℕ)
    → length bytes ≤ 1590
    → start_message reassembly bytes (length bytes) ≡ (ok (some bytes), reassembly)
unfolding start_message low_length
start_all reassembly bytes h =
    ground (arith, take_all (length bytes) bytes (le_refl (length bytes)))

grows :
    (declared : ℕ) (stale later : List ℕ)
    → declared ≤ max_dvc_message_size
    → length stale + length later < declared
    → continue_message (some (declared, stale)) later ≡ (ok none, some (declared, stale ++ later))
unfolding continue_message low_length
grows declared stale later k l = ground (arith, length-append stale later)

-- When a message is begun, a Data First message of at most 1590 bytes that is complete by itself
-- is handed out but leaves the begun message, so later bytes that do not complete that one are
-- added to it and handed to nobody.
pub stale_continues :
    (stale bytes later : List ℕ) (declared : ℕ)
    → length bytes ≤ 1590
    → declared ≤ max_dvc_message_size
    → length stale + length later < declared
    → let complete = take_in (some (declared, stale)) bytes (some (length bytes)) in
      (complete ≡ (ok (some bytes), some (declared, stale)))
      × (take_in complete.1 later none ≡ (ok none, some (declared, stale ++ later)))
unfolding take_in
stale_continues stale bytes later declared h k l =
    let complete = start_all (some (declared, stale)) bytes h in
    (complete, rw complete (grows declared stale later k l))
