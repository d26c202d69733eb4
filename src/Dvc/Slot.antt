-- ===== src/Dvc/Slot.antt =====
-- crates/rdpcore-dvc/src/lib.rs: the message that a dynamic channel puts together from its Data
-- First and Data messages.
pub mod Stream
pub mod Bounds
use kmsrdp.Prelude.{
  ℕ, ◌+◌, ◌*◌, ◌%◌, Bool, true, false, Option, none, some, List, ◌++◌, length, take, ltb, leb,
  if◌then◌else◌,
}
use kmsrdp.Pdu.Result.{Result, ok, err, invalid_value}

abbrev pub max_dvc_message_size : ℕ
max_dvc_message_size = 16_777_216

-- `slot.reassembly`: the declared length and the bytes so far.
abbrev pub Reassembly : Type 0
Reassembly = Option (ℕ × List ℕ)

-- The message that is complete, if it is, and the state that is left.
abbrev pub Answer : Type 0
Answer = Result (Option (List ℕ)) × Reassembly

-- The code's `len() as u32` and `truncate`.
unfoldable pub low_length : List ℕ → ℕ
low_length bytes = length bytes % 0x1_0000_0000

-- `starts_new` is the total length of a Data First message.
unfoldable pub start_message : Reassembly → List ℕ → ℕ → Answer
start_message reassembly bytes total_length =
    if ltb max_dvc_message_size total_length
    then (
      err (
          invalid_value "dvc.data_first.total_length"
            "DataFirst declared total length exceeds maximum allowed size"),
      reassembly,
    )
    else if leb total_length (low_length bytes)
    then (ok (some (take total_length bytes)), reassembly)
    else (ok none, some (total_length, bytes))

unfoldable pub continue_message : Reassembly → List ℕ → Answer
continue_message none bytes = (ok (some bytes), none)
continue_message (some (total_length, buffered)) bytes =
    if ltb max_dvc_message_size (length buffered + length bytes)
    then (
      err (
          invalid_value "dvc.data.buffered"
            "accumulated dynamic channel data exceeded maximum allowed size"),
      none,
    )
    else if leb total_length (low_length (buffered ++ bytes))
    then (ok (some (take total_length (buffered ++ bytes))), none)
    else (ok none, some (total_length, buffered ++ bytes))

unfoldable pub take_in : Reassembly → List ℕ → Option ℕ → Answer
unfolding start_message continue_message
take_in reassembly bytes (some total_length) = start_message reassembly bytes total_length
take_in reassembly bytes none = continue_message reassembly bytes
