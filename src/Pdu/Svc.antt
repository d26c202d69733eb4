-- ===== src/Pdu/Svc.antt =====
-- crates/rdpcore-pdu/src/svc.rs: chunking of static virtual channels.
pub mod Laws
pub mod Bounds
pub mod Frames
use kmsrdp.Prelude.{
  ℕ, zero, suc, ◌+◌, ◌-◌, ◌/◌, ◌%◌, Bool, true, String, Option, none, some, List, [], ◌∷◌, ◌++◌,
  map, length, take, drop, ltb, ◌==◌, if◌then◌else◌, bit_and, bit_or,
}
use kmsrdp.Pdu.Result.{Result, ok, err, invalid_value, ◌>>=◌}
use kmsrdp.Pdu.Cursor.{new, read_u32_le, read_rest, write_u32_le}
use kmsrdp.Pdu.X224.{wrap_data}
use kmsrdp.Pdu.Mcs.Domain.{SendData, send_data_indication, encode_send_data}

abbrev pub channel_flag_first : ℕ
channel_flag_first = 1

abbrev pub channel_flag_last : ℕ
channel_flag_last = 2

abbrev pub default_chunk_length : ℕ
default_chunk_length = 1600

-- `slice::chunks(n)`: each round takes a byte at least, so the length is fuel enough.
unfoldable pub chunks_loop : ℕ → ℕ → List ℕ → List (List ℕ)
chunks_loop fuel n [] = []
chunks_loop zero n (x ∷ xs) = []
chunks_loop (suc fuel) n (x ∷ xs) = take n (x ∷ xs) ∷ chunks_loop fuel n (drop n (x ∷ xs))

unfoldable pub chunks : ℕ → List ℕ → List (List ℕ)
unfolding chunks_loop
chunks n xs = chunks_loop (length xs) n xs

unfoldable pub chunk_flags : ℕ → ℕ → ℕ
chunk_flags i count =
    bit_or (if i == 0 then channel_flag_first else 0)
      (if i == count - 1 then channel_flag_last else 0)

unfoldable pub with_header : ℕ → ℕ → List ℕ → List ℕ
with_header total_length flags chunk = write_u32_le total_length ++ (write_u32_le flags ++ chunk)

-- The chunks from number `i` on.
unfoldable pub enumerate_chunks : ℕ → ℕ → ℕ → List (List ℕ) → List (List ℕ)
unfolding chunk_flags with_header
enumerate_chunks total_length count i [] = []
enumerate_chunks total_length count i (chunk ∷ rest) =
    with_header total_length (chunk_flags i count) chunk
    ∷ enumerate_chunks total_length count (i + 1) rest

unfoldable pub chunkify : List ℕ → List (List ℕ)
unfolding enumerate_chunks chunks
chunkify [] = with_header 0 (bit_or channel_flag_first channel_flag_last) [] ∷ []
chunkify (x ∷ xs) =
    let bytes = x ∷ xs in
    let count = (length bytes + (default_chunk_length - 1)) / default_chunk_length in
    enumerate_chunks (length bytes % 0x1_0000_0000) count 0 (chunks default_chunk_length bytes)

unfoldable pub wrap_indication : ℕ → ℕ → List ℕ → List (List ℕ)
wrap_indication initiator channel_id payload =
    map
      (λ chunk. wrap_data (
        encode_send_data send_data_indication (record {
          initiator = initiator;
          channel_id = channel_id;
          payload = chunk;
          complete = true;
        })))
      (chunkify payload)

unfoldable pub dechunkify : List ℕ → Result (ℕ × ℕ × List ℕ)
dechunkify input = do
  (total_length, c) ← read_u32_le (new input)
  (flags, c) ← read_u32_le c
  ok (total_length, flags, (read_rest c).0)

-- The buffer that a chunk is added to; `none` for a continuation without a first chunk.
unfoldable pub start_buffer : List ℕ → ℕ → Option (List ℕ)
start_buffer buffer flags =
    if bit_and flags channel_flag_first == 0
    then (elim buffer [ [] ↦ none | x ∷ xs ↦ some (x ∷ xs) ])
    else some []

-- The result, and the buffer that is left. Lengths of buffers in memory do not saturate a sum.
unfoldable pub add_chunk : List ℕ → ℕ → List ℕ → ℕ → String → Result (Option (List ℕ)) × List ℕ
add_chunk buffer flags chunk max_size field =
    if ltb max_size (length buffer + length chunk)
    then (err (invalid_value field "reassembled SVC message exceeded maximum allowed size"), [])
    else if bit_and flags channel_flag_last == 0
    then (ok none, buffer ++ chunk)
    else (ok (some (buffer ++ chunk)), [])

unfoldable pub reassemble_parts :
    List ℕ → Result (ℕ × ℕ × List ℕ) → ℕ → String → Result (Option (List ℕ)) × List ℕ
unfolding start_buffer add_chunk
reassemble_parts buffer (err e) max_size field = (err e, buffer)
reassemble_parts buffer (ok (_total_length, flags, chunk)) max_size field =
    elim (start_buffer buffer flags) [
      | none ↦ (ok none, [])
      | some started ↦ add_chunk started flags chunk max_size field
    ]

unfoldable pub reassemble : List ℕ → List ℕ → ℕ → String → Result (Option (List ℕ)) × List ℕ
unfolding reassemble_parts
reassemble buffer payload max_size field =
    reassemble_parts buffer (dechunkify payload) max_size field
