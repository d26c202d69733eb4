-- ===== src/Pdu/Svc/Frames.antt =====
-- svc.rs, `wrap_indication`: TPKT, TPDU, Send Data and chunk header around a message.
use kmsrdp.Prelude.{
  ℕ, suc, zero, ◌+◌, ◌/◌, ◌%◌, ◌≤◌, ◌≡◌, refl, true, List, [], ◌∷◌, map, length, drop, All, arith,
  length-take, IsU16,
}
use mathlib.Core.Path.{ap₂}
use kmsrdp.Pdu.Result.{Result, ok, ◌>>=◌}
use kmsrdp.Pdu.Cursor.{write_u32_le}
use kmsrdp.Pdu.X224.{wrap_data, unwrap_data}
use kmsrdp.Pdu.X224.Laws.{unwrap_data-wrap_data}
use kmsrdp.Pdu.Mcs.Domain.{SendData, send_data_indication, encode_send_data, decode_send_data_bytes}
use kmsrdp.Pdu.Mcs.Domain.Laws.{IsUserId, decode_send_data_bytes-encode_send_data}
use kmsrdp.Pdu.Svc.{chunks_loop, chunks, with_header, enumerate_chunks, chunkify, wrap_indication}

-- What a client takes from one frame.
unfoldable pub unwrap_indication : List ℕ → Result SendData
unwrap_indication frame = do
  payload ← unwrap_data frame
  decode_send_data_bytes send_data_indication payload

chunks_loop_small : (fuel : ℕ) (xs : List ℕ) → All (λ c. length c ≤ 1600) (chunks_loop fuel 1600 xs)
unfolding chunks_loop
chunks_loop_small fuel [] = tt
chunks_loop_small zero (x ∷ xs) = tt
chunks_loop_small (suc fuel) (x ∷ xs) =
    (omega (arith, length-take 1600 (x ∷ xs)), chunks_loop_small fuel (drop 1600 (x ∷ xs)))

enumerate_chunks_small :
    (total count i : ℕ) (cs : List (List ℕ))
    → All (λ c. length c ≤ 1600) cs
    → All (λ c. length c ≤ 1608) (enumerate_chunks total count i cs)
unfolding enumerate_chunks with_header write_u32_le
enumerate_chunks_small total count i [] h = tt
enumerate_chunks_small total count i (c ∷ cs) h =
    (omega arith, enumerate_chunks_small total count (i + 1) cs h.1)

-- Every chunk of every message has at most 1608 bytes, its header of 8 included.
pub chunkify_small : (message : List ℕ) → All (λ c. length c ≤ 1608) (chunkify message)
unfolding chunkify chunks
chunkify_small [] = unfold with_header write_u32_le in (omega arith, tt)
chunkify_small (x ∷ xs) =
    enumerate_chunks_small (length (x ∷ xs) % 0x1_0000_0000) ((length (x ∷ xs) + 1599) / 1600) 0
      (chunks_loop (length (x ∷ xs)) 1600 (x ∷ xs)) (chunks_loop_small (length (x ∷ xs)) (x ∷ xs))

abbrev indication : ℕ → ℕ → List ℕ → SendData
indication initiator channel_id chunk = record {
  initiator = initiator;
  channel_id = channel_id;
  payload = chunk;
  complete = true;
}

wrap_one : ℕ → ℕ → List ℕ → List ℕ
wrap_one initiator channel_id chunk =
    wrap_data (encode_send_data send_data_indication (indication initiator channel_id chunk))

unwrap_one :
    (initiator channel_id : ℕ) (c : List ℕ)
    → IsUserId initiator
    → IsU16 channel_id
    → length c ≤ 1608
    → unwrap_indication (wrap_one initiator channel_id c) ≡ ok (indication initiator channel_id c)
unfolding unwrap_indication wrap_one
unwrap_one initiator channel_id c hi hc h = simp (
  unwrap_data-wrap_data,
  decode_send_data_bytes-encode_send_data send_data_indication (indication initiator channel_id c)
      hi hc (omega arith),
)

unwrap-All :
    (initiator channel_id : ℕ) (cs : List (List ℕ))
    → IsUserId initiator
    → IsU16 channel_id
    → All (λ c. length c ≤ 1608) cs
    → map unwrap_indication (map (wrap_one initiator channel_id) cs)
      ≡ map (λ c. ok (indication initiator channel_id c)) cs
unwrap-All initiator channel_id [] hi hc h = refl
unwrap-All initiator channel_id (c ∷ cs) hi hc h =
    ap₂ (λ a b. a ∷ b) (unwrap_one initiator channel_id c hi hc h.0)
      (unwrap-All initiator channel_id cs hi hc h.1)

-- For 16-bit ids, the initiator at least 1001, each frame of wrap_indication, taken out of its
-- TPKT, X.224 and MCS headers, is a complete Send Data Indication with those ids, and the
-- payloads are the chunks of the message in their order.
pub unwrap_indication-wrap_indication :
    (initiator channel_id : ℕ) (message : List ℕ)
    → IsUserId initiator
    → IsU16 channel_id
    → map unwrap_indication (wrap_indication initiator channel_id message)
      ≡ map
          (λ c. ok (record {
            initiator = initiator;
            channel_id = channel_id;
            payload = c;
            complete = true;
          }))
          (chunkify message)
unfolding wrap_indication wrap_one
unwrap_indication-wrap_indication initiator channel_id message hi hc =
    unwrap-All initiator channel_id (chunkify message) hi hc (chunkify_small message)
