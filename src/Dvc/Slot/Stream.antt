-- ===== src/Dvc/Slot/Stream.antt =====
-- rdpcore-dvc, `encode_channel_payload` against `handle_incoming_data`: the frames of a payload.
use kmsrdp.Prelude.{
  ℕ, zero, suc, ◌+◌, ◌-◌, ◌%◌, ◌≤◌, ◌<◌, ◌≡◌, refl, ap, ◌∙◌, false, Option, none, some, List, [],
  ◌∷◌, ◌++◌, length, map, take, drop, leb, arith, length-append, length-take, length-drop, take_all,
  length-map, le→leb, List-cases, take-append-drop, Bool-cases, inl, inr, IsU32, All, append-nil,
  append_assoc,
}
use mathlib.Core.List.{flatten}
use kmsrdp.Pdu.Result.{Result, ok}
use kmsrdp.Pdu.Svc.{chunks, chunks_loop}
use kmsrdp.Pdu.Svc.Laws.{answers, flatten-chunks_loop}
use kmsrdp.Dvc.Pdu.{
  max_data_size, encode_data, encode_data_first, encode_channel_payload, split_frames,
  ClientMessage, channel_data, data_first, decode_client_message,
}
use kmsrdp.Dvc.Pdu.Laws.{decode-encode_data, decode-encode_data_first}
use kmsrdp.Dvc.Slot.{
  max_dvc_message_size, Reassembly, Answer, low_length, start_message, continue_message, take_in,
}

-- What a channel does with one frame of its data.
unfoldable pub receive_one : Reassembly → Result ClientMessage → Answer
receive_one reassembly (ok (channel_data channel_id bytes)) = take_in reassembly bytes none
receive_one reassembly (ok (data_first channel_id total_length bytes)) =
    take_in reassembly bytes (some total_length)
receive_one reassembly _ = (ok none, reassembly)

-- Its answers to a sequence of frames, and what is left in the end.
unfoldable pub receive : Reassembly → List (List ℕ) → List (Result (Option (List ℕ))) × Reassembly
receive reassembly [] = ([], reassembly)
receive reassembly (frame ∷ frames) =
    let step = receive_one reassembly (decode_client_message frame) in
    let rest = receive step.1 frames in (step.0 ∷ rest.0, rest.1)

receive-cons :
    (reassembly : Reassembly) (frame : List ℕ) (frames : List (List ℕ)) (answer : Answer)
    → receive_one reassembly (decode_client_message frame) ≡ answer
    → receive reassembly (frame ∷ frames)
      ≡ (answer.0 ∷ (receive answer.1 frames).0, (receive answer.1 frames).1)
unfolding receive
receive-cons reassembly frame frames answer e = rw e refl

continue_last :
    (buffered bytes : List ℕ)
    → length buffered + length bytes ≤ max_dvc_message_size
    → continue_message (some (length buffered + length bytes, buffered)) bytes
      ≡ (ok (some (buffered ++ bytes)), none)
unfolding continue_message low_length
continue_last buffered bytes h = ground (
  arith,
  length-append buffered bytes,
  take_all (length buffered + length bytes) (buffered ++ bytes)
      (omega (arith, length-append buffered bytes)),
)

continue_more :
    (total_length : ℕ) (buffered bytes : List ℕ)
    → total_length ≤ max_dvc_message_size
    → length buffered + length bytes < total_length
    → continue_message (some (total_length, buffered)) bytes
      ≡ (ok none, some (total_length, buffered ++ bytes))
unfolding continue_message low_length
continue_more total_length buffered bytes h k = ground (arith, length-append buffered bytes)

start_more :
    (reassembly : Reassembly) (bytes : List ℕ) (total_length : ℕ)
    → total_length ≤ max_dvc_message_size
    → length bytes < total_length
    → start_message reassembly bytes total_length ≡ (ok none, some (total_length, bytes))
unfolding start_message low_length
start_more reassembly bytes total_length h k = ground arith

-- Every chunk has a byte at least, and the chunks are the payload.
chunks_loop_full : (fuel : ℕ) (xs : List ℕ) → All (λ c. 0 < length c) (chunks_loop fuel 1590 xs)
unfolding chunks_loop
chunks_loop_full fuel [] = tt
chunks_loop_full zero (x ∷ xs) = tt
chunks_loop_full (suc fuel) (x ∷ xs) =
    (omega (arith, length-take 1590 (x ∷ xs)), chunks_loop_full fuel (drop 1590 (x ∷ xs)))

no_rest : (rest : List ℕ) → flatten {A = ℕ} [] ≡ rest → 0 < length rest → ⊥
unfolding flatten
no_rest [] e h = absurd (omega arith)
no_rest (x ∷ xs) e h = absurd (cc)

module _ (channel_id : ℕ) (wide : IsU32 channel_id) where
  receive_data :
      (reassembly : Reassembly) (bytes : List ℕ)
      → receive_one reassembly (decode_client_message (encode_data channel_id bytes))
        ≡ continue_message reassembly bytes
  unfolding receive_one take_in
  receive_data reassembly bytes = rw (decode-encode_data channel_id bytes wide) refl

  receive_first :
      (reassembly : Reassembly) (bytes : List ℕ) (total_length : ℕ)
      → IsU32 total_length
      → receive_one reassembly
          (decode_client_message (encode_data_first channel_id total_length bytes))
        ≡ start_message reassembly bytes total_length
  unfolding receive_one take_in
  receive_first reassembly bytes total_length h =
      rw (decode-encode_data_first channel_id total_length bytes wide h) refl

  receive_tail :
      (cs : List (List ℕ)) (c buffered : List ℕ) (total_length : ℕ)
      → All (λ d. 0 < length d) cs
      → length buffered + length (flatten (c ∷ cs)) ≡ total_length
      → total_length ≤ max_dvc_message_size
      → receive (some (total_length, buffered)) (map (encode_data channel_id) (c ∷ cs))
        ≡ (answers (length cs) (buffered ++ flatten (c ∷ cs)), none)
  unfolding flatten receive
  receive_tail [] c buffered total_length full e h =
      let size : total_length ≡ length buffered + length c = omega (arith, length-append c []) in
      rw (size, append-nil, receive_data, continue_last buffered c (omega arith)) refl
  receive_tail (d ∷ ds) c buffered total_length full e h =
      let size = length-append c (flatten (d ∷ ds)) in
      let size_d = length-append d (flatten ds) in
      let more = continue_more total_length buffered c h (omega (arith, size, size_d, full.0)) in
      let rest =
        receive_tail ds d (buffered ++ c) total_length full.1
          (omega (arith, size, length-append buffered c)) h in
      receive-cons (some (total_length, buffered)) (encode_data channel_id c)
        (map (encode_data channel_id) (d ∷ ds)) _ (receive_data _ c ∙ more)
      ∙ ap (λ r. (ok none ∷ r.0, r.1))
          (rest
            ∙ ap (λ m. (answers (length ds) m, none)) (append_assoc buffered c (flatten (d ∷ ds))))

  encode_small :
      (payload : List ℕ)
      → length payload ≤ max_data_size
      → encode_channel_payload channel_id payload ≡ encode_data channel_id payload ∷ []
  unfolding encode_channel_payload
  encode_small payload h = rw (le→leb (length payload) 1590 h) refl

  encode_large :
      (payload first : List ℕ) (rest : List (List ℕ))
      → max_data_size < length payload
      → length payload ≤ max_dvc_message_size
      → chunks max_data_size payload ≡ first ∷ rest
      → encode_channel_payload channel_id payload
        ≡ encode_data_first channel_id (length payload) first ∷ map (encode_data channel_id) rest
  unfolding encode_channel_payload split_frames
  encode_large payload first rest h k e =
      let over : leb (length payload) 1590 ≡ false = ground arith in
      let wide_length : length payload % 0x1_0000_0000 ≡ length payload = omega arith in
      rw (over, e, wide_length) refl

  receive_large :
      (x : ℕ) (xs d : List ℕ) (ds : List (List ℕ))
      → max_data_size < length (x ∷ xs)
      → length (x ∷ xs) ≤ max_dvc_message_size
      → chunks_loop (length xs) 1590 (drop 1590 (x ∷ xs)) ≡ d ∷ ds
      → All (λ c. 0 < length c) (d ∷ ds)
      → flatten (d ∷ ds) ≡ drop 1590 (x ∷ xs)
      → receive none (encode_channel_payload channel_id (x ∷ xs))
        ≡ (answers (length (encode_channel_payload channel_id (x ∷ xs)) - 1) (x ∷ xs), none)
  receive_large x xs d ds h k e full whole =
      let payload = x ∷ xs in
      let first = take 1590 payload in
      let shape : chunks max_data_size payload ≡ first ∷ (d ∷ ds) =
        unfold chunks in unfold chunks_loop in ap (λ r. first ∷ r) e in
      let frames = encode_large payload first (d ∷ ds) h k shape in
      let size = length-take 1590 payload in
      let size_rest = length-drop 1590 payload in
      let begins =
        receive_first none first (length payload) (omega arith)
        ∙ start_more none first (length payload) k (omega (arith, size)) in
      let tail =
        receive_tail ds d first (length payload) full.1
          (omega (arith, size, size_rest, ap (λ l. length {A = ℕ} l) whole)) k in
      let count : length (encode_channel_payload channel_id payload) - 1 ≡ suc (length ds) =
        rw (frames, length-map) (omega arith) in
      let joined : first ++ flatten (d ∷ ds) ≡ payload =
        ap (λ r. first ++ r) whole ∙ take-append-drop 1590 payload in
      let all : receive none (
            encode_data_first channel_id (length payload) first
            ∷ map (encode_data channel_id) (d ∷ ds))
          ≡ (ok none ∷ answers (length ds) payload, none) =
        receive-cons none (encode_data_first channel_id (length payload) first)
          (map (encode_data channel_id) (d ∷ ds)) _ begins
        ∙ ap (λ r. (ok none ∷ r.0, r.1)) (tail ∙ ap (λ m. (answers (length ds) m, none)) joined) in
      rw (count, frames) all

  receive_small :
      (payload : List ℕ)
      → length payload ≤ max_data_size
      → receive none (encode_channel_payload channel_id payload)
        ≡ (answers (length (encode_channel_payload channel_id payload) - 1) payload, none)
  unfolding receive continue_message
  receive_small payload h = rw (encode_small payload h, receive_data) refl

  -- For a 32-bit channel id and a payload of at most 16 MiB, the frames that
  -- encode_channel_payload makes, decoded and taken in by a channel with no message begun,
  -- answer with nothing until the last frame and then with the payload, and leave no message
  -- begun.
  pub receive-encode_channel_payload :
      (payload : List ℕ)
      → length payload ≤ max_dvc_message_size
      → receive none (encode_channel_payload channel_id payload)
        ≡ (answers (length (encode_channel_payload channel_id payload) - 1) payload, none)
  receive-encode_channel_payload [] h = receive_small [] (omega arith)
  receive-encode_channel_payload (x ∷ xs) h = elim (Bool-cases (leb (length (x ∷ xs)) 1590)) [
    | inl fits ↦ receive_small (x ∷ xs) (ground arith)
    | inr over ↦
        let rest = drop 1590 (x ∷ xs) in
        let size = length-drop 1590 (x ∷ xs) in
        let large : 1590 < length (x ∷ xs) = ground arith in
        let whole = flatten-chunks_loop 1590 (omega arith) (length xs) rest (omega (arith, size)) in
        let full = chunks_loop_full (length xs) rest in
        elim (List-cases (chunks_loop (length xs) 1590 rest)) [
          | inl nothing ↦ absurd (no_rest rest (rw nothing at whole) (omega (arith, size, large)))
          | inr (d, ds, e) ↦ receive_large x xs d ds large h e (rw e at full) (rw e at whole)
        ]
  ]
