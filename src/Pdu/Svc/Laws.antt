-- ===== src/Pdu/Svc/Laws.antt =====
-- svc.rs: `chunkify` against `reassemble`.
use kmsrdp.Prelude.{
  ℕ, zero, suc, ◌+◌, ◌-◌, ◌/◌, ◌%◌, ◌≤◌, ◌<◌, ◌≡◌, refl, ap, ◌∙◌, String, Option, none, some, List,
  [], ◌∷◌, ◌++◌, length, take, drop, replicate, arith, append_assoc, append-nil, length-append,
  length-drop, take-append-drop, IsU32,
}
use mathlib.Core.List.{flatten}
use kmsrdp.Pdu.Result.{Result, ok}
use kmsrdp.Pdu.Cursor.Laws.{new-at, cursor_laws}
use kmsrdp.Pdu.Svc.{
  chunks_loop, chunks, chunk_flags, with_header, enumerate_chunks, chunkify, dechunkify, reassemble,
  default_chunk_length,
}

-- A chunk's header is read back.
pub dechunkify-with_header :
    (total flags : ℕ) (chunk : List ℕ)
    → IsU32 total
    → IsU32 flags
    → dechunkify (with_header total flags chunk) ≡ ok (total, flags, chunk)
unfolding dechunkify with_header
dechunkify-with_header total flags chunk h k = simp (new-at, h, k, cursor_laws)

-- The reassembly of a sequence of payloads: each answer, and the buffer in the end.
module _ (max_size : ℕ) (field : String) where
  unfoldable pub feed : List ℕ → List (List ℕ) → List (Result (Option (List ℕ))) × List ℕ
  feed buffer [] = ([], buffer)
  feed buffer (p ∷ ps) =
      let step = reassemble buffer p max_size field in
      let rest = feed step.1 ps in (step.0 ∷ rest.0, rest.1)

  -- One payload whose answer is known.
  feed-cons :
      (buffer p buffer' : List ℕ) (ps : List (List ℕ)) (answer : Result (Option (List ℕ)))
      → reassemble buffer p max_size field ≡ (answer, buffer')
      → feed buffer (p ∷ ps) ≡ (answer ∷ (feed buffer' ps).0, (feed buffer' ps).1)
  unfolding feed
  feed-cons buffer p buffer' ps answer e = rw e

  feed-nil : (buffer : List ℕ) → feed buffer [] ≡ ([], buffer)
  unfolding feed
  feed-nil buffer = refl

  -- The four kinds of chunk, on a buffer that leaves them room.
  step_first :
      (buffer chunk : List ℕ) (total : ℕ)
      → IsU32 total
      → length chunk ≤ max_size
      → reassemble buffer (with_header total 1 chunk) max_size field ≡ (ok none, chunk)
  unfolding reassemble
  step_first buffer chunk total h k =
      rw (dechunkify-with_header total 1 chunk h (omega arith)) (ground arith)

  step_only :
      (buffer chunk : List ℕ) (total : ℕ)
      → IsU32 total
      → length chunk ≤ max_size
      → reassemble buffer (with_header total 3 chunk) max_size field ≡ (ok (some chunk), [])
  unfolding reassemble
  step_only buffer chunk total h k =
      rw (dechunkify-with_header total 3 chunk h (omega arith)) (ground arith)

  step_middle :
      (x : ℕ) (buffer chunk : List ℕ) (total : ℕ)
      → IsU32 total
      → length (x ∷ buffer) + length chunk ≤ max_size
      → reassemble (x ∷ buffer) (with_header total 0 chunk) max_size field
        ≡ (ok none, x ∷ (buffer ++ chunk))
  unfolding reassemble
  step_middle x buffer chunk total h k =
      rw (dechunkify-with_header total 0 chunk h (omega arith)) (ground arith)

  step_last :
      (x : ℕ) (buffer chunk : List ℕ) (total : ℕ)
      → IsU32 total
      → length (x ∷ buffer) + length chunk ≤ max_size
      → reassemble (x ∷ buffer) (with_header total 2 chunk) max_size field
        ≡ (ok (some (x ∷ (buffer ++ chunk))), [])
  unfolding reassemble
  step_last x buffer chunk total h k =
      rw (dechunkify-with_header total 2 chunk h (omega arith)) (ground arith)

flags_middle : (i count : ℕ) → 1 ≤ i → i + 1 < count → chunk_flags i count ≡ 0
unfolding chunk_flags
flags_middle i count h k = ground arith

flags_last : (i count : ℕ) → 1 ≤ i → i + 1 ≡ count → chunk_flags i count ≡ 2
unfolding chunk_flags
flags_last i count h k = ground arith

flags_first : (count : ℕ) → 2 ≤ count → chunk_flags 0 count ≡ 1
unfolding chunk_flags
flags_first count h = ground arith

-- What the payloads of `waiting + 1` chunks answer: nothing until the last.
abbrev pub answers : ℕ → List ℕ → List (Result (Option (List ℕ)))
answers waiting message = replicate waiting (ok none) ++ (ok (some message) ∷ [])

module _ (max_size : ℕ) (field : String) (total count : ℕ) (wide : IsU32 total) where
  feed_tail :
      (cs : List (List ℕ)) (c : List ℕ) (i x : ℕ) (buffer : List ℕ)
      → 1 ≤ i
      → i + (1 + length cs) ≡ count
      → length (x ∷ buffer) + length (flatten (c ∷ cs)) ≤ max_size
      → feed max_size field (x ∷ buffer) (enumerate_chunks total count i (c ∷ cs))
        ≡ (answers (length cs) (x ∷ (buffer ++ flatten (c ∷ cs))), [])
  unfolding enumerate_chunks flatten
  feed_tail [] c i x buffer h e room =
      let fits : length (x ∷ buffer) + length c ≤ max_size = omega (arith, length-append c []) in
      let step = step_last max_size field x buffer c total wide fits in
      rw (
        flags_last i count h (omega arith),
        feed-cons max_size field _ _ _ [] _ step,
        feed-nil max_size field [],
        append-nil c,
      )
  feed_tail (d ∷ ds) c i x buffer h e room =
      let size = length-append c (flatten (d ∷ ds)) in
      let step = step_middle max_size field x buffer c total wide (omega (arith, size)) in
      let rest = enumerate_chunks total count (i + 1) (d ∷ ds) in
      let ih =
        feed_tail ds d (i + 1) x (buffer ++ c) (omega arith) (omega arith)
          (omega (arith, size, length-append buffer c)) in
      rw (
        flags_middle i count h (omega arith),
        feed-cons max_size field _ _ _ rest _ step,
        ih,
        append_assoc buffer c (flatten (d ∷ ds)),
      )

module _ (n : ℕ) (pos : 0 < n) where
  pub flatten-chunks_loop :
      (fuel : ℕ) (xs : List ℕ) → length xs ≤ fuel → flatten (chunks_loop fuel n xs) ≡ xs
  unfolding chunks_loop flatten
  flatten-chunks_loop fuel [] h = refl
  flatten-chunks_loop zero (x ∷ xs) h = absurd (omega arith)
  flatten-chunks_loop (suc fuel) (x ∷ xs) h =
      rw (flatten-chunks_loop fuel (drop n (x ∷ xs)) (omega (arith, length-drop n (x ∷ xs))))
        (take-append-drop n (x ∷ xs))

length-chunks_loop :
    (fuel : ℕ) (xs : List ℕ)
    → length xs ≤ fuel
    → length (chunks_loop fuel 1600 xs) ≡ (length xs + 1599) / 1600
unfolding chunks_loop
length-chunks_loop fuel [] h = refl
length-chunks_loop zero (x ∷ xs) h = absurd (omega arith)
length-chunks_loop (suc fuel) (x ∷ xs) h =
    let rest = drop 1600 (x ∷ xs) in
    let size = length-drop 1600 (x ∷ xs) in
    omega (arith, length-chunks_loop fuel rest (omega (arith, size)), size)

-- The chunks of a message that is not empty: the first is not empty, and all of them together are the message.
record Split (xs : List ℕ) : Type 0 where
  head_byte : ℕ
  first : List ℕ
  others : List (List ℕ)
  shape : chunks default_chunk_length xs ≡ (head_byte ∷ first) ∷ others
  count : (length xs + 1599) / 1600 ≡ suc (length others)
  whole : head_byte ∷ (first ++ flatten others) ≡ xs

split_chunks : (x : ℕ) (xs : List ℕ) → Split (x ∷ xs)
unfolding chunks chunks_loop flatten
split_chunks x xs =
    let rest = drop 1599 xs in
    let size = length-drop 1599 xs in
    let fuel : length rest ≤ length xs = omega (arith, size) in
    record {
      head_byte = x;
      first = take 1599 xs;
      others = chunks_loop (length xs) 1600 rest;
      shape = refl;
      count = omega (arith, length-chunks_loop (length xs) rest fuel, size);
      whole =
          ap (λ r. x ∷ (take 1599 xs ++ r))
            (flatten-chunks_loop 1600 (omega arith) (length xs) rest fuel)
          ∙ ap (λ r. x ∷ r) (take-append-drop 1599 xs);
    }

length-enumerate_chunks :
    (total count i : ℕ) (cs : List (List ℕ))
    → length (enumerate_chunks total count i cs) ≡ length cs
unfolding enumerate_chunks
length-enumerate_chunks total count i [] = refl
length-enumerate_chunks total count i (c ∷ cs) =
    ap suc (length-enumerate_chunks total count (i + 1) cs)

module _ (max_size : ℕ) (field : String) (total : ℕ) (wide : IsU32 total) where
  feed_all :
      (x : ℕ) (buffer first : List ℕ) (others : List (List ℕ))
      → length (x ∷ first) + length (flatten others) ≤ max_size
      → feed max_size field buffer
          (enumerate_chunks total (suc (length others)) 0 ((x ∷ first) ∷ others))
        ≡ (answers (length others) (x ∷ (first ++ flatten others)), [])
  unfolding enumerate_chunks flatten
  feed_all x buffer first [] room =
      let only : chunk_flags 0 1 ≡ 3 = unfold chunk_flags in refl in
      let step = step_only max_size field buffer (x ∷ first) total wide (omega arith) in
      rw (
        only,
        feed-cons max_size field _ _ _ [] _ step,
        feed-nil max_size field [],
        append-nil first,
      )
  feed_all x buffer first (d ∷ ds) room =
      let count = suc (length (d ∷ ds)) in
      let rest = enumerate_chunks total count 1 (d ∷ ds) in
      let step = step_first max_size field buffer (x ∷ first) total wide (omega arith) in
      let tail =
        feed_tail max_size field total count wide ds d 1 x first (omega arith) (omega arith) room in
      rw (flags_first count (omega arith), feed-cons max_size field _ _ _ rest _ step, tail)

abbrev low32 : ℕ → ℕ
low32 n = n % 0x1_0000_0000

chunkify-split :
    (x : ℕ) (xs : List ℕ)
    → let s = split_chunks x xs in
      chunkify (x ∷ xs)
      ≡ enumerate_chunks
          (low32 (length (x ∷ xs)))
          (suc (length s.others))
          0
          ((s.head_byte ∷ s.first) ∷ s.others)
unfolding chunkify
chunkify-split x xs =
    let s = split_chunks x xs in
    ap (λ cs. enumerate_chunks (low32 (length (x ∷ xs))) ((length (x ∷ xs) + 1599) / 1600) 0 cs)
      s.shape
    ∙ ap (λ n. enumerate_chunks (low32 (length (x ∷ xs))) n 0 ((s.head_byte ∷ s.first) ∷ s.others))
        s.count

-- If a message is within the limit, reassembling the payloads that chunkify makes of it, from
-- any buffer left over, answers with nothing until the last payload and then with the message,
-- and leaves the buffer empty.
pub feed-chunkify :
    (max_size : ℕ) (field : String) (buffer message : List ℕ)
    → length message ≤ max_size
    → feed max_size field buffer (chunkify message)
      ≡ (answers (length (chunkify message) - 1) message, [])
feed-chunkify max_size field buffer [] h =
    unfold chunkify in
    rw (
      feed-cons max_size field _ _ _ [] _
          (step_only max_size field buffer [] 0 (omega arith) (omega arith)),
      feed-nil max_size field [],
    )
feed-chunkify max_size field buffer (x ∷ xs) h =
    let s = split_chunks x xs in
    let room : length (s.head_byte ∷ s.first) + length (flatten s.others) ≤ max_size =
      omega (arith, ap (λ l. length {A = ℕ} l) s.whole, length-append s.first (flatten s.others)) in
    let size : length (chunkify (x ∷ xs)) - 1 ≡ length s.others =
      rw (chunkify-split x xs, length-enumerate_chunks) (omega arith) in
    rw (
      size,
      chunkify-split x xs,
      feed_all max_size field (low32 (length (x ∷ xs))) (omega arith) s.head_byte buffer s.first
          s.others room,
      s.whole,
    )
