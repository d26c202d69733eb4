-- ===== src/Pdu/Svc/Bounds.antt =====
-- svc.rs, `reassemble`: the size of the buffer, and the branches.
use kmsrdp.Prelude.{
  ◌++◌, ◌⊎◌, ℕ, ◌+◌, ◌≤◌, ◌<◌, ◌≡◌, ◌≢◌, refl, String, Option, none, some, List, [], ◌∷◌, length,
  arith, length-append, bit_and, IsU32, ltb, ltb, ◌==◌, Bool-cases, inl, inr,
}
use kmsrdp.Pdu.Result.{Result, ok, err, invalid_value}
use kmsrdp.Pdu.Svc.{with_header, dechunkify, start_buffer, add_chunk, reassemble_parts, reassemble}
use kmsrdp.Pdu.Svc.Laws.{dechunkify-with_header}

-- The message that an answer completes, if it completes one, has at most `limit` bytes.
abbrev pub MessageFits : ℕ → Result (Option (List ℕ)) → Type 0
MessageFits limit (ok (some message)) = length message ≤ limit
MessageFits limit _ = Unit

module _ (max_size : ℕ) (field : String) where
  add_chunk_fits :
      (buffer : List ℕ) (flags : ℕ) (chunk : List ℕ)
      → (length (add_chunk buffer flags chunk max_size field).1 ≤ max_size)
        × MessageFits max_size (add_chunk buffer flags chunk max_size field).0
  unfolding add_chunk
  add_chunk_fits buffer flags chunk =
      elim (Bool-cases (ltb max_size (length buffer + length chunk))) [
        | inl over ↦ rw over (omega arith, tt)
        | inr fits ↦ elim (Bool-cases (bit_and flags 2 == 0)) [
          | inl more ↦ rw (fits, more) (ground (arith, length-append buffer chunk), tt)
          | inr done ↦ rw (fits, done) (omega arith, ground (arith, length-append buffer chunk))
        ]
      ]

  parts_fit :
      (buffer : List ℕ) (parts : Result (ℕ × ℕ × List ℕ))
      → length buffer ≤ max_size
      → (length (reassemble_parts buffer parts max_size field).1 ≤ max_size)
        × MessageFits max_size (reassemble_parts buffer parts max_size field).0
  unfolding reassemble_parts
  parts_fit buffer (err e) h = (h, tt)
  parts_fit buffer (ok (total, flags, chunk)) h =
      elim (start_buffer buffer flags)
        as (λ started.
          (length
              (elim started as (λ _. Result (Option (List ℕ)) × List ℕ) [
                | none ↦ (ok none, [])
                | some s ↦ add_chunk s flags chunk max_size field
              ]).1
            ≤ max_size)
          × MessageFits max_size
              (elim started as (λ _. Result (Option (List ℕ)) × List ℕ) [
                | none ↦ (ok none, [])
                | some s ↦ add_chunk s flags chunk max_size field
              ]).0) [ none ↦ (omega arith, tt) | some s ↦ add_chunk_fits s flags chunk ]

  -- Whatever the payload, a reassembly buffer within the limit stays within it, and so is a
  -- message that is handed out.
  pub reassemble_fits :
      (buffer payload : List ℕ)
      → length buffer ≤ max_size
      → (length (reassemble buffer payload max_size field).1 ≤ max_size)
        × MessageFits max_size (reassemble buffer payload max_size field).0
  unfolding reassemble
  reassemble_fits buffer payload h = parts_fit buffer (dechunkify payload) h

  -- A continuation that follows no first chunk is dropped.
  pub reassemble_orphan :
      (chunk : List ℕ) (total flags : ℕ)
      → IsU32 total
      → IsU32 flags
      → bit_and flags 1 ≡ 0
      → reassemble [] (with_header total flags chunk) max_size field ≡ (ok none, [])
  unfolding reassemble
  reassemble_orphan chunk total flags h k e =
      rw (dechunkify-with_header total flags chunk h k) (ground arith)

  -- A first chunk replaces whatever was left of an earlier message.
  pub reassemble_restart :
      (buffer chunk : List ℕ) (total flags : ℕ)
      → IsU32 total
      → IsU32 flags
      → bit_and flags 1 ≢ 0
      → reassemble buffer (with_header total flags chunk) max_size field
        ≡ reassemble [] (with_header total flags chunk) max_size field
  unfolding reassemble
  reassemble_restart buffer chunk total flags h k e =
      rw (dechunkify-with_header total flags chunk h k) (ground arith)

  -- A chunk with 32-bit header fields that goes on with a begun message is refused, and the
  -- buffer is cleared, if and only if the two are longer than the limit together; if not, the
  -- last chunk gives the message and clears the buffer, and any other stays in it.
  pub reassemble_begun :
      (x : ℕ) (buffer chunk : List ℕ) (total flags : ℕ)
      → IsU32 total
      → IsU32 flags
      → bit_and flags 1 ≡ 0
      → let result = reassemble (x ∷ buffer) (with_header total flags chunk) max_size field in
        let joined = x ∷ buffer ++ chunk in
        (result ≡ (
          err (invalid_value field "reassembled SVC message exceeded maximum allowed size"),
          [],
        )
          × (max_size < length joined))
        ⊎ ((length joined ≤ max_size)
            × ((result ≡ (ok (some joined), []) × (bit_and flags 2 ≢ 0))
                ⊎ (result ≡ (ok none, joined) × (bit_and flags 2 ≡ 0))))
  unfolding reassemble
  reassemble_begun x buffer chunk total flags h k e =
      let size = length-append (x ∷ buffer) chunk in
      rw (dechunkify-with_header total flags chunk h k)
        (elim (Bool-cases (ltb max_size (length (x ∷ buffer) + length chunk))) [
          | inl over ↦ inl (ground arith, ground (arith, size))
          | inr fits ↦ elim (Bool-cases (bit_and flags 2 == 0)) [
            | inl more ↦ inr (ground (arith, size), inr (ground arith, ground arith))
            | inr last ↦ inr (ground (arith, size), inl (ground arith, ground arith))
          ]
        ])

-- A first chunk with no body and a 32-bit total leaves an empty buffer, so the last chunk that
-- follows it is dropped without an error or a message.
pub empty_first_lost :
    (max_size : ℕ) (field : String) (buffer chunk : List ℕ) (total : ℕ)
    → IsU32 total
    → let begun = reassemble buffer (with_header total 1 []) max_size field in
      (begun ≡ (ok none, []))
      × (reassemble begun.1 (with_header total 2 chunk) max_size field ≡ (ok none, []))
unfolding reassemble
empty_first_lost max_size field buffer chunk total h =
    let first : reassemble buffer (with_header total 1 []) max_size field ≡ (ok none, []) =
      rw (dechunkify-with_header total 1 [] h (omega arith)) (ground arith) in
    (first, rw first (reassemble_orphan max_size field chunk total 2 h (omega arith) refl))
