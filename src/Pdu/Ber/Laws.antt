-- ===== src/Pdu/Ber/Laws.antt =====
-- ber.rs: the writers against the readers.
use kmsrdp.Prelude.{
  ℕ, if◌then◌else◌, true, false, not, ◌+◌, ◌*◌, ◌/◌, ◌%◌, ◌^◌, ◌<◌, ◌≡◌, refl, List, [], ◌∷◌, ◌++◌,
  length, arith, leb, ltb, ◌==◌, ==_self, ◌∙◌, Bool, Bool-cases, inl, inr, append_assoc, IsU16,
  IsU32,
}
use kmsrdp.Pdu.Result.{Result, ok}
use kmsrdp.Pdu.Cursor.{ReadCursor, write_u16_be}
use kmsrdp.Pdu.Cursor.Laws.{at, read_u16_be-at, read_slice-at, cursor_laws}
use kmsrdp.Pdu.Per.{fold_bytes}
use kmsrdp.Pdu.Per.Laws.{shift_in_lem}
use kmsrdp.Pdu.Ber.{
  write_length, read_length, write_application_tag, read_application_tag, write_sequence_tag,
  read_sequence_tag, integer_bytes, integer_size, write_integer, bad_integer, read_integer,
  write_boolean, read_boolean, write_enumerated, read_enumerated, write_octet_string,
  read_octet_string,
}

-- Every 16-bit length is read back in its BER form, wherever it stands, with the cursor behind
-- it.
pub read_length-write_length :
    (f r : List ℕ) (n : ℕ)
    → IsU16 n
    → read_length (at f (write_length n ++ r)) ≡ ok (n, at (f ++ write_length n) r)
unfolding read_length write_length
read_length-write_length f r n h = elim (Bool-cases (leb n 0x7f)) [
  | inl short ↦
      let low : n % 0x100 ≡ n = ground arith in rw (short, low) (simp (short, cursor_laws))
  | inr more ↦ elim (Bool-cases (leb n 0xff)) [
    | inl one ↦ let low : n % 0x100 ≡ n = ground arith in rw (more, one, low) (simp cursor_laws)
    | inr two ↦
        let low : n % 0x1_0000 ≡ n = ground arith in
        rw (more, two, low) (simp (read_u16_be-at (f ++ 0x82 ∷ []) r n h, cursor_laws))
  ]
]

-- The bytes of an integer give it back, in each of the five sizes.
fold_step :
    (v b : ℕ) (s : List ℕ) {n : ℕ}
    → b < 256
    → v * 2 ^ 8 < 2 ^ 64
    → v * 256 + b ≡ n
    → fold_bytes 64 v (b ∷ s) ≡ fold_bytes 64 n s
unfolding fold_bytes
fold_step v b s h k e = rw (shift_in_lem 64 v b h k, e)

fold_nil : (v : ℕ) → fold_bytes 64 v [] ≡ v
unfolding fold_bytes
fold_nil v = refl

fold_low :
    (v q : ℕ)
    → q * 0x1_0000 + v % 0x1_0000 ≡ v
    → IsU32 v
    → fold_bytes 64 q (write_u16_be (v % 0x1_0000)) ≡ v
unfolding write_u16_be
fold_low v q e h =
    fold_step q (v % 0x1_0000 / 0x100 % 0x100) _ {n = v / 0x100} (omega arith) (omega arith)
      (omega arith)
    ∙ fold_step (v / 0x100) (v % 0x1_0000 % 0x100) _ {n = v} (omega arith) (omega arith)
        (omega arith)
    ∙ fold_nil v

fold_high :
    (v : ℕ) (s : List ℕ)
    → IsU32 v
    → fold_bytes 64 0 (write_u16_be (v / 0x1_0000 % 0x1_0000) ++ s) ≡ fold_bytes 64 (v / 0x1_0000) s
unfolding write_u16_be
fold_high v s h =
    fold_step 0 (v / 0x1_0000 % 0x1_0000 / 0x100 % 0x100) _ {n = v / 0x100_0000} (omega arith)
      (omega arith) (omega arith)
    ∙ fold_step (v / 0x100_0000) (v / 0x1_0000 % 0x1_0000 % 0x100) _ {n = v / 0x1_0000}
        (omega arith) (omega arith) (omega arith)

-- What `read_integer` asks of the content of an INTEGER.
record Content (v : ℕ) (s : List ℕ) (n : ℕ) : Type 0 where
  size : n ≡ length s
  small : n < 6
  good : bad_integer s ≡ false
  value : fold_bytes 64 0 s ≡ v

integer-Content : (v : ℕ) → IsU32 v → Content v (integer_bytes v) (integer_size v)
unfolding integer_bytes integer_size bad_integer
integer-Content v h = elim (Bool-cases (ltb v 0x80)) [
  | inl one ↦ rw one (record {
    size = refl;
    small = omega arith;
    good = refl;
    value =
        fold_step 0 (v % 0x100) [] {n = v} (omega arith) (omega arith) (ground arith) ∙ fold_nil v;
  })
  | inr m1 ↦ elim (Bool-cases (ltb v 0x8000)) [
    | inl two ↦
        rw (m1, two)
          (record {
            size = unfold write_u16_be in refl;
            small = omega arith;
            good = unfold write_u16_be in refl;
            value = fold_low v 0 (ground arith) h;
          })
    | inr m2 ↦ elim (Bool-cases (ltb v 0x80_0000)) [
      | inl three ↦
          rw (m1, m2, three)
            (record {
              size = unfold write_u16_be in refl;
              small = omega arith;
              good = unfold write_u16_be in refl;
              value =
                  fold_step 0 (v / 0x1_0000 % 0x100) _ {n = v / 0x1_0000} (omega arith)
                    (omega arith) (ground arith)
                  ∙ fold_low v (v / 0x1_0000) (omega arith) h;
            })
      | inr m3 ↦ elim (Bool-cases (ltb v 0x8000_0000)) [
        | inl four ↦
            rw (m1, m2, m3, four)
              (record {
                size = unfold write_u16_be in refl;
                small = omega arith;
                good = unfold write_u16_be in refl;
                value = fold_high v _ h ∙ fold_low v (v / 0x1_0000) (omega arith) h;
              })
        | inr five ↦
            rw (m1, m2, m3, five)
              (record {
                size = unfold write_u16_be in refl;
                small = omega arith;
                good = unfold write_u16_be in refl;
                value =
                    fold_step 0 0 _ {n = 0} (omega arith) (omega arith) refl
                    ∙ fold_high v _ h
                    ∙ fold_low v (v / 0x1_0000) (omega arith) h;
              })
      ]
    ]
  ]
]

-- Every 32-bit number is read back from its BER INTEGER, wherever it stands, with the cursor
-- behind it.
pub read_integer-write_integer :
    (f r : List ℕ) (v : ℕ)
    → IsU32 v
    → read_integer (at f (write_integer v ++ r)) ≡ ok (v, at (f ++ write_integer v) r)
unfolding read_integer write_integer
read_integer-write_integer f r v h =
    let c = integer-Content v h in
    let n = integer_size v in
    let s = integer_bytes v in
    let front = f ++ 0x02 ∷ [] in
    let below : ltb v 0x1_0000_0000 ≡ true = ground arith in
    simp (
      append_assoc,
      ==_self,
      read_length-write_length front (s ++ r) n (omega (arith, c.small)),
      read_slice-at (f ++ 0x02 ∷ write_length n) s r n c.size,
      c.good,
      c.value,
      below,
      cursor_laws,
    )

pub read_boolean-write_boolean :
    (f r : List ℕ) (b : Bool)
    → read_boolean (at f (write_boolean b ++ r)) ≡ ok (b, at (f ++ write_boolean b) r)
unfolding read_boolean write_boolean
read_boolean-write_boolean f r b =
    let v : ℕ = if b then 0xff else 0 in
    simp
      (
        append_assoc,
        read_length-write_length (f ++ 0x01 ∷ []) (v ∷ r) 1 (omega arith),
        read_slice-at (f ++ 0x01 ∷ write_length 1) (v ∷ []) r 1 refl,
        cursor_laws,
      )
      (elim b
        as (λ b.
          Path (Result (Bool × ReadCursor))
            (ok (
              not ((if b then 0xff else 0) == 0),
              at (f ++ 0x01 ∷ (write_length 1 ++ (if b then 0xff else 0) ∷ [])) r,
            ))
            (ok (b, at (f ++ 0x01 ∷ (write_length 1 ++ (if b then 0xff else 0) ∷ [])) r))) [
              | true ↦ refl
              | false ↦ refl
            ])

pub read_enumerated-write_enumerated :
    (f r : List ℕ) (v : ℕ)
    → read_enumerated (at f (write_enumerated v ++ r)) ≡ ok (v, at (f ++ write_enumerated v) r)
unfolding read_enumerated write_enumerated
read_enumerated-write_enumerated f r v = simp (
  append_assoc,
  read_length-write_length (f ++ 0x0a ∷ []) (v ∷ r) 1 (omega arith),
  read_slice-at (f ++ 0x0a ∷ write_length 1) (v ∷ []) r 1 refl,
  cursor_laws,
)

-- A BER OCTET STRING of fewer than 65536 bytes is read back, wherever it stands, with the cursor
-- behind it.
pub read_octet_string-write_octet_string :
    (f r bytes : List ℕ)
    → IsU16 (length bytes)
    → read_octet_string (at f (write_octet_string bytes ++ r))
      ≡ ok (bytes, at (f ++ write_octet_string bytes) r)
unfolding read_octet_string write_octet_string
read_octet_string-write_octet_string f r bytes h =
    let front = f ++ 0x04 ∷ [] in
    simp (
      append_assoc,
      read_length-write_length front (bytes ++ r) (length bytes) h,
      read_slice-at (f ++ 0x04 ∷ write_length (length bytes)) bytes r (length bytes) refl,
      cursor_laws,
    )

-- A tag and the length behind it are read back.
pub read_sequence_tag-write_sequence_tag :
    (f r : List ℕ) (n : ℕ)
    → IsU16 n
    → read_sequence_tag (at f (write_sequence_tag n ++ r))
      ≡ ok (n, at (f ++ write_sequence_tag n) r)
unfolding read_sequence_tag write_sequence_tag
read_sequence_tag-write_sequence_tag f r n h =
    simp (append_assoc, read_length-write_length (f ++ 0x30 ∷ []) r n h, cursor_laws)

pub read_application_tag-write_application_tag :
    (f r : List ℕ) (tag n : ℕ)
    → IsU16 n
    → read_application_tag tag (at f (write_application_tag tag n ++ r))
      ≡ ok (n, at (f ++ write_application_tag tag n) r)
unfolding read_application_tag write_application_tag
read_application_tag-write_application_tag f r tag n h =
    simp (append_assoc, ==_self, read_length-write_length (f ++ 0x7f ∷ tag ∷ []) r n h, cursor_laws)
