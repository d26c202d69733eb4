-- ===== src/Pdu/Per/Laws.antt =====
-- per.rs: the writers against the readers.
use kmsrdp.Prelude.{
  ℕ, true, false, ◌+◌, ◌-◌, ◌*◌, ◌/◌, ◌%◌, ◌^◌, ◌≤◌, ◌<◌, ◌≡◌, refl, List, [], ◌∷◌, ◌++◌, length,
  arith, leb, ◌==◌, Bool-cases, inl, inr, append_assoc, bit_and, bit_or, or_shifted, or_high,
  and_mask, IsU16, IsU32, top_bit, replicate, length-append, length-replicate,
}
use native.Mathlib.Nat.{mod-eq_of_lt}
use kmsrdp.Pdu.Result.{ok}
use kmsrdp.Pdu.Cursor.{peek_slice, write_u16_be, write_u8}
use kmsrdp.Pdu.Cursor.Laws.{
  at, ensure-at, read_u16_be-at, read_slice-at, peek_slice-at, advance-at, cursor_laws,
}
use kmsrdp.Pdu.Per.{
  write_length, read_length, write_u32, read_u32, shift_in, fold_bytes, write_u16, read_u16,
  write_object_id, read_object_id, write_octet_string, read_octet_string, write_padding,
  read_padding,
}

long_form : (n : ℕ) → n < 0x8000 → bit_or (n % 0x1_0000) 0x8000 ≡ n + 0x8000
long_form n h = omega (arith, or_high 15 1 (n % 0x1_0000) (omega arith))

long_value : (n : ℕ) → n < 0x8000 → bit_and (n + 0x8000) 0x7fff ≡ n
long_value n h = omega (arith, and_mask 15 (n + 0x8000))

-- The first byte tells the forms apart.
short_flag : (n : ℕ) → n ≤ 0x7f → (bit_and n 0x80 == 0) ≡ true
short_flag n h = ground (arith, top_bit n)

long_flag : (n : ℕ) → n < 0x8000 → (bit_and ((n + 0x8000) / 0x100 % 0x100) 0x80 == 0) ≡ false
long_flag n h = ground (arith, top_bit ((n + 0x8000) / 0x100 % 0x100))

read_length_short :
    (f r : List ℕ) (n : ℕ)
    → n ≤ 0x7f
    → read_length (at f (write_u8 (n % 0x100) ++ r)) ≡ ok (n, at (f ++ write_u8 (n % 0x100)) r)
unfolding read_length write_u8
read_length_short f r n h =
    let low : n % 0x100 ≡ n = omega arith in
    rw low (simp (peek_slice-at f (n ∷ []) r 1 refl, short_flag n h, cursor_laws))

read_length_long :
    (f r : List ℕ) (n : ℕ)
    → n < 0x8000
    → read_length (at f (write_u16_be (n + 0x8000) ++ r))
      ≡ ok (n, at (f ++ write_u16_be (n + 0x8000)) r)
unfolding read_length
read_length_long f r n h =
    let v = n + 0x8000 in
    let peeked : peek_slice 1 (at f (write_u16_be v ++ r)) ≡ ok ((v / 0x100 % 0x100) ∷ []) =
      unfold write_u16_be in peek_slice-at f ((v / 0x100 % 0x100) ∷ []) ((v % 0x100) ∷ r) 1 refl in
    simp (peeked, long_flag n h, read_u16_be-at f r v (omega arith), long_value n h)

-- A length below 0x8000 is read back, in the short and in the long form.
pub read_length-write_length :
    (f r : List ℕ) (n : ℕ)
    → n < 0x8000
    → read_length (at f (write_length n ++ r)) ≡ ok (n, at (f ++ write_length n) r)
unfolding write_length write_u8
read_length-write_length f r n h = elim (Bool-cases (leb n 0x7f)) [
  | inl short ↦ rw short (read_length_short f r n (ground arith))
  | inr long ↦ rw (long, long_form n h) (read_length_long f r n h)
]

pub shift_in_lem : (w v b : ℕ) → b < 256 → v * 2 ^ 8 < 2 ^ w → shift_in w v b ≡ v * 256 + b
unfolding shift_in
shift_in_lem w v b h k = rw (mod-eq_of_lt k) (or_shifted 8 v b h)

-- The bytes of a number, most significant first, as `fold_bytes` reads them.
module _ (v : ℕ) where
  fold_one : v < 0x100 → fold_bytes 32 0 ((v % 0x100) ∷ []) ≡ v
  unfolding fold_bytes
  fold_one h = omega (arith, shift_in_lem 32 0 (v % 0x100))

  fold_two : v < 0x1_0000 → fold_bytes 32 0 (write_u16_be (v % 0x1_0000)) ≡ v
  unfolding fold_bytes write_u16_be
  fold_two h =
      let hi = v % 0x1_0000 / 0x100 % 0x100 in
      let lo = v % 0x1_0000 % 0x100 in
      rw
        (
          shift_in_lem 32 0 hi (omega arith) (omega arith),
          shift_in_lem 32 (0 * 256 + hi) lo (omega arith) (omega arith),
        )
        (omega arith)

  fold_four :
      IsU32 v
      → fold_bytes 32 0 (write_u16_be (v / 0x1_0000 % 0x1_0000) ++ write_u16_be (v % 0x1_0000)) ≡ v
  unfolding fold_bytes write_u16_be
  fold_four h =
      let b1 = v / 0x1_0000 % 0x1_0000 / 0x100 % 0x100 in
      let b2 = v / 0x1_0000 % 0x1_0000 % 0x100 in
      let b3 = v % 0x1_0000 / 0x100 % 0x100 in
      let b4 = v % 0x1_0000 % 0x100 in
      rw
        (
          shift_in_lem 32 0 b1 (omega arith) (omega arith),
          shift_in_lem 32 (0 * 256 + b1) b2 (omega arith) (omega arith),
          shift_in_lem 32 ((0 * 256 + b1) * 256 + b2) b3 (omega arith) (omega arith),
          shift_in_lem 32 (((0 * 256 + b1) * 256 + b2) * 256 + b3) b4 (omega arith) (omega arith),
        )
        (omega arith)

-- `read_u32` on a length and that many bytes.
read_u32_parts :
    (f s r : List ℕ) (n v : ℕ)
    → n < 0x8000
    → n ≡ length s
    → fold_bytes 32 0 s ≡ v
    → read_u32 (at f ((write_length n ++ s) ++ r)) ≡ ok (v, at (f ++ (write_length n ++ s)) r)
unfolding read_u32
read_u32_parts f s r n v h e folded = simp (
  append_assoc,
  read_length-write_length f (s ++ r) n h,
  read_slice-at (f ++ write_length n) s r n e,
  folded,
)

-- Every 32-bit number is read back from its PER form, wherever it stands, with the cursor behind
-- it.
pub read_u32-write_u32 :
    (f r : List ℕ) (v : ℕ)
    → IsU32 v
    → read_u32 (at f (write_u32 v ++ r)) ≡ ok (v, at (f ++ write_u32 v) r)
unfolding write_u32
read_u32-write_u32 f r v h = elim (Bool-cases (leb v 0xff)) [
  | inl one ↦
      rw one
        (read_u32_parts f ((v % 0x100) ∷ []) r 1 v (omega arith) refl (fold_one v (ground arith)))
  | inr more ↦ elim (Bool-cases (leb v 0xffff)) [
    | inl two ↦
        rw (more, two)
          (read_u32_parts f (write_u16_be (v % 0x1_0000)) r 2 v (omega arith)
            (unfold write_u16_be in refl) (fold_two v (ground arith)))
    | inr four ↦
        rw (more, four)
          (read_u32_parts f (write_u16_be (v / 0x1_0000 % 0x1_0000) ++ write_u16_be (v % 0x1_0000))
            r 4 v (omega arith) (unfold write_u16_be in refl) (fold_four v h))
  ]
]

-- Every 16-bit number is read back from its PER form at the same 16-bit lower bound, even one
-- above the number, wherever it stands, with the cursor behind it.
pub read_u16-write_u16 :
    (f r : List ℕ) (v least : ℕ)
    → least ≤ v
    → IsU16 v
    → IsU16 least
    → read_u16 least (at f (write_u16 v least ++ r)) ≡ ok (v, at (f ++ write_u16 v least) r)
unfolding read_u16 write_u16
read_u16-write_u16 f r v least asserted h k =
    let stored = (v + 0x1_0000 - least) % 0x1_0000 in
    rw (read_u16_be-at f r stored (omega arith)) (ground arith)

-- An octet string of at least `least` bytes is read back.
pub read_octet_string-write_octet_string :
    (f r bytes : List ℕ) (least : ℕ)
    → least ≤ length bytes
    → length bytes < least + 0x8000
    → read_octet_string least (at f (write_octet_string bytes least ++ r))
      ≡ ok (bytes, at (f ++ write_octet_string bytes least) r)
unfolding read_octet_string write_octet_string
read_octet_string-write_octet_string f r bytes least h k =
    let excess = length bytes - least in
    simp (
      append_assoc,
      read_length-write_length f (bytes ++ r) excess (omega arith),
      read_slice-at (f ++ write_length excess) bytes r (excess + least) (omega arith),
    )

-- An object identifier whose second number is below 40, and whose first two numbers fit one
-- byte, is read back, wherever it stands, with the cursor behind it.
pub read_object_id-write_object_id :
    (f r : List ℕ) (a b c d e g : ℕ)
    → b < 40
    → a * 40 + b < 256
    → read_object_id (at f (write_object_id a b c d e g ++ r))
      ≡ ok (a ∷ b ∷ c ∷ d ∷ e ∷ g ∷ [], at (f ++ write_object_id a b c d e g) r)
unfolding read_object_id write_object_id
read_object_id-write_object_id f r a b c d e g h k =
    let quotient : (a * 40 + b) / 40 ≡ a = omega arith in
    let remainder : (a * 40 + b) % 40 ≡ b = omega arith in
    simp (
      read_slice-at (f ++ 5 ∷ (a * 40 + b) ∷ []) (c ∷ d ∷ e ∷ g ∷ []) r 4 refl,
      quotient,
      remainder,
      cursor_laws,
    )

-- Padding is skipped, and only that.
pub read_padding-write_padding :
    (f r : List ℕ) (n : ℕ)
    → read_padding n (at f (write_padding n ++ r)) ≡ ok (tt, at (f ++ write_padding n) r)
unfolding read_padding write_padding
read_padding-write_padding f r n =
    let zeros : List ℕ = replicate n 0 in
    simp (
      ensure-at f (zeros ++ r) n
          (omega (arith, length-append zeros r, length-replicate {A = ℕ} n 0)),
      advance-at f zeros r n (omega (arith, length-replicate {A = ℕ} n 0)),
    )
