-- ===== src/Pdu/Rdp6/Rle/Laws.antt =====
-- rdp6.rs: the encoder of a scanline against its decoder.
use kmsrdp.Prelude.{
  ℕ, zero, suc, ◌+◌, ◌-◌, ◌≤◌, ◌<◌, ◌≡◌, refl, sym, ap, true, not, List, [], ◌∷◌, ◌++◌, length,
  replicate, leb, ◌==◌, arith, append-nil, append_assoc, length-append, length-replicate, and_mask,
  inl, inr,
}
use kmsrdp.Pdu.Result.{Result, ok, err, Result-cases, bind-ok, check-ok}
use kmsrdp.Pdu.Cursor.{ReadCursor, read_u8}
use kmsrdp.Pdu.Cursor.Laws.{at, read_u8-at}
use kmsrdp.Pdu.Rdp6.Rle.{segment, Reading, read_literals, with_bytes, read_segment, decode_loop}

with_bytes-append :
    (xs ys : List ℕ) (m : Result (List ℕ × ReadCursor))
    → with_bytes xs (with_bytes ys m) ≡ with_bytes (xs ++ ys) m
unfolding with_bytes
with_bytes-append xs ys (err e) = refl
with_bytes-append xs ys (ok (bytes, c)) = ap (λ b. ok (b, c)) (sym (append_assoc xs ys bytes))

-- The last of some bytes, or the one before them.
unfoldable pub last_of : ℕ → List ℕ → ℕ
last_of last [] = last
last_of last (x ∷ xs) = last_of x xs

-- Literals that are there are read.
read_literals-at :
    (bytes : List ℕ) (left last : ℕ) (f r : List ℕ)
    → read_literals (length bytes) (length bytes + left) last (at f (bytes ++ r))
      ≡ ok (record {
        bytes = bytes;
        left = left;
        last_byte = last_of last bytes;
        cursor = at (f ++ bytes) r;
      })
unfolding read_literals last_of
read_literals-at [] left last f r =
    let same : 0 + left ≡ left = omega arith in rw (same, append-nil) refl
read_literals-at (x ∷ xs) left last f r =
    let places : suc (length xs) + left ≡ suc (length xs + left) = omega arith in
    rw places (simp (read_u8-at, read_literals-at xs left x (f ++ x ∷ []) r, append_assoc))

-- Every byte read takes a place.
read_literals_left :
    (count left last : ℕ) (c : ReadCursor) (r : Reading)
    → read_literals count left last c ≡ ok r
    → r.left + count ≡ left
unfolding read_literals
read_literals_left zero left last c r e = omega (arith, ap_left e)
  where
    ap_left :
        ok (record { bytes = []; left = left; last_byte = last; cursor = c }) ≡ ok r → left ≡ r.left
    ap_left e = cc
read_literals_left (suc count) zero last c r e = absurd (cc)
read_literals_left (suc count) (suc left) last c r e =
    let ((byte, c'), first, later) = bind-ok (read_u8 c) _ r e in
    let (r', rest, shape) = bind-ok (read_literals count left byte c') _ r later in
    let same : r'.left ≡ r.left = cc in
    omega (arith, read_literals_left count left byte c' r' rest, same)

segment_pos : (control : ℕ) → 0 < control → 0 < (segment control).0 + (segment control).1
unfolding segment
segment_pos control h = ground (arith, and_mask 4 control)

nonzero_pos : (control : ℕ) → not (control == 0) ≡ true → 0 < control
nonzero_pos control h = ground arith

read_segment_less :
    (left last : ℕ) (c : ReadCursor) (r : Reading)
    → read_segment (suc left) last c ≡ ok r
    → r.left ≤ left
unfolding read_segment
read_segment_less left last c r e =
    let ((control, c'), first, later) = bind-ok (read_u8 c) _ r e in
    let (nonzero, later2) = check-ok (not (control == 0)) _ _ r later in
    let (r', rest, later3) =
      bind-ok (read_literals (segment control).1 (suc left) last c') _ r later2 in
    let (fits, shape) = check-ok (leb (segment control).0 r'.left) _ _ r later3 in
    let same : r'.left - (segment control).0 ≡ r.left = cc shape in
    let count = read_literals_left (segment control).1 (suc left) last c' r' rest in
    let moves = segment_pos control (nonzero_pos control nonzero) in
    omega (arith, same, count, moves)

decode_loop-enough :
    (fuel fuel' left last : ℕ) (c : ReadCursor)
    → left ≤ fuel
    → left ≤ fuel'
    → decode_loop fuel left last c ≡ decode_loop fuel' left last c
unfolding decode_loop
decode_loop-enough fuel fuel' zero last c h k = refl
decode_loop-enough zero fuel' (suc left) last c h k = absurd (omega arith)
decode_loop-enough (suc fuel) zero (suc left) last c h k = absurd (omega arith)
decode_loop-enough (suc fuel) (suc fuel') (suc left) last c h k =
    elim (Result-cases (read_segment (suc left) last c)) [
      | inl (error, e) ↦ rw e refl
      | inr (r, e) ↦
          let less = read_segment_less left last c r e in
          rw e (
            ap (with_bytes r.bytes) (
              decode_loop-enough fuel fuel' r.left r.last_byte r.cursor (omega arith)
                (omega arith)))
    ]

-- Decoding a scanline of any input gives the same with as much fuel as there are places left as
-- with any more, so the loop ends within that many rounds.
pub decode_loop-fuel :
    (fuel left last : ℕ) (c : ReadCursor)
    → left ≤ fuel
    → decode_loop fuel left last c ≡ decode_loop left left last c
decode_loop-fuel fuel left last c h = decode_loop-enough fuel left left last c h (omega arith)

-- The bytes that a piece of code gives, and the last byte then, from a last byte, wherever it
-- stands and whatever follows.
unfoldable pub Codes : List ℕ → List ℕ → ℕ → ℕ → Type 0
Codes code bytes last last' =
    (f r : List ℕ) (left : ℕ)
    → decode_loop (length bytes + left) (length bytes + left) last (at f (code ++ r))
      ≡ with_bytes bytes (decode_loop left left last' (at (f ++ code) r))

pub with_bytes-none : (m : Result (List ℕ × ReadCursor)) → with_bytes [] m ≡ m
unfolding with_bytes
with_bytes-none (err e) = refl
with_bytes-none (ok (bytes, c)) = refl

pub Codes-none : (last : ℕ) → Codes [] [] last last
unfolding Codes
Codes-none last f r left =
    let same : 0 + left ≡ left = omega arith in rw (same, append-nil, with_bytes-none) refl

pub Codes-append :
    (code code' bytes bytes' : List ℕ) (a b c : ℕ)
    → Codes code bytes a b
    → Codes code' bytes' b c
    → Codes (code ++ code') (bytes ++ bytes') a c
unfolding Codes
Codes-append code code' bytes bytes' a b c h k f r left =
    let size : length (bytes ++ bytes') + left ≡ length bytes + (length bytes' + left) =
      omega (arith, length-append bytes bytes') in
    rw
      (
        size,
        append_assoc code code' r,
        h f (code' ++ r) (length bytes' + left),
        k (f ++ code) r left,
        with_bytes-append,
        append_assoc,
      )
      refl

decode_step :
    (n last : ℕ) (c : ReadCursor) (r : Reading)
    → 0 < n
    → read_segment n last c ≡ ok r
    → decode_loop n n last c ≡ with_bytes r.bytes (decode_loop r.left r.left r.last_byte r.cursor)
unfolding decode_loop
decode_step zero last c r h e = absurd (omega arith)
decode_step (suc n) last c r h e =
    let less = read_segment_less n last c r e in
    rw e (ap (with_bytes r.bytes) (decode_loop-fuel n r.left r.last_byte r.cursor less))

read_segment-at :
    (control run : ℕ) (literals : List ℕ) (last left : ℕ) (f r : List ℕ)
    → 0 < control
    → segment control ≡ (run, length literals)
    → read_segment (length literals + (run + left)) last (at f (control ∷ (literals ++ r)))
      ≡ ok (record {
        bytes = literals ++ replicate run (last_of last literals);
        left = left;
        last_byte = last_of last literals;
        cursor = at (f ++ control ∷ literals) r;
      })
unfolding read_segment
read_segment-at control run literals last left f r h e =
    let nonzero : not (control == 0) ≡ true = ground arith in
    let fits : leb run (run + left) ≡ true = ground arith in
    let rest : run + left - run ≡ left = omega arith in
    simp (
      read_u8-at,
      nonzero,
      e,
      read_literals-at literals (run + left) last (f ++ control ∷ []) r,
      fits,
      rest,
      append_assoc,
    )

-- One segment: a control byte, its literals and the repeats of the last of them.
pub Codes-segment :
    (control run : ℕ) (literals : List ℕ) (last : ℕ)
    → 0 < control
    → segment control ≡ (run, length literals)
    → Codes
        (control ∷ literals)
        (literals ++ replicate run (last_of last literals))
        last
        (last_of last literals)
unfolding Codes
Codes-segment control run literals last h e f r left =
    let value = last_of last literals in
    let size : length (literals ++ replicate run value) + left ≡ length literals + (run + left) =
      omega (arith, length-append literals (replicate run value), length-replicate run value) in
    let moves : 0 < length literals + (run + left) =
      omega (arith, segment_pos control h, ap (λ p. p.0 + p.1) e) in
    rw size (
      decode_step (length literals + (run + left)) last (at f (control ∷ (literals ++ r))) _ moves
        (read_segment-at control run literals last left f r h e))
