-- ===== src/Pdu/Rdp6/Rle/RoundTrip.antt =====
-- rdp6.rs: what `encode_scanline_rle` writes, read back.
use kmsrdp.Prelude.{
  ℕ, zero, suc, ◌+◌, ◌-◌, ◌*◌, ◌%◌, ◌^◌, ◌≤◌, ◌<◌, ◌≡◌, refl, sym, ap, ◌∙◌, min, true, false, List,
  [], ◌∷◌, ◌++◌, length, drop, replicate, ltb, leb, ◌==◌, bit_or, arith, append-nil, append_assoc,
  length-append, length-replicate, length-drop, and_mask, or_shifted, Bool-cases, inl, inr,
}
use kmsrdp.Pdu.Result.{ok}
use kmsrdp.Pdu.Cursor.Laws.{at}
use kmsrdp.Pdu.Rdp6.Rle.{
  flush, push, push_all, emit_rest, emit_run, more_of, encode_loop, encode_scanline_rle, segment,
  with_bytes, decode_loop, decode_scanline_rle,
}
use kmsrdp.Pdu.Rdp6.Rle.Laws.{last_of, Codes, Codes-none, Codes-append, Codes-segment}

-- The pieces that the encoder writes.
segment_literals : (n : ℕ) → n < 16 → segment (n * 2 ^ 4 % 0x100) ≡ (0, n)
unfolding segment
segment_literals n h = ground (arith, and_mask 4 (n * 2 ^ 4 % 0x100))

segment_first : (n : ℕ) → 3 ≤ n → n < 16 → segment (bit_or (1 * 2 ^ 4) n) ≡ (n, 1)
unfolding segment
segment_first n h k =
    let byte : bit_or (1 * 2 ^ 4) n ≡ 16 + n = omega (arith, or_shifted 4 1 n k) in
    rw byte (ground (arith, and_mask 4 (16 + n)))

segment_more : (n : ℕ) → 3 ≤ n → n < 16 → segment n ≡ (n, 0)
unfolding segment
segment_more n h k = ground (arith, and_mask 4 n)

last_of_any : (a b x : ℕ) (xs : List ℕ) → last_of a (x ∷ xs) ≡ last_of b (x ∷ xs)
unfolding last_of
last_of_any a b x xs = refl

Codes-flush :
    (pending : List ℕ) (last : ℕ)
    → length pending < 16
    → Codes (flush pending) pending last (last_of last pending)
unfolding flush last_of
Codes-flush [] last h = Codes-none last
Codes-flush (x ∷ xs) last h =
    let n = length (x ∷ xs) in
    rw (append-nil) at
      (Codes-segment (n * 2 ^ 4 % 0x100) 0 (x ∷ xs) last (omega (arith, h)) (segment_literals n h))

last_of-replicate : (n byte : ℕ) → last_of byte (replicate n byte) ≡ byte
unfolding last_of
last_of-replicate zero byte = refl
last_of-replicate (suc n) byte = last_of-replicate n byte

replicate-add : (n m byte : ℕ) → replicate n byte ++ replicate m byte ≡ replicate (n + m) byte
replicate-add zero m byte = let same : 0 + m ≡ m = omega arith in rw same refl
replicate-add (suc n) m byte =
    let same : suc n + m ≡ suc (n + m) = omega arith in
    rw same (ap (λ r. byte ∷ r) (replicate-add n m byte))

later_fuel :
    (remaining fuel : ℕ)
    → remaining ≤ suc fuel
    → 3 ≤ remaining
    → remaining - min remaining 15 ≤ fuel
later_fuel remaining fuel h k = omega (arith, h, k)

first_pos : (n : ℕ) → n < 16 → 0 < bit_or (1 * 2 ^ 4) n
first_pos n h = omega (arith, or_shifted 4 1 n h)

Codes-emit_rest :
    (fuel byte remaining : ℕ)
    → remaining ≤ fuel
    → Codes (emit_rest fuel byte remaining) (replicate remaining byte) byte byte
unfolding emit_rest last_of
Codes-emit_rest zero byte remaining h =
    let none_left : remaining ≡ 0 = omega (arith, h) in rw none_left (Codes-none byte)
Codes-emit_rest (suc fuel) byte remaining h = elim (Bool-cases (remaining == 0)) [
  | inl done ↦
      let none_left : remaining ≡ 0 = ground arith in rw (done, none_left) (Codes-none byte)
  | inr more ↦ elim (Bool-cases (leb 3 remaining)) [
    | inl long ↦
        rw (more, long)
          (repeat (ground arith) (
            Codes-emit_rest fuel byte (remaining - min remaining 15)
              (later_fuel remaining fuel h (ground arith))))
    | inr short ↦ rw (more, short) (tail (ground arith) (ground arith))
  ]
]
  where
    tail :
        0 < remaining
        → remaining < 3
        → Codes
            ((remaining * 2 ^ 4 % 0x100) ∷ replicate remaining byte)
            (replicate remaining byte)
            byte
            byte
    tail k l =
        let size = length-replicate remaining byte in
        rw (append-nil, last_of-replicate remaining byte) at
          (Codes-segment (remaining * 2 ^ 4 % 0x100) 0 (replicate remaining byte) byte
            (omega (arith, k, l)) (rw size (segment_literals remaining (omega arith))))

    repeat :
        3 ≤ remaining
        → Codes
            (emit_rest fuel byte (remaining - min remaining 15))
            (replicate (remaining - min remaining 15) byte)
            byte
            byte
        → Codes
            (min remaining 15 ∷ emit_rest fuel byte (remaining - min remaining 15))
            (replicate remaining byte)
            byte
            byte
    repeat k rest =
        let chunk = min remaining 15 in
        let first =
          Codes-segment chunk chunk [] byte (omega (arith, k))
            (segment_more chunk (omega (arith, k)) (omega arith)) in
        let sum : chunk + (remaining - chunk) ≡ remaining = omega arith in
        let whole = replicate-add chunk (remaining - chunk) byte in
        rw (whole, sum) at
          (Codes-append (chunk ∷ []) (emit_rest fuel byte (remaining - chunk))
            (replicate chunk byte) (replicate (remaining - chunk) byte) byte byte byte first rest)

Codes-emit_run :
    (byte count last : ℕ) → 4 ≤ count → Codes (emit_run byte count) (replicate count byte) last byte
unfolding emit_run last_of
Codes-emit_run byte count last h =
    let first_run = min (count - 1) 15 in
    let rest_count = count - 1 - first_run in
    let first =
      Codes-segment (bit_or (1 * 2 ^ 4) first_run) first_run (byte ∷ []) last
        (first_pos first_run (omega arith))
        (segment_first first_run (omega (arith, h)) (omega arith)) in
    let rest = Codes-emit_rest (count - 1) byte rest_count (omega arith) in
    let sum : first_run + rest_count ≡ count - 1 = omega arith in
    let one : suc (count - 1) ≡ count = omega (arith, h) in
    let whole : replicate first_run byte ++ replicate rest_count byte ≡ replicate (count - 1) byte =
      replicate-add first_run rest_count byte ∙ ap (λ n. replicate n byte) sum in
    let all : (byte ∷ []) ++ (replicate first_run byte ++ replicate rest_count byte)
        ≡ replicate count byte =
      ap (λ r. byte ∷ r) whole ∙ ap (λ n. replicate n byte) one in
    rw (append_assoc, all) at (Codes-append _ _ _ _ last byte byte first rest)

-- What stands at the front of a scanline and after it.
more_of-drop :
    (byte : ℕ) (xs : List ℕ) → replicate (more_of byte xs) byte ++ drop (more_of byte xs) xs ≡ xs
unfolding more_of
more_of-drop byte [] = refl
more_of-drop byte (x ∷ xs) = ground (arith, more_of-drop byte xs)

-- What a push writes and keeps, after `pending` and before the bytes `more`.
record Pushed (pending more out kept : List ℕ) (last : ℕ) : Type 0 where
  bytes : List ℕ
  last' : ℕ
  codes : Codes out bytes last last'
  whole : bytes ++ kept ≡ pending ++ more
  small : length kept < 15

push_full :
    (byte : ℕ) (pending : List ℕ)
    → (length (pending ++ byte ∷ []) == 15) ≡ true
    → push byte pending ≡ (flush (pending ++ byte ∷ []), [])
unfolding push
push_full byte pending e = rw e refl

push_kept :
    (byte : ℕ) (pending : List ℕ)
    → (length (pending ++ byte ∷ []) == 15) ≡ false
    → push byte pending ≡ ([], pending ++ byte ∷ [])
unfolding push
push_kept byte pending e = rw e refl

push_all-Pushed :
    (count byte : ℕ) (pending : List ℕ) (last : ℕ)
    → length pending < 15
    → Pushed pending
        (replicate count byte)
        (push_all count byte pending).0
        (push_all count byte pending).1
        last
unfolding push_all
push_all-Pushed zero byte pending last h = record {
  bytes = [];
  last' = last;
  codes = Codes-none last;
  whole = sym (append-nil pending);
  small = h;
}
push_all-Pushed (suc count) byte pending last h =
    let buffer = pending ++ byte ∷ [] in
    let size = length-append pending (byte ∷ []) in
    let shift = append_assoc pending (byte ∷ []) (replicate count byte) in
    elim (Bool-cases (length buffer == 15)) [
      | inl full ↦
          let rest = push_all-Pushed count byte [] (last_of last buffer) (omega arith) in
          let head = Codes-flush buffer last (omega (arith, size, h)) in
          rw (push_full byte pending full) (record {
            bytes = buffer ++ rest.bytes;
            last' = rest.last';
            codes = Codes-append _ _ _ _ _ _ _ head rest.codes;
            whole = append_assoc buffer rest.bytes _ ∙ ap (λ r. buffer ++ r) rest.whole ∙ shift;
            small = rest.small;
          })
      | inr room ↦
          let rest = push_all-Pushed count byte buffer last (ground (arith, size, h, room)) in
          rw (push_kept byte pending room) (record {
            bytes = rest.bytes;
            last' = rest.last';
            codes = rest.codes;
            whole = rest.whole ∙ shift;
            small = rest.small;
          })
    ]

-- What the encoder writes for a pending buffer and the rest of a scanline.
abbrev Coded : List ℕ → List ℕ → ℕ → Type 0
Coded code bytes last = (last' : ℕ) × Codes code bytes last last'

length-more_of : (byte : ℕ) (xs : List ℕ) → more_of byte xs ≤ length xs
unfolding more_of
length-more_of byte [] = omega arith
length-more_of byte (x ∷ xs) = ground (arith, length-more_of byte xs)

Coded-encode_loop :
    (fuel : ℕ) (pending xs : List ℕ) (last : ℕ)
    → length pending < 15
    → length xs ≤ fuel
    → Coded (encode_loop fuel pending xs) (pending ++ xs) last
unfolding encode_loop
Coded-encode_loop fuel pending [] last h k =
    rw append-nil (last_of last pending, Codes-flush pending last (omega (arith, h)))
Coded-encode_loop zero pending (x ∷ xs) last h k = absurd (omega arith)
Coded-encode_loop (suc fuel) pending (x ∷ xs) last h k =
    let more = more_of x xs in
    let rest = drop more xs in
    let size : length rest ≤ fuel = omega (arith, length-drop more xs, k) in
    let split : replicate (suc more) x ++ rest ≡ x ∷ xs = ap (λ r. x ∷ r) (more_of-drop x xs) in
    elim (Bool-cases (ltb (suc more) 4)) [
      | inl short ↦
          let pushed = push_all-Pushed (suc more) x pending last h in
          let kept = (push_all (suc more) x pending).1 in
          let (last', later) = Coded-encode_loop fuel kept rest pushed.last' pushed.small size in
          let whole : pushed.bytes ++ (kept ++ rest) ≡ pending ++ (x ∷ xs) =
            sym (append_assoc pushed.bytes kept rest)
            ∙ ap (λ r. r ++ rest) pushed.whole
            ∙ append_assoc pending (replicate (suc more) x) rest
            ∙ ap (λ r. pending ++ r) split in
          rw (short, ← whole) (last', Codes-append _ _ _ _ _ _ _ pushed.codes later)
      | inr long ↦
          let (last', later) = Coded-encode_loop fuel [] rest x (omega arith) size in
          let run = Codes-emit_run x (suc more) (last_of last pending) (ground arith) in
          let head = Codes-flush pending last (omega (arith, h)) in
          rw (long, ← split)
            (last', Codes-append _ _ _ _ _ _ _ head (Codes-append _ _ _ _ _ _ _ run later))
    ]

-- Every scanline is decoded wherever its encoding stands, with the cursor behind it.
pub decode_scanline-encode_scanline :
    (f r scanline : List ℕ)
    → decode_scanline_rle (length scanline) (at f (encode_scanline_rle scanline ++ r))
      ≡ ok (scanline, at (f ++ encode_scanline_rle scanline) r)
unfolding decode_scanline_rle encode_scanline_rle Codes decode_loop with_bytes
decode_scanline-encode_scanline f r scanline =
    let (last', codes) =
      Coded-encode_loop (length scanline) [] scanline 0 (omega arith) (omega arith) in
    let none_left : length scanline + 0 ≡ length scanline = omega arith in
    rw (none_left, append-nil) at (codes f r 0)
