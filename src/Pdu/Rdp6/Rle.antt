-- ===== src/Pdu/Rdp6/Rle.antt =====
-- crates/rdpcore-pdu/src/rdp6.rs: the run-length code of a scanline.
pub mod Laws
pub mod RoundTrip
use kmsrdp.Prelude.{
  ℕ, zero, suc, ◌+◌, ◌-◌, ◌*◌, ◌/◌, ◌%◌, ◌^◌, min, Bool, true, false, not, List, [], ◌∷◌, ◌++◌,
  length, drop, replicate, ltb, leb, ◌==◌, if◌then◌else◌, bit_and, bit_or,
}
use kmsrdp.Pdu.Result.{Result, ok, err, invalid_value, guard, ◌>>=◌, ◌>>◌}
use kmsrdp.Pdu.Cursor.{ReadCursor, read_u8}

-- `LiteralBuf::flush`, for the bytes in the buffer.
unfoldable pub flush : List ℕ → List ℕ
flush [] = []
flush (x ∷ xs) = (length (x ∷ xs) * 2 ^ 4 % 0x100) ∷ x ∷ xs

-- `LiteralBuf::push`: what is written, and what the buffer holds then.
unfoldable pub push : ℕ → List ℕ → List ℕ × List ℕ
push byte pending =
    let buffer = pending ++ byte ∷ [] in
    if length buffer == 15 then (flush buffer, []) else ([], buffer)

unfoldable pub push_all : ℕ → ℕ → List ℕ → List ℕ × List ℕ
push_all zero byte pending = ([], pending)
push_all (suc count) byte pending =
    let now = push byte pending in let rest = push_all count byte now.1 in (now.0 ++ rest.0, rest.1)

-- The loop of `emit_run`; each round takes one of `remaining` at least.
unfoldable pub emit_rest : ℕ → ℕ → ℕ → List ℕ
emit_rest zero byte remaining = []
emit_rest (suc fuel) byte remaining =
    let chunk = min remaining 15 in
    let rest = emit_rest fuel byte (remaining - chunk) in
    if remaining == 0
    then []
    else if leb 3 remaining
    then chunk ∷ rest
    else (remaining * 2 ^ 4 % 0x100) ∷ replicate remaining byte

unfoldable pub emit_run : ℕ → ℕ → List ℕ
emit_run byte count =
    let remaining = count - 1 in
    let first_run = min remaining 15 in
    bit_or (1 * 2 ^ 4) first_run ∷ byte ∷ emit_rest remaining byte (remaining - first_run)

-- How many more times the byte stands at the front.
unfoldable pub more_of : ℕ → List ℕ → ℕ
more_of byte [] = 0
more_of byte (x ∷ xs) = let rest = more_of byte xs in if x == byte then suc rest else 0

-- The outer loop; each round takes a byte at least.
unfoldable pub encode_loop : ℕ → List ℕ → List ℕ → List ℕ
encode_loop fuel pending [] = flush pending
encode_loop zero pending (x ∷ xs) = []
encode_loop (suc fuel) pending (x ∷ xs) =
    let more = more_of x xs in
    let count = suc more in
    let pushed = push_all count x pending in
    let short = encode_loop fuel pushed.1 (drop more xs) in
    let long = encode_loop fuel [] (drop more xs) in
    if ltb count 4 then pushed.0 ++ short else flush pending ++ (emit_run x count ++ long)

unfoldable pub encode_scanline_rle : List ℕ → List ℕ
encode_scanline_rle scanline = encode_loop (length scanline) [] scanline

-- `run_length` and `literal_count` of a control byte.
unfoldable pub segment : ℕ → ℕ × ℕ
segment control =
    let upper = control / 2 ^ 4 in
    let rle_field = bit_and control 0x0f in
    if rle_field == 1
    then (16 + upper, 0)
    else if rle_field == 2
    then (32 + upper, 0)
    else (rle_field, upper)

-- What is read so far: the bytes, the places that are left, the last byte and the cursor.
pub record Reading : Type 0 where
  pub bytes : List ℕ
  pub left : ℕ
  pub last_byte : ℕ
  pub cursor : ReadCursor

unfoldable pub read_literals : ℕ → ℕ → ℕ → ReadCursor → Result Reading
read_literals zero left last_byte c =
    ok (record { bytes = []; left = left; last_byte = last_byte; cursor = c })
read_literals (suc count) zero last_byte c =
    err (invalid_value "rdp6.rle.scanline" "segment overruns the scanline")
read_literals (suc count) (suc left) last_byte c = do
  (byte, c) ← read_u8 c
  r ← read_literals count left byte c
  ok (record r { bytes = byte ∷ r.bytes })

unfoldable pub with_bytes : List ℕ → Result (List ℕ × ReadCursor) → Result (List ℕ × ReadCursor)
with_bytes front (err e) = err e
with_bytes front (ok (bytes, c)) = ok (front ++ bytes, c)

-- One round of `while pos < scanline.len()`.
unfoldable pub read_segment : ℕ → ℕ → ReadCursor → Result Reading
unfolding segment
read_segment left last_byte c = do
  (control, c) ← read_u8 c
  guard (not (control == 0)) (invalid_value "rdp6.rle.control" "0x00 control byte is invalid")
  let (run_length, literal_count) = segment control
  r ← read_literals literal_count left last_byte c
  guard (leb run_length r.left) (invalid_value "rdp6.rle.scanline" "segment overruns the scanline")
  ok (record r { bytes = r.bytes ++ replicate run_length r.last_byte; left = r.left - run_length })

-- The loop, with the places that are left; each round fills one at least, so fuel as many as the
-- places is enough.
unfoldable pub decode_loop : ℕ → ℕ → ℕ → ReadCursor → Result (List ℕ × ReadCursor)
unfolding with_bytes
decode_loop fuel zero last_byte c = ok ([], c)
decode_loop zero (suc left) last_byte c = ok ([], c)
decode_loop (suc fuel) (suc left) last_byte c = do
  r ← read_segment (suc left) last_byte c
  with_bytes r.bytes (decode_loop fuel r.left r.last_byte r.cursor)

unfoldable pub decode_scanline_rle : ℕ → ReadCursor → Result (List ℕ × ReadCursor)
decode_scanline_rle width c = decode_loop width width 0 c
