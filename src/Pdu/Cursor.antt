-- ===== src/Pdu/Cursor.antt =====
-- crates/rdpcore-pdu/src/cursor.rs: `ReadCursor` and `WriteBuf`.
-- A read returns its value and the moved cursor. A writer is the bytes that it appends.
pub mod Laws
use kmsrdp.Prelude.{
  ℕ, ◌+◌, ◌-◌, ◌*◌, ◌/◌, ◌%◌, ◌≤◌, Bool, List, [], ◌∷◌, ◌++◌, String, length, get_or, take, drop,
  min, ltb, leb, if◌then◌else◌,
}
use kmsrdp.Pdu.Result.{
  Result, ok, err, DecodeError, not_enough_bytes, invalid_value, ◌>>=◌, ◌>>◌, guard,
}

pub record ReadCursor : Type 0 where
  pub buf : List ℕ
  pub pos : ℕ

unfoldable pub new : List ℕ → ReadCursor
new buf = record { buf = buf; pos = 0 }

unfoldable pub remaining : ReadCursor → ℕ
remaining c = length c.buf - c.pos

unfoldable pub ensure : ℕ → ReadCursor → Result (Unit {0})
unfolding remaining
ensure needed c =
    if ltb (remaining c) needed then err (not_enough_bytes needed (remaining c)) else ok tt

-- usize is 64 bits wide.
unfoldable pub ensure_count : ℕ → ℕ → String → ReadCursor → Result (Unit {0})
unfolding ensure
ensure_count count min_item_bytes field c =
    if ltb (count * min_item_bytes) 0x1_0000_0000_0000_0000
    then ensure (count * min_item_bytes) c
    else err (invalid_value field "count overflow")

-- A saturated sum is cut to the buffer's length all the same.
unfoldable pub advance : ℕ → ReadCursor → ReadCursor
advance n c = record c { pos = min (c.pos + n) (length c.buf) }

-- The byte `offset` places ahead. It is read only after `ensure`, which rules the default out.
unfoldable pub byte_at : ReadCursor → ℕ → ℕ
byte_at c offset = get_or c.buf (c.pos + offset) 0

abbrev moved : ℕ → ReadCursor → ReadCursor
moved n c = record c { pos = c.pos + n }

unfoldable pub peek_u16_be : ReadCursor → Result ℕ
unfolding ensure byte_at
peek_u16_be c = do ensure 2 c; ok (byte_at c 0 * 0x100 + byte_at c 1)

unfoldable pub peek_slice : ℕ → ReadCursor → Result (List ℕ)
unfolding ensure
peek_slice n c = do ensure n c; ok (take n (drop c.pos c.buf))

-- `buf.get(start..end).unwrap_or(&[])`
unfoldable pub slice_from_to : ℕ → ℕ → ReadCursor → List ℕ
slice_from_to start end c =
    if leb start end
    then if leb end (length c.buf) then take (end - start) (drop start c.buf) else []
    else []

unfoldable pub read_u8 : ReadCursor → Result (ℕ × ReadCursor)
unfolding ensure byte_at
read_u8 c = do ensure 1 c; ok (byte_at c 0, moved 1 c)

unfoldable pub read_u16_be : ReadCursor → Result (ℕ × ReadCursor)
unfolding ensure byte_at
read_u16_be c = do ensure 2 c; ok (byte_at c 0 * 0x100 + byte_at c 1, moved 2 c)

unfoldable pub read_u16_le : ReadCursor → Result (ℕ × ReadCursor)
unfolding ensure byte_at
read_u16_le c = do ensure 2 c; ok (byte_at c 0 + byte_at c 1 * 0x100, moved 2 c)

unfoldable pub read_u32_le : ReadCursor → Result (ℕ × ReadCursor)
unfolding ensure byte_at
read_u32_le c = do
  ensure 4 c
  let low = byte_at c 0 + byte_at c 1 * 0x100
  let high = byte_at c 2 + byte_at c 3 * 0x100
  ok (low + high * 0x1_0000, moved 4 c)

unfoldable pub read_slice : ℕ → ReadCursor → Result (List ℕ × ReadCursor)
unfolding ensure
read_slice n c = do ensure n c; ok (take n (drop c.pos c.buf), moved n c)

unfoldable pub read_rest : ReadCursor → List ℕ × ReadCursor
read_rest c = (drop c.pos c.buf, record c { pos = length c.buf })

unfoldable pub write_u8 : ℕ → List ℕ
write_u8 v = v ∷ []

unfoldable pub write_u16_be : ℕ → List ℕ
write_u16_be v = (v / 0x100 % 0x100) ∷ (v % 0x100) ∷ []

unfoldable pub write_u16_le : ℕ → List ℕ
write_u16_le v = (v % 0x100) ∷ (v / 0x100 % 0x100) ∷ []

unfoldable pub write_u32_le : ℕ → List ℕ
write_u32_le v =
    (v % 0x100) ∷ (v / 0x100 % 0x100) ∷ (v / 0x1_0000 % 0x100) ∷ (v / 0x100_0000 % 0x100) ∷ []
