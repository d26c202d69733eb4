-- ===== src/Pdu/Cursor/Laws.antt =====
-- The cursor between the bytes that were read and those that were not, and what each read does
-- there.
use kmsrdp.Prelude.{
  ℕ, zero, suc, ◌+◌, ◌-◌, ◌*◌, ◌/◌, ◌%◌, ◌≤◌, ◌<◌, ◌≡◌, refl, sym, ap, ◌∙◌, List, [], ◌∷◌, ◌++◌,
  length, get_or, take, drop, min, arith, length-append, take_append, drop_append, get_or-append,
  append-nil, append_assoc, IsU16, IsU32,
}
use kmsrdp.Pdu.Result.{ok, err, not_enough_bytes}
use kmsrdp.Pdu.Cursor.{
  ReadCursor, moved, new, remaining, peek_u16_be, ensure, advance, byte_at, peek_slice, read_u8,
  read_u16_be, read_u16_le, read_u32_le, read_slice, read_rest, write_u16_be, write_u16_le,
  write_u32_le,
}

-- The cursor after `front` and before `rest`.
unfoldable pub at : List ℕ → List ℕ → ReadCursor
at front rest = record { buf = front ++ rest; pos = length front }

pub new-at : (bytes : List ℕ) → new bytes ≡ at [] bytes
unfolding new at
new-at bytes = refl

module _ (f r : List ℕ) where
  pub remaining-at : remaining (at f r) ≡ length r
  unfolding remaining at
  remaining-at = omega (arith, length-append f r)

  pub ensure-at : (n : ℕ) → n ≤ length r → ensure n (at f r) ≡ ok tt
  unfolding ensure
  ensure-at n h = ground (arith, remaining-at)

  pub ensure-at_short :
      (n : ℕ) → length r < n → ensure n (at f r) ≡ err (not_enough_bytes n (length r))
  unfolding ensure
  ensure-at_short n h = ground (arith, remaining-at)

  byte_at-at : (k : ℕ) → byte_at (at f r) k ≡ get_or r k 0
  unfolding byte_at at
  byte_at-at k = get_or-append f r (length f + k) k 0 refl

-- The cursor `n` bytes further on, where `s` are those bytes.
moved-at : (f s r : List ℕ) (n : ℕ) → n ≡ length s → moved n (at f (s ++ r)) ≡ at (f ++ s) r
unfolding at
moved-at f s r n h = ground (arith, append_assoc f s r, length-append f s)

pub advance-at : (f s r : List ℕ) (n : ℕ) → n ≡ length s → advance n (at f (s ++ r)) ≡ at (f ++ s) r
unfolding advance at
advance-at f s r n h =
    ground (arith, append_assoc f s r, length-append f s, length-append (f ++ s) r)

unread-at : (f r : List ℕ) → drop (at f r).pos (at f r).buf ≡ r
unfolding at
unread-at f r = drop_append (length f) f r refl

has_room : (s r : List ℕ) (n : ℕ) → n ≡ length s → n ≤ length (s ++ r)
has_room s r n h = omega (arith, length-append s r)

pub read_slice-at :
    (f s r : List ℕ) (n : ℕ) → n ≡ length s → read_slice n (at f (s ++ r)) ≡ ok (s, at (f ++ s) r)
unfolding read_slice
read_slice-at f s r n h = rw (
  ensure-at f (s ++ r) n (has_room s r n h),
  unread-at f (s ++ r),
  take_append n s r h,
  moved-at f s r n h,
)

pub peek_slice-at : (f s r : List ℕ) (n : ℕ) → n ≡ length s → peek_slice n (at f (s ++ r)) ≡ ok s
unfolding peek_slice
peek_slice-at f s r n h =
    rw (ensure-at f (s ++ r) n (has_room s r n h), unread-at f (s ++ r), take_append n s r h)

pub read_rest-at : (f r : List ℕ) → read_rest (at f r) ≡ (r, at (f ++ r) [])
unfolding read_rest at
read_rest-at f r = ground (arith, append-nil (f ++ r), length-append f r, unread-at f r)

pub read_u8-at :
    (f : List ℕ) (b : ℕ) (r : List ℕ) → read_u8 (at f (b ∷ r)) ≡ ok (b, at (f ++ b ∷ []) r)
unfolding read_u8
read_u8-at f b r =
    rw (ensure-at f (b ∷ r) 1 (omega arith), byte_at-at f (b ∷ r) 0, moved-at f (b ∷ []) r 1 refl)

-- Two bytes in big-endian order, and two or four in little-endian order.
module _ (f r : List ℕ) (v : ℕ) where
  pub read_u16_be-at :
      IsU16 v → read_u16_be (at f (write_u16_be v ++ r)) ≡ ok (v, at (f ++ write_u16_be v) r)
  unfolding read_u16_be write_u16_be
  read_u16_be-at h =
      let s = write_u16_be v in
      let value : v / 0x100 % 0x100 * 0x100 + v % 0x100 ≡ v = omega arith in
      rw (
        ensure-at f (s ++ r) 2 (omega arith),
        byte_at-at f (s ++ r) 0,
        byte_at-at f (s ++ r) 1,
        moved-at f s r 2 refl,
        value,
      )

  pub peek_u16_be-at : IsU16 v → peek_u16_be (at f (write_u16_be v ++ r)) ≡ ok v
  unfolding peek_u16_be write_u16_be
  peek_u16_be-at h =
      let s = write_u16_be v in
      let value : v / 0x100 % 0x100 * 0x100 + v % 0x100 ≡ v = omega arith in
      rw (
        ensure-at f (s ++ r) 2 (omega arith),
        byte_at-at f (s ++ r) 0,
        byte_at-at f (s ++ r) 1,
        value,
      )

  pub read_u16_le-at :
      IsU16 v → read_u16_le (at f (write_u16_le v ++ r)) ≡ ok (v, at (f ++ write_u16_le v) r)
  unfolding read_u16_le write_u16_le
  read_u16_le-at h =
      let s = write_u16_le v in
      let value : v % 0x100 + v / 0x100 % 0x100 * 0x100 ≡ v = omega arith in
      rw (
        ensure-at f (s ++ r) 2 (omega arith),
        byte_at-at f (s ++ r) 0,
        byte_at-at f (s ++ r) 1,
        moved-at f s r 2 refl,
        value,
      )

  u32_value :
      IsU32 v
      → v % 0x100
          + v / 0x100 % 0x100 * 0x100
          + (v / 0x1_0000 % 0x100 + v / 0x100_0000 % 0x100 * 0x100) * 0x1_0000
        ≡ v
  u32_value h = omega arith

  pub read_u32_le-at :
      IsU32 v → read_u32_le (at f (write_u32_le v ++ r)) ≡ ok (v, at (f ++ write_u32_le v) r)
  unfolding read_u32_le write_u32_le
  read_u32_le-at h =
      let s = write_u32_le v in
      rw (
        ensure-at f (s ++ r) 4 (omega arith),
        byte_at-at f (s ++ r) 0,
        byte_at-at f (s ++ r) 1,
        byte_at-at f (s ++ r) 2,
        byte_at-at f (s ++ r) 3,
        moved-at f s r 4 refl,
        u32_value h,
      )

module _ (v : ℕ) (r : List ℕ) where
  pub length-write_u16_be : length (write_u16_be v ++ r) ≡ length r + 2
  unfolding write_u16_be
  length-write_u16_be = omega arith

  pub length-write_u16_le : length (write_u16_le v ++ r) ≡ length r + 2
  unfolding write_u16_le
  length-write_u16_le = omega arith

  pub length-write_u32_le : length (write_u32_le v ++ r) ≡ length r + 4
  unfolding write_u32_le
  length-write_u32_le = omega arith

pub pos-at : (f r : List ℕ) → (at f r).pos ≡ length f
unfolding at
pos-at f r = refl

pub peek_slice-all : (f r : List ℕ) → peek_slice (remaining (at f r)) (at f r) ≡ ok r
peek_slice-all f r =
    let whole : peek_slice (length r) (at f r) ≡ ok r =
      rw append-nil at (peek_slice-at f r [] (length r) refl) in
    rw (remaining-at f r, whole)

-- The last field of a buffer.
pub read_u16_le-end :
    (f : List ℕ) (v : ℕ)
    → IsU16 v
    → read_u16_le (at f (write_u16_le v)) ≡ ok (v, at (f ++ write_u16_le v) [])
read_u16_le-end f v h = rw append-nil at (read_u16_le-at f [] v h)

pub read_u32_le-end :
    (f : List ℕ) (v : ℕ)
    → IsU32 v
    → read_u32_le (at f (write_u32_le v)) ≡ ok (v, at (f ++ write_u32_le v) [])
read_u32_le-end f v h = rw append-nil at (read_u32_le-at f [] v h)

pub ruleset cursor_laws = (
  read_u8-at, read_u16_be-at, read_u16_le-at, read_u32_le-at, read_rest-at, advance-at,
  append_assoc,
)
