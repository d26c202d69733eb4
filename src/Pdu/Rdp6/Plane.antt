-- ===== src/Pdu/Rdp6/Plane.antt =====
-- crates/rdpcore-pdu/src/rdp6.rs: one colour plane, filtered by the differences of its rows.
pub mod Laws
use kmsrdp.Prelude.{
  ℕ, zero, suc, ◌+◌, ◌-◌, ◌*◌, ◌/◌, ◌%◌, ◌^◌, Bool, true, false, Option, none, some, max, ◌||◌,
  List, [], ◌∷◌, ◌++◌, drop, take, replicate, ltb, leb, ◌==◌, if◌then◌else◌, bit_and, bit_xor,
}
use kmsrdp.Pdu.Result.{Result, ok, ◌>>=◌}
use kmsrdp.Pdu.Cursor.{ReadCursor}
use kmsrdp.Pdu.Rdp6.Rle.{encode_scanline_rle, decode_scanline_rle}

unfoldable pub wrapping_add : ℕ → ℕ → ℕ
wrapping_add a b = (a + b) % 0x100

unfoldable pub wrapping_sub : ℕ → ℕ → ℕ
wrapping_sub a b = (a + 0x100 - b) % 0x100

-- `as i8 as i16`, as the bits of a 16-bit word, and an arithmetic shift of it by 15.
unfoldable pub sign_extend : ℕ → ℕ
sign_extend byte = if ltb byte 0x80 then byte else byte + 0xff00

unfoldable pub sign_bits : ℕ → ℕ
sign_bits word = if ltb word 0x8000 then 0 else 0xffff

unfoldable pub zigzag_encode : ℕ → ℕ
unfolding sign_extend sign_bits
zigzag_encode raw_delta =
    let signed = sign_extend raw_delta in bit_xor (signed * 2 % 0x1_0000) (sign_bits signed) % 0x100

unfoldable pub zigzag_decode : ℕ → ℕ
zigzag_decode encoded =
    let half = encoded / 2 in
    let mask = (0x1_0000 - bit_and encoded 1) % 0x1_0000 in bit_xor half mask % 0x100

-- The filter of one row, below the row `above`.
unfoldable pub filter_row : List ℕ → List ℕ → List ℕ
filter_row (curr ∷ row) (upper ∷ above) =
    zigzag_encode (wrapping_sub curr upper) ∷ filter_row row above
filter_row _ _ = []

unfoldable pub filter_rows : ℕ → ℕ → List ℕ → List ℕ → List ℕ
unfolding filter_row
filter_rows zero width above plane = []
filter_rows (suc rows) width above plane =
    filter_row (take width plane) above
    ++ filter_rows rows width (take width plane) (drop width plane)

-- The first row stands as it is.
unfoldable pub filter_plane : ℕ → ℕ → List ℕ → List ℕ
unfolding filter_rows
filter_plane width height plane =
    take width plane ++ filter_rows (height - 1) width (take width plane) (drop width plane)

unfoldable pub encode_rows : ℕ → ℕ → List ℕ → List ℕ
encode_rows zero width delta = []
encode_rows (suc rows) width delta =
    encode_scanline_rle (take width delta) ++ encode_rows rows width (drop width delta)

abbrev pub max_stack_pixels : ℕ
max_stack_pixels = 4096

-- The array on the stack has zeros behind the plane. A plane that it has no room for is `none`: a
-- slice of the array would be out of range, and the code panics.
unfoldable pub encode_plane_stack : ℕ → ℕ → List ℕ → Option (List ℕ)
unfolding filter_plane encode_rows
encode_plane_stack width height plane =
    if leb (max width (width * height)) max_stack_pixels
    then some (
        encode_rows height width
          (filter_plane width height plane ++ replicate (max_stack_pixels - width * height) 0))
    else none

unfoldable pub encode_plane_heap : ℕ → ℕ → List ℕ → List ℕ
unfolding filter_plane encode_rows
encode_plane_heap width height plane = encode_rows height width (filter_plane width height plane)

unfoldable pub decode_rows : ℕ → ℕ → ReadCursor → Result (List ℕ × ReadCursor)
decode_rows zero width c = ok ([], c)
decode_rows (suc rows) width c = do
  (row, c) ← decode_scanline_rle width c
  (rest, c) ← decode_rows rows width c
  ok (row ++ rest, c)

unfoldable pub restore_row : List ℕ → List ℕ → List ℕ
restore_row (transformed ∷ delta) (upper ∷ above) =
    wrapping_add upper (zigzag_decode transformed) ∷ restore_row delta above
restore_row _ _ = []

unfoldable pub restore_rows : ℕ → ℕ → List ℕ → List ℕ → List ℕ
unfolding restore_row
restore_rows zero width above delta = []
restore_rows (suc rows) width above delta =
    let row = restore_row (take width delta) above in
    row ++ restore_rows rows width row (drop width delta)

unfoldable pub restore_plane : ℕ → ℕ → List ℕ → List ℕ
unfolding restore_rows
restore_plane width height delta =
    take width delta ++ restore_rows (height - 1) width (take width delta) (drop width delta)

unfoldable pub decode_plane : ℕ → ℕ → ReadCursor → Result (List ℕ × ReadCursor)
unfolding decode_rows restore_plane
decode_plane width height c =
    if width == 0 || height == 0
    then ok ([], c)
    else (do (delta, c) ← decode_rows height width c; ok (restore_plane width height delta, c))
