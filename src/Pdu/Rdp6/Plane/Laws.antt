-- ===== src/Pdu/Rdp6/Plane/Laws.antt =====
-- rdp6.rs: the filter of a plane against its inverse, and the encoders of a plane against the decoder.
use native.Mathlib.Nat.{mul-suc}
use kmsrdp.Prelude.{
  true, some, max, leb, ℕ, zero, suc, ◌+◌, ◌-◌, ◌*◌, ◌≤◌, ◌<◌, ◌≡◌, refl, sym, ap, ◌∙◌, false, ◌||◌,
  List, [], ◌∷◌, ◌++◌, length, drop, take, ◌==◌, arith, append-nil, append_assoc, length-append,
  length-take, length-drop, take_append, drop_append, take_append_front, drop_append_front,
  take-append-drop, All, IsByte, agree_below, agree_below→eq,
}
use kmsrdp.Pdu.Result.{ok}
use kmsrdp.Pdu.Cursor.Laws.{at}
use kmsrdp.Pdu.Rdp6.Rle.{encode_scanline_rle, decode_scanline_rle}
use kmsrdp.Pdu.Rdp6.Rle.RoundTrip.{decode_scanline-encode_scanline}
use kmsrdp.Pdu.Rdp6.Plane.{
  max_stack_pixels, wrapping_add, wrapping_sub, zigzag_encode, zigzag_decode, filter_row,
  filter_rows, filter_plane, encode_rows, encode_plane_stack, encode_plane_heap, decode_rows,
  restore_row, restore_rows, restore_plane, decode_plane,
}

-- Every byte is given back.
pub zigzag_decode-zigzag_encode : (raw : ℕ) → IsByte raw → zigzag_decode (zigzag_encode raw) ≡ raw
unfolding agree_below zigzag_decode zigzag_encode
zigzag_decode-zigzag_encode =
    agree_below→eq (λ raw. zigzag_decode (zigzag_encode raw)) (λ raw. raw) 256 refl

wrapping_add-sub : (a b : ℕ) → IsByte a → IsByte b → wrapping_add b (wrapping_sub a b) ≡ a
unfolding wrapping_add wrapping_sub
wrapping_add-sub a b h k = omega arith

wrapping_sub-IsByte : (a b : ℕ) → IsByte (wrapping_sub a b)
unfolding wrapping_sub
wrapping_sub-IsByte a b = omega arith

restore_row-filter_row :
    (row above : List ℕ)
    → All IsByte row
    → All IsByte above
    → length row ≡ length above
    → restore_row (filter_row row above) above ≡ row
unfolding restore_row filter_row
restore_row-filter_row [] [] h k e = refl
restore_row-filter_row [] (y ∷ above) h k e = absurd (omega (arith, e))
restore_row-filter_row (x ∷ row) [] h k e = absurd (omega (arith, e))
restore_row-filter_row (x ∷ row) (y ∷ above) h k e =
    rw
      (
        zigzag_decode-zigzag_encode (wrapping_sub x y) (wrapping_sub-IsByte x y),
        wrapping_add-sub x y h.0 k.0,
        restore_row-filter_row row above h.1 k.1 (omega (arith, e)),
      )
      refl

length-filter_row :
    (row above : List ℕ) → length row ≡ length above → length (filter_row row above) ≡ length row
unfolding filter_row
length-filter_row [] above e = refl
length-filter_row (x ∷ row) [] e = absurd (omega (arith, e))
length-filter_row (x ∷ row) (y ∷ above) e = ap suc (length-filter_row row above (omega (arith, e)))

All-take : (P : ℕ → Type 0) (n : ℕ) (xs : List ℕ) → All P xs → All P (take n xs)
All-take P zero xs h = tt
All-take P (suc n) [] h = tt
All-take P (suc n) (x ∷ xs) h = (h.0, All-take P n xs h.1)

All-drop : (P : ℕ → Type 0) (n : ℕ) (xs : List ℕ) → All P xs → All P (drop n xs)
All-drop P zero xs h = h
All-drop P (suc n) [] h = tt
All-drop P (suc n) (x ∷ xs) h = All-drop P n xs h.1

-- The first row of a plane with rows left, and what is behind it.
record FirstRow (rows width : ℕ) (plane : List ℕ) : Type 0 where
  row : length (take width plane) ≡ width
  rest : length (drop width plane) ≡ rows * width

first_row :
    (rows width : ℕ) (plane : List ℕ) → length plane ≡ suc rows * width → FirstRow rows width plane
first_row rows width plane e =
    let total : suc rows * width ≡ width + rows * width = omega arith in
    record {
      row = omega (arith, length-take width plane, e, total);
      rest = omega (arith, length-drop width plane, e, total);
    }

nothing : (xs : List ℕ) → length xs ≡ 0 → xs ≡ []
nothing [] e = refl
nothing (x ∷ xs) e = absurd (omega (arith, e))

first_row_fits :
    (rows width : ℕ) (plane : List ℕ) → length plane ≡ suc rows * width → width ≤ length plane
first_row_fits rows width plane e =
    let total : suc rows * width ≡ width + rows * width = omega arith in omega (arith, e, total)

restore_rows-filter_rows :
    (rows width : ℕ) (above plane : List ℕ)
    → length above ≡ width
    → All IsByte above
    → length plane ≡ rows * width
    → All IsByte plane
    → restore_rows rows width above (filter_rows rows width above plane) ≡ plane
unfolding restore_rows filter_rows
restore_rows-filter_rows zero width above plane a b e h =
    let none_left : plane ≡ [] = nothing plane (omega (arith, e)) in sym none_left
restore_rows-filter_rows (suc rows) width above plane a b e h =
    let shape = first_row rows width plane e in
    let row = take width plane in
    let filtered = filter_row row above in
    let size : length filtered ≡ width =
      length-filter_row row above (shape.row ∙ sym a) ∙ shape.row in
    let later = filter_rows rows width row (drop width plane) in
    let back =
      restore_row-filter_row row above (All-take IsByte width plane h) b (shape.row ∙ sym a) in
    let ih =
      restore_rows-filter_rows rows width row (drop width plane) shape.row
        (All-take IsByte width plane h) shape.rest (All-drop IsByte width plane h) in
    rw
      (
        take_append width filtered later (sym size),
        drop_append width filtered later (sym size),
        back,
        ih,
      )
      (take-append-drop width plane)

pub restore_plane-filter_plane :
    (width height : ℕ) (plane : List ℕ)
    → 0 < height
    → length plane ≡ height * width
    → All IsByte plane
    → restore_plane width height (filter_plane width height plane) ≡ plane
unfolding restore_plane filter_plane
restore_plane-filter_plane width height plane k e h =
    let rows : suc (height - 1) * width ≡ height * width = ap (λ n. n * width) (omega (arith, k)) in
    let shape = first_row (height - 1) width plane (e ∙ sym rows) in
    let row = take width plane in
    let later = filter_rows (height - 1) width row (drop width plane) in
    let back =
      restore_rows-filter_rows (height - 1) width row (drop width plane) shape.row
        (All-take IsByte width plane h) shape.rest (All-drop IsByte width plane h) in
    rw
      (
        take_append width row later (sym shape.row),
        drop_append width row later (sym shape.row),
        back,
      )
      (take-append-drop width plane)

length-filter_rows :
    (rows width : ℕ) (above plane : List ℕ)
    → length above ≡ width
    → length plane ≡ rows * width
    → length (filter_rows rows width above plane) ≡ rows * width
unfolding filter_rows
length-filter_rows zero width above plane a e = omega arith
length-filter_rows (suc rows) width above plane a e =
    let shape = first_row rows width plane e in
    let row = take width plane in
    let ih = length-filter_rows rows width row (drop width plane) shape.row shape.rest in
    let total : suc rows * width ≡ width + rows * width = omega arith in
    omega (
      arith,
      ih,
      total,
      length-append (filter_row row above) (filter_rows rows width row (drop width plane)),
      length-filter_row row above (shape.row ∙ sym a),
      shape.row,
    )

length-filter_plane :
    (width height : ℕ) (plane : List ℕ)
    → 0 < height
    → length plane ≡ height * width
    → length (filter_plane width height plane) ≡ height * width
unfolding filter_plane
length-filter_plane width height plane k e =
    let rows : suc (height - 1) * width ≡ height * width = ap (λ n. n * width) (omega (arith, k)) in
    let shape = first_row (height - 1) width plane (e ∙ sym rows) in
    let row = take width plane in
    let total : suc (height - 1) * width ≡ width + (height - 1) * width = omega arith in
    omega (
      arith,
      rows,
      total,
      shape.row,
      length-append row (filter_rows (height - 1) width row (drop width plane)),
      length-filter_rows (height - 1) width row (drop width plane) shape.row shape.rest,
    )

-- The rows of a filtered plane are read back, whatever stands behind the plane in its array.
decode_rows-encode_rows :
    (rows width : ℕ) (f r delta rest : List ℕ)
    → length delta ≡ rows * width
    → decode_rows rows width (at f (encode_rows rows width (delta ++ rest) ++ r))
      ≡ ok (delta, at (f ++ encode_rows rows width (delta ++ rest)) r)
unfolding decode_rows encode_rows
decode_rows-encode_rows zero width f r delta rest e =
    let none_left : delta ≡ [] = nothing delta (omega (arith, e)) in rw (none_left, append-nil) refl
decode_rows-encode_rows (suc rows) width f r delta rest e =
    let shape = first_row rows width delta e in
    let fits = first_row_fits rows width delta e in
    let line = encode_scanline_rle (take width delta) in
    let later = encode_rows rows width (drop width delta ++ rest) in
    let first : decode_scanline_rle width (at f (line ++ (later ++ r)))
        ≡ ok (take width delta, at (f ++ line) (later ++ r)) =
      rw shape.row at (decode_scanline-encode_scanline f (later ++ r) (take width delta)) in
    simp (
      take_append_front width delta rest fits,
      drop_append_front width delta rest fits,
      append_assoc,
      first,
      decode_rows-encode_rows rows width (f ++ line) r (drop width delta) rest shape.rest,
      take-append-drop,
    )

le_mul : (width height : ℕ) → 0 < height → width ≤ width * height
le_mul width zero h = absurd (omega arith)
le_mul width (suc height) h = omega (arith, mul-suc width height)

encode_rows_front :
    (rows width : ℕ) (delta rest : List ℕ)
    → length delta ≡ rows * width
    → encode_rows rows width (delta ++ rest) ≡ encode_rows rows width delta
unfolding encode_rows
encode_rows_front zero width delta rest e = refl
encode_rows_front (suc rows) width delta rest e =
    let shape = first_row rows width delta e in
    rw
      (
        take_append_front width delta rest (first_row_fits rows width delta e),
        drop_append_front width delta rest (first_row_fits rows width delta e),
        encode_rows_front rows width (drop width delta) rest shape.rest,
      )
      refl

-- A plane of width times height bytes with at least one row, and at most 4096 bytes, fits the array
-- on the stack, and that encoder writes the same as the one on the heap.
pub encode_plane_stack-encode_plane_heap :
    (width height : ℕ) (plane : List ℕ)
    → 0 < height
    → length plane ≡ height * width
    → width * height ≤ max_stack_pixels
    → encode_plane_stack width height plane ≡ some (encode_plane_heap width height plane)
unfolding encode_plane_stack encode_plane_heap
encode_plane_stack-encode_plane_heap width height plane k e small =
    let wide : width ≤ width * height = le_mul width height k in
    let room : leb (max width (width * height)) max_stack_pixels ≡ true = ground arith in
    rw
      (
        room,
        encode_rows_front height width (filter_plane width height plane) _
            (length-filter_plane width height plane k e),
      )
      refl

-- A plane of bytes with at least one row and one column is decoded wherever its encoding stands.
pub decode_plane-encode_plane_heap :
    (width height : ℕ) (f r plane : List ℕ)
    → 0 < width
    → 0 < height
    → length plane ≡ height * width
    → All IsByte plane
    → decode_plane width height (at f (encode_plane_heap width height plane ++ r))
      ≡ ok (plane, at (f ++ encode_plane_heap width height plane) r)
unfolding decode_plane encode_plane_heap
decode_plane-encode_plane_heap width height f r plane w k e h =
    let some_place : (width == 0 || height == 0) ≡ false = ground arith in
    let delta = filter_plane width height plane in
    let rows = rw append-nil at (
      decode_rows-encode_rows height width f r delta []
        (length-filter_plane width height plane k e)) in
    rw (some_place, rows, restore_plane-filter_plane width height plane k e h) refl
