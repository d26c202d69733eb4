-- ===== src/Pdu/Rdp6/Tile.antt =====
-- crates/rdpcore-pdu/src/rdp6.rs: a tile of BGRX pixels as three planes.
pub mod Laws
use kmsrdp.Prelude.{
  ℕ, zero, suc, ◌+◌, ◌*◌, Bool, true, false, Option, none, some, List, [], ◌∷◌, ◌++◌, replicate,
  leb, ◌==◌, if◌then◌else◌,
}
use kmsrdp.Pdu.Result.{Result, ok, err, invalid_value, guard, ◌>>=◌, ◌>>◌}
use kmsrdp.Pdu.Cursor.{ReadCursor, new, read_u8}
use kmsrdp.Pdu.Rdp6.Plane.{max_stack_pixels, encode_plane_stack, encode_plane_heap, decode_plane}

abbrev pub format_header_rle_no_alpha_argb : ℕ
format_header_rle_no_alpha_argb = 0x30

pub data Channel : Type 0 where
  blue green red : Channel

unfoldable pub pick : Channel → ℕ → ℕ → ℕ → ℕ
pick blue b g r = b
pick green b g r = g
pick red b g r = r

-- One plane of `n` pixels, of zeros where the tile is too short for `chunks_exact(4)`.
unfoldable pub plane_of : Channel → ℕ → List ℕ → List ℕ
unfolding pick
plane_of channel zero bgrx = []
plane_of channel (suc n) (b ∷ g ∷ r ∷ x ∷ bgrx) = pick channel b g r ∷ plane_of channel n bgrx
plane_of channel (suc n) bgrx = replicate (suc n) 0

unfoldable pub encode_plane : ℕ → ℕ → List ℕ → Option (List ℕ)
encode_plane width height plane =
    if leb (width * height) max_stack_pixels
    then encode_plane_stack width height plane
    else some (encode_plane_heap width height plane)

-- The header and the three planes, unless one of them panics.
unfoldable pub join_encoded : Option (List ℕ) → Option (List ℕ) → Option (List ℕ) → Option (List ℕ)
join_encoded (some r) (some g) (some b) = some (format_header_rle_no_alpha_argb ∷ (r ++ (g ++ b)))
join_encoded _ _ _ = none

unfoldable pub encode : List ℕ → ℕ → ℕ → Option (List ℕ)
unfolding join_encoded
encode bgrx width height =
    let pixel_count = width * height in
    if pixel_count == 0
    then some (format_header_rle_no_alpha_argb ∷ [])
    else join_encoded (encode_plane width height (plane_of red pixel_count bgrx))
        (encode_plane width height (plane_of green pixel_count bgrx))
        (encode_plane width height (plane_of blue pixel_count bgrx))

-- The pixels of three planes, in a buffer of zeros.
unfoldable pub join_planes : ℕ → List ℕ → List ℕ → List ℕ → List ℕ
join_planes zero r g b = []
join_planes (suc n) (r ∷ rs) (g ∷ gs) (b ∷ bs) = b ∷ g ∷ r ∷ 0 ∷ join_planes n rs gs bs
join_planes (suc n) r g b = replicate (suc n * 4) 0

unfoldable pub decode : List ℕ → ℕ → ℕ → Result (List ℕ)
decode bytes width height = do
  (header, c) ← read_u8 (new bytes)
  guard (header == format_header_rle_no_alpha_argb)
      (invalid_value "rdp6.format_header" "only RLE + no-alpha + ARGB (0x30) is supported")
  (r, c) ← decode_plane width height c
  (g, c) ← decode_plane width height c
  (b, c) ← decode_plane width height c
  ok (join_planes (width * height) r g b)
