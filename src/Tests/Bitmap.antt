-- ===== src/Tests/Bitmap.antt =====
-- Tiles and scanlines on concrete pixels.
use kmsrdp.Prelude.{some, ℕ, ◌≡◌, refl, List, [], ◌∷◌, ◌++◌, length, arith}
use kmsrdp.Pdu.Cursor.Laws.{at}
use kmsrdp.Pdu.Result.{ok}
use kmsrdp.Pdu.Rdp6.Rle.{
  encode_scanline_rle, decode_scanline_rle, decode_loop, encode_loop, more_of, flush, emit_run,
  emit_rest, push_all, push,
}
use kmsrdp.Pdu.Rdp6.Rle.Laws.{decode_loop-fuel}
use kmsrdp.Pdu.Rdp6.Rle.RoundTrip.{decode_scanline-encode_scanline}
use kmsrdp.Pdu.Rdp6.Tile.{encode, decode}
use kmsrdp.Pdu.Rdp6.Tile.Laws.{clear_x, IsTile, none_left, pixel, decode-encode}

-- A run of 19, which leaves two bytes, and three single bytes.
abbrev scanline : List ℕ
scanline =
    7 ∷ 7 ∷ 7 ∷ 7 ∷ 7 ∷ 7 ∷ 7 ∷ 7 ∷ 7 ∷ 7 ∷ 7 ∷ 7 ∷ 7 ∷ 7 ∷ 7 ∷ 7 ∷ 7 ∷ 7 ∷ 7 ∷ 1 ∷ 2 ∷ 0 ∷ []

encoded_scanline : encode_scanline_rle scanline ≡ 0x1f ∷ 7 ∷ 3 ∷ 0x30 ∷ 1 ∷ 2 ∷ 0 ∷ []
unfolding encode_scanline_rle encode_loop more_of flush emit_run emit_rest push_all push
encoded_scanline = refl

abbrev tile : List ℕ
tile = 1 ∷ 2 ∷ 3 ∷ 9 ∷ 4 ∷ 2 ∷ 255 ∷ 9 ∷ []

tile-IsTile : IsTile 2 tile
tile-IsTile =
    pixel 1 2 3 9 (omega arith, omega arith, omega arith)
      (pixel 4 2 255 9 (omega arith, omega arith, omega arith) none_left)

decode_loop-fuel_example :
    decode_loop 9 5 0 (at [] (0x1f ∷ 7 ∷ [])) ≡ decode_loop 5 5 0 (at [] (0x1f ∷ 7 ∷ []))
decode_loop-fuel_example = decode_loop-fuel 9 5 0 (at [] (0x1f ∷ 7 ∷ [])) (omega arith)

decode_scanline-encode_scanline_example :
    decode_scanline_rle (length scanline) (at (5 ∷ []) (encode_scanline_rle scanline ++ 8 ∷ []))
    ≡ ok (scanline, at ((5 ∷ []) ++ encode_scanline_rle scanline) (8 ∷ []))
decode_scanline-encode_scanline_example = decode_scanline-encode_scanline (5 ∷ []) (8 ∷ []) scanline

decode-encode_example :
    (bytes : List ℕ) × (encode tile 1 2 ≡ some bytes) × (decode bytes 1 2 ≡ ok (clear_x tile))
decode-encode_example = decode-encode 1 2 tile tile-IsTile
