-- ===== src/Pdu/Rdp6/Tile/Laws.antt =====
-- rdp6.rs: `encode` against `decode`.
use kmsrdp.Prelude.{
  some, ℕ, zero, suc, ◌*◌, ◌<◌, ◌≡◌, refl, ap, ◌∙◌, true, List, [], ◌∷◌, ◌++◌, length, leb, ◌==◌,
  ◌||◌, arith, append-nil, All, IsByte, Bool-cases, inl, inr,
}
use native.Mathlib.Nat.{mul_comm}
use kmsrdp.Pdu.Result.{ok}
use kmsrdp.Pdu.Cursor.Laws.{at, new-at, cursor_laws}
use kmsrdp.Pdu.Rdp6.Plane.{max_stack_pixels, decode_plane, encode_plane_heap}
use kmsrdp.Pdu.Rdp6.Plane.Laws.{
  encode_plane_stack-encode_plane_heap, decode_plane-encode_plane_heap,
}
use kmsrdp.Pdu.Rdp6.Tile.{
  Channel, red, green, blue, pick, plane_of, encode_plane, encode, join_planes, join_encoded,
  decode,
}

-- The tile with the fourth byte of every pixel cleared.
unfoldable pub clear_x : List ℕ → List ℕ
clear_x (b ∷ g ∷ r ∷ x ∷ bgrx) = b ∷ g ∷ r ∷ 0 ∷ clear_x bgrx
clear_x _ = []

-- `n` whole pixels of bytes.
pub data IsTile : ℕ → List ℕ → Type 0 where
  none_left : IsTile 0 []
  pixel :
      {n : ℕ} {bgrx : List ℕ} (b g r x : ℕ)
      → (IsByte b × IsByte g × IsByte r)
      → IsTile n bgrx
      → IsTile (suc n) (b ∷ g ∷ r ∷ x ∷ bgrx)

pos_factor : (a b : ℕ) → 0 < a * b → 0 < a
pos_factor zero b h = absurd (omega arith)
pos_factor (suc a) b h = omega arith

length-plane_of :
    (channel : Channel) {n : ℕ} {bgrx : List ℕ}
    → IsTile n bgrx
    → length (plane_of channel n bgrx) ≡ n
unfolding plane_of
length-plane_of channel none_left = refl
length-plane_of channel (pixel b g r x h t) = ap suc (length-plane_of channel t)

pick-IsByte :
    (channel : Channel) (b g r : ℕ) → (IsByte b × IsByte g × IsByte r) → IsByte (pick channel b g r)
unfolding pick
pick-IsByte blue b g r h = h.0
pick-IsByte green b g r h = h.1
pick-IsByte red b g r h = h.2

plane_of-bytes :
    (channel : Channel) {n : ℕ} {bgrx : List ℕ}
    → IsTile n bgrx
    → All IsByte (plane_of channel n bgrx)
unfolding plane_of
plane_of-bytes channel none_left = tt
plane_of-bytes channel (pixel b g r x h t) = (pick-IsByte channel b g r h, plane_of-bytes channel t)

join_planes-plane_of :
    {n : ℕ} {bgrx : List ℕ}
    → IsTile n bgrx
    → join_planes n (plane_of red n bgrx) (plane_of green n bgrx) (plane_of blue n bgrx)
      ≡ clear_x bgrx
unfolding join_planes plane_of pick clear_x
join_planes-plane_of none_left = refl
join_planes-plane_of (pixel b g r x h t) =
    ap (λ rest. b ∷ g ∷ r ∷ 0 ∷ rest) (join_planes-plane_of t)

-- No plane panics.
encode_plane-encode_plane_heap :
    (width height : ℕ) (plane : List ℕ)
    → 0 < height
    → length plane ≡ width * height
    → encode_plane width height plane ≡ some (encode_plane_heap width height plane)
unfolding encode_plane
encode_plane-encode_plane_heap width height plane k e =
    elim (Bool-cases (leb (width * height) max_stack_pixels)) [
      | inl small ↦
          rw
            (
              small,
              encode_plane_stack-encode_plane_heap width height plane k (e ∙ mul_comm width height)
                  (ground arith),
            )
            refl
      | inr large ↦ rw large refl
    ]

no_place : (width height : ℕ) → width * height ≡ 0 → (width == 0 || height == 0) ≡ true
no_place zero height e = refl
no_place (suc width) zero e = ground arith
no_place (suc width) (suc height) e = absurd (omega (arith, e))

decode_plane_empty :
    (width height : ℕ) (f r : List ℕ)
    → width * height ≡ 0
    → decode_plane width height (at f r) ≡ ok ([], at f r)
unfolding decode_plane
decode_plane_empty width height f r e = rw (no_place width height e) refl

clear_x_empty : {n : ℕ} {bgrx : List ℕ} → IsTile n bgrx → n ≡ 0 → clear_x bgrx ≡ []
unfolding clear_x
clear_x_empty none_left e = refl
clear_x_empty (pixel b g r x h t) e = absurd (omega (arith, e))

-- A tile of width times height pixels whose blue, green and red are bytes is encoded without a
-- panic, and decoded from its encoding, with the fourth byte of every pixel cleared.
pub decode-encode :
    (width height : ℕ) (bgrx : List ℕ)
    → IsTile (width * height) bgrx
    → (bytes : List ℕ) × (encode bgrx width height ≡ some bytes)
      × (decode bytes width height ≡ ok (clear_x bgrx))
unfolding decode encode join_encoded join_planes
decode-encode width height bgrx t = elim (Bool-cases (width * height == 0)) [
  | inl empty ↦
      let none_there : width * height ≡ 0 = ground arith in
      (
        0x30 ∷ [],
        rw empty refl,
        rw (none_there, clear_x_empty t none_there)
            (simp (new-at, decode_plane_empty width height (0x30 ∷ []) [] none_there, cursor_laws)),
      )
  | inr full ↦
      let n = width * height in
      let some_width : 0 < width = pos_factor width height (ground arith) in
      let some_height : 0 < height =
        pos_factor height width (ground (arith, mul_comm width height)) in
      let size = λ (channel : Channel). length-plane_of channel t in
      let planes = λ (channel : Channel).
        encode_plane-encode_plane_heap width height (plane_of channel n bgrx) some_height
          (size channel) in
      let one = λ (channel : Channel) (f r : List ℕ).
        decode_plane-encode_plane_heap width height f r (plane_of channel n bgrx) some_width
          some_height (size channel ∙ mul_comm width height) (plane_of-bytes channel t) in
      let reds = encode_plane_heap width height (plane_of red n bgrx) in
      let greens = encode_plane_heap width height (plane_of green n bgrx) in
      let blues = encode_plane_heap width height (plane_of blue n bgrx) in
      let first = one red (0x30 ∷ []) (greens ++ blues) in
      let second = one green ((0x30 ∷ []) ++ reds) blues in
      let third = rw append-nil at (one blue ((0x30 ∷ []) ++ (reds ++ greens)) []) in
      (
        0x30 ∷ (reds ++ (greens ++ blues)),
        rw (full, planes red, planes green, planes blue) refl,
        simp (new-at, first, second, third, join_planes-plane_of t, cursor_laws),
      )
]
