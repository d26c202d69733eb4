-- ===== src/Pdu/Tpdu/Laws.antt =====
-- tpdu.rs: the writer against the reader.
use kmsrdp.Prelude.{
  ℕ, ◌+◌, ◌≤◌, ◌<◌, ◌≡◌, ◌≢◌, refl, List, [], ◌∷◌, ◌++◌, arith, ==_self, ne→false, lt→ne, le→ltb,
  String, ◌⊎◌, Bool-cases, ==_self, ne→false, String, ◌⊎◌, inl, inr,
}
use kmsrdp.Pdu.Result.{ok, err, invalid_value}
use kmsrdp.Pdu.Cursor.Laws.{at, ensure-at, advance-at, cursor_laws}
use kmsrdp.Pdu.Tpdu.{
  TpduHeader, for_pdu, variable_part_size, is_data, write, decode, header_fixed_part_size,
}

-- A written header whose length indicator covers its fixed part, and is not the reserved 0xFF, is
-- read back, and the cursor then stands behind it.
pub decode-write :
    (f r : List ℕ) (h : TpduHeader)
    → header_fixed_part_size h.code ≤ h.li + 1
    → h.li < 0xff
    → decode h.code (at f (write h ++ r)) ≡ ok (h, at (f ++ write h) r)
unfolding decode write
decode-write f r h fits small =
    let front = f ++ h.li ∷ h.code ∷ [] in
    let zeros : List ℕ = 0 ∷ 0 ∷ 0 ∷ 0 ∷ 0 ∷ [] in
    elim (Bool-cases (is_data h.code)) [
      | inl data_pdu ↦ simp (
        data_pdu,
        ==_self,
        lt→ne h.li 0xff small,
        le→ltb (h.li + 1) 3 (rw data_pdu at fits),
        ensure-at f (h.li ∷ h.code ∷ 0x80 ∷ r) 2 (omega arith),
        ensure-at front (0x80 ∷ r) 1 (omega arith),
        advance-at front (0x80 ∷ []) r 1 refl,
        cursor_laws,
      )
      | inr other ↦ simp (
        other,
        ==_self,
        lt→ne h.li 0xff small,
        le→ltb (h.li + 1) 7 (rw other at fits),
        ensure-at f (h.li ∷ h.code ∷ (zeros ++ r)) 2 (omega arith),
        ensure-at front (zeros ++ r) 5 (omega arith),
        advance-at front zeros r 5 refl,
        cursor_laws,
      )
    ]

-- The TPDU header that for_pdu builds for a variable part of at most 248 bytes is decoded
-- wherever it stands, with the cursor behind it, and gives that size.
pub decode-for_pdu :
    (f r : List ℕ) (code n : ℕ)
    → n ≤ 248
    → (decode code (at f (write (for_pdu code n) ++ r))
        ≡ ok (for_pdu code n, at (f ++ write (for_pdu code n)) r))
      × (variable_part_size (for_pdu code n) ≡ n)
unfolding for_pdu variable_part_size
decode-for_pdu f r code n h =
    (decode-write f r (for_pdu code n) (ground arith) (ground arith), ground arith)

-- Another code than the expected one is refused.
pub decode_code :
    (f r : List ℕ) (expected li code : ℕ)
    → code ≢ expected
    → decode expected (at f (li ∷ code ∷ r))
      ≡ err (invalid_value "tpdu.code" "unexpected TPDU code")
unfolding decode
decode_code f r expected li code ne =
    simp (ensure-at f (li ∷ code ∷ r) 2 (omega arith), ne→false code expected ne, cursor_laws)

-- A length indicator that is reserved, or too small for the fixed part, is refused.
pub decode_li :
    (f r : List ℕ) (li code : ℕ)
    → (li ≡ 0xff) ⊎ (li + 1 < header_fixed_part_size code)
    → (reason : String) × (decode code (at f (li ∷ code ∷ r))
        ≡ err (invalid_value "tpdu.li" reason))
unfolding decode
decode_li f r li code (inl e) = (
  "0xFF is reserved for X.224 extensions, unsupported",
  simp (e, ==_self, ensure-at f (0xff ∷ code ∷ r) 2 (omega arith), cursor_laws),
)
decode_li f r li code (inr h) = (
  "too small to hold this TPDU code's fixed header part",
  simp (ensure-at f (li ∷ code ∷ r) 2 (omega arith), ==_self, cursor_laws) (ground arith),
)
