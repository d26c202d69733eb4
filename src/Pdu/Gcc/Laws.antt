-- ===== src/Pdu/Gcc/Laws.antt =====
-- gcc.rs: the loop over the blocks after their writer.
use kmsrdp.Prelude.{
  ℕ, zero, suc, ◌+◌, ◌-◌, ◌%◌, ◌<◌, ◌≡◌, refl, true, false, List, [], ◌++◌, length, arith, leb, ltb,
  IsU16,
}
use kmsrdp.Pdu.Result.{Result, ok}
use kmsrdp.Pdu.Cursor.{write_u16_le, remaining}
use kmsrdp.Pdu.Cursor.Laws.{at, remaining-at, cursor_laws, read_slice-at}
use kmsrdp.Pdu.Gcc.{write_block, read_block, each_block}

unfoldable pub IsBlock : ℕ → List ℕ → Type 0
IsBlock kind body = IsU16 kind × (length body + 4 < 0x1_0000)

read_block-write_block :
    (f r : List ℕ) (kind : ℕ) (body : List ℕ)
    → IsBlock kind body
    → read_block (at f (write_block kind body ++ r))
      ≡ ok ((kind, body), at (f ++ write_block kind body) r)
unfolding read_block write_block IsBlock
read_block-write_block f r kind body h =
    let narrow : (length body + 4) % 0x1_0000 ≡ length body + 4 = omega arith in
    let fits : IsU16 (length body + 4) = omega arith in
    let size : length body + 4 - 4 ≡ length body = omega arith in
    let long : ltb (length body + 4) 4 ≡ false = ground arith in
    simp (narrow, fits, h.0, size, long, cursor_laws, read_slice-at)

module _ {ℓ} {S : Type ℓ} (handle : ℕ → List ℕ → S → Result S) where
  pub each_block-write_block :
      (fuel : ℕ) (found next : S) (f r : List ℕ) (kind : ℕ) (body : List ℕ)
      → 0 < fuel
      → IsBlock kind body
      → handle kind body found ≡ ok next
      → each_block handle fuel found (at f (write_block kind body ++ r))
        ≡ each_block handle (fuel - 1) next (at (f ++ write_block kind body) r)
  unfolding each_block
  each_block-write_block zero found next f r kind body h block e = ground arith
  each_block-write_block (suc fuel) found next f r kind body h block e =
      let more : leb 4 (remaining (at f (write_block kind body ++ r))) ≡ true =
        rw (remaining-at f (write_block kind body ++ r))
          (unfold write_block write_u16_le in ground arith) in
      let one_less : suc fuel - 1 ≡ fuel = omega arith in
      rw (one_less, more, each_block, read_block-write_block f r kind body block, e) refl

  pub each_block-end :
      (fuel : ℕ) (found : S) (f : List ℕ) → each_block handle fuel found (at f []) ≡ ok found
  unfolding each_block
  each_block-end zero found f = refl
  each_block-end (suc fuel) found f = rw (remaining-at f [], each_block)
