-- ===== src/Pdu/Tpkt/Laws.antt =====
-- tpkt.rs: the writer against the reader.
use kmsrdp.Prelude.{ℕ, ◌≡◌, ◌≤◌, ◌<◌, ◌≢◌, List, ◌∷◌, ◌++◌, arith, IsU16, length}
use kmsrdp.Pdu.Result.{ok, err, not_enough_bytes, invalid_value}
use kmsrdp.Pdu.Cursor.Laws.{at, ensure-at, ensure-at_short, length-write_u16_be, cursor_laws}
use kmsrdp.Pdu.Tpkt.{TpktHeader, write, decode}

-- A TPKT header with a 16-bit length is decoded wherever it stands, with the cursor behind it.
pub decode-write :
    (f r : List ℕ) (h : TpktHeader)
    → IsU16 h.packet_length
    → decode (at f (write h ++ r)) ≡ ok (h, at (f ++ write h) r)
unfolding decode write
decode-write f r h small = simp (
  ensure-at f (write h ++ r) 4 (omega (arith, length-write_u16_be h.packet_length r)),
  cursor_laws,
)

-- Too few bytes for a header are refused, with the number that is there.
pub decode_short :
    (f r : List ℕ) → length r < 4 → decode (at f r) ≡ err (not_enough_bytes 4 (length r))
unfolding decode
decode_short f r h = simp (ensure-at_short f r 4 h)

-- A first byte other than 3 is refused, whatever follows.
pub decode_version :
    (f r : List ℕ) (v : ℕ)
    → 3 ≤ length r
    → v ≢ 3
    → decode (at f (v ∷ r)) ≡ err (invalid_value "tpkt.version" "unsupported TPKT version")
unfolding decode
decode_version f r v h ne = simp (ensure-at f (v ∷ r) 4 (omega arith), cursor_laws) (ground arith)
