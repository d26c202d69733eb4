-- ===== src/Pdu/Gcc.antt =====
-- crates/rdpcore-pdu/src/gcc.rs: the blocks of the conference, and the PER wrapper around them.
pub mod Client
pub mod Server
pub mod Conference
pub mod Laws
use kmsrdp.Prelude.{
  ℕ, zero, suc, ◌+◌, ◌-◌, ◌%◌, Bool, true, false, not, List, ◌++◌, length, ltb, leb,
}
use kmsrdp.Pdu.Result.{Result, ok, invalid_value, guard, ◌>>=◌, ◌>>◌}
use kmsrdp.Pdu.Cursor.{ReadCursor, new, remaining, read_u16_le, read_slice, write_u16_le}

abbrev pub cs_core : ℕ
cs_core = 0xc001

abbrev pub cs_security : ℕ
cs_security = 0xc002

abbrev pub cs_net : ℕ
cs_net = 0xc003

abbrev pub cs_cluster : ℕ
cs_cluster = 0xc004

abbrev pub cs_mcs_msgchannel : ℕ
cs_mcs_msgchannel = 0xc006

abbrev pub sc_core : ℕ
sc_core = 0x0c01

abbrev pub sc_security : ℕ
sc_security = 0x0c02

abbrev pub sc_net : ℕ
sc_net = 0x0c03

abbrev pub sc_mcs_msgchannel : ℕ
sc_mcs_msgchannel = 0x0c04

abbrev pub channels_max : ℕ
channels_max = 31

unfoldable pub write_block : ℕ → List ℕ → List ℕ
write_block kind body = write_u16_le kind ++ (write_u16_le ((length body + 4) % 0x1_0000) ++ body)

-- A block's kind and body.
unfoldable pub read_block : ReadCursor → Result ((ℕ × List ℕ) × ReadCursor)
read_block c = do
  (kind, c) ← read_u16_le c
  (size, c) ← read_u16_le c
  guard (not (ltb size 4)) (invalid_value "gcc.userData.length" "block length must be at least 4")
  (body, c) ← read_slice (size - 4) c
  ok ((kind, body), c)

-- The loop, with what the blocks before gave; each round takes four bytes at least.
unfoldable pub each_block {ℓ} :
    {S : Type ℓ} (handle : ℕ → List ℕ → S → Result S) (fuel : ℕ) (found : S) (c : ReadCursor)
    → Result S
each_block handle zero found c = ok found
each_block handle (suc fuel) found c = elim (leb 4 (remaining c)) [
  | false ↦ ok found
  | true ↦ (do
    (block, c) ← read_block c
    found ← handle block.0 block.1 found
    each_block handle fuel found c)
]

unfoldable pub for_each_user_data_block {ℓ} :
    {S : Type ℓ} (handle : ℕ → List ℕ → S → Result S) (none_found : S) (input : List ℕ) → Result S
unfolding each_block
for_each_user_data_block handle none_found input =
    each_block handle (length input) none_found (new input)
