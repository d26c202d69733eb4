-- ===== src/Pdu/ShareControl/Laws.antt =====
-- capability_sets.rs: `ShareControlHeader::decode` after `write`.
use kmsrdp.Prelude.{
  ℕ, ◌+◌, ◌-◌, ◌%◌, ◌<◌, ◌≡◌, refl, List, ◌++◌, arith, IsU16, IsU32, bit_and, bit_or, some,
}
use kmsrdp.Pdu.Result.{ok}
use kmsrdp.Pdu.Cursor.Laws.{at, cursor_laws}
use kmsrdp.Pdu.ShareControl.{
  ShareControlPduType, demand_active, confirm_active, deactivate_all, data_pdu, as_u16, from_u16,
  ShareControlHeader, write, decode, ok_or, share_control_version_sentinel, share_control_type_mask,
}

-- The fields fit their widths.
unfoldable pub IsHeader : ShareControlHeader → Type 0
IsHeader header = IsU16 header.pdu_source × IsU32 header.share_id

raw_type :
    (t : ShareControlPduType)
    → (bit_and (bit_or share_control_version_sentinel (as_u16 t)) 0xfff0
        ≡ share_control_version_sentinel)
      × (from_u16
            (bit_and (bit_or share_control_version_sentinel (as_u16 t)) share_control_type_mask)
          ≡ some t)
      × IsU16 (bit_or share_control_version_sentinel (as_u16 t))
unfolding as_u16 from_u16
raw_type demand_active = (refl, refl, omega arith)
raw_type confirm_active = (refl, refl, omega arith)
raw_type deactivate_all = (refl, refl, omega arith)
raw_type data_pdu = (refl, refl, omega arith)

-- A Share Control header with fields in their widths is decoded wherever it stands.
pub decode-write :
    (f r : List ℕ) (header : ShareControlHeader) (body_len : ℕ)
    → IsHeader header
    → body_len + 10 < 0x1_0000
    → decode (at f (write header body_len ++ r))
      ≡ ok ((header, body_len), at (f ++ write header body_len) r)
unfolding decode write IsHeader ok_or
decode-write f r header body_len h small =
    let t = raw_type header.pdu_type in
    let total : (10 + body_len) % 0x1_0000 ≡ 10 + body_len = omega arith in
    let left : 10 + body_len - 10 ≡ body_len = omega arith in
    let narrow : IsU16 (10 + body_len) = omega arith in
    simp (total, narrow, t.2, t.0, t.1, h.0, h.1, left, cursor_laws)
