-- ===== src/Pdu/Capabilities/Laws.antt =====
-- capability_sets.rs: `ConfirmActive::decode` and the sets that it finds, and the NSCodec parameters.
use kmsrdp.Prelude.{
  bytes_equal, ℕ, zero, suc, ◌+◌, ◌-◌, ◌%◌, ◌≤◌, ◌<◌, ◌≡◌, refl, ap, Option, some, List, [], ◌∷◌,
  ◌++◌, length, min, max, arith, IsU16, IsU32, All, append_assoc, length-append, ltb, Bool-cases,
  Option-cases, inl, inr,
}
use kmsrdp.Pdu.Result.{Result, ok, err, bind-ok}
use kmsrdp.Pdu.Cursor.{ReadCursor, new, write_u16_le, read_u8, read_u16_le, read_slice}
use kmsrdp.Pdu.Cursor.Laws.{at, new-at, cursor_laws, remaining-at, read_slice-at, read_u16_le-at}
use kmsrdp.Pdu.ShareControl as Control
use kmsrdp.Pdu.ShareControl.Laws as ControlLaws
use kmsrdp.Pdu.Capabilities.{
  RawCapabilitySet, write_capset, decode_capset, decode_sets, read_count, decode_counted_sets,
  skipped, decode_capabilities, unwrap_or_zero, decode_confirm_active, NsCodecNegotiated, clamp,
  skip_codec, read_nscodec, find_nscodec, flat_ok, find_set, parse_client_nscodec, nscodec_guid,
  capset_bitmap_codecs,
}

unfoldable pub IsCapset : RawCapabilitySet → Type 0
IsCapset entry = IsU16 entry.set_type × (length entry.body + 4 < 0x1_0000)

unfoldable pub encode_sets : List RawCapabilitySet → List ℕ
encode_sets [] = []
encode_sets (entry ∷ capabilities) =
    write_capset entry.set_type entry.body ++ encode_sets capabilities

decode_capset-write_capset :
    (f r : List ℕ) (entry : RawCapabilitySet)
    → IsCapset entry
    → decode_capset (at f (write_capset entry.set_type entry.body ++ r))
      ≡ ok (entry, at (f ++ write_capset entry.set_type entry.body) r)
unfolding decode_capset write_capset IsCapset
decode_capset-write_capset f r entry h =
    let narrow : (length entry.body + 4) % 0x1_0000 ≡ length entry.body + 4 = omega arith in
    let fits : IsU16 (length entry.body + 4) = omega arith in
    let size : length entry.body + 4 - 4 ≡ length entry.body = omega arith in
    simp (narrow, fits, h.0, size, cursor_laws, read_slice-at)

decode_sets-encode_sets :
    (f r : List ℕ) (capabilities : List RawCapabilitySet)
    → All IsCapset capabilities
    → decode_sets (length capabilities) (at f (encode_sets capabilities ++ r)) ≡ capabilities
unfolding encode_sets decode_sets
decode_sets-encode_sets f r [] h = refl
decode_sets-encode_sets f r (entry ∷ capabilities) h = rw (
  append_assoc,
  decode_sets,
  decode_capset-write_capset f (encode_sets capabilities ++ r) entry h.0,
  decode_sets-encode_sets (f ++ write_capset entry.set_type entry.body) r capabilities h.1,
)

-- What a client sends behind the Share Control header.
unfoldable pub client_body : ℕ → ℕ → List ℕ → List RawCapabilitySet → List ℕ → List ℕ
client_body originator_id combined source_descriptor capabilities rest =
    write_u16_le originator_id
    ++ (write_u16_le (length source_descriptor)
        ++ (write_u16_le combined
            ++ (source_descriptor
                ++ (write_u16_le (length capabilities)
                    ++ (write_u16_le 0 ++ (encode_sets capabilities ++ rest))))))

unfoldable pub IsClientBody : ℕ → ℕ → List ℕ → List RawCapabilitySet → Type 0
IsClientBody originator_id combined source_descriptor capabilities =
    IsU16 originator_id
    × IsU16 combined
    × IsU16 (length source_descriptor)
    × IsU16 (length capabilities)
    × All IsCapset capabilities

module _ (source_descriptor rest : List ℕ) (capabilities : List RawCapabilitySet) where
  decode_counted_sets-at :
      (f : List ℕ)
      → IsU16 (length capabilities)
      → All IsCapset capabilities
      → decode_counted_sets (
          at f (
            write_u16_le (length capabilities)
            ++ (write_u16_le 0 ++ (encode_sets capabilities ++ rest))))
        ≡ capabilities
  unfolding decode_counted_sets
  decode_counted_sets-at f few h =
      let none_read : IsU16 0 = omega arith in
      let front = (f ++ write_u16_le (length capabilities)) ++ write_u16_le 0 in
      let read : read_count (
            at f (
              write_u16_le (length capabilities)
              ++ (write_u16_le 0 ++ (encode_sets capabilities ++ rest))))
          ≡ ok (length capabilities, at front (encode_sets capabilities ++ rest)) =
        unfold read_count in simp (few, none_read, cursor_laws) in
      rw (read, decode_counted_sets, decode_sets-encode_sets front rest capabilities h)

  decode_capabilities-at :
      (f : List ℕ) (combined : ℕ)
      → IsU16 combined
      → IsU16 (length source_descriptor)
      → IsU16 (length capabilities)
      → All IsCapset capabilities
      → decode_capabilities (
          at f (
            write_u16_le (length source_descriptor)
            ++ (write_u16_le combined
                ++ (source_descriptor
                    ++ (write_u16_le (length capabilities)
                        ++ (write_u16_le 0 ++ (encode_sets capabilities ++ rest)))))))
        ≡ capabilities
  unfolding decode_capabilities
  decode_capabilities-at f combined h1 h2 h3 h4 =
      let sets =
        write_u16_le (length capabilities)
        ++ (write_u16_le 0 ++ (encode_sets capabilities ++ rest)) in
      let tail = write_u16_le combined ++ (source_descriptor ++ sets) in
      let f1 = f ++ write_u16_le (length source_descriptor) in
      let f2 = f1 ++ write_u16_le combined in
      let taken : min (length source_descriptor) (length (source_descriptor ++ sets))
          ≡ length source_descriptor =
        omega (arith, length-append source_descriptor sets) in
      rw (
        read_u16_le-at f tail (length source_descriptor) h2,
        decode_capabilities,
        read_u16_le-at f1 (source_descriptor ++ sets) combined h1,
        skipped,
        remaining-at f2 (source_descriptor ++ sets),
        taken,
        read_slice-at f2 source_descriptor sets (length source_descriptor) refl,
        skipped,
        decode_counted_sets-at (f2 ++ source_descriptor) h3 h4,
      )

-- A Confirm Active with any source descriptor and any capability sets whose lengths fit 16 bits,
-- and with any bytes behind them, gives back its ids and exactly these sets.
pub decode_confirm_active-client_body :
    (share_id pdu_source originator_id combined declared : ℕ) (source_descriptor rest : List ℕ)
    (capabilities : List RawCapabilitySet)
    → IsU32 share_id
    → IsU16 pdu_source
    → declared + 10 < 0x1_0000
    → IsClientBody originator_id combined source_descriptor capabilities
    → decode_confirm_active (
        Control.write
          (record {
            pdu_type = Control.confirm_active;
            pdu_source = pdu_source;
            share_id = share_id;
          })
          declared
        ++ client_body originator_id combined source_descriptor capabilities rest)
      ≡ ok (record {
        share_id = share_id;
        pdu_source = pdu_source;
        originator_id = originator_id;
        capabilities = capabilities;
      })
unfolding decode_confirm_active client_body IsClientBody ControlLaws.IsHeader Control.is_type
    Control.as_u16
decode_confirm_active-client_body share_id pdu_source originator_id combined declared
      source_descriptor rest capabilities h1 h2 h3 h =
    let header : Control.ShareControlHeader = record {
      pdu_type = Control.confirm_active;
      pdu_source = pdu_source;
      share_id = share_id;
    } in
    let front = Control.write header declared in
    let body = client_body originator_id combined source_descriptor capabilities rest in
    let fits : ControlLaws.IsHeader header = (h2, h1) in
    rw (
      new-at,
      ControlLaws.decode-write [] body header declared fits h3,
      read_u16_le-at front _ originator_id h.0,
      unwrap_or_zero,
      decode_capabilities-at source_descriptor rest capabilities
          (front ++ write_u16_le originator_id) combined h.1 h.2 h.3 h.4,
    )

level_of : Result (Option NsCodecNegotiated) → ℕ
level_of (ok (some found)) = found.color_loss_level
level_of _ = 0

read_nscodec-bounds :
    (server_cll : ℕ) (c : ReadCursor) (found : NsCodecNegotiated)
    → read_nscodec server_cll c ≡ ok (some found)
    → (1 ≤ found.color_loss_level) × (found.color_loss_level ≤ min 7 (max server_cll 1))
unfolding read_nscodec clamp level_of
read_nscodec-bounds server_cll c found e =
    let ((id, c1), e1, l1) = bind-ok (read_u8 c) _ (some found) e in
    let ((prop_len, c2), e2, l2) = bind-ok (read_u16_le c1) _ (some found) l1 in
    elim (Bool-cases (ltb prop_len 3)) [
      | inl short ↦ let l3 = rw short at l2 in absurd (cc)
      | inr long ↦
          let l3 = rw long at l2 in
          let ((dynamic, c3), e3, l4) = bind-ok (read_u8 c2) _ (some found) l3 in
          let ((subsampling, c4), e4, l5) = bind-ok (read_u8 c3) _ (some found) l4 in
          let ((level, c5), e5, l6) = bind-ok (read_u8 c4) _ (some found) l5 in
          let same : min (min (max level 1) 7) (max server_cll 1) ≡ found.color_loss_level =
            ap level_of l6 in
          (omega arith, omega arith)
    ]

find_nscodec-bounds :
    (codec_count server_cll : ℕ) (c : ReadCursor) (found : NsCodecNegotiated)
    → find_nscodec codec_count server_cll c ≡ ok (some found)
    → (1 ≤ found.color_loss_level) × (found.color_loss_level ≤ min 7 (max server_cll 1))
unfolding find_nscodec
find_nscodec-bounds zero server_cll c found e = absurd (cc)
find_nscodec-bounds (suc codec_count) server_cll c found e =
    let ((guid, c1), e1, l1) = bind-ok (read_slice 16 c) _ (some found) e in
    elim (Bool-cases (bytes_equal guid nscodec_guid)) [
      | inl same ↦ read_nscodec-bounds server_cll c1 found (rw same at l1)
      | inr other ↦
          let l2 = rw other at l1 in
          let (c2, e2, l3) = bind-ok (skip_codec c1) _ (some found) l2 in
          find_nscodec-bounds codec_count server_cll c2 found l3
    ]

flat_ok-some :
    (result : Result (Option NsCodecNegotiated)) (found : NsCodecNegotiated)
    → flat_ok result ≡ some found
    → result ≡ ok (some found)
unfolding flat_ok
flat_ok-some (ok x) found e = ap ok e
flat_ok-some (err x) found e = absurd (cc)

-- Whatever capability sets a client sends, the color loss level that is negotiated is at least 1
-- and at most both 7 and the server's level, taken as 1 where it is 0.
pub parse_client_nscodec-bounds :
    (capabilities : List RawCapabilitySet) (server_cll : ℕ) (found : NsCodecNegotiated)
    → parse_client_nscodec capabilities server_cll ≡ some found
    → (1 ≤ found.color_loss_level) × (found.color_loss_level ≤ min 7 (max server_cll 1))
unfolding parse_client_nscodec
parse_client_nscodec-bounds capabilities server_cll found e =
    elim (Option-cases (find_set capset_bitmap_codecs capabilities)) [
      | inl missing ↦ let e1 = rw (missing, parse_client_nscodec) at e in absurd (cc)
      | inr (body, there) ↦
          let l1 = flat_ok-some _ found (rw (there, parse_client_nscodec) at e) in
          let ((codec_count, c), e2, l2) = bind-ok (read_u8 (new body)) _ (some found) l1 in
          find_nscodec-bounds codec_count server_cll c found l2
    ]
