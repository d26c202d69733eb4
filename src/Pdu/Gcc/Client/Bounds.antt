-- ===== src/Pdu/Gcc/Client/Bounds.antt =====
-- gcc.rs: how many channels `ClientGccBlocks::decode` takes from a client.
use kmsrdp.Prelude.{
  ℕ, zero, suc, ◌≤◌, ◌≡◌, refl, ap, sym, Option, none, some, List, [], ◌∷◌, length, min, arith, leb,
  ◌==◌, Bool-cases, inl, inr,
}
use kmsrdp.Pdu.Result.{Result, ok, bind-ok}
use kmsrdp.Pdu.Cursor.{ReadCursor, new, remaining, read_u32_le}
use kmsrdp.Pdu.ShareControl.{ok_or}
use kmsrdp.Pdu.Gcc.{
  each_block, read_block, for_each_user_data_block, channels_max, cs_core, cs_security, cs_net,
  cs_cluster, cs_mcs_msgchannel,
}
use kmsrdp.Pdu.Gcc.Client.{
  Text, ChannelDef, ClientGccBlocks, Found, nothing_found, decode_channel, decode_channels,
  decode_network, decode_core, decode_security, decode_cluster, handle_client, decode_client_blocks,
}

-- What every block that is handled keeps, all of them keep.
module _ {ℓ κ} {S : Type ℓ} (handle : ℕ → List ℕ → S → Result S) (P : S → Type κ)
    (kept : (kind : ℕ) (body : List ℕ) (s next : S)
      → handle kind body s ≡ ok next
      → P s
      → P next) where
  each_block-keeps :
      (fuel : ℕ) (s last : S) (c : ReadCursor) → each_block handle fuel s c ≡ ok last → P s → P last
  unfolding each_block
  each_block-keeps zero s last c e p = let same : s ≡ last = cc in rw same at p
  each_block-keeps (suc fuel) s last c e p = elim (Bool-cases (leb 4 (remaining c))) [
    | inl more ↦
        let step = rw (more, each_block) at e in
        let (block, _, e1) = bind-ok (read_block c) _ last step in
        let (next, h, e2) = bind-ok (handle block.0.0 block.0.1 s) _ last e1 in
        each_block-keeps fuel next last block.1 e2 (kept block.0.0 block.0.1 s next h p)
    | inr over ↦
        let stopped : Path (Result S) (ok s) (ok last) = rw (over, each_block) at e in
        let same : s ≡ last = cc in rw same at p
  ]

ok-injective : {A : Type 0} (x y : A) → Path (Result A) (ok x) (ok y) → x ≡ y
ok-injective x y e = cc

-- Records of what was found that are the same have the same channels.
same_network :
    (network : Option (List ChannelDef)) (x next : Found)
    → x.network ≡ network
    → Path (Result Found) (ok x) (ok next)
    → network ≡ next.network
same_network network x next h e = let same = ok-injective x next e in rw (sym h, same) refl

unfoldable pub AreFew : Option (List ChannelDef) → Type 0
AreFew none = Unit
AreFew (some channels) = length channels ≤ channels_max

module _ (from_utf16 from_utf8_lossy : List ℕ → Text) where
  length-decode_channels :
      (count : ℕ) (c : ReadCursor) (channels : List ChannelDef) (rest : ReadCursor)
      → decode_channels from_utf16 from_utf8_lossy count c ≡ ok (channels, rest)
      → length channels ≡ count
  unfolding decode_channels
  length-decode_channels zero c channels rest e =
      let same : [] ≡ channels = cc in rw (sym same) refl
  length-decode_channels (suc count) c channels rest e =
      let ((channel, c1), _, e1) =
        bind-ok (decode_channel from_utf16 from_utf8_lossy c) _ (channels, rest) e in
      let ((others, c2), h, e2) =
        bind-ok (decode_channels from_utf16 from_utf8_lossy count c1) _ (channels, rest) e1 in
      let same : channel ∷ others ≡ channels = cc in
      let rest = length-decode_channels count c1 others c2 h in rw (sym same) (omega arith)

  network_few :
      (body : List ℕ) (channels : List ChannelDef) (rest : ReadCursor)
      → decode_network from_utf16 from_utf8_lossy (new body) ≡ ok (channels, rest)
      → AreFew (some channels)
  unfolding decode_network AreFew
  network_few body channels rest e =
      let ((count, c1), _, e1) = bind-ok (read_u32_le (new body)) _ (channels, rest) e in
      let size = length-decode_channels (min count channels_max) c1 channels rest e1 in omega arith

  handle_keeps :
      (kind : ℕ) (body : List ℕ) (found next : Found)
      → handle_client from_utf16 from_utf8_lossy kind body found ≡ ok next
      → AreFew found.network
      → AreFew next.network
  unfolding handle_client
  handle_keeps kind body found next e few = elim (Bool-cases (kind == cs_core)) [
    | inl core ↦
        let (_, _, e1) =
          bind-ok (decode_core from_utf16 from_utf8_lossy (new body)) _ next
            (rw (core, handle_client) at e) in
        rw (same_network found.network _ next refl e1) at few
    | inr not_core ↦ elim (Bool-cases (kind == cs_security)) [
      | inl security ↦
          let (_, _, e1) =
            bind-ok (decode_security (new body)) _ next
              (rw (not_core, security, handle_client) at e) in
          rw (same_network found.network _ next refl e1) at few
      | inr not_security ↦ elim (Bool-cases (kind == cs_net)) [
        | inl net ↦
            let ((channels, c), read, e1) =
              bind-ok (decode_network from_utf16 from_utf8_lossy (new body)) _ next
                (rw (not_core, not_security, net, handle_client) at e) in
            rw (same_network (some channels) _ next refl e1) at (network_few body channels c read)
        | inr not_net ↦ elim (Bool-cases (kind == cs_cluster)) [
          | inl cluster ↦
              let (_, _, e1) =
                bind-ok (decode_cluster (new body)) _ next
                  (rw (not_core, not_security, not_net, cluster, handle_client) at e) in
              rw (same_network found.network _ next refl e1) at few
          | inr not_cluster ↦ elim (Bool-cases (kind == cs_mcs_msgchannel)) [
            | inl message ↦
                let (_, _, e1) = bind-ok (read_u32_le (new body)) _ next (
                  rw (not_core, not_security, not_net, not_cluster, message, handle_client) at e) in
                rw (same_network found.network _ next refl e1) at few
            | inr unknown ↦
                rw
                  (same_network found.network _ next refl (
                    rw (not_core, not_security, not_net, not_cluster, unknown, handle_client) at e))
                  at few
          ]
        ]
      ]
    ]
  ]

  -- Whatever a client sends, its blocks name at most 31 channels.
  pub decode_client_blocks-few :
      (input : List ℕ) (x : ClientGccBlocks)
      → decode_client_blocks from_utf16 from_utf8_lossy input ≡ ok x
      → AreFew x.network
  unfolding decode_client_blocks for_each_user_data_block
  decode_client_blocks-few input x e =
      let handle = handle_client from_utf16 from_utf8_lossy in
      let (found, looped, e1) =
        bind-ok (each_block handle (length input) nothing_found (new input)) _ x e in
      let few : AreFew found.network =
        each_block-keeps handle (λ s. AreFew s.network) handle_keeps (length input) nothing_found
          found (new input) looped (unfold AreFew in tt) in
      let (core, _, e2) = bind-ok (ok_or found.core _ _) _ x e1 in
      let (security, _, e3) = bind-ok (ok_or found.security _ _) _ x e2 in
      let same : found.network ≡ x.network = ap (λ r. r.network) (ok-injective _ x e3) in
      rw same at few
