-- ===== src/Pdu/Gcc/Server/RoundTrip.antt =====
-- gcc.rs: `ServerGccBlocks::decode` after `encode`.
use kmsrdp.Prelude.{
  ℕ, ◌+◌, ◌-◌, ◌*◌, ◌%◌, ◌≤◌, ◌<◌, ◌≡◌, refl, Option, none, some, List, [], ◌∷◌, ◌++◌, length,
  arith, ◌==◌, IsU16, append-nil, length-append, Bool-cases, inl, inr,
}
use kmsrdp.Pdu.Result.{ok}
use kmsrdp.Pdu.Cursor.{write_u16_le, write_u32_le}
use kmsrdp.Pdu.Cursor.Laws.{at, new-at}
use kmsrdp.Pdu.ShareControl.{ok_or}
use kmsrdp.Pdu.Gcc.{
  write_block, each_block, for_each_user_data_block, sc_core, sc_net, sc_security,
  sc_mcs_msgchannel,
}
use kmsrdp.Pdu.Gcc.Server.{
  ServerCoreData, write_optional, encode_core, encode_security, ServerNetworkData, write_ids,
  encode_network, ServerGccBlocks, message_block, encode_server_blocks, Found, nothing_found,
  handle_server, decode_server_blocks,
}
use kmsrdp.Pdu.Gcc.Laws.{IsBlock, each_block-write_block, each_block-end}
use kmsrdp.Pdu.Gcc.Server.Laws.{
  IsCore, IsNetwork, handle_core, handle_network, handle_security, handle_message,
}

-- The fields fit their widths, and the network data its block.
unfoldable pub IsServer : ServerGccBlocks → Type 0
IsServer x =
    IsCore x.core
    × IsNetwork x.network
    × (length x.network.channel_ids < 0x4000)
    × ((id : ℕ) → x.message_channel ≡ some id → IsU16 id)

length-write_ids : (ids : List ℕ) → length (write_ids ids) ≡ 2 * length ids
unfolding write_ids write_u16_le
length-write_ids [] = refl
length-write_ids (id ∷ ids) = omega (arith, length-write_ids ids)

length-encode_network :
    (x : ServerNetworkData) → length (encode_network x) ≤ 2 * length x.channel_ids + 6
unfolding encode_network write_u16_le
length-encode_network x = elim (Bool-cases (length x.channel_ids % 2 == 1)) [
  | inl odd ↦
      rw odd
        (omega (arith, length-append (write_ids x.channel_ids), length-write_ids x.channel_ids))
  | inr even ↦
      rw even
        (omega (arith, length-append (write_ids x.channel_ids), length-write_ids x.channel_ids))
]

length-write_optional : (value : Option ℕ) → length (write_optional value) ≤ 4
unfolding write_optional write_u32_le
length-write_optional none = omega arith
length-write_optional (some value) = omega arith

length-encode_core : (x : ServerCoreData) → length (encode_core x) ≤ 12
unfolding encode_core write_u32_le
length-encode_core x = omega (
  arith,
  length-append (write_optional x.client_requested_protocols),
  length-write_optional x.client_requested_protocols,
  length-write_optional x.early_capability_flags,
)

module _ (x : ServerGccBlocks) (h : IsServer x) where
  core-IsBlock : IsBlock sc_core (encode_core x.core)
  unfolding IsBlock
  core-IsBlock = omega (arith, length-encode_core x.core)

  network-IsBlock : IsBlock sc_net (encode_network x.network)
  unfolding IsBlock IsServer
  network-IsBlock = omega (arith, length-encode_network x.network)

  security-IsBlock : IsBlock sc_security encode_security
  unfolding IsBlock encode_security write_u32_le
  security-IsBlock = omega arith

  with_message : (m : Option ℕ) → Found
  with_message m = record {
    core = some x.core;
    network = some x.network;
    security = some tt;
    message_channel = m;
  }

  last_block :
      (fuel : ℕ) (f : List ℕ) (m : Option ℕ)
      → 1 < fuel
      → ((id : ℕ) → m ≡ some id → IsU16 id)
      → each_block handle_server fuel (with_message none) (at f (message_block m))
        ≡ ok (with_message m)
  unfolding message_block with_message
  last_block fuel f none p hm = each_block-end handle_server fuel (with_message none) f
  last_block fuel f (some id) p hm =
      let block : IsBlock sc_mcs_msgchannel (write_u16_le id) =
        unfold IsBlock write_u16_le in omega arith in
      let step = rw append-nil at (
        each_block-write_block handle_server fuel (with_message none) (with_message (some id)) f []
          sc_mcs_msgchannel (write_u16_le id) (omega arith) block
          (handle_message (with_message none) id (hm id refl))) in
      rw step (each_block-end handle_server (fuel - 1) (with_message (some id)) _)

  server_found :
      (fuel : ℕ)
      → 4 < fuel
      → each_block handle_server fuel nothing_found (at [] (encode_server_blocks x))
        ≡ ok (with_message x.message_channel)
  unfolding encode_server_blocks IsServer with_message
  server_found fuel p =
      let m = message_block x.message_channel in
      let security = write_block sc_security encode_security ++ m in
      let network = write_block sc_net (encode_network x.network) ++ security in
      let f1 = write_block sc_core (encode_core x.core) in
      let f2 = f1 ++ write_block sc_net (encode_network x.network) in
      rw
        (
          each_block-write_block handle_server fuel nothing_found _ [] network sc_core
              (encode_core x.core) (omega arith) core-IsBlock
              (handle_core nothing_found x.core h.0),
          each_block-write_block handle_server (fuel - 1) _ _ f1 security sc_net
              (encode_network x.network) (omega arith) network-IsBlock
              (handle_network (record nothing_found { core = some x.core }) x.network h.1),
          each_block-write_block handle_server (fuel - 1 - 1) _ _ f2 m sc_security encode_security
              (omega arith) security-IsBlock
              (handle_security
                (record nothing_found { core = some x.core; network = some x.network })),
          last_block (fuel - 1 - 1 - 1) _ x.message_channel (omega arith) h.3,
        )
        refl

-- Server blocks whose fields fit their widths, with fewer than 0x4000 channels, and with early
-- capability flags only behind the requested protocols, are decoded from their encoding.
pub decode_server_blocks-encode_server_blocks :
    (x : ServerGccBlocks) → IsServer x → decode_server_blocks (encode_server_blocks x) ≡ ok x
unfolding decode_server_blocks for_each_user_data_block ok_or encode_core write_u32_le with_message
decode_server_blocks-encode_server_blocks x h =
    rw
      (
        new-at,
        server_found x h (length (encode_server_blocks x)) (
            unfold encode_server_blocks write_block write_u16_le in
            omega (arith, length-append (encode_core x.core))),
      )
      refl

length-message_block : (m : Option ℕ) → length (message_block m) ≤ 6
unfolding message_block write_block write_u16_le
length-message_block none = omega arith
length-message_block (some id) = omega arith

pub length-encode_server_blocks :
    (x : ServerGccBlocks)
    → IsServer x
    → length (encode_server_blocks x) ≤ 2 * length x.network.channel_ids + 48
unfolding encode_server_blocks write_block write_u16_le encode_security write_u32_le
length-encode_server_blocks x h = omega (
  arith,
  length-append (encode_core x.core),
  length-append (encode_network x.network),
  length-encode_core x.core,
  length-encode_network x.network,
  length-message_block x.message_channel,
)
