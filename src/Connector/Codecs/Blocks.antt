-- ===== src/Connector/Codecs/Blocks.antt =====
-- crates/rdpcore-connector/src/lib.rs, `on_connect_initial`: the codecs of the acceptor from gcc.rs.
use kmsrdp.Prelude.{
  ◌≤◌, ◌*◌, ℕ, ◌+◌, ◌<◌, ◌≡◌, refl, Bool, Option, none, some, true, false, List, length, map, arith,
  IsU16, IsU32, All,
}
use kmsrdp.Pdu.Result.{Result, ok, ◌>>=◌}
use kmsrdp.Pdu.Gcc.Client as Client
use kmsrdp.Pdu.Gcc.Server.{ServerGccBlocks, encode_server_blocks, decode_server_blocks}
use kmsrdp.Pdu.Gcc.Server.Laws.{AreOptions, IsCore, IsNetwork}
use kmsrdp.Pdu.Gcc.Server.RoundTrip.{
  IsServer, decode_server_blocks-encode_server_blocks, length-encode_server_blocks,
}
use kmsrdp.Pdu.Gcc.Conference.{decode_request, encode_response, decode_response}
use kmsrdp.Pdu.Gcc.Conference.Laws.{decode_conference_response, length-encode_response}
use kmsrdp.Connector.{Text, ClientCredentials, io_channel_id, user_channel_id}
use kmsrdp.Connector.Codecs.{ClientBlocks, ServerBlocks, Codecs}

unfoldable pub names : Option (List Client.ChannelDef) → Option (List Text)
names none = none
names (some channels) = some (map (λ channel. channel.name) channels)

unfoldable pub is_some : Option ℕ → Bool
is_some none = false
is_some (some flags) = true

-- The fields that the acceptor uses.
unfoldable pub client_blocks : Client.ClientGccBlocks → ClientBlocks
client_blocks x = record {
  client_name = x.core.client_name;
  network = names x.network;
  message_channel = is_some x.message_channel;
}

unfoldable pub server_gcc_blocks : ServerBlocks → ServerGccBlocks
server_gcc_blocks x = record {
  core = record {
    version = 0x0008_0004;
    client_requested_protocols = some x.client_requested_protocols;
    early_capability_flags = none;
  };
  network = record { io_channel_id = io_channel_id; channel_ids = x.channel_ids };
  message_channel = x.message_channel;
}

unfoldable pub encode_conference : ServerBlocks → List ℕ
encode_conference x = encode_response (record {
  node_id = user_channel_id;
  server_gcc_blocks = encode_server_blocks (server_gcc_blocks x);
})

module _ (from_utf16 from_utf8_lossy : List ℕ → Text) where
  unfoldable pub decode_conference : List ℕ → Result ClientBlocks
  decode_conference user_data = do
    client_gcc_blocks ← decode_request user_data
    blocks ← Client.decode_client_blocks from_utf16 from_utf8_lossy client_gcc_blocks
    ok (client_blocks blocks)

  unfoldable pub codecs_of :
      (decode_client_info : List ℕ → Result ClientCredentials) (is_utf8 : List ℕ → Bool) → Codecs
  codecs_of decode_client_info is_utf8 = record {
    decode_conference = decode_conference;
    encode_conference = encode_conference;
    decode_client_info = decode_client_info;
    is_utf8 = is_utf8;
  }

-- What a client reads of the conference response: the blocks in it.
unfoldable pub read_conference : List ℕ → Result ServerGccBlocks
read_conference user_data = do
  response ← decode_response user_data
  decode_server_blocks response.server_gcc_blocks

-- The ids are 16-bit numbers, of fewer than 4096 channels.
unfoldable pub AreBlocks : ServerBlocks → Type 0
AreBlocks x =
    IsU32 x.client_requested_protocols
    × All IsU16 x.channel_ids
    × (length x.channel_ids < 0x1000)
    × ((id : ℕ) → x.message_channel ≡ some id → IsU16 id)

blocks-IsServer : (x : ServerBlocks) → AreBlocks x → IsServer (server_gcc_blocks x)
unfolding AreBlocks IsServer server_gcc_blocks IsCore AreOptions IsNetwork
blocks-IsServer x h = ((omega arith, h.0), (omega arith, omega arith, h.1), omega arith, h.3)

-- If the requested protocols fit 32 bits and the ids of fewer than 4096 channels, and of a
-- message channel, fit 16 bits, a client decodes from the conference response the blocks that
-- the acceptor put into it.
pub read_conference-encode_conference :
    (x : ServerBlocks)
    → AreBlocks x
    → read_conference (encode_conference x) ≡ ok (server_gcc_blocks x)
unfolding read_conference encode_conference
read_conference-encode_conference x h =
    let blocks = server_gcc_blocks x in
    let good = blocks-IsServer x h in
    let size : length (encode_server_blocks blocks) + 13 < 0x8000 =
      unfold AreBlocks server_gcc_blocks in
      omega (arith, length-encode_server_blocks blocks good) in
    rw
      (
        decode_conference_response
            (record { node_id = user_channel_id; server_gcc_blocks = encode_server_blocks blocks })
            (omega arith) (omega arith) size,
        decode_server_blocks-encode_server_blocks blocks good,
      )
      refl

pub length-encode_conference :
    (x : ServerBlocks) → AreBlocks x → length (encode_conference x) ≤ 2 * length x.channel_ids + 112
unfolding encode_conference
length-encode_conference x h =
    let blocks = server_gcc_blocks x in
    let size : length (encode_server_blocks blocks) ≤ 2 * length x.channel_ids + 48 =
      unfold server_gcc_blocks in length-encode_server_blocks blocks (blocks-IsServer x h) in
    omega (
      arith,
      length-encode_response
          (record { node_id = user_channel_id; server_gcc_blocks = encode_server_blocks blocks }),
    )
