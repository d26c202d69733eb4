-- ===== src/Pdu/Gcc/Server.antt =====
-- gcc.rs: the server's blocks.
pub mod Laws
pub mod RoundTrip
use kmsrdp.Prelude.{
  ℕ, zero, suc, ◌%◌, ◌&&◌, Option, none, some, List, [], ◌∷◌, ◌++◌, length, leb, ◌==◌,
  if◌then◌else◌,
}
use kmsrdp.Pdu.Result.{Result, ok, invalid_value, guard, ◌>>=◌, ◌>>◌}
use kmsrdp.Pdu.Cursor.{
  ReadCursor, new, remaining, advance, read_u16_le, read_u32_le, write_u16_le, write_u32_le,
}
use kmsrdp.Pdu.ShareControl.{ok_or}
use kmsrdp.Pdu.Gcc.{
  sc_core, sc_net, sc_security, sc_mcs_msgchannel, write_block, for_each_user_data_block,
}

pub record ServerCoreData : Type 0 where
  pub version : ℕ
  pub client_requested_protocols : Option ℕ
  pub early_capability_flags : Option ℕ

unfoldable pub write_optional : Option ℕ → List ℕ
write_optional none = []
write_optional (some value) = write_u32_le value

unfoldable pub encode_core : ServerCoreData → List ℕ
unfolding write_optional
encode_core x =
    write_u32_le x.version
    ++ (write_optional x.client_requested_protocols ++ write_optional x.early_capability_flags)

unfoldable pub read_optional : ReadCursor → Result (Option ℕ × ReadCursor)
read_optional c =
    if leb 4 (remaining c)
    then (do (value, c) ← read_u32_le c; ok (some value, c))
    else ok (none, c)

unfoldable pub decode_core : ReadCursor → Result (ServerCoreData × ReadCursor)
decode_core c = do
  (version, c) ← read_u32_le c
  (client_requested_protocols, c) ← read_optional c
  (early_capability_flags, c) ← read_optional c
  ok (
    record {
      version = version;
      client_requested_protocols = client_requested_protocols;
      early_capability_flags = early_capability_flags;
    },
    c,
  )

unfoldable pub encode_security : List ℕ
encode_security = write_u32_le 0 ++ write_u32_le 0

unfoldable pub decode_security : ReadCursor → Result (Unit {0} × ReadCursor)
decode_security c = do
  (encryption_method, c) ← read_u32_le c
  (encryption_level, c) ← read_u32_le c
  guard (encryption_method == 0 && encryption_level == 0)
      (invalid_value "gcc.server_security" "only the no-security (TLS-only) encoding is supported")
  ok (tt, c)

pub record ServerNetworkData : Type 0 where
  pub io_channel_id : ℕ
  pub channel_ids : List ℕ

unfoldable pub write_ids : List ℕ → List ℕ
write_ids [] = []
write_ids (id ∷ ids) = write_u16_le id ++ write_ids ids

unfoldable pub encode_network : ServerNetworkData → List ℕ
unfolding write_ids
encode_network x =
    write_u16_le x.io_channel_id
    ++ (write_u16_le (length x.channel_ids % 0x1_0000)
        ++ (write_ids x.channel_ids
            ++ (if length x.channel_ids % 2 == 1 then write_u16_le 0 else [])))

unfoldable pub read_ids : ℕ → ReadCursor → Result (List ℕ × ReadCursor)
read_ids zero c = ok ([], c)
read_ids (suc count) c = do (id, c) ← read_u16_le c; (ids, c) ← read_ids count c; ok (id ∷ ids, c)

unfoldable pub decode_network : ReadCursor → Result (ServerNetworkData × ReadCursor)
unfolding read_ids
decode_network c = do
  (io_channel_id, c) ← read_u16_le c
  (count, c) ← read_u16_le c
  (channel_ids, c) ← read_ids count c
  ok (
    record { io_channel_id = io_channel_id; channel_ids = channel_ids },
    (if count % 2 == 1 && leb 2 (remaining c) then advance 2 c else c),
  )

-- The security block has no fields; the message channel is its id.
pub record ServerGccBlocks : Type 0 where
  pub core : ServerCoreData
  pub network : ServerNetworkData
  pub message_channel : Option ℕ

unfoldable pub message_block : Option ℕ → List ℕ
message_block none = []
message_block (some mcs_channel_id) = write_block sc_mcs_msgchannel (write_u16_le mcs_channel_id)

unfoldable pub encode_server_blocks : ServerGccBlocks → List ℕ
unfolding message_block
encode_server_blocks x =
    write_block sc_core (encode_core x.core)
    ++ (write_block sc_net (encode_network x.network)
        ++ (write_block sc_security encode_security ++ message_block x.message_channel))

pub record Found : Type 0 where
  pub core : Option ServerCoreData
  pub network : Option ServerNetworkData
  pub security : Option (Unit {0})
  pub message_channel : Option ℕ

abbrev pub nothing_found : Found
nothing_found = record { core = none; network = none; security = none; message_channel = none }

-- The closure of `ServerGccBlocks::decode`.
unfoldable pub handle_server : ℕ → List ℕ → Found → Result Found
handle_server kind body found =
    if kind == sc_core
    then (do (core, _c) ← decode_core (new body); ok (record found { core = some core }))
    else if kind == sc_net
    then (do
      (network, _c) ← decode_network (new body)
      ok (record found { network = some network }))
    else if kind == sc_security
    then (do
      (security, _c) ← decode_security (new body)
      ok (record found { security = some security }))
    else if kind == sc_mcs_msgchannel
    then (do (id, _c) ← read_u16_le (new body); ok (record found { message_channel = some id }))
    else ok found

unfoldable pub decode_server_blocks : List ℕ → Result ServerGccBlocks
decode_server_blocks input = do
  found ← for_each_user_data_block handle_server nothing_found input
  core ← ok_or found.core "gcc.server_blocks.core" "missing mandatory SC_CORE block"
  network ← ok_or found.network "gcc.server_blocks.network" "missing mandatory SC_NET block"
  _security ←
      ok_or found.security "gcc.server_blocks.security" "missing mandatory SC_SECURITY block"
  ok (record { core = core; network = network; message_channel = found.message_channel })
