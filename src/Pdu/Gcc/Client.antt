-- ===== src/Pdu/Gcc/Client.antt =====
-- gcc.rs: what the server reads of the client's blocks. The standard library's conversions of code
-- units and bytes to text are `from_utf16` and `from_utf8_lossy`.
pub mod Bounds
use kmsrdp.Prelude.{
  ℕ, zero, suc, ◌+◌, ◌*◌, Option, none, some, List, [], ◌∷◌, length, get_or, min, ltb, ◌==◌,
  if◌then◌else◌,
}
use kmsrdp.Pdu.Result.{Result, ok, ◌>>=◌, ◌>>◌}
use kmsrdp.Pdu.Cursor.{ReadCursor, new, ensure, read_u16_le, read_u32_le, read_slice}
use kmsrdp.Pdu.ShareControl.{ok_or}
use kmsrdp.Pdu.Gcc.{
  cs_core, cs_security, cs_net, cs_cluster, cs_mcs_msgchannel, channels_max,
  for_each_user_data_block,
}

abbrev pub Text : Type 0
Text = List ℕ

-- utf16.rs, `read_fixed`: the code units before the first NUL.
unfoldable pub units_to_nul : List ℕ → List ℕ
units_to_nul (low ∷ high ∷ bytes) =
    let unit = low + high * 0x100 in
    let rest = units_to_nul bytes in if unit == 0 then [] else unit ∷ rest
units_to_nul _ = []

-- `name_bytes.iter().position(|&b| b == 0).unwrap_or(8)`, and the bytes before it.
unfoldable pub bytes_to_nul : List ℕ → List ℕ
bytes_to_nul [] = []
bytes_to_nul (b ∷ bytes) = let rest = bytes_to_nul bytes in if b == 0 then [] else b ∷ rest

pub record ClientCoreData : Type 0 where
  pub version : ℕ
  pub desktop_width : ℕ
  pub desktop_height : ℕ
  pub color_depth : ℕ
  pub sas_sequence : ℕ
  pub keyboard_layout : ℕ
  pub client_build : ℕ
  pub client_name : Text
  pub keyboard_type : ℕ
  pub keyboard_subtype : ℕ
  pub keyboard_function_key : ℕ
  pub ime_file_name : Text

pub record ClientSecurityData : Type 0 where
  pub encryption_methods : ℕ
  pub ext_encryption_methods : ℕ

pub record ChannelDef : Type 0 where
  pub name : Text
  pub options : ℕ

pub record ClientClusterData : Type 0 where
  pub flags : ℕ
  pub redirected_session_id : ℕ

abbrev pub fixed_part_size : ℕ
fixed_part_size = 128

unfoldable pub decode_security : ReadCursor → Result (ClientSecurityData × ReadCursor)
decode_security c = do
  (encryption_methods, c) ← read_u32_le c
  (ext_encryption_methods, c) ← read_u32_le c
  ok (
    record {
      encryption_methods = encryption_methods;
      ext_encryption_methods = ext_encryption_methods;
    },
    c,
  )

unfoldable pub decode_cluster : ReadCursor → Result (ClientClusterData × ReadCursor)
decode_cluster c = do
  (flags, c) ← read_u32_le c
  (redirected_session_id, c) ← read_u32_le c
  ok (record { flags = flags; redirected_session_id = redirected_session_id }, c)

-- The optional tail of the core block, behind 12 bytes of it.
unfoldable pub early_capability_flags_from_cs_core : List ℕ → Option ℕ
early_capability_flags_from_cs_core body =
    if ltb (length body) (fixed_part_size + 12 + 2)
    then none
    else some (get_or body (fixed_part_size + 12) 0 + get_or body (fixed_part_size + 13) 0 * 0x100)

-- What the blocks gave so far; the message channel is its flags.
pub record Found : Type 0 where
  pub core : Option ClientCoreData
  pub security : Option ClientSecurityData
  pub network : Option (List ChannelDef)
  pub cluster : Option ClientClusterData
  pub message_channel : Option ℕ
  pub early_capability_flags : Option ℕ

abbrev pub nothing_found : Found
nothing_found = record {
  core = none;
  security = none;
  network = none;
  cluster = none;
  message_channel = none;
  early_capability_flags = none;
}

pub record ClientGccBlocks : Type 0 where
  pub core : ClientCoreData
  pub security : ClientSecurityData
  pub network : Option (List ChannelDef)
  pub cluster : Option ClientClusterData
  pub message_channel : Option ℕ
  pub early_capability_flags : Option ℕ

module _ (from_utf16 from_utf8_lossy : List ℕ → Text) where
  unfoldable pub decode_core : ReadCursor → Result (ClientCoreData × ReadCursor)
  unfolding units_to_nul
  decode_core c = do
    ensure fixed_part_size c
    (version, c) ← read_u32_le c
    (desktop_width, c) ← read_u16_le c
    (desktop_height, c) ← read_u16_le c
    (color_depth, c) ← read_u16_le c
    (sas_sequence, c) ← read_u16_le c
    (keyboard_layout, c) ← read_u32_le c
    (client_build, c) ← read_u32_le c
    (client_name, c) ← read_slice 32 c
    (keyboard_type, c) ← read_u32_le c
    (keyboard_subtype, c) ← read_u32_le c
    (keyboard_function_key, c) ← read_u32_le c
    (ime_file_name, c) ← read_slice 64 c
    ok (
      record {
        version = version;
        desktop_width = desktop_width;
        desktop_height = desktop_height;
        color_depth = color_depth;
        sas_sequence = sas_sequence;
        keyboard_layout = keyboard_layout;
        client_build = client_build;
        client_name = from_utf16 (units_to_nul client_name);
        keyboard_type = keyboard_type;
        keyboard_subtype = keyboard_subtype;
        keyboard_function_key = keyboard_function_key;
        ime_file_name = from_utf16 (units_to_nul ime_file_name);
      },
      c,
    )

  unfoldable pub decode_channel : ReadCursor → Result (ChannelDef × ReadCursor)
  unfolding bytes_to_nul
  decode_channel c = do
    (name_bytes, c) ← read_slice 8 c
    (options, c) ← read_u32_le c
    ok (record { name = from_utf8_lossy (bytes_to_nul name_bytes); options = options }, c)

  unfoldable pub decode_channels : ℕ → ReadCursor → Result (List ChannelDef × ReadCursor)
  unfolding decode_channel
  decode_channels zero c = ok ([], c)
  decode_channels (suc count) c = do
    (channel, c) ← decode_channel c
    (channels, c) ← decode_channels count c
    ok (channel ∷ channels, c)

  unfoldable pub decode_network : ReadCursor → Result (List ChannelDef × ReadCursor)
  unfolding decode_channels
  decode_network c = do (count, c) ← read_u32_le c; decode_channels (min count channels_max) c

  -- The closure of `ClientGccBlocks::decode`.
  unfoldable pub handle_client : ℕ → List ℕ → Found → Result Found
  unfolding decode_core decode_network
  handle_client kind body found =
      if kind == cs_core
      then (do
        (core, _c) ← decode_core (new body)
        ok (record found {
          core = some core;
          early_capability_flags = early_capability_flags_from_cs_core body;
        }))
      else if kind == cs_security
      then (do
        (security, _c) ← decode_security (new body)
        ok (record found { security = some security }))
      else if kind == cs_net
      then (do
        (network, _c) ← decode_network (new body)
        ok (record found { network = some network }))
      else if kind == cs_cluster
      then (do
        (cluster, _c) ← decode_cluster (new body)
        ok (record found { cluster = some cluster }))
      else if kind == cs_mcs_msgchannel
      then (do
        (flags, _c) ← read_u32_le (new body)
        ok (record found { message_channel = some flags }))
      else ok found

  unfoldable pub decode_client_blocks : List ℕ → Result ClientGccBlocks
  decode_client_blocks input = do
    found ← for_each_user_data_block handle_client nothing_found input
    core ← ok_or found.core "gcc.client_blocks.core" "missing mandatory CS_CORE block"
    security ←
        ok_or found.security "gcc.client_blocks.security" "missing mandatory CS_SECURITY block"
    ok (record {
      core = core;
      security = security;
      network = found.network;
      cluster = found.cluster;
      message_channel = found.message_channel;
      early_capability_flags = found.early_capability_flags;
    })
