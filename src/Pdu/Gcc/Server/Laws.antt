-- ===== src/Pdu/Gcc/Server/Laws.antt =====
-- gcc.rs: each of the server's blocks, read back from its bytes.
use kmsrdp.Prelude.{
  ℕ, ◌%◌, ◌≡◌, refl, true, Option, none, some, List, [], ◌∷◌, ◌++◌, length, arith, leb, ◌==◌, ◌&&◌,
  if◌then◌else◌, IsU16, IsU32, All, append_assoc, append-nil,
}
use kmsrdp.Pdu.Result.{ok}
use kmsrdp.Pdu.Cursor.{ReadCursor, new, advance, write_u16_le, write_u32_le, remaining}
use kmsrdp.Pdu.Cursor.Laws.{
  at, new-at, remaining-at, cursor_laws, read_u16_le-at, read_u32_le-at, read_u16_le-end,
  read_u32_le-end,
}
use kmsrdp.Pdu.Gcc.{sc_core, sc_net, sc_security, sc_mcs_msgchannel}
use kmsrdp.Pdu.Gcc.Server.{
  ServerCoreData, write_optional, encode_core, read_optional, decode_core, encode_security,
  decode_security, ServerNetworkData, write_ids, encode_network, read_ids, decode_network, Found,
  handle_server,
}

-- The early capability flags are written behind the requested protocols only.
unfoldable pub AreOptions : Option ℕ → Option ℕ → Type 0
AreOptions none none = Unit
AreOptions none (some flags) = ⊥
AreOptions (some protocols) none = IsU32 protocols
AreOptions (some protocols) (some flags) = IsU32 protocols × IsU32 flags

unfoldable pub IsCore : ServerCoreData → Type 0
IsCore x = IsU32 x.version × AreOptions x.client_requested_protocols x.early_capability_flags

read_optional-end : (f : List ℕ) → read_optional (at f []) ≡ ok (none, at f [])
unfolding read_optional
read_optional-end f = rw (remaining-at f []) refl

read_optional-at :
    (f r : List ℕ) (value : ℕ)
    → IsU32 value
    → read_optional (at f (write_u32_le value ++ r))
      ≡ ok (some value, at (f ++ write_u32_le value) r)
unfolding read_optional
read_optional-at f r value h =
    let more : leb 4 (remaining (at f (write_u32_le value ++ r))) ≡ true =
      rw (remaining-at f (write_u32_le value ++ r)) (unfold write_u32_le in ground arith) in
    rw (more, read_u32_le-at f r value h)

write_optional-some : (value : ℕ) → write_optional (some value) ≡ write_u32_le value
unfolding write_optional
write_optional-some value = refl

write_optional-none : write_optional none ≡ []
unfolding write_optional
write_optional-none = refl

decode_core-at :
    (version : ℕ) (protocols flags : Option ℕ)
    → IsU32 version
    → AreOptions protocols flags
    → let x : ServerCoreData = record {
      version = version;
      client_requested_protocols = protocols;
      early_capability_flags = flags;
    } in
      decode_core (new (encode_core x)) ≡ ok (x, at (encode_core x) [])
unfolding AreOptions decode_core encode_core
decode_core-at v none none u h =
    simp (write_optional-none, new-at, append-nil, read_u32_le-end, u, read_optional-end)
decode_core-at v none (some w) u h = ground arith
decode_core-at v (some p) none u h =
    let first : read_optional (at (write_u32_le v) (write_u32_le p))
        ≡ ok (some p, at (write_u32_le v ++ write_u32_le p) []) =
      rw append-nil at (read_optional-at (write_u32_le v) [] p h) in
    rw
      (
        write_optional-none,
        append-nil,
        write_optional-some p,
        new-at,
        read_u32_le-at [] _ v u,
        decode_core,
        first,
        read_optional-end,
      )
      refl
decode_core-at v (some p) (some w) u h =
    let f1 = write_u32_le v in
    let f2 = f1 ++ write_u32_le p in
    let second : read_optional (at f2 (write_u32_le w))
        ≡ ok (some w, at (f2 ++ write_u32_le w) []) =
      rw append-nil at (read_optional-at f2 [] w h.1) in
    rw
      (
        write_optional-some p,
        write_optional-some w,
        new-at,
        read_u32_le-at [] _ v u,
        decode_core,
        read_optional-at f1 _ p h.0,
        second,
        append_assoc,
      )
      refl

decode_security-encode_security :
    decode_security (new encode_security) ≡ ok (tt, at encode_security [])
unfolding decode_security encode_security
decode_security-encode_security =
    let none_used : IsU32 0 = omega arith in simp (new-at, cursor_laws, none_used, read_u32_le-end)

read_ids-write_ids :
    (f r : List ℕ) (ids : List ℕ)
    → All IsU16 ids
    → read_ids (length ids) (at f (write_ids ids ++ r)) ≡ ok (ids, at (f ++ write_ids ids) r)
unfolding read_ids write_ids
read_ids-write_ids f r [] h = simp (append-nil)
read_ids-write_ids f r (id ∷ ids) h =
    let rest = read_ids-write_ids (f ++ write_u16_le id) r ids h.1 in
    simp (append_assoc, cursor_laws, h.0, rest)

unfoldable pub IsNetwork : ServerNetworkData → Type 0
IsNetwork x = IsU16 x.io_channel_id × IsU16 (length x.channel_ids) × All IsU16 x.channel_ids

-- The network data is read back from its block, the padding of an odd count included.
decode_network-encode_network :
    (x : ServerNetworkData)
    → IsNetwork x
    → (c : ReadCursor) × (decode_network (new (encode_network x)) ≡ ok (x, c))
unfolding decode_network encode_network IsNetwork
decode_network-encode_network x h =
    let narrow : length x.channel_ids % 0x1_0000 ≡ length x.channel_ids = omega arith in
    let n = length x.channel_ids in
    let front = write_u16_le x.io_channel_id ++ write_u16_le n in
    let padding = if n % 2 == 1 then write_u16_le 0 else [] in
    let c = at (front ++ write_ids x.channel_ids) padding in
    (
      if n % 2 == 1 && leb 2 (remaining c) then advance 2 c else c,
      rw
          (
            narrow,
            new-at,
            read_u16_le-at [] (write_u16_le n ++ (write_ids x.channel_ids ++ padding))
                x.io_channel_id h.0,
            decode_network,
            read_u16_le-at (write_u16_le x.io_channel_id) (write_ids x.channel_ids ++ padding) n
                h.1,
            read_ids-write_ids front padding x.channel_ids h.2,
          )
          refl,
    )

pub handle_core :
    (found : Found) (x : ServerCoreData)
    → IsCore x
    → handle_server sc_core (encode_core x) found ≡ ok (record found { core = some x })
unfolding handle_server IsCore
handle_core found x h =
    rw (decode_core-at x.version x.client_requested_protocols x.early_capability_flags h.0 h.1) refl

pub handle_network :
    (found : Found) (x : ServerNetworkData)
    → IsNetwork x
    → handle_server sc_net (encode_network x) found ≡ ok (record found { network = some x })
unfolding handle_server
handle_network found x h = let e = decode_network-encode_network x h in rw e.1 refl

pub handle_security :
    (found : Found)
    → handle_server sc_security encode_security found ≡ ok (record found { security = some tt })
unfolding handle_server
handle_security found = rw decode_security-encode_security refl

pub handle_message :
    (found : Found) (id : ℕ)
    → IsU16 id
    → handle_server sc_mcs_msgchannel (write_u16_le id) found
      ≡ ok (record found { message_channel = some id })
unfolding handle_server
handle_message found id h = rw (new-at, read_u16_le-end [] id h) refl
