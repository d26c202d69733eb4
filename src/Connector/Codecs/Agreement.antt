-- ===== src/Connector/Codecs/Agreement.antt =====
-- crates/rdpcore-connector/src/lib.rs, `on_connect_initial`: what a client reads of its answer.
use mathlib.Core.Option.{some-injective}
use kmsrdp.Prelude.{
  ap, ℕ, ◌+◌, ◌≤◌, ◌≡◌, refl, Bool, true, false, Option, none, some, List, [], ◌∷◌, length, map,
  arith, IsU16, IsU32, All,
}
use kmsrdp.Pdu.Result.{Result, ok, err, bind-ok, ◌>>=◌}
use kmsrdp.Pdu.X224.{wrap_data, unwrap_data}
use kmsrdp.Pdu.X224.Laws.{unwrap_data-wrap_data}
use kmsrdp.Pdu.Mcs.Connect as Connect
use kmsrdp.Pdu.Mcs.Connect.Laws.{decode_response-encode_response, AreParameters, IsResponse}
use kmsrdp.Pdu.Gcc.Client as Client
use kmsrdp.Pdu.Gcc.Client.Bounds.{AreFew, decode_client_blocks-few}
use kmsrdp.Pdu.Gcc.Server.{ServerGccBlocks}
use kmsrdp.Pdu.Gcc.Conference.{decode_request}
use kmsrdp.Connector.{Text, Acceptor, StepResult, Outcome, done, and_then, ClientCredentials}
use kmsrdp.Connector.Codecs.{ClientBlocks, ServerBlocks}
use kmsrdp.Connector.Codecs.Blocks.{
  names, client_blocks, server_gcc_blocks, encode_conference, length-encode_conference,
  decode_conference, codecs_of, AreBlocks, read_conference, read_conference-encode_conference,
}
use kmsrdp.Connector.Handlers.{
  static_channel_id, number_channels, channel_id_of, names_of, message_channel_of, answer_initial,
  on_connect_initial,
}

-- What `answer_initial` puts into the conference response.
unfoldable pub assigned : ℕ → ClientBlocks → ServerBlocks
assigned client_requested_protocols blocks = record {
  client_requested_protocols = client_requested_protocols;
  channel_ids = map channel_id_of (number_channels 0 (names_of blocks.network));
  message_channel = message_channel_of blocks.message_channel (length (names_of blocks.network));
}

ids-All : (i : ℕ) (texts : List Text) → All IsU16 (map channel_id_of (number_channels i texts))
unfolding number_channels
ids-All i [] = tt
ids-All i (name ∷ texts) = (unfold static_channel_id in omega arith, ids-All (i + 1) texts)

length-ids :
    (i : ℕ) (texts : List Text)
    → length (map channel_id_of (number_channels i texts)) ≡ length texts
unfolding number_channels
length-ids i [] = refl
length-ids i (name ∷ texts) = omega (arith, length-ids (i + 1) texts)

length-map_name :
    (channels : List Client.ChannelDef)
    → length (map (λ channel. channel.name) channels) ≡ length channels
length-map_name [] = refl
length-map_name (channel ∷ channels) = omega (arith, length-map_name channels)

names_few :
    (network : Option (List Client.ChannelDef))
    → AreFew network
    → length (names_of (names network)) ≤ 31
unfolding AreFew names names_of
names_few none h = omega arith
names_few (some channels) h = omega (arith, length-map_name channels)

message_id : (present : Bool) (count id : ℕ) → message_channel_of present count ≡ some id → IsU16 id
unfolding message_channel_of static_channel_id
message_id false count id e = ground arith
message_id true count id e =
    let same : static_channel_id count ≡ id = some-injective _ id e in omega arith

module _ (from_utf16 from_utf8_lossy : List ℕ → Text) where
  assigned-AreBlocks :
      (user_data : List ℕ) (protocols : ℕ) (blocks : ClientBlocks)
      → IsU32 protocols
      → decode_conference from_utf16 from_utf8_lossy user_data ≡ ok blocks
      → AreBlocks (assigned protocols blocks)
        × (length (assigned protocols blocks).channel_ids ≤ 31)
  unfolding decode_conference client_blocks AreBlocks assigned
  assigned-AreBlocks user_data protocols blocks h e =
      let (bytes, _, e1) = bind-ok (decode_request user_data) _ blocks e in
      let (x, decoded, e2) =
        bind-ok (Client.decode_client_blocks from_utf16 from_utf8_lossy bytes) _ blocks e1 in
      let same : client_blocks x ≡ blocks = cc in
      let few =
        names_few x.network (decode_client_blocks-few from_utf16 from_utf8_lossy bytes x decoded) in
      let texts = names_of blocks.network in
      let network : names x.network ≡ blocks.network = ap (λ b. b.network) same in
      let few' : length texts ≤ 31 = rw network at few in
      (
        (
          h,
          ids-All 0 texts,
          omega (arith, length-ids 0 texts),
          message_id blocks.message_channel (length texts),
        ),
        omega (arith, length-ids 0 texts),
      )

pub target-AreParameters : AreParameters Connect.parameters_target
target-AreParameters = record {
  max_channel_ids = omega arith;
  max_user_ids = omega arith;
  max_token_ids = omega arith;
  num_priorities = omega arith;
  min_throughput = omega arith;
  max_height = omega arith;
  max_mcs_pdu_size = omega arith;
  protocol_version = omega arith;
}

-- What a client reads of the answer to its Connect-Initial.
unfoldable pub client_reads : List ℕ → Result ServerGccBlocks
client_reads response = do
  payload ← unwrap_data response
  answer ← Connect.decode_response payload
  read_conference answer.user_data

client_reads-answer :
    (x : ServerBlocks)
    → AreBlocks x
    → length x.channel_ids ≤ 31
    → client_reads (
        wrap_data (
          Connect.encode_response (record {
            called_connect_id = 0;
            domain_parameters = Connect.parameters_target;
            user_data = encode_conference x;
          })))
      ≡ ok (server_gcc_blocks x)
unfolding client_reads
client_reads-answer x h few =
    let answer : Connect.ConnectResponse = record {
      called_connect_id = 0;
      domain_parameters = Connect.parameters_target;
      user_data = encode_conference x;
    } in
    let good : IsResponse answer = record {
      connect_id = omega arith;
      parameters = target-AreParameters;
      size = omega (arith, length-encode_conference x h);
    } in
    rw
      (
        unwrap_data-wrap_data (Connect.encode_response answer),
        decode_response-encode_response answer good,
        read_conference-encode_conference x h,
      )
      refl

-- A call that went on had the result it went on with.
and_then-done :
    {A : Type 0} (result : Result A) (acceptor : Acceptor) (next : A → Outcome) (step : StepResult)
    (after : Acceptor)
    → and_then result acceptor next ≡ done step after
    → (value : A) × (result ≡ ok value) × (next value ≡ done step after)
unfolding and_then
and_then-done (ok value) acceptor next step after e = (value, refl, e)
and_then-done (err error) acceptor next step after e = absurd (cc)

done-injective :
    (s step : StepResult) (a after : Acceptor)
    → done s a ≡ done step after
    → (s.response ≡ step.response)
      × (a.static_channel_names ≡ after.static_channel_names)
      × (a.message_channel_id ≡ after.message_channel_id)
done-injective s step a after e = (cc, cc, cc)

module _ (from_utf16 from_utf8_lossy : List ℕ → Text) where
  -- With the codecs of gcc.rs, if the requested protocols fit 32 bits and the acceptor answers a
  -- Connect-Initial, a client decodes from the answer an id for each static channel that the
  -- acceptor noted, in their order, and the message channel that it noted.
  pub on_connect_initial-client_reads :
      (decode_client_info : List ℕ → Result ClientCredentials) (is_utf8 : List ℕ → Bool)
      (input : List ℕ) (acceptor after : Acceptor) (step : StepResult)
      → IsU32 acceptor.client_requested_protocols
      → on_connect_initial
          (codecs_of from_utf16 from_utf8_lossy decode_client_info is_utf8)
          input
          acceptor
        ≡ done step after
      → (x : ServerGccBlocks) × (client_reads step.response ≡ ok x)
        × (x.network.channel_ids ≡ map channel_id_of (number_channels 0 after.static_channel_names))
        × (x.message_channel ≡ after.message_channel_id)
  unfolding on_connect_initial codecs_of answer_initial assigned server_gcc_blocks
  on_connect_initial-client_reads info is_utf8 input acceptor after step h e =
      let (payload, _, e1) = and_then-done (unwrap_data input) acceptor _ step after e in
      let (initial, _, e2) =
        and_then-done (Connect.decode_initial payload) acceptor _ step after e1 in
      let (blocks, decoded, e3) =
        and_then-done (decode_conference from_utf16 from_utf8_lossy initial.user_data) acceptor _
          step after e2 in
      let good =
        assigned-AreBlocks from_utf16 from_utf8_lossy initial.user_data
          acceptor.client_requested_protocols blocks h decoded in
      let x = assigned acceptor.client_requested_protocols blocks in
      let read = client_reads-answer x good.0 good.1 in
      let (response, noted, message) = done-injective _ step _ after e3 in
      (server_gcc_blocks x, rw response at read, rw noted refl, message)
