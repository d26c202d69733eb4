-- ===== src/Tests/Agreement.antt =====
-- A Connect-Initial of a client with one channel, and the answer to it.
use kmsrdp.Prelude.{
  ℕ, ◌≡◌, refl, true, some, Bool, List, [], ◌∷◌, ◌++◌, map, replicate, arith, IsU32,
}
use kmsrdp.Pdu.Result.{Result, ok}
use kmsrdp.Pdu.X224.{wrap_data}
use kmsrdp.Pdu.X224.Laws.{unwrap_data-wrap_data}
use kmsrdp.Pdu.Mcs.Connect as Connect
use kmsrdp.Pdu.Mcs.Connect.Laws.{IsInitial, decode_initial-encode_initial}
use kmsrdp.Pdu.Gcc.{write_block, cs_core, cs_security, cs_net, cs_mcs_msgchannel}
use kmsrdp.Pdu.Gcc as Gcc
use kmsrdp.Pdu.Per as Per
use kmsrdp.Pdu.Cursor as Cursor
use kmsrdp.Pdu.ShareControl as ShareControl
use kmsrdp.Connector.Codecs.Blocks as Blocks
use kmsrdp.Pdu.Gcc.Client as Client
use kmsrdp.Pdu.Gcc.Server.{ServerGccBlocks}
use kmsrdp.Pdu.Gcc.Conference as Conference
use kmsrdp.Pdu.Gcc.Conference.Laws.{decode_conference_request}
use kmsrdp.Connector as Connector
use kmsrdp.Connector.{
  Acceptor, StepResult, Text, just, done, new_acceptor, wait_erect_domain_request,
  ClientCredentials,
}
use kmsrdp.Connector.Codecs.{ClientBlocks}
use kmsrdp.Connector.Codecs.Blocks.{codecs_of, client_blocks, decode_conference, encode_conference}
use kmsrdp.Connector.Codecs.Agreement.{
  target-AreParameters, assigned, client_reads, on_connect_initial-client_reads,
}
use kmsrdp.Connector.Handlers as Handlers
use kmsrdp.Connector.Handlers.{on_connect_initial, answer_initial, number_channels, channel_id_of}

abbrev same_text : List ℕ → Text
same_text bytes = bytes

-- An empty core block, one channel named "a", and a message channel.
abbrev client_user_data : List ℕ
client_user_data =
    write_block cs_core (replicate 128 0)
    ++ (write_block cs_security (replicate 8 0)
        ++ (write_block cs_net (1 ∷ 0 ∷ 0 ∷ 0 ∷ 97 ∷ replicate 11 0)
            ++ write_block cs_mcs_msgchannel (replicate 4 0)))

abbrev found : ClientBlocks
found = record { client_name = []; network = some ((97 ∷ []) ∷ []); message_channel = true }

found-decoded :
    decode_conference same_text same_text (Conference.encode_request client_user_data) ≡ ok found
unfolding decode_conference Client.decode_client_blocks Gcc.for_each_user_data_block write_block
    Cursor.write_u16_le Cursor.remaining Cursor.new Gcc.read_block Cursor.read_u16_le
    Cursor.read_slice Client.handle_client Cursor.read_u32_le Client.decode_security
    ShareControl.ok_or client_blocks Blocks.names Blocks.is_some
found-decoded = rw (decode_conference_request client_user_data (omega arith)) refl

abbrev initial : Connect.ConnectInitial
initial = record {
  target_parameters = Connect.parameters_target;
  min_parameters = Connect.parameters_target;
  max_parameters = Connect.parameters_target;
  user_data = Conference.encode_request client_user_data;
}

initial-IsInitial : IsInitial initial
unfolding Conference.encode_request write_block Cursor.write_u16_le Cursor.write_u8
    Conference.write_conference_object_id Per.write_object_id Per.write_length Cursor.write_u16_be
    Per.write_numeric_string Per.write_padding Per.write_choice Per.write_octet_string
initial-IsInitial = record {
  target = target-AreParameters;
  least = target-AreParameters;
  most = target-AreParameters;
  size = omega arith;
}

abbrev start : Acceptor
start = new_acceptor 1920 1080

abbrev after : Acceptor
after = record start {
  client_name = [];
  static_channel_names = (97 ∷ []) ∷ [];
  message_channel_id = some 1005;
  state = wait_erect_domain_request;
}

abbrev answer : StepResult
answer = just (
    wrap_data (
      Connect.encode_response (record {
        called_connect_id = 0;
        domain_parameters = Connect.parameters_target;
        user_data = encode_conference (assigned start.client_requested_protocols found);
      })))

abbrev no_info : List ℕ → Result ClientCredentials
no_info input = ok (record { domain = []; username = []; password = [] })

abbrev all_text : List ℕ → Bool
all_text bytes = true

answered :
    on_connect_initial
      (codecs_of same_text same_text no_info all_text)
      (wrap_data (Connect.encode_initial initial))
      start
    ≡ done answer after
unfolding on_connect_initial answer_initial codecs_of assigned new_acceptor Connector.and_then
    Handlers.names_of Handlers.message_channel_of Handlers.static_channel_id
answered =
    rw
      (
        unwrap_data-wrap_data (Connect.encode_initial initial),
        decode_initial-encode_initial initial initial-IsInitial,
        found-decoded,
      )
      refl

requested : IsU32 start.client_requested_protocols
unfolding new_acceptor
requested = omega arith

on_connect_initial-client_reads_example :
    (x : ServerGccBlocks) × (client_reads answer.response ≡ ok x)
    × (x.network.channel_ids ≡ map channel_id_of (number_channels 0 after.static_channel_names))
    × (x.message_channel ≡ after.message_channel_id)
on_connect_initial-client_reads_example =
    on_connect_initial-client_reads same_text same_text no_info all_text
      (wrap_data (Connect.encode_initial initial)) start after answer requested answered
