-- ===== src/Connector/Codecs.antt =====
-- crates/rdpcore-pdu/src: what the acceptor uses of gcc.rs and client_info.rs.
pub mod Blocks
pub mod Agreement
use kmsrdp.Prelude.{ℕ, Bool, Option, List}
use kmsrdp.Pdu.Result.{Result}
use kmsrdp.Connector.{Text, ClientCredentials}

-- Of the blocks of a client: its name, its channels, and whether there is a message channel.
pub record ClientBlocks : Type 0 where
  pub client_name : Text
  pub network : Option (List Text)
  pub message_channel : Bool

pub record ServerBlocks : Type 0 where
  pub client_requested_protocols : ℕ
  pub channel_ids : List ℕ
  pub message_channel : Option ℕ

-- `ConferenceCreateRequest::decode` with `ClientGccBlocks::decode`, the encoding of a
-- `ConferenceCreateResponse`, `ClientInfoPdu::decode`, and the test for UTF-8.
pub record Codecs : Type 0 where
  pub decode_conference : List ℕ → Result ClientBlocks
  pub encode_conference : ServerBlocks → List ℕ
  pub decode_client_info : List ℕ → Result ClientCredentials
  pub is_utf8 : List ℕ → Bool
