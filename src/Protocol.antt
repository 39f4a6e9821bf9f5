-- ===== src/Protocol.antt =====
-- internal/protocol/protocol.go: the wire types. A pointer or an omitted field is an `Option` where
-- the relay tells nil from a value; json.RawMessage and []byte are lists of bytes.
use nora_relay.Base.{ℕ, ℤ, pos, String, List, Option, none}

abbrev pub protocol_version : ℤ
protocol_version = pos 2

pub data EnvelopeType : Type 0 where
  hello challenge auth welcome request result withdraw control query query_result error :
      EnvelopeType
  other : String → EnvelopeType

pub record Query : Type 0 where
  pub op : String
  pub contact_id : String
  pub account : String
  pub nonce : String

pub record QueryResult : Type 0 where
  pub error : String
  pub payload : List ℕ

pub record Hello : Type 0 where
  pub device_id : String
  pub accounts : List String

pub record Control : Type 0 where
  pub op : String
  pub corr_id : String
  pub account : String
  pub key_id : String
  pub hash : String
  pub allowed_origins : List String
  pub version : ℤ
  pub blob : List ℕ
  pub error : String

pub record TxRequest : Type 0 where
  pub id : String
  pub contact_id : String
  pub contact_name : String
  pub kind : String
  pub account : String
  pub counterparty : String
  pub destination : String
  pub amount_raw : String
  pub memo : String
  pub nonce : String
  pub created_at : ℕ
  pub action_override : String

pub record SignedBlock : Type 0 where
  pub type : String
  pub account : String
  pub previous : String
  pub representative : String
  pub balance : String
  pub link : String
  pub signature : String
  pub work : String
  pub subtype : String

pub data TxStatus : Type 0 where
  pending signed broadcast rejected failed : TxStatus
  unknown : String → TxStatus

pub record TxResult : Type 0 where
  pub request_id : String
  pub status : TxStatus
  pub block_hash : String
  pub signed_block : Option SignedBlock
  pub reason : String
  pub decided_at : ℕ

pub record Envelope : Type 0 where
  pub version : ℤ
  pub type : EnvelopeType
  pub id : String
  pub hello : Option Hello
  -- Challenge.Nonce, Auth.Signatures and Welcome.Accounts
  pub challenge : Option (List ℕ)
  pub auth : Option (List (String × String))
  pub welcome : Option (List String)
  pub request : Option TxRequest
  pub result : Option TxResult
  pub control : Option Control
  pub query : Option Query
  pub query_result : Option QueryResult
  pub error : String

-- Envelope{Version: ProtocolVersion, Type: t, ID: id}
abbrev pub envelope : EnvelopeType → String → Envelope
envelope t id = record {
  version = protocol_version;
  type = t;
  id = id;
  hello = none;
  challenge = none;
  auth = none;
  welcome = none;
  request = none;
  result = none;
  control = none;
  query = none;
  query_result = none;
  error = "";
}
