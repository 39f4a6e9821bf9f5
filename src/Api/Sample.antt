-- ===== src/Api/Sample.antt =====
-- One key, a call that its account's device answers, and a request of its caller.
use nora_relay.Base.{◌≡◌, refl, true, [], ◌∷◌, none, some}
use nora_relay.Text.{bytes, hex_encode}
use nora_relay.Protocol.{TxRequest, TxResult, TxStatus, QueryResult}
use nora_relay.Hub.{results, query_results}
use nora_relay.Nano.Account.{
  parse_address, parse_rest, check_sum, bytes_equal, cut_prefix, take, drop, decode_base32,
  decode_from, index_from, scatter, set_byte,
}
use nora_relay.Nano.Sample.{zero_digest, zero_address}
use nora_relay.Store.{ApiKey}
use nora_relay.Api.{Request, Call}
use nora_relay.Api.Build.{CreateBody, Outside, ok, build_tx_request, resolve_amount, request_id}

abbrev pub body : CreateBody
body = record {
  kind = "send";
  destination = zero_address;
  amount_raw = "7";
  amount = "";
  counterparty = "";
  memo = "";
  nonce = "";
  action = "";
}

abbrev pub key_one : ApiKey
key_one = record { id = "k1"; owner_account = zero_address; allowed_origins = [] }

abbrev pub outside : Outside
outside = record {
  blake2b = zero_digest;
  set_string = λ s. none;
  decimal = λ n. "";
  decode_create = λ limit octets. some body;
  decode_broadcast = λ limit octets. some "n";
}

abbrev pub result : TxResult
result = record {
  request_id = "req_ab";
  status = TxStatus.broadcast;
  block_hash = "AB";
  signed_block = none;
  reason = "";
  decided_at = 0;
}

abbrev pub reply : QueryResult
reply = record { error = ""; payload = 1 ∷ [] }

abbrev pub call : Call
call = record {
  created = 0;
  now = 0;
  time = 9;
  secret = 0xab ∷ [];
  accepts = λ c. true;
  events = results result ∷ query_results "qry_ab" reply ∷ [];
}

abbrev pub create : Request
create = record {
  method = "POST";
  path = "/v1/requests";
  origin = "";
  authorization = "Bearer s1";
  nonce = "";
  body = [];
}

abbrev pub sent_request : TxRequest
sent_request = record {
  id = "req_ab";
  contact_id = "k1";
  contact_name = "";
  kind = "send";
  account = zero_address;
  counterparty = "";
  destination = zero_address;
  amount_raw = "7";
  memo = "";
  nonce = "req_ab";
  created_at = 9;
  action_override = "";
}

pub body_built : build_tx_request outside (0xab ∷ []) 9 key_one body ≡ ok sent_request
unfolding build_tx_request resolve_amount request_id hex_encode bytes decode_base32 decode_from
    index_from scatter set_byte parse_address parse_rest check_sum bytes_equal cut_prefix take drop
body_built = refl
