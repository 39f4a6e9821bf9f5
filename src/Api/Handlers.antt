-- ===== src/Api/Handlers.antt =====
-- cmd/relay/http.go: the handlers of the callers' endpoints.
use nora_relay.Base.{ℕ, String, ◌==◌, not, [], ◌∷◌, Option, none, some, if◌then◌else◌}
use nora_relay.Protocol.{TxRequest, TxResult, Query, QueryResult}
use nora_relay.Hub.{Outcome, answered, account_offline, expired, send_request, send_query}
use nora_relay.Hub.Bindings.{account_online}
use nora_relay.RateLimit.{allow}
use nora_relay.Store.{Store, ApiKey}
use nora_relay.Api.{
  Request, Response, Server, Call, Served, tx_result, key_status, device_data, write_json,
  write_json_error, auth_key,
}
use nora_relay.Text.{trim_space}
use nora_relay.Api.Build.{CreateBody, Outside, ok, fails, build_tx_request}

-- 64 KiB
abbrev pub max_request_body_bytes : ℕ
max_request_body_bytes = 65536

abbrev pub offline : Response
offline = write_json_error 503 "the account's device is offline"

abbrev pub timed_out : Response
timed_out = write_json_error 504 "timed out waiting for the device"

abbrev pub unauthorized : Response
unauthorized = write_json_error 401 "invalid API key"

abbrev pub too_many : Response
too_many = record (write_json_error 429 "rate limit exceeded") {
  headers = ("Retry-After", "1") ∷ ("Content-Type", "application/json") ∷ [];
}

abbrev pub respond : Outcome TxResult → Response
respond (answered res) = write_json 200 (tx_result res)
respond account_offline = offline
respond expired = timed_out

-- The reply of a device to a query, with the text for "not_found" where the handler knows it.
abbrev pub respond_data : (missing_text : Option String) → QueryResult → Response
respond_data none qr =
    if not (qr.error == "")
    then write_json_error 502 qr.error
    else write_json 200 (device_data qr.payload)
respond_data (some text) qr =
    if qr.error == "not_found"
    then write_json_error 404 text
    else if not (qr.error == "")
    then write_json_error 502 qr.error
    else write_json 200 (device_data qr.payload)

abbrev pub respond_query : (missing_text : Option String) → Outcome QueryResult → Response
respond_query text (answered qr) = respond_data text qr
respond_query text account_offline = offline
respond_query text expired = timed_out

module _ {S : Type 0} (call : Call) (sv : Server S) where
  -- The part of handleCreateRequest from accountOnline on.
  unfoldable pub forward_request : ApiKey → TxRequest → Served S
  forward_request key req =
      let (outcome, sent, hub) =
        send_request call.accepts key.owner_account req call.events sv.hub in
      if not (account_online sv.hub.bindings key.owner_account)
      then (offline, [], sv)
      else (respond outcome, sent, record sv { hub = hub })

  -- The part of the other handlers from accountOnline on.
  unfoldable pub forward_query : Option String → ApiKey → Query → Served S
  forward_query text key q =
      let (outcome, sent, hub) =
        send_query call.accepts key.owner_account call.secret q call.events sv.hub in
      if not (account_online sv.hub.bindings key.owner_account)
      then (offline, [], sv)
      else (respond_query text outcome, sent, record sv { hub = hub })

abbrev pub no_block : String
no_block =
    "no signed block found for that nonce — it may have already been broadcast, rejected, or never signed"

abbrev pub no_request : String
no_request =
    "no completed request with that nonce (it may be pending, rejected, or never submitted)"

abbrev pub query_of : (op : String) → ApiKey → (nonce : String) → Query
query_of op key nonce = record {
  op = op;
  contact_id = key.id;
  account = key.owner_account;
  nonce = nonce;
}

module _ {S : Type 0} (store : Store S) (o : Outside) (call : Call) (r : Request) where
  -- handleCreateRequest with the body read.
  unfoldable pub create_from : ApiKey → Option CreateBody → Server S → Served S
  create_from key none sv = (write_json_error 400 "invalid JSON body", [], sv)
  create_from key (some body) sv = elim (build_tx_request o call.secret call.time key body) [
    | fails text ↦ (write_json_error 400 text, [], sv)
    | ok req ↦ forward_request call sv key req
  ]

  unfoldable pub handle_create_request : Server S → Served S
  unfolding create_from
  handle_create_request sv =
      if not (r.method == "POST")
      then (write_json_error 405 "use POST", [], sv)
      else elim (auth_key store r.authorization sv.store) [
        | none ↦ (unauthorized, [], sv)
        | some key ↦
            let (allowed, rl) = allow sv.rl key.id call.created call.now in
            let sv' : Server S = record sv { rl = rl } in
            if not allowed
            then (too_many, [], sv')
            else create_from key (o.decode_create max_request_body_bytes r.body) sv'
      ]

  -- handleBroadcast with the nonce of the body, "" if it cannot be read.
  unfoldable pub broadcast_nonce : ApiKey → String → Server S → Served S
  broadcast_nonce key nonce sv =
      if nonce == ""
      then (write_json_error 400 "\"nonce\" is required", [], sv)
      else forward_query call sv (some no_block) key (query_of "broadcast_nonce" key nonce)

  abbrev pub text_of : Option String → String
  text_of none = ""
  text_of (some nonce) = nonce

  unfoldable pub handle_broadcast : Server S → Served S
  unfolding broadcast_nonce
  handle_broadcast sv =
      if not (r.method == "POST")
      then (write_json_error 405 "use POST", [], sv)
      else elim (auth_key store r.authorization sv.store) [
        | none ↦ (unauthorized, [], sv)
        | some key ↦
            let (allowed, rl) = allow sv.rl key.id call.created call.now in
            let sv' : Server S = record sv { rl = rl } in
            if not allowed
            then (too_many, [], sv')
            else broadcast_nonce key (text_of (o.decode_broadcast 4096 r.body)) sv'
      ]

  unfoldable pub handle_status : Server S → Served S
  handle_status sv = elim (auth_key store r.authorization sv.store) [
    | none ↦ (unauthorized, [], sv)
    | some key ↦ (
      write_json 200
          (key_status key.id key.owner_account (account_online sv.hub.bindings key.owner_account)),
      [],
      sv,
    )
  ]

  unfoldable pub device_query : (op : String) → Server S → Served S
  device_query op sv =
      if not (r.method == "GET")
      then (write_json_error 405 "use GET", [], sv)
      else elim (auth_key store r.authorization sv.store) [
        | none ↦ (unauthorized, [], sv)
        | some key ↦ forward_query call sv none key (query_of op key "")
      ]

  unfoldable pub handle_request_status : Server S → Served S
  handle_request_status sv =
      if not (r.method == "GET")
      then (write_json_error 405 "use GET", [], sv)
      else elim (auth_key store r.authorization sv.store) [
        | none ↦ (unauthorized, [], sv)
        | some key ↦
            let nonce = trim_space r.nonce in
            if nonce == ""
            then (write_json_error 400 "nonce query parameter is required", [], sv)
            else forward_query call sv (some no_request) key (query_of "request_status" key nonce)
      ]
