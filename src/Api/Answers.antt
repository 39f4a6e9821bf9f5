-- ===== src/Api/Answers.antt =====
-- cmd/relay/http.go: what the handlers answer, from the call to the reply of the device.
use nora_relay.Base.{◌==◌, ◌≡◌, true, some}
use nora_relay.Protocol.{TxRequest}
use nora_relay.Hub.Requests
use nora_relay.Hub.Queries
use nora_relay.RateLimit.{allow}
use nora_relay.Store.{Store, ApiKey}
use nora_relay.Api.{Request, Server, Call, auth_key}
use nora_relay.Api.Build.{CreateBody, Outside, ok, build_tx_request}
use nora_relay.Api.Handlers.{max_request_body_bytes}

module _ {S : Type 0} (store : Store S) (o : Outside) (call : Call) (r : Request)
    (sv : Server S) where
  -- What a valid call of POST /v1/requests comes to.
  pub record Valid (key : ApiKey) (body : CreateBody) (req : TxRequest) : Type 0 where
    pub post : (r.method == "POST") ≡ true
    pub authentic : auth_key store r.authorization sv.store ≡ some key
    pub within : (allow sv.rl key.id call.created call.now).0 ≡ true
    pub decoded : o.decode_create max_request_body_bytes r.body ≡ some body
    pub built : build_tx_request o call.secret call.time key body ≡ ok req
