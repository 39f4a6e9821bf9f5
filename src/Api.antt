-- ===== src/Api.antt =====
-- cmd/relay/http.go: the HTTP API of the callers, over any `Store`. This file has the requests, the
-- responses and the authentication; Api/Build.antt makes a transaction request of a body, Api/Handlers.antt
-- has the handlers, and Api/Routes.antt the mux behind the CORS middleware.
pub mod Build
pub mod Handlers
pub mod Routes
pub mod Confined
pub mod Exposure
pub mod Charges
pub mod Limits
pub mod Cors
pub mod Bearer
pub mod Answers
pub mod Gate
pub mod Sample
mod Tests
use Prim.Native.Char.{Char, code}
use Prim.Native.String
use nora_relay.Base.{
  ℕ, String, ◌==◌, Bool, true, false, not, ◌&&◌, ◌||◌, List, [], ◌∷◌, Option, none, some, ltb, leb,
  nat_eq, if◌then◌else◌,
}
use nora_relay.Text.{trim_prefix, trim_space}
use nora_relay.Protocol.{TxResult}
use nora_relay.Hub.{Hub, Event, Sent}
use nora_relay.Hub.Bindings.{AgentConn}
use nora_relay.RateLimit.{RateLimiter}
use nora_relay.Store.{Store, ApiKey, Resolved, found, missing}

-- What the handlers read of an http.Request. A missing header or parameter is "".
pub record Request : Type 0 where
  pub method : String
  pub path : String
  pub origin : String
  pub authorization : String
  pub nonce : String
  pub body : List ℕ

-- What is written: {"error": …}, a result, the view of handleStatus, the bytes of a device, or a text.
pub data Payload : Type 0 where
  nothing : Payload
  error_body : String → Payload
  tx_result : TxResult → Payload
  key_status : (contact_id account : String) → (device_online : Bool) → Payload
  device_data : List ℕ → Payload
  text : String → Payload

pub record Response : Type 0 where
  pub status : ℕ
  pub headers : List (String × String)
  pub payload : Payload

abbrev json_header : List (String × String)
json_header = ("Content-Type", "application/json") ∷ []

-- writeJSON
abbrev pub write_json : ℕ → Payload → Response
write_json status v = record { status = status; headers = json_header; payload = v }

-- writeJSONError
abbrev pub write_json_error : ℕ → String → Response
write_json_error status msg = write_json status (error_body msg)

-- server, less its configuration
pub record Server (S : Type 0) : Type 0 where
  pub hub : Hub
  pub store : S
  pub rl : RateLimiter

-- What happens around one call of a handler: the clock as the rate limiter reads it, the time, the
-- random bytes of randomSecret(12), which connections take a write, and what the other goroutines
-- do to the hub before the deadline.
pub record Call : Type 0 where
  pub created : ℕ
  pub now : ℕ
  pub time : ℕ
  pub secret : List ℕ
  pub accepts : AgentConn → Bool
  pub events : List Event

-- The response, what was written to devices, and the server afterwards.
abbrev pub Served : Type 0 → Type 0
Served S = Response × List Sent × Server S

abbrev key_of : Resolved → Option ApiKey
key_of (found key) = some key
key_of (missing _) = none

module _ {S : Type 0} (store : Store S) where
  unfoldable pub auth_key : (authorization : String) → S → Option ApiKey
  auth_key authorization s =
      let plaintext = trim_space (trim_prefix authorization "Bearer ") in
      if plaintext == "" || plaintext == authorization
      then none
      else key_of (store.resolve_api_key s plaintext)
