-- ===== src/System/Tests.antt =====
-- cmd/relay: a relay with one device and one key.
use nora_relay.Base.{◌*◌, ◌+◌, ◌-◌, ◌≤◌, arith, ℕ, ◌≡◌, refl, ◌⊎◌, List, [], ◌∷◌, some, All, pos}
use nora_relay.Base.Map
use nora_relay.Text.{bytes, hex_encode, trim_space, trim_left, trim_right}
use nora_relay.Text
use nora_relay.Protocol.{Envelope, EnvelopeType, Control, envelope}
use nora_relay.Hub.{joins}
use nora_relay.Hub.Bindings.{bind}
use nora_relay.Nano.Sample.{zero_digest, zero_address, numbers}
use nora_relay.Store.{Store, register, perform, run}
use nora_relay.Store.Memory
use nora_relay.Store.Memory.{MemStore, mem_store, new_mem_store, hash_secret, resolve_api_key}
use nora_relay.Store.Laws.{mem_store-Laws}
use nora_relay.Api.{Request, Call, Server, auth_key}
use nora_relay.Api.Sample.{body, key_one, outside, call}
use nora_relay.Api.Confined.{IsFor}
use nora_relay.Api.Routes.{routes}
use nora_relay.Agent.{dispatch}
use nora_relay.Agent.Sample.{hello, auth, laptop, laptop_enrolled}
use nora_relay.Startup.{new_server}
use nora_relay.System.{Enrollment, connects, says, asks, Reach, starts, next, Run, still, and_then}
use nora_relay.System.Authentic.{Authorised, IsSound, Reach-IsSound, Reach-Confined}
use nora_relay.RateLimit.{second}
use nora_relay.System.Limits.{forwarded, detached, Run-limit}
use nora_relay.System.Authority.{Said, Puts, Touches, Run-policy_at, Run-key_at}

abbrev digest : List ℕ → List ℕ
digest bs = bs

abbrev store : Store MemStore
store = mem_store digest

-- A key of the address, whose secret is "s1".
stored : MemStore
unfolding run perform new_mem_store Memory.register_api_key Map.empty Map.lookup Map.insert
    Map.discard resolve_api_key hash_secret bytes hex_encode
stored = run store new_mem_store (register "k1" zero_address "7331" ∷ [])

enrollment : Enrollment numbers zero_digest laptop
enrollment = record {
  pointer = 1;
  hello = some hello;
  nonce = 7 ∷ [];
  auth = some auth;
  gives = laptop_enrolled;
}

abbrev joined_call : Call
joined_call = record call { events = joins laptop ∷ [] }

abbrev broadcast : Request
broadcast = record {
  method = "POST";
  path = "/v1/broadcast";
  origin = "";
  authorization = "Bearer s1";
  nonce = "";
  body = [];
}

server : Server MemStore
server =
    let sv = new_server stored in
    record sv { hub = record sv.hub { bindings = bind laptop sv.hub.bindings } }

server-Reach : Reach numbers zero_digest store outside stored server
unfolding server
server-Reach = next starts (connects laptop enrollment)

Reach-IsSound_example : IsSound numbers zero_digest server.hub
Reach-IsSound_example = Reach-IsSound numbers zero_digest store outside server-Reach

Reach-Confined_example :
    All
      (IsFor (Authorised numbers zero_digest) key_one)
      (routes store outside joined_call broadcast server).1
unfolding server stored auth_key trim_space trim_left trim_right Text.cut_prefix
Reach-Confined_example =
    Reach-Confined numbers zero_digest store outside joined_call broadcast server-Reach
      (enrollment, tt)

abbrev revoke : Control
revoke = record {
  op = "revoke_key";
  corr_id = "c";
  account = "";
  key_id = "k1";
  hash = "";
  allowed_origins = [];
  version = pos 1;
  blob = [];
  error = "";
}

abbrev revocation : Envelope
revocation = record (envelope EnvelopeType.control "") { control = some revoke }

abbrev revoked : Server MemStore
revoked =
    let (hub, s) = dispatch store laptop revocation (server.hub, server.store) in
    record server { hub = hub; store = s }

revoking : Run numbers zero_digest store outside server revoked
revoking = and_then still (says laptop enrollment revocation)

Run-key_at_example :
    (Map.lookup revoked.store.keys "k1" ≡ some key_one)
    ⊎ Said numbers zero_digest store outside (Touches numbers zero_digest "k1" key_one) revoking
unfolding server stored
Run-key_at_example =
    Run-key_at numbers zero_digest store outside (mem_store-Laws digest) "k1" key_one revoking refl

Run-policy_at_example :
    (Map.lookup revoked.store.policy zero_address ≡ Map.lookup server.store.policy zero_address)
    ⊎ Said numbers zero_digest store outside (Puts numbers zero_digest zero_address) revoking
Run-policy_at_example =
    Run-policy_at numbers zero_digest store outside (mem_store-Laws digest) zero_address revoking

asking :
    Run numbers zero_digest store outside server
      (routes store outside joined_call broadcast server).2
asking = and_then still (asks broadcast joined_call (enrollment, tt))

Run-limit_example :
    forwarded numbers zero_digest store outside "k1" asking * second
    ≤ 20 * second + (10 - 0) * 5 + detached numbers zero_digest store outside "k1" asking * second
unfolding asking
Run-limit_example =
    Run-limit numbers zero_digest store outside "k1" 0 10 asking server-Reach
      (0, omega arith, (omega arith, omega arith))
