-- ===== src/Api/Tests.antt =====
-- The callers' API at concrete inputs: one key, one device.
use nora_relay.Base.{◌*◌, arith, ap, Bool, false, ℕ, ◌≡◌, inl, refl, true, List, [], ◌∷◌, some, any}
use nora_relay.Base.Map
use nora_relay.Text.{bytes, hex_encode}
use nora_relay.Hub.{
  Sent, apply, deliver_result, deliver_query_result, send_request, fan_out, close_request, await,
  withdraw, Hub,
}
use nora_relay.Hub.Bindings.{
  AgentConn, bind, bind_all, remove_conn, devices_for_account, account_online,
}
use nora_relay.Hub.Bindings.Invariant.{HasProved, empty-Inv, bind-Inv}
use nora_relay.Hub.Bindings.Invariant
use nora_relay.Hub.Waiters
use nora_relay.Nano.Account.{
  parse_address, parse_rest, check_sum, bytes_equal, cut_prefix, take, drop, decode_base32,
  decode_from, index_from, scatter, set_byte,
}
use nora_relay.Nano.Sample.{zero_address}
use nora_relay.RateLimit.{second, new_rate_limiter, allow, allow_key, refill}
use nora_relay.Store.{Store, register, update_origins, perform, run}
use nora_relay.Store.Memory
use nora_relay.Store.Memory.{MemStore, mem_store, new_mem_store, hash_secret, resolve_api_key}
use nora_relay.Text
use nora_relay.Api.{Request, Server, auth_key}
use nora_relay.Text.{trim_space, trim_left, trim_right, has_prefix}
use nora_relay.Api.Build.{build_tx_request, resolve_amount, request_id}
use nora_relay.Api.Handlers.{handle_create_request, create_from, forward_request}
use nora_relay.Api.Routes.{routes}
use nora_relay.Api.Sample.{key_one, outside, call, create}
use nora_relay.Api.Cors.{opened_to, routes-opened_to_iff}
use nora_relay.Store.Memory.Origins.{Lists}
use nora_relay.Api.Gate.{Admitted, handle_create_request-Admitted}

abbrev digest : List ℕ → List ℕ
digest bs = bs

abbrev store : Store MemStore
store = mem_store digest

abbrev laptop : AgentConn
laptop = record { pointer = 1; device_id = "laptop"; accounts = zero_address ∷ [] }

-- A key of the address, whose secret is "s1".
stored : MemStore
unfolding run perform new_mem_store Memory.register_api_key Map.empty Map.lookup Map.insert
    Map.discard resolve_api_key hash_secret bytes hex_encode
stored = run store new_mem_store (register "k1" zero_address "7331" ∷ [])

hub : Hub
unfolding bind bind_all remove_conn devices_for_account account_online any Map.empty Map.lookup
    Map.insert
hub = record { bindings = bind laptop Map.empty; requests = Waiters.empty; queries = Waiters.empty }

hub-Inv : Invariant.Inv hub.bindings
unfolding hub
hub-Inv = bind-Inv laptop Map.empty empty-Inv

server : Server MemStore
unfolding new_rate_limiter stored hub
server = record { hub = hub; store = stored; rl = new_rate_limiter 5 20 (3600 * second) }

bearer : auth_key store "Bearer s1" stored ≡ some key_one
unfolding stored auth_key trim_space trim_left trim_right Text.cut_prefix
bearer = refl

abbrev wrote : List Sent → Bool
wrote [] = false
wrote (m ∷ ms) = true

some_written : wrote (handle_create_request store outside call create server).1 ≡ true
unfolding bearer server hub allow allow_key refill build_tx_request resolve_amount request_id
    hex_encode bytes decode_base32 decode_from index_from scatter set_byte parse_address parse_rest
    check_sum bytes_equal cut_prefix take drop handle_create_request create_from forward_request
    send_request fan_out close_request withdraw await apply deliver_result deliver_query_result
some_written = refl

handle_create_request-Admitted_example : Admitted store outside call create server
handle_create_request-Admitted_example =
    handle_create_request-Admitted store outside call create server
      (λ e. ground (arith, some_written, ap wrote e))

-- The key of the address lists one origin.
listed : MemStore
unfolding stored Memory.update_key_origins
listed = run store new_mem_store (
    register "k1" zero_address "7331"
    ∷ update_origins "k1" zero_address ("https://a.example" ∷ [])
    ∷ [])

listed-Lists : Lists listed "https://a.example"
unfolding listed
listed-Lists = (
  "k1",
  record { id = "k1"; owner_account = zero_address; allowed_origins = "https://a.example" ∷ [] },
  refl,
  inl refl,
)

-- A page of the origin asks without a token: the refusal names the origin.
abbrev browse : Request
browse = record create { origin = "https://a.example"; authorization = "" }

routes-opened_to_iff_example :
    opened_to
      (routes store outside call browse
        (record { hub = hub; store = listed; rl = new_rate_limiter 5 20 (3600 * second) })).0
    ≡ some "https://a.example"
unfolding Text.cut_prefix
routes-opened_to_iff_example =
    (routes-opened_to_iff digest outside call browse
        (record { hub = hub; store = listed; rl = new_rate_limiter 5 20 (3600 * second) })
        "https://a.example").1
      (refl, (λ e. cc), refl, listed-Lists)
