-- ===== src/Hub.antt =====
-- cmd/relay/hub.go: the hub routes requests and queries to the devices of an account and matches
-- their answers. A call that waits is given the events of the other goroutines up to its deadline;
-- `accepts` tells whether a write to a connection succeeds (gorilla/websocket).
pub mod Bindings
pub mod Waiters
mod Await
pub mod Requests
pub mod Queries
pub mod Discipline
pub mod Freshness
pub mod Proven
mod Tests
use Prim.Native.String
use nora_relay.Base.{
  ℕ, suc, String, Bool, true, false, List, [], ◌∷◌, ◌++◌, Option, none, some, if◌then◌else◌, any,
}
use nora_relay.Base.Map
use nora_relay.Text.{hex_encode}
use nora_relay.Protocol
use nora_relay.Protocol.{Envelope, EnvelopeType, TxRequest, TxResult, Query, QueryResult, envelope}
use nora_relay.Hub.Bindings.{AgentConn, Routes, bind, unbind, account_online, devices_for_account}
use nora_relay.Hub.Waiters
use nora_relay.Hub.Waiters.{WaitTable}

pub record Hub : Type 0 where
  pub bindings : Routes
  pub requests : WaitTable TxResult
  pub queries : WaitTable QueryResult

unfoldable pub new_hub : Hub
new_hub = record { bindings = Map.empty; requests = Waiters.empty; queries = Waiters.empty }

unfoldable pub deliver_result : TxResult → Hub → Hub
deliver_result res h = record h { requests = Waiters.deliver res.request_id res h.requests }

unfoldable pub deliver_query_result : String → QueryResult → Hub → Hub
deliver_query_result id qr h = record h { queries = Waiters.deliver id qr h.queries }

-- What other goroutines do to the hub: devices that come and go, results that arrive, and the
-- steps of other calls of `sendRequest` and `sendQuery`.
pub data Event : Type 0 where
  joins leaves : AgentConn → Event
  results : TxResult → Event
  query_results : String → QueryResult → Event
  request_opens request_closes query_opens query_closes : String → Event
  request_takes query_takes : ℕ → Event

unfoldable pub apply : Event → Hub → Hub
unfolding deliver_result deliver_query_result
apply (joins a) h = record h { bindings = bind a h.bindings }
apply (leaves a) h = record h { bindings = unbind a h.bindings }
apply (results res) h = deliver_result res h
apply (query_results id qr) h = deliver_query_result id qr h
apply (request_opens id) h = record h { requests = (Waiters.add id h.requests).1 }
apply (request_closes id) h = record h { requests = Waiters.forget id h.requests }
apply (request_takes c) h = record h { requests = Waiters.receive c h.requests }
apply (query_opens id) h = record h { queries = (Waiters.add id h.queries).1 }
apply (query_closes id) h = record h { queries = Waiters.forget id h.queries }
apply (query_takes c) h = record h { queries = Waiters.receive c h.queries }

-- (result, nil), (nil, errAccountOffline) and (nil, ctx.Err())
pub data Outcome (A : Type 0) : Type 0 where
  answered : A → Outcome A
  account_offline : Outcome A
  expired : Outcome A

abbrev pub outcome_of : {A : Type 0} → Option A → Outcome A
outcome_of none = expired
outcome_of (some a) = answered a

-- A write to a connection, whether it succeeds or not.
abbrev pub Sent : Type 0
Sent = AgentConn × Envelope

abbrev pub send_each : Envelope → List AgentConn → List Sent
send_each env [] = []
send_each env (d ∷ ds) = (d, env) ∷ send_each env ds

-- The `select` of a caller: the events until its channel in the table has a value, or all of them.
unfoldable pub await : {A : Type 0} → (Hub → WaitTable A) → ℕ → List Event → Hub → Option A × Hub
await table c [] h = ((table h).buffer c, h)
await table c (e ∷ events) h = elim ((table h).buffer c) [
  | some a ↦ (some a, h)
  | none ↦ await table c events (apply e h)
]

unfoldable pub withdraw : String → String → Hub → List Sent
withdraw account req_id h =
    send_each (envelope EnvelopeType.withdraw req_id) (devices_for_account h.bindings account)

-- The deferred part of `sendRequest`.
unfoldable pub close_request :
    {A : Type 0} → String → String → A → List Sent → Hub → A × List Sent × Hub
unfolding withdraw
close_request account id r sent h =
    let h' : Hub = record h { requests = Waiters.forget id h.requests } in
    (r, sent ++ withdraw account id h', h')

-- `secret` is what crypto/rand gives to randomSecret(12).
unfoldable pub query_id : List ℕ → String
query_id secret = String.◌++◌ "qry_" (hex_encode secret)

module _ (accepts : AgentConn → Bool) where
  -- `sendRequest` with at least one device.
  unfoldable pub fan_out :
      List AgentConn → String → TxRequest → List Event → Hub → Outcome TxResult × List Sent × Hub
  fan_out devices account req events h =
      let (waiter, requests) = Waiters.add req.id h.requests in
      let opened : Hub = record h { requests = requests } in
      let env : Envelope = record (envelope EnvelopeType.request req.id) { request = some req } in
      let sent = send_each env devices in
      if any accepts devices
      then (let (r, h') = await (λ g. g.requests) waiter events opened in
          close_request account req.id (outcome_of r) sent h')
      else close_request account req.id account_offline sent opened

  unfoldable pub send_request :
      String → TxRequest → List Event → Hub → Outcome TxResult × List Sent × Hub
  unfolding fan_out
  send_request account req events h = elim (devices_for_account h.bindings account) [
    | [] ↦ (account_offline, [], h)
    | d ∷ ds ↦ fan_out (d ∷ ds) account req events h
  ]

  -- The loop of `sendQuery`: the writes up to the first that succeeds, and whether one did.
  unfoldable pub send_first : Envelope → List AgentConn → List Sent × Bool
  send_first env [] = ([], false)
  send_first env (d ∷ ds) =
      let rest = send_first env ds in
      if accepts d then ((d, env) ∷ [], true) else ((d, env) ∷ rest.0, rest.1)

  unfoldable pub ask :
      List AgentConn → List ℕ → Query → List Event → Hub → Outcome QueryResult × List Sent × Hub
  ask devices secret q events h =
      let id = query_id secret in
      let (waiter, queries) = Waiters.add id h.queries in
      let opened : Hub = record h { queries = queries } in
      let close : Hub → Hub = λ h'. record h' { queries = Waiters.forget id h'.queries } in
      let env : Envelope = record (envelope EnvelopeType.query id) { query = some q } in
      let (sent, ok) = send_first env devices in
      if ok
      then (let (r, h') = await (λ g. g.queries) waiter events opened in
          (outcome_of r, sent, close h'))
      else (account_offline, sent, close opened)

  unfoldable pub send_query :
      String → List ℕ → Query → List Event → Hub → Outcome QueryResult × List Sent × Hub
  unfolding ask
  send_query account secret q events h = elim (devices_for_account h.bindings account) [
    | [] ↦ (account_offline, [], h)
    | d ∷ ds ↦ ask (d ∷ ds) secret q events h
  ]
