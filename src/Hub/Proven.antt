-- ===== src/Hub/Proven.antt =====
-- cmd/relay/hub.go: the devices that sendRequest and sendQuery write to, and the hub that they leave.
use nora_relay.Base.{
  ℕ, String, ◌≡◌, refl, Bool, List, [], ◌∷◌, ◌++◌, some, All, any, Bool-cases, inl, inr,
  Option-cases,
}
use nora_relay.Protocol.{Envelope, EnvelopeType, TxRequest, Query, envelope}
use nora_relay.Hub.{
  Hub, Event, request_opens, request_closes, query_opens, query_closes, apply, await, Sent,
  send_each, close_request, withdraw, fan_out, send_request, send_first, ask, send_query, query_id,
}
use nora_relay.Hub.Bindings.{AgentConn, devices_for_account}
use nora_relay.Hub.Discipline.{Discipline}
use nora_relay.Hub.Waiters
use nora_relay.Hub.Waiters.{WaitTable}

module _ (D : Discipline) where
  open D use {
    Good, Holds, Happens, devices, apply-Good, opens_request, closes_request, opens_query,
    closes_query,
  }

  await-Good :
      {A : Type 0} (table : Hub → WaitTable A) (c : ℕ) (events : List Event) (h : Hub)
      → All Happens events
      → Good h
      → Good (await table c events h).1
  unfolding await
  await-Good table c [] h happen good = good
  await-Good table c (e ∷ events) h happen good = elim (Option-cases ((table h).buffer c)) [
    | inl waits ↦
        rw (waits, await)
          (await-Good table c events (apply e h) happen.1 (apply-Good e h happen.0 good))
    | inr (a, here) ↦ rw (here, await) good
  ]

  -- What a call has written, and the hub it leaves.
  pub record Left {A : Type 0} (P : Sent → Type 0) (result : A × List Sent × Hub) : Type 0 where
    pub sent : All P result.1
    pub good : Good result.2

  module _ (P : Sent → Type 0) where
    All-append : (xs ys : List Sent) → All P xs → All P ys → All P (xs ++ ys)
    All-append [] ys h k = k
    All-append (x ∷ xs) ys h k = (h.0, All-append xs ys h.1 k)

    module _ (account : String) where
      -- A message that may go to any device of the account.
      abbrev pub MayGo : Envelope → Type 0
      MayGo env = (d : AgentConn) → Holds account d → P (d, env)

      send_each-All :
          (env : Envelope) (ds : List AgentConn)
          → MayGo env
          → All (Holds account) ds
          → All P (send_each env ds)
      send_each-All env [] may h = tt
      send_each-All env (d ∷ ds) may h = (may d h.0, send_each-All env ds may h.1)

      send_first-All :
          (accepts : AgentConn → Bool) (env : Envelope) (ds : List AgentConn)
          → MayGo env
          → All (Holds account) ds
          → All P (send_first accepts env ds).0
      unfolding send_first
      send_first-All accepts env [] may h = tt
      send_first-All accepts env (d ∷ ds) may h = elim (Bool-cases (accepts d)) [
        | inl took ↦ rw (took) (may d h.0, tt)
        | inr none_took ↦ rw (none_took) (may d h.0, send_first-All accepts env ds may h.1)
      ]

      close_request-Left :
          {A : Type 0} (id : String) (r : A) (sent : List Sent) (h : Hub)
          → MayGo (envelope EnvelopeType.withdraw id)
          → Good h
          → All P sent
          → Left P (close_request account id r sent h)
      unfolding close_request withdraw apply
      close_request-Left id r sent h may good before =
          let closed = apply-Good (request_closes id) h (closes_request id) good in
          record {
            sent =
                All-append sent _ before
                  (send_each-All _ _ may (devices (apply (request_closes id) h) account closed));
            good = closed;
          }

      -- What `sendRequest` writes, it writes to devices of the account.
      pub send_request-Left :
          (accepts : AgentConn → Bool) (req : TxRequest) (events : List Event) (h : Hub)
          → MayGo (record (envelope EnvelopeType.request req.id) { request = some req })
          → MayGo (envelope EnvelopeType.withdraw req.id)
          → All Happens events
          → Good h
          → Left P (send_request accepts account req events h)
      unfolding send_request fan_out apply
      send_request-Left accepts req events h may withdraws happen good =
          go (devices_for_account h.bindings account) refl (devices h account good)
        where
          opened : Hub
          opened = record h { requests = (Waiters.add req.id h.requests).1 }

          good_opened : Good opened
          good_opened = apply-Good (request_opens req.id) h (opens_request req.id) good

          fan :
              (ds : List AgentConn)
              → All (Holds account) ds
              → Left P (fan_out accepts ds account req events h)
          fan ds held = elim (Bool-cases (any accepts ds)) [
            | inl took ↦ rw (took) (
                close_request-Left req.id _ _ _ withdraws
                  (await-Good (λ g. g.requests) _ events opened happen good_opened)
                  (send_each-All _ ds may held))
            | inr none_took ↦ rw (none_took) (
                close_request-Left req.id _ _ opened withdraws good_opened
                  (send_each-All _ ds may held))
          ]

          go :
              (ds : List AgentConn)
              → devices_for_account h.bindings account ≡ ds
              → All (Holds account) ds
              → Left P (send_request accepts account req events h)
          go [] e held = rw (e, send_request) (record { sent = tt; good = good })
          go (d ∷ ds) e held = rw (e, send_request) (fan (d ∷ ds) held)

      -- What `sendQuery` writes, it writes to devices of the account.
      pub send_query-Left :
          (accepts : AgentConn → Bool) (secret : List ℕ) (q : Query) (events : List Event) (h : Hub)
          → MayGo (record (envelope EnvelopeType.query (query_id secret)) { query = some q })
          → All Happens events
          → Good h
          → Left P (send_query accepts account secret q events h)
      unfolding send_query ask apply
      send_query-Left accepts secret q events h may happen good =
          go (devices_for_account h.bindings account) refl (devices h account good)
        where
          env : Envelope
          env = record (envelope EnvelopeType.query (query_id secret)) { query = some q }

          opened : Hub
          opened = record h { queries = (Waiters.add (query_id secret) h.queries).1 }

          good_opened : Good opened
          good_opened =
              apply-Good (query_opens (query_id secret)) h (opens_query (query_id secret)) good

          closed : (h' : Hub) → Good h' → Good (apply (query_closes (query_id secret)) h')
          closed h' good' =
              apply-Good (query_closes (query_id secret)) h' (closes_query (query_id secret)) good'

          go_ask :
              (ds : List AgentConn)
              → All (Holds account) ds
              → Left P (ask accepts ds secret q events h)
          go_ask ds held = elim (Bool-cases (send_first accepts env ds).1) [
            | inl took ↦ rw (took) (record {
              sent = send_first-All accepts env ds may held;
              good = closed _ (await-Good (λ g. g.queries) _ events opened happen good_opened);
            })
            | inr none_took ↦ rw (none_took) (record {
              sent = send_first-All accepts env ds may held;
              good = closed opened good_opened;
            })
          ]

          go :
              (ds : List AgentConn)
              → devices_for_account h.bindings account ≡ ds
              → All (Holds account) ds
              → Left P (send_query accepts account secret q events h)
          go [] e held = rw (e, send_query) (record { sent = tt; good = good })
          go (d ∷ ds) e held = rw (e, send_query) (go_ask (d ∷ ds) held)
