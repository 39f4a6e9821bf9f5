-- ===== src/Hub/Queries.antt =====
-- cmd/relay/hub.go: what `sendQuery` returns and what it leaves behind.
use nora_relay.Base.{
  ℕ, String, ◌==◌, eq_refl, ◌≡◌, ◌≢◌, refl, Bool, List, [], ◌∷◌, Option, none, some, arith, All,
  any, inl, inr, Bool-cases, if◌then◌else◌,
}
use nora_relay.Base.Map
use nora_relay.Base.Map.{lookup-remove}
use nora_relay.Protocol.{Envelope, EnvelopeType, Query, QueryResult, envelope}
use nora_relay.Hub.{
  Hub, Event, query_results, query_opens, query_closes, query_takes, Outcome, account_offline,
  outcome_of, Sent, send_first, send_each, query_id, ask, send_query,
}
use nora_relay.Hub.Bindings.{AgentConn, devices_for_account}
use nora_relay.Hub.Waiters
use nora_relay.Hub.Waiters.{Step, delivers, wait}
use nora_relay.Hub.Waiters.First.{IsFresh, Leaves, add-Waiting, first_delivery, wait-first_delivery}
use nora_relay.Hub.Await.{query_step, queries-apply, steps, await-wait}

-- The first reply that arrives under a query id.
unfoldable pub first_reply : String → List Event → Option QueryResult
first_reply id [] = none
first_reply id (query_results j qr ∷ events) = if j == id then some qr else first_reply id events
first_reply id (_ ∷ events) = first_reply id events

-- No other call uses the query id, and none reads this call's channel.
abbrev pub Minds : String → ℕ → Event → Type 0
Minds id c (query_opens j) = j ≢ id
Minds id c (query_closes j) = j ≢ id
Minds id c (query_takes d) = d ≢ c
Minds id c _ = Unit

query_steps : List Event → List (Step QueryResult)
query_steps = steps (λ h. h.queries) query_step queries-apply

first_delivery-steps :
    (id : String) (events : List Event)
    → first_delivery id (query_steps events) ≡ first_reply id events
unfolding first_delivery query_steps steps query_step first_reply
first_delivery-steps id [] = refl
first_delivery-steps id (query_results j qr ∷ events) = rw (first_delivery-steps id events)
first_delivery-steps id (_ ∷ events) = first_delivery-steps id events

steps-Leaves :
    (id : String) (c : ℕ) (events : List Event)
    → All (Minds id c) events
    → All (Leaves id c) (query_steps events)
unfolding query_steps steps query_step
steps-Leaves id c [] h = tt
steps-Leaves id c (query_opens j ∷ events) h = (h.0, steps-Leaves id c events h.1)
steps-Leaves id c (query_closes j ∷ events) h = (h.0, steps-Leaves id c events h.1)
steps-Leaves id c (query_takes d ∷ events) h = (h.0, steps-Leaves id c events h.1)
steps-Leaves id c (query_results j qr ∷ events) h = (tt, steps-Leaves id c events h.1)
steps-Leaves id c (_ ∷ events) h = steps-Leaves id c events h.1

-- The devices before the first that takes the query, and that one.
unfoldable pub tried : (AgentConn → Bool) → List AgentConn → List AgentConn
tried accepts [] = []
tried accepts (d ∷ ds) = let rest = tried accepts ds in if accepts d then d ∷ [] else d ∷ rest

module _ (accepts : AgentConn → Bool) where
  send_first-any :
      (env : Envelope) (ds : List AgentConn) → (send_first accepts env ds).1 ≡ any accepts ds
  unfolding send_first any
  send_first-any env [] = refl
  send_first-any env (d ∷ ds) = ground (arith, send_first-any env ds)

  module _ (account : String) (secret : List ℕ) (q : Query) where
    outcome-ask :
        (devices : List AgentConn) (events : List Event) (h : Hub)
        → (ask accepts devices secret q events h).0 ≡ (
            if any accepts devices
            then outcome_of (
                wait h.queries.fresh
                  (query_steps events)
                  (Waiters.add (query_id secret) h.queries).1)
            else account_offline)
    unfolding ask Waiters.add query_steps
    outcome-ask devices events h =
        let opened : Hub = record h { queries = (Waiters.add (query_id secret) h.queries).1 } in
        let env : Envelope = record (envelope EnvelopeType.query (query_id secret)) {
          query = some q;
        } in
        ground (
          arith,
          send_first-any env devices,
          await-wait (λ g. g.queries) query_step queries-apply h.queries.fresh events opened,
        )

    -- Some device of the account takes the query.
    abbrev pub reachable : Hub → Bool
    reachable h = any accepts (devices_for_account h.bindings account)

    outcome-send_query :
        (events : List Event) (h : Hub)
        → (send_query accepts account secret q events h).0 ≡ (
            if reachable h
            then outcome_of (
                wait h.queries.fresh
                  (query_steps events)
                  (Waiters.add (query_id secret) h.queries).1)
            else account_offline)
    unfolding send_query
    outcome-send_query events h = go (devices_for_account h.bindings account) refl
      where
        go :
            (ds : List AgentConn)
            → devices_for_account h.bindings account ≡ ds
            → (send_query accepts account secret q events h).0 ≡ (
                if reachable h
                then outcome_of (
                    wait h.queries.fresh
                      (query_steps events)
                      (Waiters.add (query_id secret) h.queries).1)
                else account_offline)
        go [] e = rw (e, send_query) (unfold any in refl)
        go (d ∷ ds) e = rw (e, send_query) (outcome-ask (d ∷ ds) events h)

    opened-empty :
        (h : Hub) → (Waiters.add (query_id secret) h.queries).1.buffer h.queries.fresh ≡ none
    unfolding Waiters.add
    opened-empty h = ground arith

    -- If a device takes the query, and no other call uses the query id or reads this call's channel,
    -- `sendQuery` returns the first reply that arrives under the id before the deadline, and the
    -- context's error if none does; if no device takes it, the account is offline.
    pub send_query-first_reply :
        (events : List Event) (h : Hub)
        → IsFresh h.queries
        → All (Minds (query_id secret) h.queries.fresh) events
        → (send_query accepts account secret q events h).0 ≡ (
            if reachable h
            then outcome_of (first_reply (query_id secret) events)
            else account_offline)
    send_query-first_reply events h fresh mind = rw (
      outcome-send_query events h,
      wait-first_delivery (query_id secret) h.queries.fresh (query_steps events) _
          (steps-Leaves (query_id secret) h.queries.fresh events mind)
          (add-Waiting (query_id secret) h.queries fresh) (opened-empty h),
      first_delivery-steps (query_id secret) events,
    )

  send_first-tried :
      (env : Envelope) (ds : List AgentConn)
      → (send_first accepts env ds).0 ≡ send_each env (tried accepts ds)
  unfolding send_first tried
  send_first-tried env [] = refl
  send_first-tried env (d ∷ ds) = ground (arith, send_first-tried env ds)

  module _ (account : String) (secret : List ℕ) (q : Query) where
    abbrev pub Closes : List AgentConn → Outcome QueryResult × List Sent × Hub → Type 0
    Closes devices (outcome, sent, h') =
        (Map.lookup h'.queries.pending (query_id secret) ≡ none)
        × (sent
            ≡ send_each (record (envelope EnvelopeType.query (query_id secret)) { query = some q })
                (tried accepts devices))

    ask-Closes :
        (devices : List AgentConn) (events : List Event) (h : Hub)
        → Closes devices (ask accepts devices secret q events h)
    unfolding ask Waiters.forget
    ask-Closes devices events h =
        let env : Envelope = record (envelope EnvelopeType.query (query_id secret)) {
          query = some q;
        } in
        elim (Bool-cases (send_first accepts env devices).1) [
          | inl sent ↦
              rw (sent, ask)
                (rw (lookup-remove, eq_refl (query_id secret)), send_first-tried env devices)
          | inr none_sent ↦
              rw (none_sent, ask)
                (rw (lookup-remove, eq_refl (query_id secret)), send_first-tried env devices)
        ]

    -- When a query that had a device to go to returns, its id is free again, and the devices that
    -- were written to are the most recent ones up to the first that took it: no device is asked
    -- after one that took the query.
    pub send_query-Closes :
        (events : List Event) (h : Hub)
        → devices_for_account h.bindings account ≢ []
        → Closes
            (devices_for_account h.bindings account)
            (send_query accepts account secret q events h)
    unfolding send_query
    send_query-Closes events h some_device = go (devices_for_account h.bindings account) refl
      where
        go :
            (ds : List AgentConn)
            → devices_for_account h.bindings account ≡ ds
            → Closes ds (send_query accepts account secret q events h)
        go [] e = absurd (some_device e)
        go (d ∷ ds) e = rw (e, send_query) (ask-Closes (d ∷ ds) events h)
