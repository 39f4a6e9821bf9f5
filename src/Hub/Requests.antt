-- ===== src/Hub/Requests.antt =====
-- cmd/relay/hub.go: what `sendRequest` returns and what it leaves behind.
use nora_relay.Base.{
  ℕ, String, ◌==◌, eq_refl, ◌≡◌, ◌≢◌, refl, ap, ◌∙◌, Bool, true, List, [], ◌∷◌, ◌++◌, Option, none,
  some, arith, All, Any, any, inl, inr, Bool-cases, if◌then◌else◌,
}
use nora_relay.Base.Map
use nora_relay.Base.Map.{lookup-remove}
use nora_relay.Protocol.{EnvelopeType, TxRequest, TxResult, envelope}
use nora_relay.Hub.{
  Hub, Event, results, request_opens, request_closes, request_takes, Outcome, answered,
  account_offline, outcome_of, send_each, close_request, fan_out, send_request, Sent,
}
use nora_relay.Hub.Bindings.{AgentConn, devices_for_account}
use nora_relay.Hub.Waiters
use nora_relay.Hub.Waiters.{Step, delivers, wait}
use nora_relay.Hub.Waiters.First.{
  IsFresh, Leaves, add-Waiting, first_delivery, wait-first_delivery, wait-delivered,
}
use nora_relay.Hub.Await.{request_step, requests-apply, steps, await-wait}

-- The first result that arrives with a request id.
unfoldable pub first_result : String → List Event → Option TxResult
first_result id [] = none
first_result id (results res ∷ events) =
    if res.request_id == id then some res else first_result id events
first_result id (_ ∷ events) = first_result id events

-- No other call uses the request id, and none reads this call's channel.
abbrev pub Minds : String → ℕ → Event → Type 0
Minds id c (request_opens j) = j ≢ id
Minds id c (request_closes j) = j ≢ id
Minds id c (request_takes d) = d ≢ c
Minds id c _ = Unit

request_steps : List Event → List (Step TxResult)
request_steps = steps (λ h. h.requests) request_step requests-apply

first_delivery-steps :
    (id : String) (events : List Event)
    → first_delivery id (request_steps events) ≡ first_result id events
unfolding first_delivery request_steps steps request_step first_result
first_delivery-steps id [] = refl
first_delivery-steps id (results res ∷ events) = rw (first_delivery-steps id events)
first_delivery-steps id (_ ∷ events) = first_delivery-steps id events

steps-Leaves :
    (id : String) (c : ℕ) (events : List Event)
    → All (Minds id c) events
    → All (Leaves id c) (request_steps events)
unfolding request_steps steps request_step
steps-Leaves id c [] h = tt
steps-Leaves id c (request_opens j ∷ events) h = (h.0, steps-Leaves id c events h.1)
steps-Leaves id c (request_closes j ∷ events) h = (h.0, steps-Leaves id c events h.1)
steps-Leaves id c (request_takes d ∷ events) h = (h.0, steps-Leaves id c events h.1)
steps-Leaves id c (results res ∷ events) h = (tt, steps-Leaves id c events h.1)
steps-Leaves id c (_ ∷ events) h = steps-Leaves id c events h.1

-- A delivery among the steps is a result that arrived, with the id as its request id.
arrived :
    (id : String) (a : TxResult) (events : List Event)
    → Any (λ s. s ≡ delivers id a) (request_steps events)
    → (a.request_id ≡ id) × Any (λ e. e ≡ results a) events
unfolding request_steps steps request_step
arrived id a [] m = elim m [ ]
arrived id a (results res ∷ events) (inl here) = (cc, inl (ground arith))
arrived id a (results res ∷ events) (inr later) =
    let (same, among) = arrived id a events later in (same, inr among)
arrived id a (request_opens j ∷ events) (inl here) = cc
arrived id a (request_opens j ∷ events) (inr later) =
    let (same, among) = arrived id a events later in (same, inr among)
arrived id a (request_closes j ∷ events) (inl here) = cc
arrived id a (request_closes j ∷ events) (inr later) =
    let (same, among) = arrived id a events later in (same, inr among)
arrived id a (request_takes d ∷ events) (inl here) = cc
arrived id a (request_takes d ∷ events) (inr later) =
    let (same, among) = arrived id a events later in (same, inr among)
arrived id a (_ ∷ events) m = let (same, among) = arrived id a events m in (same, inr among)

module _ (accepts : AgentConn → Bool) (account : String) (req : TxRequest) where
  outcome-fan_out :
      (devices : List AgentConn) (events : List Event) (h : Hub)
      → (fan_out accepts devices account req events h).0 ≡ (
          if any accepts devices
          then outcome_of
              (wait h.requests.fresh (request_steps events) (Waiters.add req.id h.requests).1)
          else account_offline)
  unfolding fan_out close_request Waiters.add request_steps
  outcome-fan_out devices events h =
      let opened : Hub = record h { requests = (Waiters.add req.id h.requests).1 } in
      ground (
        arith,
        await-wait (λ g. g.requests) request_step requests-apply h.requests.fresh events opened,
      )

  -- A new channel is empty, and only this call's id leads to it.
  opened-empty : (h : Hub) → (Waiters.add req.id h.requests).1.buffer h.requests.fresh ≡ none
  unfolding Waiters.add
  opened-empty h = ground arith

  -- Some device of the account takes the request.
  abbrev pub reachable : Hub → Bool
  reachable h = any accepts (devices_for_account h.bindings account)

  outcome-send_request :
      (events : List Event) (h : Hub)
      → (send_request accepts account req events h).0 ≡ (
          if reachable h
          then outcome_of
              (wait h.requests.fresh (request_steps events) (Waiters.add req.id h.requests).1)
          else account_offline)
  unfolding send_request
  outcome-send_request events h = go (devices_for_account h.bindings account) refl
    where
      go :
          (ds : List AgentConn)
          → devices_for_account h.bindings account ≡ ds
          → (send_request accepts account req events h).0 ≡ (
              if reachable h
              then outcome_of
                  (wait h.requests.fresh (request_steps events) (Waiters.add req.id h.requests).1)
              else account_offline)
      go [] e = rw (e, send_request) (unfold any in refl)
      go (d ∷ ds) e = rw (e, send_request) (outcome-fan_out (d ∷ ds) events h)

  -- If a device takes the request, and no other call uses the request id or reads this call's
  -- channel, `sendRequest` returns the first result that arrives with the id before the deadline,
  -- and the context's error if none does.
  pub send_request-first_result :
      (events : List Event) (h : Hub)
      → IsFresh h.requests
      → reachable h ≡ true
      → All (Minds req.id h.requests.fresh) events
      → (send_request accepts account req events h).0 ≡ outcome_of (first_result req.id events)
  send_request-first_result events h fresh reach mind =
      rw (outcome-send_request events h, reach)
        (ap outcome_of (
          wait-first_delivery req.id h.requests.fresh (request_steps events) _
            (steps-Leaves req.id h.requests.fresh events mind) (add-Waiting req.id h.requests fresh)
            (opened-empty h)
          ∙ first_delivery-steps req.id events))

  outcome_of-answered :
      (o : Option TxResult) (r : TxResult) → outcome_of o ≡ answered r → o ≡ some r
  outcome_of-answered none r e = cc
  outcome_of-answered (some a) r e = ground arith

  -- Whatever the other goroutines do, a result that `sendRequest` returns has the id of the request,
  -- and it arrived while the call waited.
  pub send_request-request_id :
      (events : List Event) (h : Hub) (r : TxResult)
      → IsFresh h.requests
      → (send_request accepts account req events h).0 ≡ answered r
      → (r.request_id ≡ req.id) × Any (λ e. e ≡ results r) events
  send_request-request_id events h r fresh e = arrived req.id r events (
      wait-delivered req.id h.requests.fresh (request_steps events) _ r
        (add-Waiting req.id h.requests fresh).owned (opened-empty h)
        (outcome_of-answered _ r (ground (arith, outcome-send_request events h))))

  -- The id is free, and the messages are the requests and then the withdrawals.
  abbrev pub Closes : List AgentConn → Outcome TxResult × List Sent × Hub → Type 0
  Closes devices (outcome, sent, h') =
      (Map.lookup h'.requests.pending req.id ≡ none)
      × (sent
          ≡ send_each (record (envelope EnvelopeType.request req.id) { request = some req }) devices
            ++ send_each (envelope EnvelopeType.withdraw req.id)
                (devices_for_account h'.bindings account))

  close_request-Closes :
      (devices : List AgentConn) (o : Outcome TxResult) (h : Hub)
      → Closes devices (
          close_request account req.id o
            (send_each
              (record (envelope EnvelopeType.request req.id) { request = some req })
              devices)
            h)
  unfolding close_request Waiters.forget
  close_request-Closes devices o h = (rw (lookup-remove, eq_refl req.id), refl)

  fan_out-Closes :
      (devices : List AgentConn) (events : List Event) (h : Hub)
      → Closes devices (fan_out accepts devices account req events h)
  unfolding fan_out
  fan_out-Closes devices events h = elim (Bool-cases (any accepts devices)) [
    | inl reach ↦ rw (reach, fan_out) (close_request-Closes devices _ _)
    | inr none_reached ↦ rw (none_reached, fan_out) (close_request-Closes devices _ _)
  ]

  -- When a call that had a device to write to returns, by an answer or not, its request id is free
  -- again, and the devices that are then bound to the account have been told to withdraw it, after
  -- each device that was bound at first was sent the request.
  pub send_request-Closes :
      (events : List Event) (h : Hub)
      → devices_for_account h.bindings account ≢ []
      → Closes (devices_for_account h.bindings account) (send_request accepts account req events h)
  unfolding send_request
  send_request-Closes events h some_device = go (devices_for_account h.bindings account) refl
    where
      go :
          (ds : List AgentConn)
          → devices_for_account h.bindings account ≡ ds
          → Closes ds (send_request accepts account req events h)
      go [] e = absurd (some_device e)
      go (d ∷ ds) e = rw (e, send_request) (fan_out-Closes (d ∷ ds) events h)
