-- ===== src/Hub/Await.antt =====
-- cmd/relay/hub.go: a wait over all the events of the hub is a wait over those of one table.
use nora_relay.Base.{ℕ, ◌≡◌, refl, List, [], ◌∷◌, Option, none, some, arith, inl, inr, Option-cases}
use nora_relay.Protocol.{TxResult, QueryResult}
use nora_relay.Hub.{
  Hub, Event, results, query_results, request_opens, request_closes, request_takes, query_opens,
  query_closes, query_takes, apply, await,
}
use nora_relay.Hub.Waiters.{WaitTable, Step, adds, forgets, delivers, receives, advance, wait}

unfoldable pub request_step : Event → Option (Step TxResult)
request_step (results res) = some (delivers res.request_id res)
request_step (request_opens id) = some (adds id)
request_step (request_closes id) = some (forgets id)
request_step (request_takes c) = some (receives c)
request_step _ = none

unfoldable pub query_step : Event → Option (Step QueryResult)
query_step (query_results id qr) = some (delivers id qr)
query_step (query_opens id) = some (adds id)
query_step (query_closes id) = some (forgets id)
query_step (query_takes c) = some (receives c)
query_step _ = none

module _ {A : Type 0} where
  abbrev pub try : Option (Step A) → WaitTable A → WaitTable A
  try none w = w
  try (some s) w = advance s w

  abbrev pub push : Option (Step A) → List (Step A) → List (Step A)
  push none steps = steps
  push (some s) steps = s ∷ steps

pub requests-apply : (e : Event) (h : Hub) → (apply e h).requests ≡ try (request_step e) h.requests
unfolding apply request_step advance
requests-apply (results res) h = refl
requests-apply _ h = refl

pub queries-apply : (e : Event) (h : Hub) → (apply e h).queries ≡ try (query_step e) h.queries
unfolding apply query_step advance
queries-apply (query_results id qr) h = refl
queries-apply _ h = refl

module _ {A : Type 0} (table : Hub → WaitTable A) (step : Event → Option (Step A))
    (table-apply : (e : Event) (h : Hub) → table (apply e h) ≡ try (step e) (table h)) where
  unfoldable pub steps : List Event → List (Step A)
  steps [] = []
  steps (e ∷ events) = push (step e) (steps events)

  wait_now :
      (c : ℕ) (ss : List (Step A)) (w : WaitTable A) (a : A)
      → w.buffer c ≡ some a
      → wait c ss w ≡ some a
  unfolding wait
  wait_now c [] w a e = e
  wait_now c (s ∷ ss) w a e = ground arith

  pub await-wait :
      (c : ℕ) (events : List Event) (h : Hub)
      → (await table c events h).0 ≡ wait c (steps events) (table h)
  unfolding await wait steps
  await-wait c [] h = refl
  await-wait c (e ∷ events) h = elim (Option-cases ((table h).buffer c)) [
    | inr (a, full) ↦ ground (arith, wait_now c (push (step e) (steps events)) (table h) a full)
    | inl vacant ↦ elim (Option-cases (step e)) [
      | inl other ↦ ground (arith, await-wait c events (apply e h), table-apply e h)
      | inr (s, moved) ↦ ground (arith, await-wait c events (apply e h), table-apply e h)
    ]
  ]
