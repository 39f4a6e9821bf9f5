-- ===== src/Hub/Waiters.antt =====
-- cmd/relay/hub.go: the tables `pending` and `queryPending`, of callers that wait for an answer.
-- The two have the same shape, so they are one generic component: an id leads to a channel with room
-- for one value. Each function is one step under the table's mutex.
pub mod First
use nora_relay.Base.{ℕ, suc, String, Bool, List, [], ◌∷◌, Option, none, some, nat_eq, if◌then◌else◌}
use nora_relay.Base.Map
use nora_relay.Base.Map.{Map}

-- A channel is a number; `fresh` is the next that `make` gives out.
pub record WaitTable (A : Type 0) : Type 0 where
  pub pending : Map ℕ
  pub buffer : ℕ → Option A
  pub fresh : ℕ

pub empty : {A : Type 0} → WaitTable A
empty = record { pending = Map.empty; buffer = λ c. none; fresh = 0 }

abbrev update : {A : Type 0} → (ℕ → Option A) → ℕ → Option A → ℕ → Option A
update f c v d = if nat_eq c d then v else f d

module _ {A : Type 0} where
  -- waiter := make(chan …, 1); pending[id] = waiter
  unfoldable pub add : String → WaitTable A → ℕ × WaitTable A
  add id w = (
    w.fresh,
    record {
      pending = Map.insert id w.fresh w.pending;
      buffer = update w.buffer w.fresh none;
      fresh = suc w.fresh;
    },
  )

  -- delete(pending, id)
  unfoldable pub forget : String → WaitTable A → WaitTable A
  forget id w = record w { pending = Map.remove id w.pending }

  -- deliverResult, deliverQueryResult: a full channel drops the value.
  unfoldable pub deliver : String → A → WaitTable A → WaitTable A
  deliver id a w = elim (Map.lookup w.pending id) [
    | none ↦ w
    | some c ↦ elim (w.buffer c) [
      | none ↦ record w { buffer = update w.buffer c (some a) }
      | some _ ↦ w
    ]
  ]

  -- Another caller takes the value of its own channel.
  unfoldable pub receive : ℕ → WaitTable A → WaitTable A
  receive c w = record w { buffer = update w.buffer c none }

-- What other goroutines do to the table while a caller waits.
pub data Step (A : Type 0) : Type 0 where
  adds forgets : String → Step A
  delivers : String → A → Step A
  receives : ℕ → Step A

module _ {A : Type 0} where
  unfoldable pub advance : Step A → WaitTable A → WaitTable A
  unfolding add forget deliver receive
  advance (adds id) w = (add id w).1
  advance (forgets id) w = forget id w
  advance (delivers id a) w = deliver id a w
  advance (receives c) w = receive c w

  -- `select` on the channel and the deadline: the steps are those before the deadline.
  unfoldable pub wait : ℕ → List (Step A) → WaitTable A → Option A
  wait c [] w = w.buffer c
  wait c (s ∷ steps) w = elim (w.buffer c) [ some a ↦ some a | none ↦ wait c steps (advance s w) ]
