-- ===== src/Agent/Connection/Pings.antt =====
-- cmd/relay/http.go: the pings of pinger, and the pongs of a device.
use nora_relay.Base.{
  ℕ, ◌+◌, ◌-◌, ◌*◌, ◌/◌, ◌≤◌, ◌<◌, ◌≡◌, refl, ap, ◌⊎◌, inl, inr, false, List, [], ◌∷◌, Any, arith,
  leb, Bool-cases,
}
use nora_relay.RateLimit.{second}
use nora_relay.Agent.{Turn, message, event, write}
use nora_relay.Agent.Connection.{Incoming, takes, pong, unreadable}
use nora_relay.Agent.Connection.Deadlines.{served, and_turn}

-- The ticks of the pinger that starts with the session.
abbrev pub ping_at : (start k : ℕ) → ℕ
ping_at start k = start + 25 * second + k * (25 * second)

-- A pong that comes less than 35 seconds after a ping.
abbrev pub IsAnswer : (start k : ℕ) → ℕ × Incoming → Type 0
IsAnswer start k (now, pong) = (ping_at start k ≤ now) × (now < ping_at start k + 35 * second)
IsAnswer start k (now, takes t) = ⊥
IsAnswer start k (now, unreadable) = ⊥

-- What comes can be read, and its times do not go back, from a time to a time.
abbrev pub Within : (from to : ℕ) → List (ℕ × Incoming) → Type 0
Within from to [] = Unit
Within from to ((now, unreadable) ∷ incoming) = ⊥
Within from to ((now, takes t) ∷ incoming) = (from ≤ now) × (now ≤ to) × Within now to incoming
Within from to ((now, pong) ∷ incoming) = (from ≤ now) × (now ≤ to) × Within now to incoming

-- All turns.
pub turns_in : List (ℕ × Incoming) → List Turn
turns_in [] = []
turns_in ((now, x) ∷ incoming) = and_turn x (turns_in incoming)

module _ (start to : ℕ) where
  -- Each ping, whose 35 seconds pass by the end, is answered in what comes or was answered before.
  abbrev Kept : (deadline : ℕ) → List (ℕ × Incoming) → Type 0
  Kept deadline incoming =
      (k : ℕ)
      → ping_at start k + 35 * second ≤ to
      → (ping_at start k + 60 * second ≤ deadline) ⊎ Any (IsAnswer start k) incoming

  answer-late :
      (from k : ℕ) (incoming : List (ℕ × Incoming))
      → Within from to incoming
      → Any (IsAnswer start k) incoming
      → from < ping_at start k + 35 * second
  answer-late from k [] w none_there = elim none_there [ ]
  answer-late from k ((now, unreadable) ∷ incoming) w some_there = elim w [ ]
  answer-late from k ((now, pong) ∷ incoming) w (inl here) = omega arith
  answer-late from k ((now, pong) ∷ incoming) w (inr later) =
      omega (arith, answer-late now k incoming w.2 later)
  answer-late from k ((now, takes t) ∷ incoming) w (inl here) = elim here [ ]
  answer-late from k ((now, takes t) ∷ incoming) w (inr later) =
      omega (arith, answer-late now k incoming w.2 later)

  -- The deadline is not passed: the ping 60 seconds before it would be unanswered.
  in_time :
      (deadline now : ℕ) (incoming : List (ℕ × Incoming))
      → start + 60 * second ≤ deadline
      → now ≤ to
      → Within now to incoming
      → Kept deadline incoming
      → now < deadline
  in_time deadline now incoming long early w kept = elim (Bool-cases (leb deadline now)) [
    | inr before ↦ ground arith
    | inl late ↦
        let k = (deadline - (start + 60 * second)) / (25 * second) in
        elim (kept k (ground arith)) [
          | inl answered ↦ absurd (ground arith)
          | inr later ↦ absurd (ground (arith, answer-late now k incoming w later))
        ]
  ]

  from_now :
      (from now : ℕ) (x : Incoming) (incoming : List (ℕ × Incoming))
      → Within from to ((now, x) ∷ incoming)
      → (now ≤ to) × Within now to ((now, x) ∷ incoming)
  from_now from now unreadable incoming w = elim w [ ]
  from_now from now (takes t) incoming w = (w.1, (omega arith, w.1, w.2))
  from_now from now pong incoming w = (w.1, (omega arith, w.1, w.2))

  not_late :
      (deadline from now : ℕ) (x : Incoming) (incoming : List (ℕ × Incoming))
      → start + 60 * second ≤ deadline
      → Within from to ((now, x) ∷ incoming)
      → Kept deadline ((now, x) ∷ incoming)
      → leb deadline now ≡ false
  not_late deadline from now x incoming long w kept =
      let (early, w') = from_now from now x incoming w in
      ground (arith, in_time deadline now ((now, x) ∷ incoming) long early w' kept)

  Kept-after :
      (deadline deadline' now : ℕ) (t : Turn) (incoming : List (ℕ × Incoming))
      → deadline ≤ deadline'
      → Kept deadline ((now, takes t) ∷ incoming)
      → Kept deadline' incoming
  Kept-after deadline deadline' now t incoming h kept k by = elim (kept k by) [
    | inl answered ↦ inl (omega arith)
    | inr (inl here) ↦ elim here [ ]
    | inr (inr later) ↦ inr later
  ]

  Kept-pong :
      (deadline now : ℕ) (incoming : List (ℕ × Incoming))
      → deadline ≤ now + 60 * second
      → Kept deadline ((now, pong) ∷ incoming)
      → Kept (now + 60 * second) incoming
  Kept-pong deadline now incoming h kept k by = elim (kept k by) [
    | inl answered ↦ inl (omega arith)
    | inr (inl here) ↦ inl (omega arith)
    | inr (inr later) ↦ inr later
  ]

  served-all :
      (deadline from : ℕ) (incoming : List (ℕ × Incoming))
      → start + 60 * second ≤ deadline
      → deadline ≤ from + 60 * second
      → Within from to incoming
      → Kept deadline incoming
      → served deadline incoming ≡ turns_in incoming
  unfolding served turns_in
  served-all deadline from [] long near w kept = refl
  served-all deadline from ((now, unreadable) ∷ incoming) long near w kept = elim w [ ]
  served-all deadline from ((now, takes (message env)) ∷ incoming) long near w kept =
      rw (not_late deadline from now (takes (message env)) incoming long w kept) (
        ap (λ turns. message env ∷ turns)
          (served-all (now + 60 * second) now incoming (omega arith) (omega arith) w.2 (
            Kept-after deadline (now + 60 * second) now (message env) incoming (omega arith) kept)))
  served-all deadline from ((now, takes (event e)) ∷ incoming) long near w kept =
      rw (not_late deadline from now (takes (event e)) incoming long w kept) (
        ap (λ turns. event e ∷ turns)
          (served-all deadline now incoming long (omega arith) w.2
            (Kept-after deadline deadline now (event e) incoming (omega arith) kept)))
  served-all deadline from ((now, takes (write wr)) ∷ incoming) long near w kept =
      rw (not_late deadline from now (takes (write wr)) incoming long w kept) (
        ap (λ turns. write wr ∷ turns)
          (served-all deadline now incoming long (omega arith) w.2
            (Kept-after deadline deadline now (write wr) incoming (omega arith) kept)))
  served-all deadline from ((now, pong) ∷ incoming) long near w kept =
      rw (not_late deadline from now pong incoming long w kept) (
        served-all (now + 60 * second) now incoming (omega arith) (omega arith) w.2
          (Kept-pong deadline now incoming (omega arith) kept))

-- If each ping of a session, whose 35 seconds pass by the end, is answered by a pong within them, and whatever else
-- comes can be read, then the session serves all the turns: no deadline ends it.
pub served-answered :
    (start to : ℕ) (incoming : List (ℕ × Incoming))
    → Within start to incoming
    → ((k : ℕ) → ping_at start k + 35 * second ≤ to → Any (IsAnswer start k) incoming)
    → served (start + 60 * second) incoming ≡ turns_in incoming
served-answered start to incoming w answered =
    served-all start to (start + 60 * second) start incoming (omega arith) (omega arith) w
      (λ k h. inr (answered k h))
