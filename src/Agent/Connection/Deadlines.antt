-- ===== src/Agent/Connection/Deadlines.antt =====
-- cmd/relay/http.go: when a connection is closed, and what it leaves in the hub.
use nora_relay.Base.{
  ℕ, ◌+◌, ◌*◌, ◌≤◌, String, ◌≡◌, refl, sym, subst, ap, List, [], ◌∷◌, none, some, All, arith, inl,
  inr, leb, Bool-cases, if◌then◌else◌,
}
use nora_relay.Nano.Signing.{Curve}
use nora_relay.RateLimit.{second}
use nora_relay.Hub.{Hub}
use nora_relay.Hub.Bindings.{AgentConn, bind, unbind, devices_for_account}
use nora_relay.Hub.Bindings.Invariant.{Inv}
use nora_relay.Store.{Store}
use nora_relay.Agent.{
  Turn, message, event, write, turn, agent_read_loop, handle_agent, accepted, rejected, Enrolled,
}
use nora_relay.Agent.Session.{Absent, handle_agent-Absent}
use nora_relay.Agent.Connection.{
  Incoming, takes, pong, unreadable, renewed, fails_on, takes_in, read_until, Read, read_end, Visit,
  enroll_deadline, enroll_end, enrolled, converse,
}

abbrev pub and_turn : Incoming → List Turn → List Turn
and_turn (takes t) turns = t ∷ turns
and_turn pong turns = turns
and_turn unreadable turns = turns

-- The turns of a session before it ends.
unfoldable pub served : (deadline : ℕ) → List (ℕ × Incoming) → List Turn
served deadline [] = []
served deadline ((now, x) ∷ incoming) =
    let rest = served (renewed deadline now x) incoming in
    if leb deadline now then [] else if fails_on x then [] else and_turn x rest

module _ {S : Type 0} (store : Store S) (a : AgentConn) where
  read_until-served :
      (deadline : ℕ) (incoming : List (ℕ × Incoming)) (h : Hub) (s : S)
      → let e = read_until store a deadline incoming (h, s) in
        (e.hub, e.store) ≡ agent_read_loop store a (served deadline incoming) (h, s)
  unfolding read_until served agent_read_loop
  read_until-served deadline [] h s = refl
  read_until-served deadline ((now, takes t) ∷ incoming) h s =
      elim (Bool-cases (leb deadline now)) [
        | inl late ↦ rw (late) refl
        | inr in_time ↦
            let (h', s') = turn store a t (h, s) in
            rw (in_time) (read_until-served (renewed deadline now (takes t)) incoming h' s')
      ]
  read_until-served deadline ((now, pong) ∷ incoming) h s = elim (Bool-cases (leb deadline now)) [
    | inl late ↦ rw (late) refl
    | inr in_time ↦ rw (in_time) (read_until-served (now + 60 * second) incoming h s)
  ]
  read_until-served deadline ((now, unreadable) ∷ incoming) h s = ground arith

-- Nothing is heard from the device after a time.
abbrev pub Silent : (after : ℕ) → ℕ × Incoming → Type 0
Silent after (now, takes (message env)) = now ≤ after
Silent after (now, takes (event e)) = Unit
Silent after (now, takes (write w)) = Unit
Silent after (now, pong) = now ≤ after
Silent after (now, unreadable) = Unit

renewed-le :
    (deadline after now : ℕ) (x : Incoming)
    → deadline ≤ after + 60 * second
    → Silent after (now, x)
    → renewed deadline now x ≤ after + 60 * second
renewed-le deadline after now (takes (message env)) h quiet = omega arith
renewed-le deadline after now (takes (event e)) h quiet = h
renewed-le deadline after now (takes (write w)) h quiet = h
renewed-le deadline after now pong h quiet = omega arith
renewed-le deadline after now unreadable h quiet = h

module _ {S : Type 0} (store : Store S) (a : AgentConn) where
  read_until-le :
      (deadline after : ℕ) (incoming : List (ℕ × Incoming)) (h : Hub) (s : S)
      → deadline ≤ after + 60 * second
      → All (Silent after) incoming
      → (read_until store a deadline incoming (h, s)).at ≤ after + 60 * second
  unfolding read_until
  read_until-le deadline after [] h s early quiet = early
  read_until-le deadline after ((now, x) ∷ incoming) h s early quiet =
      let (h', s') = takes_in store a x (h, s) in
      ground (
        arith,
        read_until-le (renewed deadline now x) after incoming h' s'
            (renewed-le deadline after now x early quiet.0) quiet.1,
      )

read_end-le : (deadline : ℕ) (r : Read) → read_end deadline r ≤ deadline
read_end-le deadline none = omega arith
read_end-le deadline (some (t, m)) = ground arith

enroll_end-le : (v : Visit) → enroll_end v ≤ v.opened + 15 * second
enroll_end-le v =
    ground (arith, read_end-le (enroll_deadline v) v.hello, read_end-le (enroll_deadline v) v.auth)

module _ (curve : Curve) (blake2b : ℕ → List ℕ → List ℕ) {S : Type 0} (store : Store S) where
  -- The session of an accepted connection is that of its turns before the deadline.
  pub converse-accepted :
      (v : Visit) (a : AgentConn) (h : Hub) (s : S)
      → enrolled curve blake2b v ≡ accepted a
      → let e = converse curve blake2b store v (h, s) in
        (e.hub, e.store)
        ≡ handle_agent store a (served (enroll_end v + 60 * second) v.incoming) (h, s)
  unfolding converse handle_agent
  converse-accepted v a h s e =
      let bound : Hub = record h { bindings = bind a h.bindings } in
      rw (e, converse)
        (ap
          (λ (st : Hub × S).
            let (h', s') = st in (record h' { bindings = unbind a h'.bindings }, s'))
          (read_until-served store a (enroll_end v + 60 * second) v.incoming bound s))

  converse-le :
      (v : Visit) (after : ℕ) (h : Hub) (s : S)
      → v.opened + 15 * second ≤ after
      → All (Silent after) v.incoming
      → (r : Enrolled) → enrolled curve blake2b v ≡ r
      → (converse curve blake2b store v (h, s)).at ≤ after + 60 * second
  unfolding converse
  converse-le v after h s begun quiet (rejected text) e =
      rw (e, converse) (omega (arith, enroll_end-le v))
  converse-le v after h s begun quiet (accepted a) e =
      rw (e, converse)
        (read_until-le store a _ after v.incoming _ s (omega (arith, enroll_end-le v)) quiet)

  -- If nothing is heard from a device after a time which is 15 seconds or more after it opened its connection, the
  -- connection is closed at most 60 seconds after that time, and then no account routes to it, whatever the other
  -- goroutines did meanwhile, if the hub bound devices only to accounts they had proved when it was opened.
  pub converse-ends :
      (v : Visit) (after : ℕ) (h : Hub) (s : S)
      → v.opened + 15 * second ≤ after
      → All (Silent after) v.incoming
      → Inv h.bindings
      → let e = converse curve blake2b store v (h, s) in
        (e.at ≤ after + 60 * second)
        × ((a : AgentConn) (acc : String)
            → enrolled curve blake2b v ≡ accepted a
            → Absent a (devices_for_account e.hub.bindings acc))
  converse-ends v after h s begun quiet inv = (
    converse-le v after h s begun quiet (enrolled curve blake2b v) refl,
    λ a acc e.
        subst (λ (st : Hub × S). Absent a (devices_for_account st.0.bindings acc))
          (sym (converse-accepted v a h s e))
          (handle_agent-Absent store a (served (enroll_end v + 60 * second) v.incoming) h s acc
            inv),
  )
