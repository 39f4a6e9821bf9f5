-- ===== src/System.antt =====
-- cmd/relay: the relay as a whole. Its state is that of the server; a step is a connection that enrolls or
-- ends, a message of an enrolled device, a request of a caller, or a round of pruning.
pub mod Authentic
pub mod Authority
pub mod Limits
pub mod Service
mod Tests
use nora_relay.Base.{ℕ, List, ◌≡◌, All, Option, none}
use nora_relay.Protocol.{Envelope}
use nora_relay.Nano.Signing.{Curve}
use nora_relay.Hub.{Event, joins}
use nora_relay.Hub.Bindings.{AgentConn, bind, unbind}
use nora_relay.RateLimit.{RateLimiter, prune}
use nora_relay.Store.{Store}
use nora_relay.Api.{Request, Server, Call}
use nora_relay.Api.Build.{Outside}
use nora_relay.Api.Routes.{routes}
use nora_relay.Agent.{enroll, accepted, dispatch}
use nora_relay.Startup.{new_server}

module _ (curve : Curve) (blake2b : ℕ → List ℕ → List ℕ) where
  -- A run of enroll that gives the connection, with the nonce that was drawn for it.
  pub record Enrollment (a : AgentConn) : Type 0 where
    pub pointer : ℕ
    pub hello : Option Envelope
    pub nonce : List ℕ
    pub auth : Option Envelope
    pub gives : enroll curve blake2b pointer hello nonce none auth ≡ accepted a

  -- A connection is bound by handleAgent only, after it has enrolled.
  abbrev pub Happens : Event → Type 0
  Happens (joins a) = Enrollment a
  Happens _ = Unit

  module _ {S : Type 0} (store : Store S) (o : Outside) where
    -- The handlers run as goroutines. While a request waits for a device, `call.events` happens to the hub.
    pub data Step (sv : Server S) : Server S → Type 0 where
      connects :
          (a : AgentConn)
          → Enrollment a
          → Step sv (record sv { hub = record sv.hub { bindings = bind a sv.hub.bindings } })
      ends :
          (a : AgentConn)
          → Step sv (record sv { hub = record sv.hub { bindings = unbind a sv.hub.bindings } })
      says :
          (a : AgentConn)
          → Enrollment a
          → (env : Envelope)
          → Step sv (
              let (hub, s) = dispatch store a env (sv.hub, sv.store) in
              record sv { hub = hub; store = s })
      asks :
          (r : Request) (call : Call)
          → All Happens call.events
          → Step sv (routes store o call r sv).2
      -- rateLimiter.allow releases the lock of the map before it takes the lock of the key's limiter. If a round of
      -- pruning removes the limiter between the two, the request spends the tokens of a limiter that the map does not
      -- have any more: it is found in `rl`, whatever it holds, and what happens to it is not seen by other requests.
      asks_detached :
          (r : Request) (call : Call) (rl : RateLimiter)
          → All Happens call.events
          → Step sv (record (routes store o call r (record sv { rl = rl })).2 { rl = sv.rl })
      prunes : (now : ℕ) → Step sv (record sv { rl = prune sv.rl now })

    -- The states after newServer, over a store in the state `s`.
    pub data Reach (s : S) : Server S → Type 0 where
      starts : Reach s (new_server s)
      next : {sv sv' : Server S} → Reach s sv → Step sv sv' → Reach s sv'

    -- Steps, one after the other.
    pub data Run (sv : Server S) : Server S → Type 0 where
      still : Run sv sv
      and_then : {sv' sv'' : Server S} → Run sv sv' → Step sv' sv'' → Run sv sv''
