-- ===== src/Agent/Connection.antt =====
-- cmd/relay/http.go: a whole connection to /agent with its clock and what handleAgent writes. Handlers take no time. The
-- read deadline is that of the WebSocket library: a read fails when nothing is read before it. A text that is closed,
-- too long or no JSON is `unreadable`. Times are nanoseconds.
pub mod Deadlines
pub mod Replies
pub mod Pings
mod Tests
use nora_relay.Base.{
  ℕ, ◌+◌, ◌*◌, String, Bool, true, false, List, [], ◌∷◌, ◌++◌, Option, none, some, leb, ltb, nat_eq,
  length, if◌then◌else◌,
}
use nora_relay.Protocol.{Envelope, EnvelopeType, Control, envelope}
use nora_relay.Nano.Signing.{Curve}
use nora_relay.RateLimit.{second}
use nora_relay.Hub.{Hub}
use nora_relay.Hub.Bindings.{AgentConn, bind, unbind}
use nora_relay.Store.{Store}
use nora_relay.Control.{handle_control}
use nora_relay.Agent.{
  Enrolled, Turn, message, event, write, turn, accepted, rejected, enroll, hello_in,
}

-- What a session meets: a message or a step of another goroutine, a pong, or a read that fails.
pub data Incoming : Type 0 where
  takes : Turn → Incoming
  pong : Incoming
  unreadable : Incoming

-- The hub and the store at the end, what was written to the device, and when the connection was closed.
pub record Ended (S : Type 0) : Type 0 where
  pub hub : Hub
  pub store : S
  pub sent : List Envelope
  pub at : ℕ

-- A message and a pong renew the deadline.
abbrev pub renewed : (deadline now : ℕ) → Incoming → ℕ
renewed deadline now (takes (message env)) = now + 60 * second
renewed deadline now (takes (event e)) = deadline
renewed deadline now (takes (write w)) = deadline
renewed deadline now pong = now + 60 * second
renewed deadline now unreadable = deadline

abbrev pub fails_on : Incoming → Bool
fails_on unreadable = true
fails_on pong = false
fails_on (takes t) = false

module _ {S : Type 0} (store : Store S) (a : AgentConn) where
  abbrev pub control_reply : Option Control → S → List Envelope
  control_reply none s = []
  control_reply (some c) s =
      record (envelope EnvelopeType.control "") { control = some (handle_control store a c s).0 }
      ∷ []

  -- The last statement of handleControl.
  abbrev pub replies : Incoming → S → List Envelope
  replies (takes (message env)) s = elim env.type [
    | EnvelopeType.control ↦ control_reply env.control s
    | _ ↦ []
  ]
  replies (takes (event e)) s = []
  replies (takes (write w)) s = []
  replies pong s = []
  replies unreadable s = []

  abbrev pub takes_in : Incoming → Hub × S → Hub × S
  takes_in (takes t) st = turn store a t st
  takes_in pong st = st
  takes_in unreadable st = st

  -- The loop of agentReadLoop, with the deadline that is set.
  unfoldable pub read_until : (deadline : ℕ) → List (ℕ × Incoming) → Hub × S → Ended S
  read_until deadline [] (h, s) = record { hub = h; store = s; sent = []; at = deadline }
  read_until deadline ((now, x) ∷ incoming) (h, s) =
      let rest = read_until (renewed deadline now x) incoming (takes_in x (h, s)) in
      if leb deadline now
      then record { hub = h; store = s; sent = []; at = deadline }
      else if fails_on x
      then record { hub = h; store = s; sent = []; at = now }
      else record rest { sent = replies x s ++ rest.sent }

-- A read during enroll: when it ends, and the message unless it fails; `none` if nothing comes.
abbrev pub Read : Type 0
Read = Option (ℕ × Option Envelope)

abbrev pub read_by : (deadline : ℕ) → Read → Option Envelope
read_by deadline none = none
read_by deadline (some (t, m)) = if ltb t deadline then m else none

abbrev pub read_end : (deadline : ℕ) → Read → ℕ
read_end deadline none = deadline
read_end deadline (some (t, m)) = if ltb t deadline then t else deadline

-- What a connection meets: when it was opened, the two messages of the enrollment, and what comes after.
pub record Visit : Type 0 where
  pub pointer : ℕ
  pub opened : ℕ
  pub hello : Read
  pub nonce : List ℕ
  pub write_error : Option String
  pub auth : Read
  pub incoming : List (ℕ × Incoming)

-- The deadline of the enrollment, which the hello does not renew.
abbrev pub enroll_deadline : Visit → ℕ
enroll_deadline v = v.opened + 15 * second

-- Does the hello announce an account?
abbrev pub announces : Option (String × List String) → Bool
announces none = false
announces (some (device_id, [])) = false
announces (some (device_id, acc ∷ accounts)) = true

-- When enroll returns.
abbrev pub enroll_end : Visit → ℕ
enroll_end v =
    let by = enroll_deadline v in
    let heard = announces (hello_in (read_by by v.hello)) in
    if heard
    then elim v.write_error [ some text ↦ read_end by v.hello | none ↦ read_end by v.auth ]
    else read_end by v.hello

abbrev pub challenge : List ℕ → Envelope
challenge nonce = record (envelope EnvelopeType.challenge "") { challenge = some nonce }

abbrev pub welcome : List String → Envelope
welcome accounts = record (envelope EnvelopeType.welcome "") { welcome = some accounts }

-- writeWSError
abbrev pub ws_error : String → Envelope
ws_error msg = record (envelope EnvelopeType.error "") { error = msg }

-- What enroll writes.
abbrev pub challenge_of : Visit → List Envelope
challenge_of v =
    if announces (hello_in (read_by (enroll_deadline v) v.hello))
    then challenge v.nonce ∷ []
    else []

module _ (curve : Curve) (blake2b : ℕ → List ℕ → List ℕ) where
  -- enroll, of the messages that come in time.
  abbrev pub enrolled : Visit → Enrolled
  enrolled v =
      let by = enroll_deadline v in
      enroll curve blake2b v.pointer (read_by by v.hello) v.nonce v.write_error (read_by by v.auth)

  module _ {S : Type 0} (store : Store S) where
    -- handleAgent, from the upgraded connection on.
    unfoldable pub converse : Visit → Hub × S → Ended S
    converse v (h, s) = elim (enrolled v) [
      | rejected text ↦ record {
        hub = h;
        store = s;
        sent = challenge_of v ++ ws_error text ∷ [];
        at = enroll_end v;
      }
      | accepted a ↦
          let bound : Hub = record h { bindings = bind a h.bindings } in
          let session = read_until store a (enroll_end v + 60 * second) v.incoming (bound, s) in
          record {
            hub = record session.hub { bindings = unbind a session.hub.bindings };
            store = session.store;
            sent = challenge_of v ++ welcome a.accounts ∷ session.sent;
            at = session.at;
          }
    ]
