-- ===== src/Agent/Connection/Tests.antt =====
-- A connection of one device, over the curve of the numbers.
use nora_relay.Base.{
  ℕ, ◌+◌, ◌*◌, ◌≤◌, String, ◌≡◌, refl, List, [], ◌∷◌, none, some, Any, arith, inl, inr, pos,
}
use nora_relay.Protocol.{Envelope, EnvelopeType, Control, envelope}
use nora_relay.RateLimit.{second}
use nora_relay.Hub.{new_hub}
use nora_relay.Hub.Bindings.{AgentConn, devices_for_account}
use nora_relay.Hub.Bindings.Invariant.{empty-Inv}
use nora_relay.Nano.Sample.{zero_digest, numbers}
use nora_relay.Store.{Store}
use nora_relay.Store.Memory.{MemStore, mem_store, new_mem_store}
use nora_relay.Agent.{message, accepted}
use nora_relay.Agent.Session.{Absent}
use nora_relay.Agent.Sample.{hello, auth, laptop, laptop_enrolled}
use nora_relay.Agent.Connection.{
  Incoming, takes, pong, Visit, enrolled, enroll_end, converse, challenge, welcome,
}
use nora_relay.Agent.Connection.Deadlines.{served, converse-ends}
use nora_relay.Agent.Connection.Replies.{asked, Answers, converse-Answers}
use nora_relay.Agent.Connection.Pings.{ping_at, IsAnswer, turns_in, served-answered}

abbrev store : Store MemStore
store = mem_store (λ bs. bs)

abbrev get : Control
get = record {
  op = "get_policy";
  corr_id = "c7";
  account = "nano_2";
  key_id = "";
  hash = "";
  allowed_origins = [];
  version = pos 0;
  blob = [];
  error = "";
}

abbrev asks_policy : Envelope
asks_policy = record (envelope EnvelopeType.control "") { control = some get }

-- A message after 10 seconds, and an answer to the ping of the 27th.
abbrev incoming : List (ℕ × Incoming)
incoming = (10 * second, takes (message asks_policy)) ∷ (30 * second, pong) ∷ []

abbrev visit : Visit
visit = record {
  pointer = 1;
  opened = 0;
  hello = some (1 * second, some hello);
  nonce = 7 ∷ [];
  write_error = none;
  auth = some (2 * second, some auth);
  incoming = incoming;
}

converse-ends_example :
    ((converse numbers zero_digest store visit (new_hub, new_mem_store)).at
      ≤ 30 * second + 60 * second)
    × ((a : AgentConn) (acc : String)
        → enrolled numbers zero_digest visit ≡ accepted a
        → Absent a (
            devices_for_account
              (converse numbers zero_digest store visit (new_hub, new_mem_store)).hub.bindings
              acc))
unfolding new_hub
converse-ends_example =
    converse-ends numbers zero_digest store visit (30 * second) new_hub new_mem_store (omega arith)
      (omega arith, (omega arith, tt)) empty-Inv

converse-Answers_example :
    (rest : List Envelope) × ((converse numbers zero_digest store visit
        (new_hub, new_mem_store)).sent
      ≡ challenge (7 ∷ []) ∷ welcome laptop.accounts ∷ rest)
    × Answers rest (asked (served (enroll_end visit + 60 * second) incoming))
converse-Answers_example =
    converse-Answers numbers zero_digest store visit laptop new_hub new_mem_store laptop_enrolled

-- The message is served, and its id is answered.
one_answer : asked (served (enroll_end visit + 60 * second) incoming) ≡ "c7" ∷ []
unfolding asked served
one_answer = refl

abbrev begun : ℕ
begun = 2 * second

answered : (k : ℕ) → ping_at begun k + 35 * second ≤ 64 * second → Any (IsAnswer begun k) incoming
answered k h = inr (inl (omega arith, omega arith))

served-answered_example : served (begun + 60 * second) incoming ≡ turns_in incoming
served-answered_example =
    served-answered begun (64 * second) incoming
      (omega arith, omega arith, (omega arith, omega arith, tt)) answered
