-- ===== src/Agent.antt =====
-- cmd/relay/http.go: the agents' side, /agent. enroll gives a connection the accounts that its device
-- proves; agentReadLoop then serves its messages. A message that cannot be read is `none`, and a session
-- ends with its list of turns: Agent/Connection.antt has the clock.
pub mod Enrollment
pub mod Session
pub mod Honest
pub mod Sample
pub mod Connection
mod Tests
use nora_relay.Base.{
  ℕ, String, ◌==◌, Bool, true, false, not, ◌||◌, List, [], ◌∷◌, Option, none, some, nat_eq, length,
  if◌then◌else◌,
}
use nora_relay.Text.{bytes, hex_decode}
use nora_relay.Nano.Account.{parse_address, take, drop}
use nora_relay.Nano.Signing.{Curve, Signature, verify_challenge}
use nora_relay.Protocol.{Envelope, EnvelopeType, Control, QueryResult, TxResult, envelope}
use nora_relay.Hub.{Hub, Event, apply, deliver_result, deliver_query_result}
use nora_relay.Hub.Bindings.{AgentConn, bind, unbind}
use nora_relay.Store.{Store, Write, perform}
use nora_relay.Control.{handle_control}

-- (*agentConn, nil) or an error by its text
pub data Enrolled : Type 0 where
  accepted : AgentConn → Enrolled
  rejected : String → Enrolled

-- auth.Auth.Signatures[addr]
unfoldable pub signature_of : List (String × String) → String → Option String
signature_of [] addr = none
signature_of ((a, sig) ∷ signatures) addr =
    let rest = signature_of signatures addr in if a == addr then some sig else rest

-- The accounts of a hello, if the message is one; the signatures of an auth.
abbrev pub auth_in : Option Envelope → Option (List (String × String))
auth_in none = none
auth_in (some env) = elim env.type [ EnvelopeType.auth ↦ env.auth | _ ↦ none ]

abbrev pub hello_in : Option Envelope → Option (String × List String)
hello_in none = none
hello_in (some env) = elim env.type [
  | EnvelopeType.hello ↦ elim env.hello [ none ↦ none | some h ↦ some (h.device_id, h.accounts) ]
  | _ ↦ none
]

module _ (curve : Curve) (blake2b : ℕ → List ℕ → List ℕ) where
  unfoldable pub verify_account_sig : (addr : String) → (nonce : List ℕ) → (sig_hex : String) → Bool
  verify_account_sig addr nonce sig_hex = elim (parse_address blake2b addr) [
    | none ↦ false
    | some pub_key ↦ elim (hex_decode (bytes sig_hex)) [
      | none ↦ false
      | some raw ↦
          if not (nat_eq (length raw) 64)
          then false
          else verify_challenge curve blake2b pub_key nonce
              (record { first = take 32 raw; second = drop 32 raw })
    ]
  ]

  -- Has the announced account a signature of the nonce?
  unfoldable pub has_signed : List (String × String) → (nonce : List ℕ) → (addr : String) → Bool
  has_signed signatures nonce addr = elim (signature_of signatures addr) [
    | none ↦ false
    | some sig_hex ↦ verify_account_sig addr nonce sig_hex
  ]

  -- The loop over the announced accounts.
  unfoldable pub proven : List String → List (String × String) → (nonce : List ℕ) → List String
  proven [] signatures nonce = []
  proven (addr ∷ accounts) signatures nonce =
      let rest = proven accounts signatures nonce in
      if has_signed signatures nonce addr then addr ∷ rest else rest

  -- From the second message on.
  unfoldable pub enroll_proven :
      (pointer : ℕ)
      → (device_id : String) → List String
      → (nonce : List ℕ) → Option (List (String × String))
      → Enrolled
  enroll_proven pointer device_id accounts nonce none = rejected "expected auth"
  enroll_proven pointer device_id accounts nonce (some signatures) =
      elim (proven accounts signatures nonce) [
        | [] ↦ rejected "no account proved control"
        | acc ∷ rest ↦
            accepted (record { pointer = pointer; device_id = device_id; accounts = acc ∷ rest })
      ]

  -- enroll: `hello` and `auth` are what ReadJSON gives, `nonce` is random, and `write_error` is the
  -- error of writing the challenge.
  unfoldable pub enroll :
      (pointer : ℕ)
      → (hello : Option Envelope) → (nonce : List ℕ) → (write_error : Option String)
      → (auth : Option Envelope) → Enrolled
  unfolding enroll_proven
  enroll pointer hello nonce write_error auth = elim (hello_in hello) [
    | none ↦ rejected "expected hello"
    | some (device_id, accounts) ↦
        if nat_eq (length accounts) 0
        then rejected "hello announced no accounts"
        else elim write_error [
          | some text ↦ rejected text
          | none ↦ enroll_proven pointer device_id accounts nonce (auth_in auth)
        ]
  ]

-- What happens while a session lasts: a message of its device, or a step of another goroutine.
pub data Turn : Type 0 where
  message : Envelope → Turn
  event : Event → Turn
  write : Write → Turn

module _ {S : Type 0} (store : Store S) (a : AgentConn) where
  abbrev result_in : Option TxResult → Hub → Hub
  result_in none h = h
  result_in (some res) h = deliver_result res h

  abbrev query_result_in : String → Option QueryResult → Hub → Hub
  query_result_in id none h = h
  query_result_in id (some qr) h = deliver_query_result id qr h

  abbrev control_in : Option Control → S → S
  control_in none s = s
  control_in (some c) s = (handle_control store a c s).1

  -- The switch of agentReadLoop. The replies of handleControl go to the device.
  unfoldable pub dispatch : Envelope → Hub × S → Hub × S
  dispatch env (h, s) = elim env.type [
    | EnvelopeType.result ↦ (result_in env.result h, s)
    | EnvelopeType.control ↦ (h, control_in env.control s)
    | EnvelopeType.query_result ↦ (query_result_in env.id env.query_result h, s)
    | _ ↦ (h, s)
  ]

  unfoldable pub turn : Turn → Hub × S → Hub × S
  unfolding dispatch
  turn (message env) (h, s) = dispatch env (h, s)
  turn (event e) (h, s) = (apply e h, s)
  turn (write w) (h, s) = (h, (perform store s w).0)

  unfoldable pub agent_read_loop : List Turn → Hub × S → Hub × S
  agent_read_loop [] (h, s) = (h, s)
  agent_read_loop (t ∷ turns) (h, s) = agent_read_loop turns (turn t (h, s))

  -- handleAgent after enroll: the binding, the loop, and the deferred unbind.
  unfoldable pub handle_agent : List Turn → Hub × S → Hub × S
  handle_agent turns (h, s) =
      let (h', s') = agent_read_loop turns (record h { bindings = bind a h.bindings }, s) in
      (record h' { bindings = unbind a h'.bindings }, s')
