-- ===== src/Agent/Connection/Replies.antt =====
-- cmd/relay/http.go: what the relay writes on a connection.
use nora_relay.Base.{
  Bool, false, ◌==◌, if◌then◌else◌, true, ℕ, ◌+◌, ◌*◌, String, ◌≡◌, refl, List, [], ◌∷◌, ◌++◌,
  Option, none, some, arith, inl, inr, leb, Bool-cases,
}
use nora_relay.Protocol.{Envelope, EnvelopeType, Control, envelope}
use nora_relay.Nano.Signing.{Curve}
use nora_relay.RateLimit.{second}
use nora_relay.Hub.{Hub}
use nora_relay.Hub.Bindings.{AgentConn, bind}
use nora_relay.Store.{Store}
use nora_relay.Control.{
  handle_control, register_key, rebind_key, revoke_key, update_origins, put_policy, get_policy,
}
use nora_relay.Agent.{Turn, message, event, write, turn, accepted, enroll, enroll_proven, hello_in}
use nora_relay.Agent.Connection.{
  Incoming, takes, pong, unreadable, renewed, replies, control_reply, read_until, Visit, enroll_end,
  enroll_deadline, read_by, converse, challenge, challenge_of, welcome, enrolled,
}
use nora_relay.Agent.Connection.Deadlines.{served}

-- A result with the id of the message.
abbrev IsResult : Control → Control → Type 0
IsResult c reply = (reply.op ≡ "result") × (reply.corr_id ≡ c.corr_id)

either-IsResult :
    {S : Type 0} (c : Control) (test : Bool) (here rest : Control × S)
    → IsResult c here.0
    → IsResult c rest.0
    → IsResult c (if test then here else rest).0
either-IsResult c true here rest h g = h
either-IsResult c false here rest h g = g

module _ {S : Type 0} (store : Store S) (a : AgentConn) (c : Control) (s : S) where
  register_key-IsResult : IsResult c (register_key store a c s).0
  unfolding register_key
  register_key-IsResult = (ground arith, ground arith)

  rebind_key-IsResult : IsResult c (rebind_key store a c s).0
  unfolding rebind_key
  rebind_key-IsResult = (ground arith, ground arith)

  revoke_key-IsResult : IsResult c (revoke_key store a c s).0
  unfolding revoke_key
  revoke_key-IsResult = (ground arith, ground arith)

  update_origins-IsResult : IsResult c (update_origins store a c s).0
  unfolding update_origins
  update_origins-IsResult = (ground arith, ground arith)

  put_policy-IsResult : IsResult c (put_policy store a c s).0
  unfolding put_policy
  put_policy-IsResult = (ground arith, ground arith)

  get_policy-IsResult : IsResult c (get_policy store a c s).0
  unfolding get_policy
  get_policy-IsResult = (ground arith, ground arith)

  handle_control-IsResult : IsResult c (handle_control store a c s).0
  unfolding handle_control
  handle_control-IsResult =
      let either = either-IsResult {S = S} c in
      either (c.op == "register_key") _ _ register_key-IsResult (
        either (c.op == "rebind_key") _ _ rebind_key-IsResult (
          either (c.op == "revoke_key") _ _ revoke_key-IsResult (
            either (c.op == "update_origins") _ _ update_origins-IsResult (
              either (c.op == "put_policy") _ _ put_policy-IsResult
                (either (c.op == "get_policy") _ _ get_policy-IsResult (refl, refl))))))

abbrev pub id_of : Option Control → List String
id_of none = []
id_of (some c) = c.corr_id ∷ []

-- The ids of the control messages among the turns.
abbrev pub asked_by : Turn → List String
asked_by (message env) = elim env.type [ EnvelopeType.control ↦ id_of env.control | _ ↦ [] ]
asked_by (event e) = []
asked_by (write w) = []

unfoldable pub asked : List Turn → List String
asked [] = []
asked (t ∷ turns) = asked_by t ++ asked turns

-- One result for each id, in the same order, and no other message.
abbrev pub Answers : List Envelope → List String → Type 0
Answers [] [] = Unit
Answers [] (id ∷ ids) = ⊥
Answers (env ∷ sent) [] = ⊥
Answers (env ∷ sent) (id ∷ ids) =
    ((c : Control) × (env ≡ record (envelope EnvelopeType.control "") { control = some c })
      × (c.op ≡ "result")
      × (c.corr_id ≡ id))
    × Answers sent ids

module _ {S : Type 0} (store : Store S) (a : AgentConn) where
  control_reply-Answers :
      (c : Option Control) (s : S) (sent : List Envelope) (ids : List String)
      → Answers sent ids
      → Answers (control_reply store a c s ++ sent) (id_of c ++ ids)
  control_reply-Answers none s sent ids h = h
  control_reply-Answers (some c) s sent ids h =
      let told = handle_control-IsResult store a c s in
      (((handle_control store a c s).0, refl, told.0, told.1), h)

  message-Answers :
      (env : Envelope) (type : EnvelopeType) (s : S) (sent : List Envelope) (ids : List String)
      → Answers sent ids
      → Answers
          (elim type [ EnvelopeType.control ↦ control_reply store a env.control s | _ ↦ [] ]
            ++ sent)
          (elim type [ EnvelopeType.control ↦ id_of env.control | _ ↦ [] ] ++ ids)
  message-Answers env EnvelopeType.control s sent ids h =
      control_reply-Answers env.control s sent ids h
  message-Answers env _ s sent ids h = h

  replies-Answers :
      (t : Turn) (s : S) (sent : List Envelope) (ids : List String)
      → Answers sent ids
      → Answers (replies store a (takes t) s ++ sent) (asked_by t ++ ids)
  replies-Answers (message env) s sent ids h = message-Answers env env.type s sent ids h
  replies-Answers (event e) s sent ids h = h
  replies-Answers (write w) s sent ids h = h

  read_until-Answers :
      (deadline : ℕ) (incoming : List (ℕ × Incoming)) (h : Hub) (s : S)
      → Answers
          (read_until store a deadline incoming (h, s)).sent
          (asked (served deadline incoming))
  unfolding read_until served asked
  read_until-Answers deadline [] h s = tt
  read_until-Answers deadline ((now, takes t) ∷ incoming) h s =
      elim (Bool-cases (leb deadline now)) [
        | inl late ↦ rw (late) tt
        | inr in_time ↦
            let (h', s') = turn store a t (h, s) in
            rw (in_time) (
              replies-Answers t s _ _
                (read_until-Answers (renewed deadline now (takes t)) incoming h' s'))
      ]
  read_until-Answers deadline ((now, pong) ∷ incoming) h s = elim (Bool-cases (leb deadline now)) [
    | inl late ↦ rw (late) tt
    | inr in_time ↦ rw (in_time) (read_until-Answers (now + 60 * second) incoming h s)
  ]
  read_until-Answers deadline ((now, unreadable) ∷ incoming) h s =
      elim (Bool-cases (leb deadline now)) [
        | inl late ↦ rw (late) tt
        | inr in_time ↦ rw (in_time) tt
      ]

module _ (curve : Curve) (blake2b : ℕ → List ℕ → List ℕ) {S : Type 0} (store : Store S) where
  accepted-announces :
      (v : Visit) (a : AgentConn)
      → enrolled curve blake2b v ≡ accepted a
      → challenge_of v ≡ challenge v.nonce ∷ []
  unfolding enroll enroll_proven
  accepted-announces v a e = go (hello_in (read_by (enroll_deadline v) v.hello)) refl
    where
      go :
          (hello : Option (String × List String))
          → hello_in (read_by (enroll_deadline v) v.hello) ≡ hello
          → challenge_of v ≡ challenge v.nonce ∷ []
      go none eh = absurd (ground (arith, eh, e))
      go (some (device_id, [])) eh = absurd (ground (arith, eh, e))
      go (some (device_id, acc ∷ accounts)) eh = rw eh refl

  -- On a connection that is accepted, the relay writes the challenge, then the welcome with the proven accounts, then
  -- one result for each control message that comes before the end, with its id and in the same order, and nothing
  -- else but what the calls of other goroutines write.
  pub converse-Answers :
      (v : Visit) (a : AgentConn) (h : Hub) (s : S)
      → enrolled curve blake2b v ≡ accepted a
      → (rest : List Envelope) × ((converse curve blake2b store v (h, s)).sent
          ≡ challenge v.nonce ∷ welcome a.accounts ∷ rest)
        × Answers rest (asked (served (enroll_end v + 60 * second) v.incoming))
  unfolding converse
  converse-Answers v a h s e =
      let bound : Hub = record h { bindings = bind a h.bindings } in
      let by = enroll_end v + 60 * second in
      (
        (read_until store a by v.incoming (bound, s)).sent,
        rw (e, converse, accepted-announces v a e) refl,
        read_until-Answers store a by v.incoming bound s,
      )
