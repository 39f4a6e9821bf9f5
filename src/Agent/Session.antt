-- ===== src/Agent/Session.antt =====
-- cmd/relay/http.go: what a session of an agent changes, and what it leaves behind.
use nora_relay.Base.{
  Option, none, String, ◌≡◌, ◌≢◌, ap, false, List, [], ◌∷◌, some, All, arith, inl, inr, Bool-cases,
  Option-cases, nat_eq, nat_eq_refl,
}
use nora_relay.Protocol.{Envelope, EnvelopeType, Control, TxResult, QueryResult}
use nora_relay.Hub.{Hub, results, query_results, apply, deliver_result, deliver_query_result}
use nora_relay.Hub.Bindings.{AgentConn, bind, remove_conn, devices_for_account}
use nora_relay.Hub.Bindings.Effects.{names, devices_for_account-unbind}
use nora_relay.Hub.Bindings.Invariant.{Inv, HasProved, bind-Inv, devices_for_account-proven}
use nora_relay.Hub.Discipline.{apply-Inv}
use nora_relay.Store.{Store, ApiKey, perform}
use nora_relay.Store.Laws.{Laws}
use nora_relay.Control.{contains}
use nora_relay.Control.Authority.{handle_control-foreign_key}
use nora_relay.Agent.{
  result_in, query_result_in, control_in, Turn, message, event, write, dispatch, turn,
  agent_read_loop, handle_agent,
}

module _ {S : Type 0} (store : Store S) (a : AgentConn) where
  dispatch-bindings :
      (env : Envelope) (h : Hub) (s : S) → (dispatch store a env (h, s)).0.bindings ≡ h.bindings
  unfolding dispatch deliver_result deliver_query_result
  dispatch-bindings env h s = ground arith

  -- What holds of the hub as it is, and after a delivery, holds after a message.
  pub dispatch-hub :
      (P : Hub → Type 0) (env : Envelope) (h : Hub) (s : S)
      → P h
      → ((res : TxResult) → P (apply (results res) h))
      → ((id : String) (qr : QueryResult) → P (apply (query_results id qr) h))
      → P (dispatch store a env (h, s)).0
  unfolding dispatch apply
  dispatch-hub P env h s here result reply = of_type env.type
    where
      result_there : (r : Option TxResult) → P (result_in store a r h)
      result_there none = here
      result_there (some res) = result res

      reply_there : (r : Option QueryResult) → P (query_result_in store a env.id r h)
      reply_there none = here
      reply_there (some qr) = reply env.id qr

      by_type : EnvelopeType → Hub × S
      by_type type = elim type [
        | EnvelopeType.result ↦ (result_in store a env.result h, s)
        | EnvelopeType.control ↦ (h, control_in store a env.control s)
        | EnvelopeType.query_result ↦ (query_result_in store a env.id env.query_result h, s)
        | _ ↦ (h, s)
      ]

      of_type : (type : EnvelopeType) → P (by_type type).0
      of_type EnvelopeType.result = result_there env.result
      of_type EnvelopeType.query_result = reply_there env.query_result
      of_type EnvelopeType.control = here
      of_type _ = here

  turn-Inv : (t : Turn) (h : Hub) (s : S) → Inv h.bindings → Inv (turn store a t (h, s)).0.bindings
  unfolding turn
  turn-Inv (message env) h s inv = rw (dispatch-bindings env h s) inv
  turn-Inv (event e) h s inv = apply-Inv e h inv
  turn-Inv (write w) h s inv = inv

  agent_read_loop-Inv :
      (turns : List Turn) (h : Hub) (s : S)
      → Inv h.bindings
      → Inv (agent_read_loop store a turns (h, s)).0.bindings
  unfolding agent_read_loop
  agent_read_loop-Inv [] h s inv = inv
  agent_read_loop-Inv (t ∷ turns) h s inv =
      let (h', s') = turn store a t (h, s) in agent_read_loop-Inv turns h' s' (turn-Inv t h s inv)

-- The connection is not among the devices.
abbrev pub Absent : AgentConn → List AgentConn → Type 0
Absent a ds = All (λ d. d ≢ a) ds

remove_conn-Absent : (a : AgentConn) (ds : List AgentConn) → Absent a (remove_conn ds a)
unfolding remove_conn
remove_conn-Absent a [] = tt
remove_conn-Absent a (d ∷ ds) = elim (Bool-cases (nat_eq d.pointer a.pointer)) [
  | inl same ↦ rw (same, remove_conn) (remove_conn-Absent a ds)
  | inr differ ↦
      rw (differ, remove_conn)
        (
          λ e. ground (arith, e, nat_eq_refl a.pointer, ap (λ (c : AgentConn). c.pointer) e),
          remove_conn-Absent a ds,
        )
]

proved_by_others :
    (a : AgentConn) (acc : String) (ds : List AgentConn)
    → names acc a.accounts ≡ false
    → All (HasProved acc) ds
    → Absent a ds
proved_by_others a acc [] not_named h = tt
proved_by_others a acc (d ∷ ds) not_named h = (
  λ e. ground (arith, h.0, not_named, ap (λ (c : AgentConn). names acc c.accounts) e),
  proved_by_others a acc ds not_named h.1,
)

module _ {S : Type 0} (store : Store S) (a : AgentConn) where
  -- When a session ends, whatever its messages were and whatever other goroutines did meanwhile, the
  -- hub routes no account to its connection any more, if it bound devices only to accounts they
  -- had proved when the session began.
  pub handle_agent-Absent :
      (turns : List Turn) (h : Hub) (s : S) (acc : String)
      → Inv h.bindings
      → Absent a (devices_for_account (handle_agent store a turns (h, s)).0.bindings acc)
  unfolding handle_agent
  handle_agent-Absent turns h s acc inv =
      let bound : Hub = record h { bindings = bind a h.bindings } in
      let (h', s') = agent_read_loop store a turns (bound, s) in
      let after = agent_read_loop-Inv store a turns bound s (bind-Inv a h.bindings inv) in
      elim (Bool-cases (names acc a.accounts)) [
        | inl named ↦
            rw (devices_for_account-unbind a h'.bindings acc, named)
              (remove_conn-Absent a (devices_for_account h'.bindings acc))
        | inr not_named ↦
            rw (devices_for_account-unbind a h'.bindings acc, not_named)
              (proved_by_others a acc _ not_named
                (devices_for_account-proven h'.bindings acc after))
      ]

  module _ (laws : Laws store) (j : String) (k : ApiKey) where
    open laws use {key_at}

    -- The turn is not a message that registers the key's id, nor another goroutine's write that
    -- changes the key.
    abbrev pub Spares : Turn → Type 0
    Spares (message env) =
        (c : Control) → env.control ≡ some c → c.op ≡ "register_key" → c.key_id ≢ j
    Spares (event e) = Unit
    Spares (write w) = (s : S) → key_at s j ≡ some k → key_at (perform store s w).0 j ≡ some k

    turn-key_at :
        (t : Turn) (h : Hub) (s : S)
        → contains a.accounts k.owner_account ≡ false
        → Spares t
        → key_at s j ≡ some k
        → key_at (turn store a t (h, s)).1 j ≡ some k
    unfolding turn dispatch
    turn-key_at (message env) h s foreign spares e = elim (Option-cases env.control) [
      | inl nothing ↦ ground (arith, nothing)
      | inr (c, ec) ↦
          ground
            (arith, ec, handle_control-foreign_key store laws c a s j k foreign e (spares c ec))
    ]
    turn-key_at (event e) h s foreign spares there = there
    turn-key_at (write w) h s foreign spares there = spares s there

    -- A whole session of a device leaves a key that belongs to an account which the device has not
    -- proved as it was, as long as none of its messages registers the key's id and no other
    -- goroutine changes the key.
    pub agent_read_loop-foreign_key :
        (turns : List Turn) (h : Hub) (s : S)
        → contains a.accounts k.owner_account ≡ false
        → All Spares turns
        → key_at s j ≡ some k
        → key_at (agent_read_loop store a turns (h, s)).1 j ≡ some k
    unfolding agent_read_loop
    agent_read_loop-foreign_key [] h s foreign spares there = there
    agent_read_loop-foreign_key (t ∷ turns) h s foreign spares there =
        let (h', s') = turn store a t (h, s) in
        agent_read_loop-foreign_key turns h' s' foreign spares.1
          (turn-key_at t h s foreign spares.0 there)
