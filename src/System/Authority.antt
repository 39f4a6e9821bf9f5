-- ===== src/System/Authority.antt =====
-- cmd/relay: who changes what the store holds, over any run of the relay.
use nora_relay.Base.{
  String-cases, ℕ, String, ◌==◌, ◌≡◌, ◌≢◌, eq_iff, refl, ap, ◌∙◌, false, ◌&&◌, ◌⊎◌, inl, inr, List,
  [], ◌∷◌, some, Any, both, arith, Bool-cases, Option-cases,
}
use nora_relay.Protocol.{Envelope, Control}
use nora_relay.Nano.Signing.{Curve}
use nora_relay.Hub.{Hub}
use nora_relay.Hub.Bindings.{AgentConn}
use nora_relay.Control.{contains}
use nora_relay.Control.Authority.{handle_control-foreign_policy, handle_control-foreign_key}
use nora_relay.Control.Scope.{handle_control-other_policy, handle_control-other_key}
use nora_relay.Store.{Store, ApiKey}
use nora_relay.Store.Laws.{Laws}
use nora_relay.Api.{Server}
use nora_relay.Api.Build.{Outside}
use nora_relay.Api.Exposure.{routes-store}
use nora_relay.Agent.{dispatch}
use nora_relay.System.{
  Enrollment, Step, connects, ends, says, asks, asks_detached, prunes, Run, still, and_then,
}
use nora_relay.System.Authentic.{Authorised, enrolled-Authorised, names-contains}

module _ (curve : Curve) (blake2b : ℕ → List ℕ → List ℕ) where
  -- A "put_policy" for the account, from a device that the account authorised.
  abbrev pub Puts : String → AgentConn × Envelope → Type 0
  Puts acc (a, env) =
      Authorised curve blake2b acc a
      × ((c : Control) × (env.control ≡ some c) × (c.op ≡ "put_policy") × (c.account ≡ acc))

  -- A message with the id of the key, from a device that the account of the key's owner authorised, or a
  -- "register_key" with that id.
  abbrev pub Touches : String → ApiKey → AgentConn × Envelope → Type 0
  Touches j k (a, env) =
      (c : Control) × (env.control ≡ some c)
      × (c.key_id ≡ j)
      × (Authorised curve blake2b k.owner_account a ⊎ (c.op ≡ "register_key"))

module _ (curve : Curve) (blake2b : ℕ → List ℕ → List ℕ) {S : Type 0} (store : Store S)
    (o : Outside) where
  -- The message of a device that a step handles.
  abbrev pub said_in :
      {sv sv' : Server S} → Step curve blake2b store o sv sv' → List (AgentConn × Envelope)
  said_in (connects a e) = []
  said_in (ends a) = []
  said_in (says a e env) = (a, env) ∷ []
  said_in (asks r call happen) = []
  said_in (asks_detached r call rl happen) = []
  said_in (prunes now) = []

  -- A message of a run that satisfies `P`.
  abbrev pub Said :
      (AgentConn × Envelope → Type 0)
      → {sv sv' : Server S} → Run curve blake2b store o sv sv'
      → Type 0
  Said P still = ⊥
  Said P (and_then run st) = Said P run ⊎ Any P (said_in st)

  module _ (laws : Laws store) where
    open laws use {key_at, policy_at}

    dispatch-policy_at :
        (a : AgentConn) (env : Envelope) (h : Hub) (s : S) (acc : String)
        → contains a.accounts acc ≡ false
        → policy_at (dispatch store a env (h, s)).1 acc ≡ policy_at s acc
    unfolding dispatch
    dispatch-policy_at a env h s acc foreign = elim (Option-cases env.control) [
      | inl nothing ↦ ground (arith, nothing)
      | inr (c, ec) ↦
          ground (arith, ec, handle_control-foreign_policy store laws c a s acc (λ op. foreign))
    ]

    says-policy :
        (acc : String) (a : AgentConn) (env : Envelope) (h : Hub) (s : S)
        → Enrollment curve blake2b a
        → (policy_at (dispatch store a env (h, s)).1 acc ≡ policy_at s acc)
          ⊎ Puts curve blake2b acc (a, env)
    unfolding dispatch
    says-policy acc a env h s e = elim (Option-cases env.control) [
      | inl nothing ↦ inl (ground (arith, nothing))
      | inr (c, ec) ↦ elim (Bool-cases (c.op == "put_policy" && c.account == acc)) [
        | inr other ↦
            let spares : c.op ≡ "put_policy" → c.account ≢ acc = λ op same.
              ground
                (arith, other, (eq_iff c.op "put_policy").1 op, (eq_iff c.account acc).1 same) in
            inl (ground (arith, ec, handle_control-other_policy store laws c a s acc spares))
        | inl put ↦ elim (Bool-cases (contains a.accounts acc)) [
          | inl proved ↦
              let (op, same) = both (c.op == "put_policy") (c.account == acc) put in
              inr (
                enrolled-Authorised curve blake2b a acc e (names-contains acc a.accounts ∙ proved),
                (c, ec, (eq_iff c.op "put_policy").0 op, (eq_iff c.account acc).0 same),
              )
          | inr foreign ↦ inl (dispatch-policy_at a env h s acc foreign)
        ]
      ]
    ]

    Step-policy_at :
        {sv sv' : Server S} (acc : String) (st : Step curve blake2b store o sv sv')
        → (policy_at sv'.store acc ≡ policy_at sv.store acc)
          ⊎ Any (Puts curve blake2b acc) (said_in st)
    Step-policy_at acc (connects a e) = inl refl
    Step-policy_at acc (ends a) = inl refl
    Step-policy_at {sv} acc (says a e env) = elim (says-policy acc a env sv.hub sv.store e) [
      | inl same ↦ inl same
      | inr puts ↦ inr (inl puts)
    ]
    Step-policy_at {sv} acc (asks r call happen) =
        inl (ap (λ s. policy_at s acc) (routes-store store o call r sv))
    Step-policy_at {sv} acc (asks_detached r call rl happen) =
        inl (ap (λ s. policy_at s acc) (routes-store store o call r (record sv { rl = rl })))
    Step-policy_at acc (prunes now) = inl refl

    -- Over a store that keeps the laws of Store/Laws.antt, in any run of the relay: the policy blob
    -- of an account is as it was, or one of the messages that were handled is a "put_policy" for the
    -- account from a device that announced the account and signed the nonce of its connection with
    -- the account's key.
    pub Run-policy_at :
        {sv sv' : Server S} (acc : String) (run : Run curve blake2b store o sv sv')
        → (policy_at sv'.store acc ≡ policy_at sv.store acc) ⊎ Said (Puts curve blake2b acc) run
    Run-policy_at acc still = inl refl
    Run-policy_at acc (and_then run st) = elim (Run-policy_at acc run) [
      | inr said ↦ inr (inl said)
      | inl kept ↦ elim (Step-policy_at acc st) [
        | inl same ↦ inl (same ∙ kept)
        | inr said ↦ inr (inr said)
      ]
    ]

    says-key :
        (j : String) (k : ApiKey) (a : AgentConn) (env : Envelope) (h : Hub) (s : S)
        → Enrollment curve blake2b a
        → key_at s j ≡ some k
        → (key_at (dispatch store a env (h, s)).1 j ≡ some k) ⊎ Touches curve blake2b j k (a, env)
    unfolding dispatch
    says-key j k a env h s e there = elim (Option-cases env.control) [
      | inl nothing ↦ inl (ground (arith, nothing))
      | inr (c, ec) ↦ elim (String-cases c.key_id j) [
        | inr (other, _) ↦
            inl (ground (arith, ec, handle_control-other_key store laws c a s j other))
        | inl (same, _) ↦ elim (Bool-cases (contains a.accounts k.owner_account)) [
          | inl proved ↦
              let owned = names-contains k.owner_account a.accounts ∙ proved in
              inr (c, ec, same, inl (enrolled-Authorised curve blake2b a k.owner_account e owned))
          | inr foreign ↦ elim (String-cases c.op "register_key") [
            | inl (op, _) ↦ inr (c, ec, same, inr op)
            | inr (other, _) ↦ inl (
                ground (
                  arith,
                  ec,
                  handle_control-foreign_key store laws c a s j k foreign there
                      (λ op. absurd (other op)),
                ))
          ]
        ]
      ]
    ]

    Step-key_at :
        {sv sv' : Server S} (j : String) (k : ApiKey) (st : Step curve blake2b store o sv sv')
        → key_at sv.store j ≡ some k
        → (key_at sv'.store j ≡ some k) ⊎ Any (Touches curve blake2b j k) (said_in st)
    Step-key_at j k (connects a e) there = inl there
    Step-key_at j k (ends a) there = inl there
    Step-key_at {sv} j k (says a e env) there = elim (says-key j k a env sv.hub sv.store e there) [
      | inl same ↦ inl same
      | inr touches ↦ inr (inl touches)
    ]
    Step-key_at {sv} j k (asks r call happen) there =
        inl (ap (λ s. key_at s j) (routes-store store o call r sv) ∙ there)
    Step-key_at {sv} j k (asks_detached r call rl happen) there =
        inl (ap (λ s. key_at s j) (routes-store store o call r (record sv { rl = rl })) ∙ there)
    Step-key_at j k (prunes now) there = inl there

    -- Over a store that keeps the laws of Store/Laws.antt, in any run of the relay: a key that is
    -- there is as it was, or one of the messages that were handled has the key's id, and comes from
    -- a device that announced the account of the key's owner and signed the nonce of its connection
    -- with that account's key, or is a "register_key".
    pub Run-key_at :
        {sv sv' : Server S} (j : String) (k : ApiKey) (run : Run curve blake2b store o sv sv')
        → key_at sv.store j ≡ some k
        → (key_at sv'.store j ≡ some k) ⊎ Said (Touches curve blake2b j k) run
    Run-key_at j k still there = inl there
    Run-key_at j k (and_then run st) there = elim (Run-key_at j k run there) [
      | inr said ↦ inr (inl said)
      | inl kept ↦ elim (Step-key_at j k st kept) [
        | inl same ↦ inl same
        | inr said ↦ inr (inr said)
      ]
    ]
