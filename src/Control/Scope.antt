-- ===== src/Control/Scope.antt =====
-- cmd/relay/http.go: what a control message leaves alone, whoever sends it.
use nora_relay.Base.{String, eq_iff, ◌≡◌, ◌≢◌, refl, List, [], ◌∷◌, arith}
use nora_relay.Protocol.{Control}
use nora_relay.Hub.Bindings.{AgentConn}
use nora_relay.Store.{Store}
use nora_relay.Store.Laws.{Laws}
use nora_relay.Control.{
  rebind_any, revoke_any, register_key, rebind_key, revoke_key, update_origins, put_policy,
  get_policy, handle_control,
}
use nora_relay.Control.Authority.{rebind_any-policy, revoke_any-policy}

module _ {S : Type 0} (store : Store S) (laws : Laws store) (c : Control) where
  open laws use {key_at, policy_at}

  rebind_any-other :
      (j : String) (accounts : List String) (s : S)
      → c.key_id ≢ j
      → key_at (rebind_any store accounts c s).1 j ≡ key_at s j
  unfolding rebind_any
  rebind_any-other j [] s other = refl
  rebind_any-other j (acc ∷ accounts) s other =
      let s' = (store.rebind_api_key s c.key_id acc c.account).0 in
      ground (
        arith,
        eq_iff c.key_id j,
        laws.key-rebind s c.key_id acc c.account j,
        rebind_any-other j accounts s' other,
      )

  revoke_any-other :
      (j : String) (accounts : List String) (s : S)
      → c.key_id ≢ j
      → key_at (revoke_any store accounts c s).1 j ≡ key_at s j
  unfolding revoke_any
  revoke_any-other j [] s other = refl
  revoke_any-other j (acc ∷ accounts) s other =
      let s' = (store.revoke_api_key s acc c.key_id).0 in
      ground (
        arith,
        eq_iff c.key_id j,
        laws.key-revoke s acc c.key_id j,
        revoke_any-other j accounts s' other,
      )

  update_key_origins-other :
      (j owner : String) (origins : List String) (s : S)
      → c.key_id ≢ j
      → key_at (store.update_key_origins s c.key_id owner origins).0 j ≡ key_at s j
  update_key_origins-other j owner origins s other =
      ground (arith, eq_iff c.key_id j, laws.key-update_origins s c.key_id owner j origins)

  module _ (a : AgentConn) (s : S) where
    -- No message changes a key whose id it does not have.
    pub handle_control-other_key :
        (j : String) → c.key_id ≢ j → key_at (handle_control store a c s).1 j ≡ key_at s j
    unfolding handle_control register_key rebind_key revoke_key update_origins put_policy get_policy
    handle_control-other_key j other = ground (
      arith,
      laws.key-register s c.key_id c.account c.hash j,
      laws.key-put s c.account c.version c.blob j,
      rebind_any-other j a.accounts s,
      revoke_any-other j a.accounts s,
      update_key_origins-other j c.account c.allowed_origins s,
      update_key_origins-other j c.account c.allowed_origins
          (store.register_api_key s c.key_id c.account c.hash).0,
    )

    -- No message but a "put_policy" with the account changes the account's policy.
    pub handle_control-other_policy :
        (x : String)
        → (c.op ≡ "put_policy" → c.account ≢ x)
        → policy_at (handle_control store a c s).1 x ≡ policy_at s x
    unfolding handle_control register_key rebind_key revoke_key update_origins put_policy get_policy
    handle_control-other_policy x other = ground (
      arith,
      eq_iff c.op "put_policy",
      other,
      laws.policy-register s c.key_id c.account c.hash x,
      laws.policy-put s c.account c.version c.blob x,
      rebind_any-policy store laws c a a.accounts s x,
      revoke_any-policy store laws c a a.accounts s x,
      laws.policy-update_origins s c.key_id c.account x c.allowed_origins,
      laws.policy-update_origins (store.register_api_key s c.key_id c.account c.hash).0 c.key_id
          c.account x c.allowed_origins,
    )
