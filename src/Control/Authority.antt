-- ===== src/Control/Authority.antt =====
-- cmd/relay/http.go: what a control message of a device can change.
use nora_relay.Base.{String, eq_iff, ◌≡◌, ◌≢◌, refl, true, false, List, [], ◌∷◌, some, arith}
use nora_relay.Protocol.{Control}
use nora_relay.Hub.Bindings.{AgentConn}
use nora_relay.Store.{Store, ApiKey}
use nora_relay.Store.Laws.{Laws}
use nora_relay.Control.{
  contains, rebind_any, revoke_any, register_key, rebind_key, revoke_key, update_origins,
  put_policy, get_policy, handle_control,
}

module _ {S : Type 0} (store : Store S) (laws : Laws store) (c : Control) where
  open laws use {key_at, policy_at}

  -- A key whose owner is none of the accounts.
  module _ (j : String) (k : ApiKey) where
    rebind_any-foreign :
        (accounts : List String) (s : S)
        → contains accounts k.owner_account ≡ false
        → key_at s j ≡ some k
        → key_at (rebind_any store accounts c s).1 j ≡ some k
    unfolding contains rebind_any
    rebind_any-foreign [] s foreign e = e
    rebind_any-foreign (acc ∷ accounts) s foreign e =
        let (s', err) = store.rebind_api_key s c.key_id acc c.account in
        let kept : key_at s' j ≡ some k = ground (
          arith,
          laws.key-rebind s c.key_id acc c.account j,
          eq_iff c.key_id j,
          eq_iff acc k.owner_account,
          eq_iff k.owner_account acc,
        ) in
        ground (arith, rebind_any-foreign accounts s' (ground arith) kept)

    revoke_any-foreign :
        (accounts : List String) (s : S)
        → contains accounts k.owner_account ≡ false
        → key_at s j ≡ some k
        → key_at (revoke_any store accounts c s).1 j ≡ some k
    unfolding contains revoke_any
    revoke_any-foreign [] s foreign e = e
    revoke_any-foreign (acc ∷ accounts) s foreign e =
        let (s', err) = store.revoke_api_key s acc c.key_id in
        let kept : key_at s' j ≡ some k = ground (
          arith,
          laws.key-revoke s acc c.key_id j,
          eq_iff c.key_id j,
          eq_iff acc k.owner_account,
          eq_iff k.owner_account acc,
        ) in
        ground (arith, revoke_any-foreign accounts s' (ground arith) kept)

    update_key_origins-foreign :
        (owner : String) (origins : List String) (s : S)
        → k.owner_account ≢ owner
        → key_at s j ≡ some k
        → key_at (store.update_key_origins s c.key_id owner origins).0 j ≡ some k
    update_key_origins-foreign owner origins s foreign e = ground (
      arith,
      laws.key-update_origins s c.key_id owner j origins,
      eq_iff c.key_id j,
      eq_iff k.owner_account owner,
    )

  contains-ne :
      (accounts : List String) (x y : String)
      → contains accounts x ≡ true
      → contains accounts y ≡ false
      → y ≢ x
  contains-ne accounts x y h k e = cc

  module _ (a : AgentConn) where
    -- No message of a device changes a key that belongs to an account which the device has not
    -- proved, but for a "register_key" with the id of that key.
    pub handle_control-foreign_key :
        (s : S) (j : String) (k : ApiKey)
        → contains a.accounts k.owner_account ≡ false
        → key_at s j ≡ some k
        → (c.op ≡ "register_key" → c.key_id ≢ j)
        → key_at (handle_control store a c s).1 j ≡ some k
    unfolding handle_control register_key rebind_key revoke_key update_origins put_policy get_policy
    handle_control-foreign_key s j k foreign e other = ground (
      arith,
      eq_iff c.op "register_key",
      other,
      contains-ne a.accounts c.account k.owner_account,
      laws.key-register s c.key_id c.account c.hash j,
      laws.key-put s c.account c.version c.blob j,
      rebind_any-foreign j k a.accounts s,
      revoke_any-foreign j k a.accounts s,
      update_key_origins-foreign j k c.account c.allowed_origins s,
      update_key_origins-foreign j k c.account c.allowed_origins
          (store.register_api_key s c.key_id c.account c.hash).0,
    )

    pub rebind_any-policy :
        (accounts : List String) (s : S) (x : String)
        → policy_at (rebind_any store accounts c s).1 x ≡ policy_at s x
    unfolding rebind_any
    rebind_any-policy [] s x = refl
    rebind_any-policy (acc ∷ accounts) s x =
        let s' = (store.rebind_api_key s c.key_id acc c.account).0 in
        ground
          (arith, laws.policy-rebind s c.key_id acc c.account x, rebind_any-policy accounts s' x)

    pub revoke_any-policy :
        (accounts : List String) (s : S) (x : String)
        → policy_at (revoke_any store accounts c s).1 x ≡ policy_at s x
    unfolding revoke_any
    revoke_any-policy [] s x = refl
    revoke_any-policy (acc ∷ accounts) s x =
        let s' = (store.revoke_api_key s acc c.key_id).0 in
        ground (arith, laws.policy-revoke s acc c.key_id x, revoke_any-policy accounts s' x)

    -- No message of a device changes the policy of an account that the device has not proved, and
    -- only "put_policy" changes a policy at all.
    pub handle_control-foreign_policy :
        (s : S) (x : String)
        → (c.op ≡ "put_policy" → contains a.accounts x ≡ false)
        → policy_at (handle_control store a c s).1 x ≡ policy_at s x
    unfolding handle_control register_key rebind_key revoke_key update_origins put_policy get_policy
    handle_control-foreign_policy s x foreign = ground (
      arith,
      eq_iff c.op "put_policy",
      foreign,
      contains-ne a.accounts c.account x,
      laws.policy-register s c.key_id c.account c.hash x,
      laws.policy-put s c.account c.version c.blob x,
      rebind_any-policy a.accounts s x,
      revoke_any-policy a.accounts s x,
      laws.policy-update_origins s c.key_id c.account x c.allowed_origins,
      laws.policy-update_origins (store.register_api_key s c.key_id c.account c.hash).0 c.key_id
          c.account x c.allowed_origins,
    )
