-- ===== src/Control/Rebind.antt =====
-- cmd/relay/http.go: when a device may move or revoke a key, and what becomes of the key.
use nora_relay.Base.{
  String, ◌==◌, eq_iff, ◌≡◌, refl, Bool, true, false, not, ◌&&◌, List, [], ◌∷◌, Option, none, some,
  holds, arith, if◌then◌else◌, Option-cases, Bool-cases, inl, inr,
}
use nora_relay.Protocol.{Control}
use nora_relay.Hub.Bindings.{AgentConn}
use nora_relay.Store.{Store, ApiKey}
use nora_relay.Store.Laws.{Laws}
use nora_relay.Control.{
  contains, not_yours, rebind_any, revoke_any, rebind_key, revoke_key, handle_control,
}

op_differs : (x y z : String) → x ≡ y → (y == z) ≡ false → (x == z) ≡ false
op_differs x y z e h = rw e h

module _ {S : Type 0} (store : Store S) (laws : Laws store) (c : Control) where
  open laws use {key_at}

  -- The key of the message belongs to one of the accounts.
  abbrev pub is_owned : List String → S → Bool
  is_owned accounts s = holds (λ k. contains accounts k.owner_account) (key_at s c.key_id)

  -- The key at an id after the message's key has become `o`.
  abbrev pub with_key : Option ApiKey → S → String → Option ApiKey
  with_key o s j = if c.key_id == j then o else key_at s j

  rebind_any-owned :
      (accounts : List String) (s : S) (k : ApiKey) (j : String)
      → key_at s c.key_id ≡ some k
      → contains accounts k.owner_account ≡ true
      → ((rebind_any store accounts c s).0 ≡ true)
        × (key_at (rebind_any store accounts c s).1 j
            ≡ with_key (some (record k { owner_account = c.account })) s j)
  unfolding contains rebind_any
  rebind_any-owned [] s k j e h = cc
  rebind_any-owned (acc ∷ accounts) s k j e h =
      let s' = (store.rebind_api_key s c.key_id acc c.account).0 in
      ground (
        arith,
        laws.error-rebind s c.key_id acc c.account,
        laws.key-rebind s c.key_id acc c.account j,
        laws.key-rebind s c.key_id acc c.account c.key_id,
        eq_iff c.key_id j,
        eq_iff c.key_id c.key_id,
        eq_iff acc k.owner_account,
        eq_iff k.owner_account acc,
        rebind_any-owned accounts s' k j,
      )

  rebind_any-unowned :
      (accounts : List String) (s : S) (j : String)
      → is_owned accounts s ≡ false
      → ((rebind_any store accounts c s).0 ≡ false)
        × (key_at (rebind_any store accounts c s).1 j ≡ key_at s j)
  unfolding contains rebind_any
  rebind_any-unowned [] s j h = (refl, refl)
  rebind_any-unowned (acc ∷ accounts) s j h =
      let s' = (store.rebind_api_key s c.key_id acc c.account).0 in
      elim (Option-cases (key_at s c.key_id)) [
        | inl gone ↦ ground (
          arith,
          laws.error-rebind s c.key_id acc c.account,
          laws.key-rebind s c.key_id acc c.account j,
          laws.key-rebind s c.key_id acc c.account c.key_id,
          eq_iff c.key_id j,
          eq_iff c.key_id c.key_id,
          rebind_any-unowned accounts s' j,
        )
        | inr (k, there) ↦ ground (
          arith,
          laws.error-rebind s c.key_id acc c.account,
          laws.key-rebind s c.key_id acc c.account j,
          laws.key-rebind s c.key_id acc c.account c.key_id,
          eq_iff c.key_id j,
          eq_iff c.key_id c.key_id,
          eq_iff acc k.owner_account,
          eq_iff k.owner_account acc,
          rebind_any-unowned accounts s' j,
        )
      ]

  revoke_any-owned :
      (accounts : List String) (s : S) (k : ApiKey) (j : String)
      → key_at s c.key_id ≡ some k
      → contains accounts k.owner_account ≡ true
      → ((revoke_any store accounts c s).0 ≡ true)
        × (key_at (revoke_any store accounts c s).1 j ≡ with_key none s j)
  unfolding contains revoke_any
  revoke_any-owned [] s k j e h = cc
  revoke_any-owned (acc ∷ accounts) s k j e h =
      let s' = (store.revoke_api_key s acc c.key_id).0 in
      ground (
        arith,
        laws.error-revoke s acc c.key_id,
        laws.key-revoke s acc c.key_id j,
        laws.key-revoke s acc c.key_id c.key_id,
        eq_iff c.key_id j,
        eq_iff c.key_id c.key_id,
        eq_iff acc k.owner_account,
        eq_iff k.owner_account acc,
        revoke_any-owned accounts s' k j,
      )

  revoke_any-unowned :
      (accounts : List String) (s : S) (j : String)
      → is_owned accounts s ≡ false
      → ((revoke_any store accounts c s).0 ≡ false)
        × (key_at (revoke_any store accounts c s).1 j ≡ key_at s j)
  unfolding contains revoke_any
  revoke_any-unowned [] s j h = (refl, refl)
  revoke_any-unowned (acc ∷ accounts) s j h =
      let s' = (store.revoke_api_key s acc c.key_id).0 in
      elim (Option-cases (key_at s c.key_id)) [
        | inl gone ↦ ground (
          arith,
          laws.error-revoke s acc c.key_id,
          laws.key-revoke s acc c.key_id j,
          laws.key-revoke s acc c.key_id c.key_id,
          eq_iff c.key_id j,
          eq_iff c.key_id c.key_id,
          revoke_any-unowned accounts s' j,
        )
        | inr (k, there) ↦ ground (
          arith,
          laws.error-revoke s acc c.key_id,
          laws.key-revoke s acc c.key_id j,
          laws.key-revoke s acc c.key_id c.key_id,
          eq_iff c.key_id j,
          eq_iff c.key_id c.key_id,
          eq_iff acc k.owner_account,
          eq_iff k.owner_account acc,
          revoke_any-unowned accounts s' j,
        )
      ]

  module _ (a : AgentConn) (s : S) where
    abbrev pub may_rebind : Bool
    may_rebind = contains a.accounts c.account && not (c.key_id == "") && is_owned a.accounts s

    abbrev pub rebind_error : String
    rebind_error =
        if not (contains a.accounts c.account)
        then not_yours
        else if c.key_id == ""
        then "rebind_key requires key_id"
        else "key not found"

    abbrev moved : Option ApiKey → Option ApiKey
    moved none = none
    moved (some k) = some (record k { owner_account = c.account })

    -- Over a store that keeps the laws of Store/Laws.antt, and so never fails for another reason than a key that is
    -- missing or not owned: "rebind_key" succeeds exactly when the device has proved both the new account and the account
    -- that owns the key, and the key id is not empty. Then the key belongs to the new account, with
    -- its id and origins as they were, and no other key changes; otherwise the reply says why not
    -- and no key changes.
    pub handle_control-rebind :
        (j : String)
        → c.op ≡ "rebind_key"
        → let (reply, s') = handle_control store a c s in
          (reply.error ≡ (if may_rebind then "" else rebind_error))
          × (key_at s' j
              ≡ (if may_rebind then with_key (moved (key_at s c.key_id)) s j else key_at s j))
    unfolding handle_control rebind_key
    handle_control-rebind j op = elim (Bool-cases (is_owned a.accounts s)) [
      | inl owned ↦ elim (Option-cases (key_at s c.key_id)) [
        | inl gone ↦ cc
        | inr (k, there) ↦ ground (
          arith,
          op_differs c.op "rebind_key" "register_key" op refl,
          eq_iff c.op "rebind_key",
          rebind_any-owned a.accounts s k j,
        )
      ]
      | inr unowned ↦ ground (
        arith,
        op_differs c.op "rebind_key" "register_key" op refl,
        eq_iff c.op "rebind_key",
        rebind_any-unowned a.accounts s j unowned,
      )
    ]

    -- Over a store that keeps the laws of Store/Laws.antt, and so never fails for another reason than a key that is
    -- missing or not owned: "revoke_key" succeeds exactly when the device has proved the account that owns the key. Then
    -- the key is gone and no other key changes; otherwise the reply is an error and no key changes.
    pub handle_control-revoke :
        (j : String)
        → c.op ≡ "revoke_key"
        → let (reply, s') = handle_control store a c s in
          (reply.error ≡ (if is_owned a.accounts s then "" else "key not found"))
          × (key_at s' j ≡ (if is_owned a.accounts s then with_key none s j else key_at s j))
    unfolding handle_control revoke_key
    handle_control-revoke j op = elim (Bool-cases (is_owned a.accounts s)) [
      | inl owned ↦ elim (Option-cases (key_at s c.key_id)) [
        | inl gone ↦ cc
        | inr (k, there) ↦ ground (
          arith,
          op_differs c.op "revoke_key" "register_key" op refl,
          op_differs c.op "revoke_key" "rebind_key" op refl,
          eq_iff c.op "revoke_key",
          revoke_any-owned a.accounts s k j,
        )
      ]
      | inr unowned ↦ ground (
        arith,
        op_differs c.op "revoke_key" "register_key" op refl,
        op_differs c.op "revoke_key" "rebind_key" op refl,
        eq_iff c.op "revoke_key",
        revoke_any-unowned a.accounts s j unowned,
      )
    ]
