-- ===== src/Store/Memory/Effects.antt =====
-- What each method of memStore does to the entries of its maps, as one equation for each map.
use nora_relay.Base.{
  ℕ, ℤ, leb_ℤ, String, ◌==◌, ◌≡◌, refl, List, Option, none, some, arith, eq_iff, if◌then◌else◌,
  or_zero, Option-cases, inl, inr,
}
use nora_relay.Base.Map
use nora_relay.Base.Map.{lookup-insert, lookup-remove, lookup-discard, unless}
use nora_relay.Store.{ApiKey, PolicyBlob, StoreError, not_found}
use nora_relay.Store.Memory.{
  MemStore, zero_key, put_policy, register_api_key, rebind_api_key, update_key_origins,
  revoke_api_key,
}

-- An entry changed, or removed, if the account owns it.
abbrev pub if_owned : String → (ApiKey → Option ApiKey) → Option ApiKey → Option ApiKey
if_owned owner f none = none
if_owned owner f (some k) = if k.owner_account == owner then f k else some k

-- The error of a method that wants the owner.
abbrev pub refusal : String → Option ApiKey → Option StoreError
refusal owner none = some not_found
refusal owner (some k) = if k.owner_account == owner then none else some not_found

abbrev pub registered : String → String → Option ApiKey → ApiKey
registered id owner old = record (or_zero zero_key old) { id = id; owner_account = owner }

-- The entry after a put: the newer of the two, the old one at equal versions.
abbrev pub newer : PolicyBlob → Option PolicyBlob → PolicyBlob
newer p none = p
newer p (some cur) = if leb_ℤ p.version cur.version then cur else p

module _ (s : MemStore) where
  pub keys-register :
      (id owner hash j : String)
      → Map.lookup (register_api_key s id owner hash).0.keys j ≡ (
          if id == j
          then some (registered id owner (Map.lookup s.keys id))
          else Map.lookup s.keys j)
  unfolding register_api_key
  keys-register id owner hash j = lookup-insert s.keys id j _

  pub by_hash-register :
      (id owner hash h : String)
      → Map.lookup (register_api_key s id owner hash).0.by_hash h
        ≡ (if hash == h then some id else unless (λ kid. kid == id) (Map.lookup s.by_hash h))
  unfolding register_api_key
  by_hash-register id owner hash h = simp (lookup-insert, lookup-discard)

  pub keys-rebind :
      (id old new j : String)
      → Map.lookup (rebind_api_key s id old new).0.keys j ≡ (
          if id == j
          then if_owned old (λ k. some (record k { owner_account = new })) (Map.lookup s.keys id)
          else Map.lookup s.keys j)
  unfolding rebind_api_key
  keys-rebind id old new j = elim (Option-cases (Map.lookup s.keys id)) [
    | inl e ↦ ground (arith, eq_iff id j)
    | inr (k, e) ↦
        ground (arith, eq_iff id j, lookup-insert s.keys id j (record k { owner_account = new }))
  ]

  pub keys-update_origins :
      (id owner j : String) (origins : List String)
      → Map.lookup (update_key_origins s id owner origins).0.keys j ≡ (
          if id == j
          then if_owned owner
              (λ k. some (record k { allowed_origins = origins }))
              (Map.lookup s.keys id)
          else Map.lookup s.keys j)
  unfolding update_key_origins
  keys-update_origins id owner j origins = elim (Option-cases (Map.lookup s.keys id)) [
    | inl e ↦ ground (arith, eq_iff id j)
    | inr (k, e) ↦
        ground
          (arith, eq_iff id j, lookup-insert s.keys id j (record k { allowed_origins = origins }))
  ]

  pub keys-revoke :
      (owner id j : String)
      → Map.lookup (revoke_api_key s owner id).0.keys j ≡ (
          if id == j
          then if_owned owner (λ _. none) (Map.lookup s.keys id)
          else Map.lookup s.keys j)
  unfolding revoke_api_key
  keys-revoke owner id j = elim (Option-cases (Map.lookup s.keys id)) [
    | inl e ↦ ground (arith, eq_iff id j)
    | inr (k, e) ↦ ground (arith, eq_iff id j, lookup-remove s.keys id j)
  ]

  pub by_hash-revoke :
      (owner id h : String)
      → Map.lookup (revoke_api_key s owner id).0.by_hash h
        ≡ elim (refusal owner (Map.lookup s.keys id)) [
          | none ↦ unless (λ kid. kid == id) (Map.lookup s.by_hash h)
          | some _ ↦ Map.lookup s.by_hash h
        ]
  unfolding revoke_api_key
  by_hash-revoke owner id h =
      ground (arith, lookup-discard s.by_hash (λ (kid : String). kid == id) h)

  pub policy-put :
      (account a : String) (version : ℤ) (blob : List ℕ)
      → Map.lookup (put_policy s account version blob).0.policy a ≡ (
          if account == a
          then some
              (newer (record { version = version; blob = blob }) (Map.lookup s.policy account))
          else Map.lookup s.policy a)
  unfolding put_policy
  policy-put account a version blob = ground (
    arith,
    eq_iff account a,
    lookup-insert s.policy account a (record { version = version; blob = blob }),
  )

  -- The errors.
  pub error-rebind :
      (id old new : String) → (rebind_api_key s id old new).1 ≡ refusal old (Map.lookup s.keys id)
  unfolding rebind_api_key
  error-rebind id old new = ground arith

  pub error-update_origins :
      (id owner : String) (origins : List String)
      → (update_key_origins s id owner origins).1 ≡ refusal owner (Map.lookup s.keys id)
  unfolding update_key_origins
  error-update_origins id owner origins = ground arith

  pub error-revoke :
      (owner id : String) → (revoke_api_key s owner id).1 ≡ refusal owner (Map.lookup s.keys id)
  unfolding revoke_api_key
  error-revoke owner id = ground arith

  -- The maps that a method leaves alone.
  pub by_hash-rebind : (id old new : String) → (rebind_api_key s id old new).0.by_hash ≡ s.by_hash
  unfolding rebind_api_key
  by_hash-rebind id old new = ground arith

  pub by_hash-update_origins :
      (id owner : String) (origins : List String)
      → (update_key_origins s id owner origins).0.by_hash ≡ s.by_hash
  unfolding update_key_origins
  by_hash-update_origins id owner origins = ground arith

  pub keys-put :
      (account : String) (version : ℤ) (blob : List ℕ)
      → (put_policy s account version blob).0.keys ≡ s.keys
  unfolding put_policy
  keys-put account version blob = ground arith

  pub by_hash-put :
      (account : String) (version : ℤ) (blob : List ℕ)
      → (put_policy s account version blob).0.by_hash ≡ s.by_hash
  unfolding put_policy
  by_hash-put account version blob = ground arith

  pub policy-rebind : (id old new : String) → (rebind_api_key s id old new).0.policy ≡ s.policy
  unfolding rebind_api_key
  policy-rebind id old new = ground arith

  pub policy-update_origins :
      (id owner : String) (origins : List String)
      → (update_key_origins s id owner origins).0.policy ≡ s.policy
  unfolding update_key_origins
  policy-update_origins id owner origins = ground arith

  pub policy-revoke : (owner id : String) → (revoke_api_key s owner id).0.policy ≡ s.policy
  unfolding revoke_api_key
  policy-revoke owner id = ground arith

  pub policy-register :
      (id owner hash : String) → (register_api_key s id owner hash).0.policy ≡ s.policy
  unfolding register_api_key
  policy-register id owner hash = refl
