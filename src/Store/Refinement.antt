-- ===== src/Store/Refinement.antt =====
-- memStore against the contract of `Store`.
use nora_relay.Base.{
  ℕ, ℤ, String, ◌==◌, ◌≡◌, List, Option, none, some, arith, eq_iff, false, Option-cases, inl, inr,
  if◌then◌else◌,
}
use nora_relay.Base.Map
use nora_relay.Base.Map.{lookup-empty, any_value_complete}
use nora_relay.Store.{ApiKey}
use nora_relay.Store.Memory
use nora_relay.Store.Memory.{MemStore, mem_store, new_mem_store}
use nora_relay.Store.Memory.Effects.{
  keys-register, by_hash-register, keys-revoke, by_hash-revoke, keys-put, by_hash-put, policy-put,
  policy-register, policy-revoke, if_owned,
}
use nora_relay.Store.Registry
use nora_relay.Store.Registry.{Row, Registry, registry, key_of, conflict, is_taken, change}
use nora_relay.Store.Registry.Effects.{
  rows-change, policies-change, rows-register, policies-register, policies-put, rows-put,
}

abbrev pub key_at : Option Row → Option ApiKey
key_at none = none
key_at (some row) = some (key_of row)

abbrev pub hash_at : Option Row → Option String
hash_at none = none
hash_at (some row) = some row.key_hash

pub record Refines (s : MemStore) (r : Registry) : Type 0 where
  pub keys : (id : String) → Map.lookup s.keys id ≡ key_at (Map.lookup r.rows id)
  pub keyed : (id : String) (row : Row) → Map.lookup r.rows id ≡ some row → row.id ≡ id
  pub hash_of :
      (h id : String) → Map.lookup s.by_hash h ≡ some id → hash_at (Map.lookup r.rows id) ≡ some h
  pub hash_to :
      (h id : String) → hash_at (Map.lookup r.rows id) ≡ some h → Map.lookup s.by_hash h ≡ some id
  pub policies : (a : String) → Map.lookup s.policy a ≡ Map.lookup r.policies a

module _ (s : MemStore) (r : Registry) (ref : Refines s r) where
  -- No other row has a hash that is not taken.
  taken_elsewhere :
      (id hash j : String)
      → Map.any_value (is_taken id hash) r.rows ≡ false
      → hash_at (Map.lookup r.rows j) ≡ some hash
      → j ≡ id
  taken_elsewhere id hash j free e = elim (Option-cases (Map.lookup r.rows j)) [
    | inl gone ↦ cc
    | inr (row, there) ↦ ground (
      arith,
      any_value_complete r.rows (is_taken id hash) j row there,
      ref.keyed j row there,
      eq_iff row.key_hash hash,
      eq_iff row.id id,
    )
  ]

  pub register-Refines :
      (id owner hash : String)
      → Map.any_value (is_taken id hash) r.rows ≡ false
      → Refines
          (Memory.register_api_key s id owner hash).0
          (Registry.register_api_key r id owner hash).0
  register-Refines id owner hash free = record {
    keys = λ j. ground (
      arith,
      keys-register s id owner hash j,
      rows-register r id owner hash j free,
      ref.keys j,
      ref.keys id,
      eq_iff id j,
    );
    keyed = λ j row e.
        ground (arith, rows-register r id owner hash j free, eq_iff id j, ref.keyed j row);
    hash_of = λ h j e. ground (
      arith,
      by_hash-register s id owner hash h,
      rows-register r id owner hash j free,
      eq_iff id j,
      eq_iff j id,
      eq_iff hash h,
      ref.hash_of h j,
    );
    hash_to = λ h j e. ground (
      arith,
      by_hash-register s id owner hash h,
      rows-register r id owner hash j free,
      eq_iff id j,
      eq_iff j id,
      eq_iff hash h,
      ref.hash_to h j,
      taken_elsewhere id hash j free,
    );
    policies = λ a. rw (policy-register, policies-register) (ref.policies a);
  }

  -- A change, by the owner, of a row that keeps its id and its hash.
  pub change-Refines :
      (s' : MemStore) (id owner : String) (f : Row → Option Row) (g : ApiKey → Option ApiKey)
      → ((row : Row)
          → (row' : Row) × (f row ≡ some row')
            × (row'.id ≡ row.id)
            × (row'.key_hash ≡ row.key_hash)
            × (g (key_of row) ≡ some (key_of row')))
      → ((j : String)
          → Map.lookup s'.keys j
            ≡ (if id == j then if_owned owner g (Map.lookup s.keys id) else Map.lookup s.keys j))
      → s'.by_hash ≡ s.by_hash
      → s'.policy ≡ s.policy
      → Refines s' (change r id owner f).0
  change-Refines s' id owner f g keeps changed same_hashes same_policy = record {
    keys = λ j. elim (Option-cases (Map.lookup r.rows id)) [
      | inl gone ↦
          ground
            (arith, changed j, rows-change r id owner j f, ref.keys j, ref.keys id, eq_iff id j)
      | inr (was, there) ↦
          let (row', fe, _, _, ge) = keeps was in
          ground
            (arith, changed j, rows-change r id owner j f, ref.keys j, ref.keys id, eq_iff id j)
    ];
    keyed = λ j row e. elim (Option-cases (Map.lookup r.rows j)) [
      | inl gone ↦ ground (arith, rows-change r id owner j f, eq_iff id j)
      | inr (was, there) ↦
          let (row', fe, same_id, _, _) = keeps was in
          ground (arith, rows-change r id owner j f, eq_iff id j, ref.keyed j was)
    ];
    hash_of = λ h j e. elim (Option-cases (Map.lookup r.rows j)) [
      | inl gone ↦ ground (arith, rows-change r id owner j f, eq_iff id j, ref.hash_of h j)
      | inr (was, there) ↦
          let (row', fe, _, same_hash, _) = keeps was in
          ground (arith, rows-change r id owner j f, eq_iff id j, ref.hash_of h j)
    ];
    hash_to = λ h j e. elim (Option-cases (Map.lookup r.rows j)) [
      | inl gone ↦ ground (arith, rows-change r id owner j f, eq_iff id j, ref.hash_to h j)
      | inr (was, there) ↦
          let (row', fe, _, same_hash, _) = keeps was in
          ground (arith, rows-change r id owner j f, eq_iff id j, ref.hash_to h j)
    ];
    policies = λ a. rw (same_policy, policies-change r id owner f) (ref.policies a);
  }

  pub revoke-Refines :
      (owner id : String)
      → Refines (Memory.revoke_api_key s owner id).0 (change r id owner (λ _. none)).0
  revoke-Refines owner id =
      let f : Row → Option Row = λ _. none in
      record {
        keys = λ j. ground (
          arith,
          keys-revoke s owner id j,
          rows-change r id owner j f,
          ref.keys j,
          ref.keys id,
          eq_iff id j,
        );
        keyed = λ j row e. ground (arith, rows-change r id owner j f, eq_iff id j, ref.keyed j row);
        hash_of = λ h j e. ground (
          arith,
          rows-change r id owner j f,
          by_hash-revoke s owner id h,
          ref.keys id,
          eq_iff id j,
          eq_iff j id,
          ref.hash_of h j,
        );
        hash_to = λ h j e. ground (
          arith,
          rows-change r id owner j f,
          by_hash-revoke s owner id h,
          ref.keys id,
          eq_iff id j,
          eq_iff j id,
          ref.hash_to h j,
        );
        policies =
            λ a. rw (policy-revoke s owner id, policies-change r id owner f) (ref.policies a);
      }

  pub put-Refines :
      (account : String) (version : ℤ) (blob : List ℕ)
      → Refines
          (Memory.put_policy s account version blob).0
          (Registry.put_policy r account version blob).0
  put-Refines account version blob = record {
    keys = rw (keys-put s account version blob, rows-put r account version blob) ref.keys;
    keyed = rw (rows-put r account version blob) ref.keyed;
    hash_of = rw (by_hash-put s account version blob, rows-put r account version blob) ref.hash_of;
    hash_to = rw (by_hash-put s account version blob, rows-put r account version blob) ref.hash_to;
    policies = λ a. ground (
      arith,
      policy-put s account a version blob,
      policies-put r account a version blob,
      ref.policies a,
      ref.policies account,
    );
  }
