-- ===== src/Store/Memory/Invariant.antt =====
-- The invariant that ties the two maps of memStore together.
use nora_relay.Base.{
  ℤ, ℕ, String, ◌≡◌, List, [], ◌∷◌, some, arith, eq_iff, or_zero, Option-cases, inl, inr,
}
use nora_relay.Base.Map
use nora_relay.Base.Map.{map_laws, lookup-insert, lookup-remove, lookup-discard, lookup-empty}
use nora_relay.Store.{ApiKey, Write, register, revoke, rebind, update_origins, put, perform, run}
use nora_relay.Store.Memory.Effects.{
  keys-register, by_hash-register, keys-rebind, by_hash-rebind, keys-update_origins,
  by_hash-update_origins, keys-revoke, by_hash-revoke, keys-put, by_hash-put,
}
use nora_relay.Store.Memory.{
  MemStore, new_mem_store, zero_key, put_policy, register_api_key, rebind_api_key,
  update_key_origins, revoke_api_key, mem_store,
}

pub record Inv (s : MemStore) : Type 0 where
  -- A key is stored under its own id.
  pub keyed : (id : String) (k : ApiKey) → Map.lookup s.keys id ≡ some k → k.id ≡ id
  -- A hash leads to a key that is there.
  pub leads :
      (h id : String)
      → Map.lookup s.by_hash h ≡ some id
      → (k : ApiKey) × (Map.lookup s.keys id ≡ some k)
  -- A key has one hash at most.
  pub single :
      (h h' id : String)
      → Map.lookup s.by_hash h ≡ some id
      → Map.lookup s.by_hash h' ≡ some id
      → h ≡ h'

pub new_mem_store-Inv : Inv new_mem_store
unfolding new_mem_store
new_mem_store-Inv = record {
  keyed = λ id k e. cc (lookup-empty {V = ApiKey} id);
  leads = λ h id e. cc (lookup-empty {V = String} h);
  single = λ h h' id e e'. cc (lookup-empty {V = String} h);
}

module _ (s : MemStore) (inv : Inv s) where
  register_api_key-Inv : (id owner hash : String) → Inv (register_api_key s id owner hash).0
  register_api_key-Inv id owner hash = record {
    keyed = λ j k e. ground (arith, keys-register s id owner hash j, eq_iff id j, inv.keyed j k);
    leads = λ h j e. elim (Option-cases (Map.lookup (register_api_key s id owner hash).0.keys j)) [
      | inr there ↦ there
      | inl gone ↦ absurd (
          ground (
            arith,
            keys-register s id owner hash j,
            by_hash-register s id owner hash h,
            eq_iff id j,
            inv.leads h j,
          ))
    ];
    single = λ h h' j e e'. ground (
      arith,
      by_hash-register s id owner hash h,
      by_hash-register s id owner hash h',
      eq_iff hash h,
      eq_iff hash h',
      eq_iff id j,
      eq_iff j id,
      inv.single h h' j,
    );
  }

  rebind_api_key-Inv : (id old new : String) → Inv (rebind_api_key s id old new).0
  rebind_api_key-Inv id old new = record {
    keyed = λ j k e. ground (
      arith,
      keys-rebind s id old new j,
      eq_iff id j,
      inv.keyed j k,
      inv.keyed j (or_zero zero_key (Map.lookup s.keys j)),
    );
    leads = λ h j e. elim (Option-cases (Map.lookup (rebind_api_key s id old new).0.keys j)) [
      | inr there ↦ there
      | inl gone ↦ absurd (
          ground (
            arith,
            keys-rebind s id old new j,
            by_hash-rebind s id old new,
            eq_iff id j,
            inv.leads h j,
          ))
    ];
    single = rw (by_hash-rebind s id old new) inv.single;
  }

  update_key_origins-Inv :
      (id owner : String) (origins : List String) → Inv (update_key_origins s id owner origins).0
  update_key_origins-Inv id owner origins = record {
    keyed = λ j k e. ground (
      arith,
      keys-update_origins s id owner j origins,
      eq_iff id j,
      inv.keyed j k,
      inv.keyed j (or_zero zero_key (Map.lookup s.keys j)),
    );
    leads = λ h j e.
        elim (Option-cases (Map.lookup (update_key_origins s id owner origins).0.keys j)) [
          | inr there ↦ there
          | inl gone ↦ absurd (
              ground (
                arith,
                keys-update_origins s id owner j origins,
                by_hash-update_origins s id owner origins,
                eq_iff id j,
                inv.leads h j,
              ))
        ];
    single = rw (by_hash-update_origins s id owner origins) inv.single;
  }

  revoke_api_key-Inv : (owner id : String) → Inv (revoke_api_key s owner id).0
  revoke_api_key-Inv owner id = record {
    keyed = λ j k e. ground (arith, keys-revoke s owner id j, eq_iff id j, inv.keyed j k);
    leads = λ h j e. elim (Option-cases (Map.lookup (revoke_api_key s owner id).0.keys j)) [
      | inr there ↦ there
      | inl gone ↦ absurd (
          ground (
            arith,
            keys-revoke s owner id j,
            by_hash-revoke s owner id h,
            eq_iff id j,
            eq_iff j id,
            inv.leads h j,
          ))
    ];
    single = λ h h' j e e'.
        ground
          (arith, by_hash-revoke s owner id h, by_hash-revoke s owner id h', inv.single h h' j);
  }

  put_policy-Inv :
      (account : String) (version : ℤ) (blob : List ℕ) → Inv (put_policy s account version blob).0
  put_policy-Inv account version blob = record {
    keyed = rw (keys-put s account version blob) inv.keyed;
    leads = rw (keys-put s account version blob, by_hash-put s account version blob) inv.leads;
    single = rw (by_hash-put s account version blob) inv.single;
  }

module _ (sha256 : List ℕ → List ℕ) where
  perform-Inv : (s : MemStore) (w : Write) → Inv s → Inv (perform (mem_store sha256) s w).0
  unfolding perform
  perform-Inv s (register id owner hash) inv = register_api_key-Inv s inv id owner hash
  perform-Inv s (revoke owner id) inv = revoke_api_key-Inv s inv owner id
  perform-Inv s (rebind id old new) inv = rebind_api_key-Inv s inv id old new
  perform-Inv s (update_origins id owner origins) inv =
      update_key_origins-Inv s inv id owner origins
  perform-Inv s (put account version blob) inv = put_policy-Inv s inv account version blob

  -- From a state that satisfies the invariant, every sequence of writes, failing ones included,
  -- leads to a state that satisfies it: each key stands under its own id, each hash leads to a key
  -- that is there, and no two hashes lead to the same key.
  pub run-Inv : (s : MemStore) (ws : List Write) → Inv s → Inv (run (mem_store sha256) s ws)
  unfolding run
  run-Inv s [] inv = inv
  run-Inv s (w ∷ ws) inv = run-Inv (perform (mem_store sha256) s w).0 ws (perform-Inv s w inv)
