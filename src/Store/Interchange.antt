-- ===== src/Store/Interchange.antt =====
-- cmd/relay/store.go: what a caller of the interface `Store` sees of memStore, and of the contract.
use nora_relay.Base.{
  ℕ, String, ◌==◌, ◌≡◌, ◌≢◌, refl, sym, ap, List, [], ◌∷◌, Option, none, some, arith, eq_iff, Bool,
  any, Bool-cases, Bool-eq, Option-cases, inl, inr,
}
use nora_relay.Base.Map
use nora_relay.Base.Map.{
  lookup-empty, any_value_sound, any_value_complete, first_sound, first_complete,
}
use nora_relay.Store.{
  ApiKey, PolicyBlob, Write, register, revoke, rebind, update_origins, put, perform, run, outcomes,
}
use nora_relay.Store.Memory
use nora_relay.Store.Memory.{MemStore, mem_store, new_mem_store, hash_secret}
use nora_relay.Store.Memory.Effects.{
  error-rebind, error-update_origins, error-revoke, keys-rebind, keys-update_origins,
  by_hash-rebind, by_hash-update_origins, policy-rebind, policy-update_origins,
}
use nora_relay.Store.Registry
use nora_relay.Store.Registry.{Row, Registry, registry, key_of, conflict, is_taken}
use nora_relay.Store.Registry.Effects.{error-change, error-register}
use nora_relay.Store.Refinement.{
  Refines, register-Refines, change-Refines, revoke-Refines, put-Refines,
}

module _ (sha256 : List ℕ → List ℕ) where
  -- No write of the history fails because another key has the hash.
  abbrev pub IsAccepted : Registry → List Write → Type 0
  IsAccepted r [] = Unit
  IsAccepted r (w ∷ ws) =
      ((perform (registry sha256) r w).1 ≢ some conflict)
      × IsAccepted (perform (registry sha256) r w).0 ws

  abbrev Same : MemStore → Registry → Write → Type 0
  Same s r w =
      Refines (perform (mem_store sha256) s w).0 (perform (registry sha256) r w).0
      × ((perform (mem_store sha256) s w).1 ≡ (perform (registry sha256) r w).1)

  module _ (s : MemStore) (r : Registry) (ref : Refines s r) where
    perform-register :
        (id owner hash : String)
        → (perform (registry sha256) r (register id owner hash)).1 ≢ some conflict
        → Same s r (register id owner hash)
    unfolding perform
    perform-register id owner hash ok =
        elim (Bool-cases (Map.any_value (is_taken id hash) r.rows)) [
          | inl taken ↦ absurd (ok (rw (error-register, taken)))
          | inr free ↦ (
            register-Refines s r ref id owner hash free,
            unfold Memory.register_api_key in sym (rw (error-register, free)),
          )
        ]

    perform-Refines : (w : Write) → (perform (registry sha256) r w).1 ≢ some conflict → Same s r w
    unfolding perform
    perform-Refines (register id owner hash) ok = perform-register id owner hash ok
    perform-Refines (revoke owner id) ok = (
      revoke-Refines s r ref owner id,
      ground (
        arith,
        error-revoke s owner id,
        error-change r id owner (λ (_ : Row). none),
        ref.keys id,
      ),
    )
    perform-Refines (rebind id old new) ok =
        let f : Row → Option Row = λ row. some (record row { owner_account = new }) in
        (
          change-Refines s r ref (Memory.rebind_api_key s id old new).0 id old f
              (λ k. some (record k { owner_account = new }))
              (λ row. (record row { owner_account = new }, refl, refl, refl, refl))
              (keys-rebind s id old new) (by_hash-rebind s id old new) (policy-rebind s id old new),
          ground (arith, error-rebind s id old new, error-change r id old f, ref.keys id),
        )
    perform-Refines (update_origins id owner origins) ok =
        let f : Row → Option Row = λ row. some (record row { allowed_origins = origins }) in
        (
          change-Refines s r ref (Memory.update_key_origins s id owner origins).0 id owner f
              (λ k. some (record k { allowed_origins = origins }))
              (λ row. (record row { allowed_origins = origins }, refl, refl, refl, refl))
              (λ j. keys-update_origins s id owner j origins)
              (by_hash-update_origins s id owner origins)
              (policy-update_origins s id owner origins),
          ground (
            arith,
            error-update_origins s id owner origins,
            error-change r id owner f,
            ref.keys id,
          ),
        )
    perform-Refines (put account version blob) ok = (
      put-Refines s r ref account version blob,
      unfold Memory.put_policy Registry.put_policy in ground (arith, ref.policies account),
    )

    resolve-eq :
        (plaintext : String)
        → (mem_store sha256).resolve_api_key s plaintext
          ≡ (registry sha256).resolve_api_key r plaintext
    unfolding Memory.resolve_api_key
    resolve-eq plaintext =
        let h = hash_secret sha256 plaintext in
        let here : Row → Bool = λ row. row.key_hash == h in
        elim (Option-cases (Map.first here r.rows)) [
          | inl none_has ↦ elim (Option-cases (Map.lookup s.by_hash h)) [
            | inl unknown ↦ ground arith
            | inr (id, e) ↦ elim (Option-cases (Map.lookup r.rows id)) [
              | inl gone ↦ absurd (ground (arith, ref.hash_of h id))
              | inr (row, there) ↦ absurd (
                  ground (
                    arith,
                    ref.hash_of h id,
                    first_complete r.rows here id row,
                    eq_iff row.key_hash h,
                  ))
            ]
          ]
          | inr (row, e) ↦
              let (id, there, same) = first_sound r.rows here row e in
              ground (arith, ref.hash_to h id, eq_iff row.key_hash h, ref.keys id)
        ]

    origin_allowed-eq :
        (origin : String)
        → (mem_store sha256).origin_allowed s origin ≡ (registry sha256).origin_allowed r origin
    unfolding Memory.origin_allowed
    origin_allowed-eq origin =
        let lists : List String → Bool = any (λ o. o == origin) in
        ap (λ b. (b, none))
          (Bool-eq _ _
            (λ h.
              let (id, k, e, good) = any_value_sound s.keys (λ k. lists k.allowed_origins) h in
              elim (Option-cases (Map.lookup r.rows id)) [
                | inl gone ↦ absurd (ground (arith, ref.keys id))
                | inr (row, there) ↦
                    any_value_complete r.rows (λ row. lists row.allowed_origins) id row there
                      (ground (arith, ref.keys id))
              ])
            (λ h.
              let (id, row, there, good) =
                any_value_sound r.rows (λ row. lists row.allowed_origins) h in
              any_value_complete s.keys (λ k. lists k.allowed_origins) id (key_of row)
                (ground (arith, ref.keys id)) good))

  -- memStore and the contract, through a history of writes that the contract accepts: they return
  -- the same errors, and their last states are related.
  run-Refines :
      (s : MemStore) (r : Registry) (ws : List Write)
      → Refines s r
      → IsAccepted r ws
      → Refines (run (mem_store sha256) s ws) (run (registry sha256) r ws)
        × (outcomes (mem_store sha256) s ws ≡ outcomes (registry sha256) r ws)
  unfolding run outcomes
  run-Refines s r [] ref ok = (ref, refl)
  run-Refines s r (w ∷ ws) ref ok =
      let (ref', same) = perform-Refines s r ref w ok.0 in
      let (last, rest) =
        run-Refines (perform (mem_store sha256) s w).0 (perform (registry sha256) r w).0 ws ref'
          ok.1 in
      (last, cc)

  new-Refines : Refines new_mem_store Registry.empty
  unfolding new_mem_store Registry.empty
  new-Refines = record {
    keys = λ id. rw (lookup-empty {V = ApiKey} id, lookup-empty {V = Row} id);
    keyed = λ id row e. cc (lookup-empty {V = Row} id);
    hash_of = λ h id e. cc (lookup-empty {V = String} h);
    hash_to = λ h id e. absurd (ground (arith, lookup-empty {V = Row} id));
    policies = λ a. rw (lookup-empty {V = PolicyBlob} a);
  }

  -- From the empty store, after any history of writes in which the contract never refuses a hash
  -- that another key has, memStore has returned the errors of the contract, and it answers every
  -- ResolveAPIKey, OriginAllowed and GetPolicy as the contract does.
  pub mem_store-refines-registry :
      (ws : List Write)
      → IsAccepted Registry.empty ws
      → let s = run (mem_store sha256) new_mem_store ws in
        let r = run (registry sha256) Registry.empty ws in
        (outcomes (mem_store sha256) new_mem_store ws
          ≡ outcomes (registry sha256) Registry.empty ws)
        × ((plaintext : String)
            → (mem_store sha256).resolve_api_key s plaintext
              ≡ (registry sha256).resolve_api_key r plaintext)
        × ((origin : String)
            → (mem_store sha256).origin_allowed s origin
              ≡ (registry sha256).origin_allowed r origin)
        × ((account : String)
            → (mem_store sha256).get_policy s account ≡ (registry sha256).get_policy r account)
  mem_store-refines-registry ws ok =
      let s = run (mem_store sha256) new_mem_store ws in
      let r = run (registry sha256) Registry.empty ws in
      let (ref, same) = run-Refines new_mem_store Registry.empty ws new-Refines ok in
      (
        same,
        resolve-eq s r ref,
        origin_allowed-eq s r ref,
        λ account. unfold Memory.get_policy in ap (λ p. (p, none)) (ref.policies account),
      )
