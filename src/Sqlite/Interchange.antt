-- ===== src/Sqlite/Interchange.antt =====
-- cmd/relay/store_sqlite.go: what a caller of the interface `Store` sees of sqliteStore, and of the contract.
use mathlib.Core.List.{map}
use nora_relay.Base.{
  ℕ, String, ◌==◌, eq_iff, ◌≡◌, refl, sym, ap, ◌∙◌, Bool, List, [], ◌∷◌, Option, none, some, arith,
  any, Bool-cases, Bool-eq, Option-cases, inl, inr,
}
use nora_relay.Base.Map
use nora_relay.Base.Map.{
  lookup-empty, any_value_sound, any_value_complete, first_sound, first_complete,
}
use nora_relay.Store.{
  PolicyBlob, StoreError, Write, register, revoke, rebind, update_origins, put, perform, run,
  outcomes,
}
use nora_relay.Store.Memory.{hash_secret}
use nora_relay.Store.Registry
use nora_relay.Store.Registry.{Row, Registry, registry, conflict}
use nora_relay.Store.Registry.Effects.{error-change, error-register}
use nora_relay.Sqlite
use nora_relay.Sqlite.{
  KeyRow, PolicyRow, Database, new_database, Json, Engine, has_id, has_hash, is_taken, of_account,
  allows, decode_origins, exec, key_of, sqlite_store,
}
use nora_relay.Sqlite.Table.{find, find-at, find_sound, any-find, any_sound, any_complete}
use nora_relay.Sqlite.Keyed.{id_of}
use nora_relay.Sqlite.Refinement.{
  IsFaithful, running, in_words, row_of, Refines, taken-eq, update-Refines, delete-Refines,
  error-owned,
}
use nora_relay.Sqlite.Upserts.{register-Refines, put-Refines}

module _ (json : Json) (faithful : IsFaithful json) (text : String) (sha256 : List ℕ → List ℕ) where
  -- The column's text gives back the origins.
  pub decode_origins-marshal :
      (origins : List String) (t : String)
      → json.marshal origins ≡ some t
      → decode_origins json t ≡ origins
  unfolding decode_origins
  decode_origins-marshal origins t e =
      let (back, some_text) = faithful.read_back origins t e in
      ground (arith, eq_iff t "", eq_iff t "[]", faithful.no_origins)

  abbrev pub store_here : Database → Write → Database × Option StoreError
  store_here = perform (sqlite_store (running text) json sha256)

  abbrev Same : Database → Registry → Write → Type 0
  Same db r w =
      Refines json (store_here db w).0 (perform (registry sha256) r w).0
      × ((store_here db w).1 ≡ in_words text (perform (registry sha256) r w).1)

  module _ (db : Database) (r : Registry) (ref : Refines json db r) where
    perform-register : (id owner hash : String) → Same db r (register id owner hash)
    unfolding perform Sqlite.register_api_key Registry.register_api_key
    perform-register id owner hash =
        let same = taken-eq json db r ref id hash in
        elim (Bool-cases (any (is_taken id hash) db.api_keys)) [
          | inl taken ↦ rw (taken, sym same ∙ taken, Registry.register_api_key) (ref, refl)
          | inr free ↦ rw (free) (
            register-Refines json db r ref id owner hash free,
            rw (error-register r id owner hash, sym same ∙ free) refl,
          )
        ]

    perform-Refines : (w : Write) → Same db r w
    unfolding perform Sqlite.rebind_api_key Sqlite.revoke_api_key Sqlite.put_policy
        Sqlite.update_key_origins
    perform-Refines (register id owner hash) = perform-register id owner hash
    perform-Refines (revoke owner id) = (
      delete-Refines json db r ref owner id,
      ground
          (arith, error-owned json db r ref id owner, error-change r id owner (λ (_ : Row). none)),
    )
    perform-Refines (rebind id old new) =
        let f : Row → Option Row = λ row. some (record row { owner_account = new }) in
        (
          update-Refines json db r ref id old (λ x. record x { owner_account = new }) f (λ x. refl)
              (λ x. refl) (λ x. refl),
          ground (arith, error-owned json db r ref id old, error-change r id old f),
        )
    perform-Refines (update_origins id owner origins) =
        let f : Row → Option Row = λ row. some (record row { allowed_origins = origins }) in
        let (t, e) = faithful.total origins in
        rw (e, store_here, Sqlite.update_key_origins)
          (
            update-Refines json db r ref id owner (λ x. record x { allowed_origins = t }) f
                (λ x. refl) (λ x. refl) (λ x. rw (decode_origins-marshal origins t e) refl),
            ground (arith, error-owned json db r ref id owner, error-change r id owner f),
          )
    perform-Refines (put account version blob) =
        (put-Refines json db r ref account version blob, unfold Registry.put_policy in ground arith)

    resolve-eq :
        (plaintext : String)
        → (sqlite_store (running text) json sha256).resolve_api_key db plaintext
          ≡ (registry sha256).resolve_api_key r plaintext
    unfolding Sqlite.resolve_api_key
    resolve-eq plaintext =
        let h = hash_secret sha256 plaintext in
        let here : Row → Bool = λ row. row.key_hash == h in
        elim (Option-cases (find (has_hash h) db.api_keys)) [
          | inl absent ↦ elim (Option-cases (Map.first here r.rows)) [
            | inl none_has ↦ ground arith
            | inr (row, e) ↦
                let (id, there, same) = first_sound r.rows here row e in
                elim (Option-cases (find (has_id id) db.api_keys)) [
                  | inl gone ↦ absurd (ground (arith, ref.rows id))
                  | inr (x, present) ↦ absurd (
                      ground (
                        arith,
                        ref.rows id,
                        any-find (has_hash h) db.api_keys absent,
                        any_complete KeyRow id_of (has_hash h) db.api_keys id x present,
                      ))
                ]
          ]
          | inr (x, present) ↦
              let at_id = find-at KeyRow id_of (has_hash h) db.api_keys x ref.keyed.once present in
              let hashed = find_sound (has_hash h) db.api_keys x present in
              elim (Option-cases (Map.first here r.rows)) [
                | inl none_has ↦ absurd (
                    ground (
                      arith,
                      first_complete r.rows here x.id (row_of json x) none_has,
                      ref.rows x.id,
                    ))
                | inr (row, e) ↦
                    let (id, there, same) = first_sound r.rows here row e in
                    elim (Option-cases (find (has_id id) db.api_keys)) [
                      | inl gone ↦ absurd (ground (arith, ref.rows id))
                      | inr (y, found_y) ↦ ground (
                        arith,
                        ref.rows id,
                        ref.keyed.hashes x.id id h,
                        eq_iff x.key_hash h,
                        eq_iff y.key_hash h,
                      )
                    ]
              ]
        ]

    allows-eq :
        (origin : String) (x : KeyRow)
        → allows (running text) json origin x
          ≡ any (λ o. o == origin) (decode_origins json x.allowed_origins)
    unfolding decode_origins any
    allows-eq origin x = ground (arith, eq_iff x.allowed_origins "[]")

    origin_allowed-eq :
        (origin : String)
        → (sqlite_store (running text) json sha256).origin_allowed db origin
          ≡ (registry sha256).origin_allowed r origin
    unfolding Sqlite.origin_allowed
    origin_allowed-eq origin =
        let wanted : Row → Bool = λ row. any (λ o. o == origin) row.allowed_origins in
        let test : KeyRow → Bool = allows (running text) json origin in
        ap (λ b. (b, none))
          (Bool-eq _ _
            (λ h.
              let (x, there, good) = any_sound KeyRow id_of test db.api_keys ref.keyed.once h in
              any_value_complete r.rows wanted x.id (row_of json x) (ground (arith, ref.rows x.id))
                (sym (allows-eq origin x) ∙ good))
            (λ h.
              let (id, row, there, good) = any_value_sound r.rows wanted h in
              elim (Option-cases (find (has_id id) db.api_keys)) [
                | inl gone ↦ absurd (ground (arith, ref.rows id))
                | inr (x, present) ↦
                    any_complete KeyRow id_of test db.api_keys id x present
                      (allows-eq origin x ∙ ground (arith, ref.rows id))
              ]))

    get_policy-eq :
        (account : String)
        → (sqlite_store (running text) json sha256).get_policy db account
          ≡ (registry sha256).get_policy r account
    unfolding Sqlite.get_policy
    get_policy-eq account = ground (arith, ref.policies account)

  -- sqliteStore and the contract, through any history of writes.
  run-Refines :
      (db : Database) (r : Registry) (ws : List Write)
      → Refines json db r
      → Refines json
          (run (sqlite_store (running text) json sha256) db ws)
          (run (registry sha256) r ws)
        × (outcomes (sqlite_store (running text) json sha256) db ws
            ≡ map (in_words text) (outcomes (registry sha256) r ws))
  unfolding run outcomes
  run-Refines db r [] ref = (ref, refl)
  run-Refines db r (w ∷ ws) ref =
      let (ref', same) = perform-Refines db r ref w in
      let (last, rest) =
        run-Refines (store_here db w).0 (perform (registry sha256) r w).0 ws ref' in
      (last, cc)

  new-Refines : Refines json new_database Registry.empty
  unfolding find Registry.empty
  new-Refines = record {
    keyed = record { once = tt; hashes = λ i j h ei ej. cc };
    rows = λ id. rw (lookup-empty {V = Row} id) refl;
    policies = λ a. rw (lookup-empty {V = PolicyBlob} a) refl;
  }

  -- On an engine that answers, and with a JSON encoding that is read back: from a new database, after
  -- any history of writes, sqliteStore has returned the errors of the contract, the refusal of a
  -- hash that another key has in the engine's words, and it answers every ResolveAPIKey,
  -- OriginAllowed and GetPolicy as the contract does.
  pub sqlite_store-refines-registry :
      (ws : List Write)
      → let db = run (sqlite_store (running text) json sha256) new_database ws in
        let r = run (registry sha256) Registry.empty ws in
        (outcomes (sqlite_store (running text) json sha256) new_database ws
          ≡ map (in_words text) (outcomes (registry sha256) Registry.empty ws))
        × ((plaintext : String)
            → (sqlite_store (running text) json sha256).resolve_api_key db plaintext
              ≡ (registry sha256).resolve_api_key r plaintext)
        × ((origin : String)
            → (sqlite_store (running text) json sha256).origin_allowed db origin
              ≡ (registry sha256).origin_allowed r origin)
        × ((account : String)
            → (sqlite_store (running text) json sha256).get_policy db account
              ≡ (registry sha256).get_policy r account)
  sqlite_store-refines-registry ws =
      let db = run (sqlite_store (running text) json sha256) new_database ws in
      let r = run (registry sha256) Registry.empty ws in
      let (ref, same) = run-Refines new_database Registry.empty ws new-Refines in
      (same, resolve-eq db r ref, origin_allowed-eq db r ref, get_policy-eq db r ref)
