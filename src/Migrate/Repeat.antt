-- ===== src/Migrate/Repeat.antt =====
-- cmd/migrate/main.go: a migration that is run again.
use nora_relay.Base.{
  ℕ, ◌+◌, suc, eq_iff, ◌≡◌, refl, sym, ap, subst, ◌∙◌, List, [], ◌∷◌, Option, none, All, any, arith,
  length, Bool-cases, Option-cases, inl, inr,
}
use nora_relay.Store.{StoreError}
use nora_relay.Sqlite.{KeyRow, Database, Json, Engine, is_taken, upsert, exec}
use nora_relay.Sqlite.Keyed.{id_of, IsKeyed, upsert-IsKeyed}
use nora_relay.Sqlite.Table.{any_sound, update_same}
use nora_relay.Migrate.{
  KeySource, Scan, Migrated, row, unreadable, values_of, set_values, copy_key, migrate_api_keys,
}
use nora_relay.Migrate.Copies.{IsPrimary, HasRow, copied, migrate_api_keys-Complete}

-- The row was read, on an engine that answers.
abbrev HasRun : Engine × Scan KeySource → Type 0
HasRun (engine, unreadable e) = ⊥
HasRun (engine, row source) = engine.failure ≡ none

module _ (json : Json) where
  -- A copy of a row that the destination has.
  copy_key-same :
      (engine : Engine) (source : KeySource) (db : Database)
      → engine.failure ≡ none
      → IsKeyed db.api_keys
      → HasRow json db (engine, row source)
      → copy_key json engine source db ≡ (db, none)
  unfolding copy_key upsert
  copy_key-same engine source db up keyed there =
      let new = values_of json source in
      elim (Bool-cases (any (is_taken new.id new.key_hash) db.api_keys)) [
        | inl taken ↦
            let (x, e, good) =
              any_sound KeyRow id_of (is_taken new.id new.key_hash) db.api_keys keyed.once taken in
            absurd (
              ground (
                arith,
                keyed.hashes x.id new.id new.key_hash,
                eq_iff x.key_hash new.key_hash,
                eq_iff x.id new.id,
              ))
        | inr free ↦
            rw (up, free, there, exec, upsert)
              (rw
                (update_same KeyRow id_of (set_values json new) db.api_keys new.id new keyed.once
                  there refl)
                refl)
      ]

  repeated :
      (rows : List (Engine × Scan KeySource)) (end : Option StoreError) (n : ℕ) (db : Database)
      → IsKeyed db.api_keys
      → All HasRun rows
      → All (HasRow json db) rows
      → migrate_api_keys json rows end n db ≡ (n + length rows, end, db)
  unfolding migrate_api_keys
  repeated [] end n db keyed ran there = ground arith
  repeated ((engine, unreadable e) ∷ rows) end n db keyed ran there = absurd (ran.0)
  repeated ((engine, row source) ∷ rows) end n db keyed ran there =
      let same = copy_key-same engine source db ran.0 keyed there.0 in
      let none_failed : (copy_key json engine source db).1 ≡ none = ap (λ p. p.1) same in
      let step : migrate_api_keys json ((engine, row source) ∷ rows) end n db
          ≡ migrate_api_keys json rows end (suc n) (copy_key json engine source db).0 =
        rw (none_failed, migrate_api_keys) refl in
      step
      ∙ ap (λ p. migrate_api_keys json rows end (suc n) p.0) same
      ∙ repeated rows end (suc n) db keyed ran.1 there.1
      ∙ ground arith

  -- What a migration without an error tells of the engines and the rows.
  abbrev Ended : List (Engine × Scan KeySource) → Option StoreError → Migrated → Type 0
  Ended rows end (n, err, db') = IsKeyed db'.api_keys × All HasRun rows × (end ≡ none)

  ended :
      (rows : List (Engine × Scan KeySource)) (end : Option StoreError) (n : ℕ) (db : Database)
      → IsKeyed db.api_keys
      → (migrate_api_keys json rows end n db).1 ≡ none
      → Ended rows end (migrate_api_keys json rows end n db)
  unfolding migrate_api_keys
  ended [] end n db keyed e = (keyed, tt, e)
  ended ((engine, unreadable err) ∷ rows) end n db keyed e = cc
  ended ((engine, row source) ∷ rows) end n db keyed e =
      let (db', err) = copy_key json engine source db in
      elim (Option-cases err) [
        | inr (error, failed_here) ↦ absurd (ground (arith, failed_here))
        | inl ran ↦
            let c = copied json engine source db ran in
            let new = values_of json source in
            let keyed' =
              upsert-IsKeyed db.api_keys (set_values json new) (λ x. refl) new (λ x. refl) c.free
                keyed in
            let (last, all, done) =
              ended rows end (suc n) db'
                (subst (λ (d : Database). IsKeyed d.api_keys) (sym c.after) keyed')
                (ground (arith, ran)) in
            let step : migrate_api_keys json ((engine, row source) ∷ rows) end n db
                ≡ migrate_api_keys json rows end (suc n) db' =
              rw (ran, migrate_api_keys) refl in
            subst (Ended ((engine, row source) ∷ rows) end) (sym step) (last, (c.ran, all), done)
      ]

  -- A migration of the keys that returned no error can be run again on its own result, with the
  -- same rows and engines that answer as they did: it counts the rows again, returns no error, and
  -- changes nothing. An id stands once in the source, and the destination satisfies its constraints.
  pub migrate_api_keys-twice :
      (rows : List (Engine × Scan KeySource)) (end : Option StoreError) (n m : ℕ) (db : Database)
      → IsPrimary rows
      → IsKeyed db.api_keys
      → (migrate_api_keys json rows end n db).1 ≡ none
      → let db' = (migrate_api_keys json rows end n db).2 in
        migrate_api_keys json rows end m db' ≡ (m + length rows, none, db')
  migrate_api_keys-twice rows end n m db primary keyed e =
      let (keyed', ran, done) = ended rows end n db keyed e in
      let (counted, (all, others)) = migrate_api_keys-Complete json rows end n db primary e in
      repeated rows end m _ keyed' ran all ∙ rw (done) refl
