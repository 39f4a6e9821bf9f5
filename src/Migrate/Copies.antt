-- ===== src/Migrate/Copies.antt =====
-- cmd/migrate/main.go: what a migration without an error has done to the keys.
use nora_relay.Base.{
  ℕ, ◌+◌, suc, String, ◌==◌, eq_iff, eq_refl, ◌≡◌, refl, sym, subst, ◌∙◌, Bool, false, List, [],
  ◌∷◌, Option, none, some, All, any, arith, length, if◌then◌else◌, Bool-cases, Option-cases, inl,
  inr,
}
use nora_relay.Store.{StoreError}
use nora_relay.Sqlite.{Database, Json, Engine, has_id, is_taken, upsert, exec}
use nora_relay.Sqlite.Keyed.{find-upsert}
use nora_relay.Sqlite.Table.{find, find_sound}
use nora_relay.Migrate.{
  KeySource, Scan, Migrated, row, unreadable, values_of, set_values, copy_key, migrate_api_keys,
}

-- The row that was read has this id.
abbrev pub names : String → Engine × Scan KeySource → Bool
names id (engine, unreadable e) = false
names id (engine, row source) = source.id == id

-- The id is a primary key of the source.
abbrev pub IsPrimary : List (Engine × Scan KeySource) → Type 0
IsPrimary [] = Unit
IsPrimary ((engine, unreadable e) ∷ rows) = IsPrimary rows
IsPrimary ((engine, row source) ∷ rows) = (any (names source.id) rows ≡ false) × IsPrimary rows

module _ (json : Json) where
  -- A statement that succeeds ran, on a hash that no other row has.
  pub record Copied (engine : Engine) (source : KeySource) (db db' : Database) : Type 0 where
    pub ran : engine.failure ≡ none
    pub free : any (is_taken source.id source.key_hash) db.api_keys ≡ false
    pub after : db' ≡ record db {
      api_keys =
          upsert (values_of json source) (set_values json (values_of json source)) db.api_keys;
    }

  pub copied :
      (engine : Engine) (source : KeySource) (db : Database)
      → (copy_key json engine source db).1 ≡ none
      → Copied engine source db (copy_key json engine source db).0
  unfolding copy_key
  copied engine source db e = elim (Option-cases engine.failure) [
    | inr (text, down) ↦ absurd (ground (arith, down))
    | inl up ↦ elim (Bool-cases (any (is_taken source.id source.key_hash) db.api_keys)) [
      | inl taken ↦ absurd (ground (arith, up, taken))
      | inr free ↦ record { ran = up; free = free; after = rw (up, free, exec) refl }
    ]
  ]

  -- The row of an id after a copy: the id of an old row is the one it was found by.
  pub find-Copied :
      (engine : Engine) (source : KeySource) (db db' : Database) (j : String)
      → Copied engine source db db'
      → find (has_id j) db'.api_keys
        ≡ (if source.id == j then some (values_of json source) else find (has_id j) db.api_keys)
  find-Copied engine source db db' j c =
      let new = values_of json source in
      let g = set_values json new in
      elim (Option-cases (find (has_id source.id) db.api_keys)) [
        | inl absent ↦
            rw (c.after, find-upsert db.api_keys g (λ x. refl) new j, absent) (ground arith)
        | inr (x, old) ↦
            rw (c.after, find-upsert db.api_keys g (λ x. refl) new j, old)
              (ground
                (arith, find_sound (has_id source.id) db.api_keys x old, eq_iff x.id source.id))
      ]

  -- The source's rows that were read.
  abbrev pub HasRow : Database → Engine × Scan KeySource → Type 0
  HasRow db (engine, unreadable e) = ⊥
  HasRow db (engine, row source) =
      find (has_id source.id) db.api_keys ≡ some (values_of json source)

  abbrev pub Complete : List (Engine × Scan KeySource) → Database → Database → Type 0
  Complete rows db db' =
      All (HasRow db') rows
      × ((id : String)
          → any (names id) rows ≡ false
          → find (has_id id) db'.api_keys ≡ find (has_id id) db.api_keys)

  abbrev pub Outcome : List (Engine × Scan KeySource) → ℕ → Database → Migrated → Type 0
  Outcome rows n db (count, err, db') = (count ≡ n + length rows) × Complete rows db db'

  -- If the migration of the keys returns no error, every row of the source was counted, and its key is in
  -- the destination with its owner, hash and origins; the keys whose ids the source does not
  -- have are as they were. An id stands once in the source.
  pub migrate_api_keys-Complete :
      (rows : List (Engine × Scan KeySource)) (end : Option StoreError) (n : ℕ) (db : Database)
      → IsPrimary rows
      → (migrate_api_keys json rows end n db).1 ≡ none
      → Outcome rows n db (migrate_api_keys json rows end n db)
  unfolding migrate_api_keys any
  migrate_api_keys-Complete [] end n db primary e = (omega arith, (tt, λ id absent. refl))
  migrate_api_keys-Complete ((engine, unreadable err) ∷ rows) end n db primary e = cc
  migrate_api_keys-Complete ((engine, row source) ∷ rows) end n db primary e =
      let (db', err) = copy_key json engine source db in
      elim (Option-cases err) [
        | inr (error, failed_here) ↦ absurd (ground (arith, failed_here))
        | inl ran ↦
            let c = copied engine source db ran in
            let (counted, (all, others)) =
              migrate_api_keys-Complete rows end (suc n) db' primary.1 (ground (arith, ran)) in
            let same : migrate_api_keys json ((engine, row source) ∷ rows) end n db
                ≡ migrate_api_keys json rows end (suc n) db' =
              rw (ran, migrate_api_keys) refl in
            subst (Outcome ((engine, row source) ∷ rows) n db) (sym same) (
              omega (arith, counted),
              (
                (
                  others source.id primary.0
                      ∙ find-Copied engine source db db' source.id c
                      ∙ rw (eq_refl source.id) refl,
                  all,
                ),
                λ id absent. ground (arith, others id, find-Copied engine source db db' id c),
              ),
            )
      ]
