-- ===== src/Migrate.antt =====
-- cmd/migrate/main.go: the copy of a Postgres database into SQLite. What pgx gives is the argument: the rows,
-- each as `Scan` reads it, and the error that ends them. The engine of the destination answers each
-- statement, so that it can fail on any of them; updated_at is left out.
pub mod Copies
pub mod Keys
pub mod Repeat
pub mod Main
mod Tests
use nora_relay.Base.{
  ℕ, ℤ, ◌+◌, suc, String, ◌==◌, Bool, List, [], ◌∷◌, Option, none, some, if◌then◌else◌, any,
}
use nora_relay.Store.{StoreError, failed}
use nora_relay.Sqlite.{
  KeyRow, PolicyRow, Database, Json, Engine, is_taken, upsert, upsert_policy, exec,
}

-- A row of the source's api_keys, with NULL for no origins.
pub record KeySource : Type 0 where
  pub id : String
  pub owner_account : String
  pub key_hash : String
  pub allowed_origins : Option (List String)

-- rows.Scan
pub data Scan (A : Type 0) : Type 0 where
  row : A → Scan A
  unreadable : StoreError → Scan A

-- How many rows were copied, the error, and the destination.
abbrev pub Migrated : Type 0
Migrated = ℕ × Option StoreError × Database

abbrev pub text_or_empty : Option String → String
text_or_empty none = ""
text_or_empty (some text) = text

abbrev origins_or_empty : Option (List String) → List String
origins_or_empty none = []
origins_or_empty (some origins) = origins

module _ (json : Json) where
  -- The values of the INSERT. The error of Marshal is dropped.
  abbrev pub values_of : KeySource → KeyRow
  values_of source = record {
    id = source.id;
    owner_account = source.owner_account;
    key_hash = source.key_hash;
    allowed_origins = text_or_empty (json.marshal (origins_or_empty source.allowed_origins));
  }

  -- DO UPDATE SET owner_account, key_hash, allowed_origins
  abbrev pub set_values : KeyRow → KeyRow → KeyRow
  set_values new old = record old {
    owner_account = new.owner_account;
    key_hash = new.key_hash;
    allowed_origins = new.allowed_origins;
  }

  unfoldable pub copy_key : Engine → KeySource → Database → Database × Option StoreError
  unfolding exec
  copy_key engine source db =
      let new = values_of source in
      exec engine db (
        if any (is_taken new.id new.key_hash) db.api_keys
        then (db, some (failed engine.unique_violation))
        else (record db { api_keys = upsert new (set_values new) db.api_keys }, none))

  -- The loop, with `n` rows copied so far.
  unfoldable pub migrate_api_keys :
      List (Engine × Scan KeySource) → (end : Option StoreError) → (n : ℕ) → Database → Migrated
  migrate_api_keys [] end n db = (n, end, db)
  migrate_api_keys ((engine, unreadable e) ∷ rows) end n db = (n, some e, db)
  migrate_api_keys ((engine, row source) ∷ rows) end n db =
      let (db', err) = copy_key engine source db in
      elim err [ some e ↦ (n, some e, db') | none ↦ migrate_api_keys rows end (suc n) db' ]

unfoldable pub copy_blob : Engine → PolicyRow → Database → Database × Option StoreError
unfolding exec
copy_blob engine source db =
    exec engine db (record db { policy_blobs = upsert_policy source db.policy_blobs }, none)

unfoldable pub migrate_policy_blobs :
    List (Engine × Scan PolicyRow) → (end : Option StoreError) → (n : ℕ) → Database → Migrated
migrate_policy_blobs [] end n db = (n, end, db)
migrate_policy_blobs ((engine, unreadable e) ∷ rows) end n db = (n, some e, db)
migrate_policy_blobs ((engine, row source) ∷ rows) end n db =
    let (db', err) = copy_blob engine source db in
    elim err [ some e ↦ (n, some e, db') | none ↦ migrate_policy_blobs rows end (suc n) db' ]
