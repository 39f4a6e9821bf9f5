-- ===== src/Migrate/Tests.antt =====
-- The migration at concrete inputs: two keys and a policy.
use nora_relay.Base.{pos, String, ◌≡◌, refl, any, List, [], ◌∷◌, Option, none, some, length}
use nora_relay.Store.{failed}
use nora_relay.Sqlite
use nora_relay.Sqlite.{Database, new_database, Engine}
use nora_relay.Sqlite.Keyed.{IsKeyed}
use nora_relay.Sqlite.Table.{find, update}
use nora_relay.Sqlite.Refinement.{running}
use nora_relay.Sqlite.Sample.{slashed, slashed-IsFaithful}
use nora_relay.Migrate.{
  KeySource, Scan, row, Migrated, copy_key, migrate_api_keys, copy_blob, migrate_policy_blobs,
}
use nora_relay.Migrate.Main.{Sides, Exit, rows, main, query_keys, query_blobs, main-Complete}
use nora_relay.Migrate.Keys.{HasKeys}

abbrev source : String → String → Option (List String) → Engine × Scan KeySource
source id hash origins = (
  running "unique",
  row (record { id = id; owner_account = "nano_1"; key_hash = hash; allowed_origins = origins }),
)

abbrev sources : List (Engine × Scan KeySource)
sources = source "k1" "h1" (some ("https://a" ∷ [])) ∷ source "k2" "h2" none ∷ []

migrated : Migrated
unfolding migrate_api_keys copy_key Sqlite.upsert find update any migrate_policy_blobs copy_blob
    Sqlite.upsert_policy
migrated = migrate_api_keys slashed sources none 0 new_database

two_copied : (migrated.0 ≡ 2) × (migrated.1 ≡ none)
unfolding migrated
two_copied = (refl, refl)

-- A second key with the hash of the first stops the migration.
stops_at_conflict :
    (migrate_api_keys slashed
      (source "k1" "h1" none ∷ source "k2" "h1" none ∷ [])
      none
      0
      new_database).1
    ≡ some (failed "unique")
unfolding migrated
stops_at_conflict = refl

newer_blob_stays :
    (migrate_policy_blobs
      ((running "", row (record { account = "nano_1"; version = pos 1; blob = 7 ∷ [] })) ∷ [])
      none
      0
      (record new_database {
        policy_blobs = record { account = "nano_1"; version = pos 2; blob = 8 ∷ [] } ∷ [];
      })).2.policy_blobs
    ≡ record { account = "nano_1"; version = pos 2; blob = 8 ∷ [] } ∷ []
unfolding migrated
newer_blob_stays = refl

new-IsKeyed : IsKeyed []
unfolding find
new-IsKeyed = record { once = tt; hashes = λ i j h ei ej. cc }

abbrev sides : Sides
sides = record {
  connect = none;
  ping = none;
  open_sqlite = none;
  wal = none;
  schema = none;
  keys = rows sources none;
  blobs =
      rows ((running "", row (record { account = "nano_1"; version = pos 1; blob = 7 ∷ [] })) ∷ [])
        none;
}

run_main : Exit × Database
unfolding main query_keys query_blobs migrated
run_main = main slashed "postgres://source" "relay.db" sides new_database

main-Complete_example : (2 ≡ length sources) × HasKeys slashed sources new_database run_main.1
unfolding run_main
main-Complete_example =
    main-Complete slashed sides new_database "postgres://source" "relay.db" sources none 2 1
      slashed-IsFaithful refl (refl, (refl, tt)) refl
