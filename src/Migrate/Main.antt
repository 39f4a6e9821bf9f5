-- ===== src/Migrate/Main.antt =====
-- cmd/migrate/main.go: main. Each step that can fail is the text of its error, or nothing.
use Prim.Native.String.{◌++◌}
use nora_relay.Base.{
  ℕ, suc, ◌≡◌, refl, ap, ◌∙◌, sym, subst, String, ◌==◌, ◌||◌, List, [], ◌∷◌, Option, Option-cases,
  Bool-cases, inl, inr, length, All, none, some, if◌then◌else◌, arith,
}
use nora_relay.Store.{StoreError, message}
use nora_relay.Sqlite.{PolicyRow, Database, Json, Engine, has_id}
use nora_relay.Sqlite.Table.{find}
use nora_relay.Migrate.{
  KeySource, Scan, Migrated, row, unreadable, copy_blob, migrate_api_keys, migrate_policy_blobs,
}
use nora_relay.Sqlite.Refinement.{IsFaithful}
use nora_relay.Migrate.Keys.{HasKeys, HasRow-HasKey}
use nora_relay.Migrate.Copies.{IsPrimary, HasRow, Complete, migrate_api_keys-Complete}

-- pool.Query: an error, or the rows with the error that ends them.
pub data Answer (A : Type 0) : Type 0 where
  refused : StoreError → Answer A
  rows : List (Engine × Scan A) → (end : Option StoreError) → Answer A

-- What the two databases answer. `connect` is pgxpool.New and `open` is sql.Open.
pub record Sides : Type 0 where
  pub connect : Option String
  pub ping : Option String
  pub open_sqlite : Option String
  pub wal : Option String
  pub schema : Option String
  pub keys : Answer KeySource
  pub blobs : Answer PolicyRow

-- How main ends: log.Fatal, or the line with the counts.
pub data Exit : Type 0 where
  fatal : String → Exit
  done : (keys blobs : ℕ) → Exit

unfoldable pub query_keys : Json → Answer KeySource → Database → Migrated
query_keys json (refused e) db = (0, some e, db)
query_keys json (rows rs end) db = migrate_api_keys json rs end 0 db

unfoldable pub query_blobs : Answer PolicyRow → Database → Migrated
query_blobs (refused e) db = (0, some e, db)
query_blobs (rows rs end) db = migrate_policy_blobs rs end 0 db

-- What main says of the two migrations: the first error, or the counts.
unfoldable pub report : (keys blobs : Migrated) → Exit × Database
report (n, some e, db') (m, err', db'') = (fatal ("migrate api_keys: " ++ message e), db')
report (n, none, db') (m, some e, db'') = (fatal ("migrate policy_blobs: " ++ message e), db'')
report (n, none, db') (m, none, db'') = (done n m, db'')

-- The two migrations, one after the other.
unfoldable pub migrate_both : Json → Sides → Database → Exit × Database
unfolding report
migrate_both json sides db =
    let keys = query_keys json sides.keys db in report keys (query_blobs sides.blobs keys.2)

-- The first of the steps that fails, with its name.
unfoldable pub first_error : List (String × Option String) → Option String
first_error [] = none
first_error ((name, err) ∷ steps) =
    let rest = first_error steps in
    elim err [ some text ↦ some (name ++ ": " ++ text) | none ↦ rest ]

abbrev pub steps : Sides → List (String × Option String)
steps sides =
    ("connect postgres", sides.connect)
    ∷ ("ping postgres", sides.ping)
    ∷ ("open sqlite", sides.open_sqlite)
    ∷ ("sqlite wal", sides.wal)
    ∷ ("sqlite schema", sides.schema)
    ∷ []

unfoldable pub main : Json → (pg_url sqlite_path : String) → Sides → Database → Exit × Database
unfolding migrate_both first_error
main json pg_url sqlite_path sides db =
    if pg_url == "" || sqlite_path == ""
    then (fatal "set both DATABASE_URL (source) and SQLITE_PATH (destination)", db)
    else elim (first_error (steps sides)) [
      | some text ↦ (fatal text, db)
      | none ↦ migrate_both json sides db
    ]

-- Blobs leave the keys alone.
api_keys-migrate_policy_blobs :
    (rs : List (Engine × Scan PolicyRow)) (end : Option StoreError) (n : ℕ) (db : Database)
    → (migrate_policy_blobs rs end n db).2.api_keys ≡ db.api_keys
unfolding migrate_policy_blobs copy_blob
api_keys-migrate_policy_blobs [] end n db = refl
api_keys-migrate_policy_blobs ((engine, unreadable e) ∷ rs) end n db = refl
api_keys-migrate_policy_blobs ((engine, row source) ∷ rs) end n db =
    elim (Option-cases engine.failure) [
      | inr (text, down) ↦ ground (arith, down)
      | inl up ↦
          ground
            (arith, up, api_keys-migrate_policy_blobs rs end (suc n) (copy_blob engine source db).0)
    ]

api_keys-query_blobs :
    (answer : Answer PolicyRow) (db : Database) → (query_blobs answer db).2.api_keys ≡ db.api_keys
unfolding query_blobs
api_keys-query_blobs (refused e) db = refl
api_keys-query_blobs (rows rs end) db = api_keys-migrate_policy_blobs rs end 0 db

record Ended (keys blobs : Migrated) (n : ℕ) : Type 0 where
  no_error : keys.1 ≡ none
  counted : keys.0 ≡ n
  last : (report keys blobs).1 ≡ blobs.2

report-Ended :
    (keys blobs : Migrated) (n m : ℕ) → (report keys blobs).0 ≡ done n m → Ended keys blobs n
unfolding report
report-Ended (k, some e, db') (l, err', db'') n m h = ground arith
report-Ended (k, none, db') (l, some e, db'') n m h = ground arith
report-Ended (k, none, db') (l, none, db'') n m h = record {
  no_error = refl;
  counted = ground (arith, h);
  last = refl;
}

-- The rows of the source depend on the keys of a database only.
All-HasRow :
    (json : Json) (rs : List (Engine × Scan KeySource)) (a b : Database)
    → b.api_keys ≡ a.api_keys
    → All (HasRow json a) rs
    → All (HasRow json b) rs
All-HasRow json [] a b same h = tt
All-HasRow json ((engine, unreadable e) ∷ rs) a b same (h, hs) = absurd h
All-HasRow json ((engine, row source) ∷ rs) a b same (h, hs) =
    (ap (λ ks. find (has_id source.id) ks) same ∙ h, All-HasRow json rs a b same hs)

module _ (json : Json) (sides : Sides) (db : Database) where
  -- The keys after both migrations have ended without an error.
  both-done :
      (rs : List (Engine × Scan KeySource)) (end : Option StoreError) (n m : ℕ)
      → sides.keys ≡ rows rs end
      → IsPrimary rs
      → (migrate_both json sides db).0 ≡ done n m
      → (n ≡ length rs) × Complete json rs db (migrate_both json sides db).1
  unfolding migrate_both query_keys
  both-done rs end n m keys primary e =
      let keys_of = query_keys json sides.keys db in
      let ended = report-Ended keys_of (query_blobs sides.blobs keys_of.2) n m e in
      let ran : keys_of ≡ migrate_api_keys json rs end 0 db = ap (λ k. query_keys json k db) keys in
      let found =
        migrate_api_keys-Complete json rs end 0 db primary
          (sym (ap (λ q. q.1) ran) ∙ ended.no_error) in
      let same : (migrate_both json sides db).1.api_keys
          ≡ (migrate_api_keys json rs end 0 db).2.api_keys =
        ap (λ d. d.api_keys) ended.last
        ∙ api_keys-query_blobs sides.blobs keys_of.2
        ∙ ap (λ q. q.2.api_keys) ran in
      (
        sym ended.counted ∙ ap (λ q. q.0) ran ∙ found.0 ∙ omega arith,
        (
          All-HasRow json rs (migrate_api_keys json rs end 0 db).2 (migrate_both json sides db).1
              same found.1.0,
          λ id other. ap (λ ks. find (has_id id) ks) same ∙ found.1.1 id other,
        ),
      )

  -- When the program reports that it is done, with `n` keys, an id stands once in the source, and every list of
  -- origins can be encoded and is read back as it was: `n` is the number of the source's rows; every key of the source
  -- is in the destination with its owner and its hash, and sqliteStore reads the origins of the source from it, none
  -- for NULL; and the other keys of the destination are as they were before.
  pub main-Complete :
      (pg_url sqlite_path : String) (rs : List (Engine × Scan KeySource)) (end : Option StoreError)
      (n m : ℕ)
      → IsFaithful json
      → sides.keys ≡ rows rs end
      → IsPrimary rs
      → (main json pg_url sqlite_path sides db).0 ≡ done n m
      → (n ≡ length rs) × HasKeys json rs db (main json pg_url sqlite_path sides db).1
  unfolding main
  main-Complete pg_url sqlite_path rs end n m faithful keys primary e =
      elim (Bool-cases (pg_url == "" || sqlite_path == "")) [
        | inl unset ↦ ground (arith, unset)
        | inr set ↦ elim (Option-cases (first_error (steps sides))) [
          | inr (text, stopped) ↦ ground (arith, set, stopped)
          | inl ready ↦
              let same : main json pg_url sqlite_path sides db ≡ migrate_both json sides db =
                ground (arith, set, ready) in
              let (counted, (copied, others)) =
                both-done rs end n m keys primary (ap (λ r. r.0) (sym same) ∙ e) in
              subst (λ (r : Exit × Database). (n ≡ length rs) × HasKeys json rs db r.1) (sym same)
                (
                  counted,
                  (HasRow-HasKey json faithful (migrate_both json sides db).1 rs copied, others),
                )
        ]
      ]
