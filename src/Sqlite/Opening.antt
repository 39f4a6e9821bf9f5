-- ===== src/Sqlite/Opening.antt =====
-- cmd/relay/store_sqlite.go: newSQLiteStore. The driver is its answer to sql.Open and to each ExecContext, an
-- error text or nothing; the file is the database that it holds, if it has the tables.
use Prim.Native.String.{◌++◌}
use nora_relay.Base.{String, List, [], ◌∷◌, Option, none, some}
use nora_relay.Sqlite.{Database, new_database}

pub data Statement : Type 0 where
  pragma : String → Statement
  -- sqliteSchema
  schema : Statement

abbrev pub pragmas : List String
pragmas = "PRAGMA journal_mode=WAL" ∷ "PRAGMA busy_timeout=5000" ∷ "PRAGMA foreign_keys=ON" ∷ []

-- (*sqliteStore, nil) or an error by its text
pub data Opened : Type 0 where
  opened : Database → Opened
  closed : String → Opened

-- CREATE TABLE IF NOT EXISTS keeps the tables that are there.
abbrev pub with_schema : Option Database → Database
with_schema none = new_database
with_schema (some db) = db

module _ (exec : Statement → Option String) where
  -- The loop over the pragmas: the first that fails, in the words of fmt.Errorf.
  unfoldable pub run_pragmas : List String → Option String
  run_pragmas [] = none
  run_pragmas (text ∷ rest) =
      let others = run_pragmas rest in
      elim (exec (pragma text)) [
        | some err ↦ some ("relay: sqlite pragma \"" ++ text ++ "\": " ++ err)
        | none ↦ others
      ]

  unfoldable pub new_sqlite_store : (open_error : Option String) → (file : Option Database) → Opened
  unfolding run_pragmas
  new_sqlite_store open_error file = elim open_error [
    | some text ↦ closed ("relay: opening sqlite: " ++ text)
    | none ↦ elim (run_pragmas pragmas) [
      | some text ↦ closed text
      | none ↦ elim (exec schema) [
        | some text ↦ closed ("relay: applying sqlite schema: " ++ text)
        | none ↦ opened (with_schema file)
      ]
    ]
  ]
