-- ===== src/Sqlite.antt =====
-- cmd/relay/store_sqlite.go: sqliteStore. A table is the list of its rows, and each statement is what it
-- does to the rows; created_at and updated_at, which are never read, are left out. The engine
-- (modernc.org/sqlite) is one answer for each call: it runs the statement or fails with a text.
pub mod Table
pub mod Keyed
pub mod Refinement
pub mod Upserts
pub mod Interchange
pub mod Sample
pub mod Opening
mod Tests
use nora_relay.Base.{
  ℕ, ℤ, leb_ℤ, String, ◌==◌, Bool, false, true, not, ◌&&◌, List, [], ◌∷◌, ◌++◌, Option, none, some,
  if◌then◌else◌, any, nat_eq,
}
use nora_relay.Store.{
  ApiKey, PolicyBlob, StoreError, not_found, failed, Resolved, found, missing, Store,
}
use nora_relay.Store.Memory.{hash_secret}
use nora_relay.Sqlite.Table.{find, update, delete, affected}

-- A row of api_keys, with the origins as the text of the column.
pub record KeyRow : Type 0 where
  pub id : String
  pub owner_account : String
  pub key_hash : String
  pub allowed_origins : String

pub record PolicyRow : Type 0 where
  pub account : String
  pub version : ℤ
  pub blob : List ℕ

pub record Database : Type 0 where
  pub api_keys : List KeyRow
  pub policy_blobs : List PolicyRow

-- A database with the schema and no row.
abbrev pub new_database : Database
new_database = record { api_keys = []; policy_blobs = [] }

-- encoding/json on []string: Marshal, the text of its error, and Unmarshal.
pub record Json : Type 0 where
  pub marshal : List String → Option String
  pub marshal_error : String
  pub unmarshal : String → Option (List String)

-- The engine: the failure that it answers calls with, if any, and the text of the error for a value that
-- another row has in a UNIQUE column.
pub record Engine : Type 0 where
  pub failure : Option String
  pub unique_violation : String

-- WHERE id=?
abbrev pub has_id : String → KeyRow → Bool
has_id id row = row.id == id

-- WHERE id=? AND owner_account=?
abbrev pub is_owned : (id owner : String) → KeyRow → Bool
is_owned id owner row = row.id == id && row.owner_account == owner

-- WHERE key_hash=?
abbrev pub has_hash : String → KeyRow → Bool
has_hash hash row = row.key_hash == hash

-- Another row has the hash, so that UNIQUE refuses it for this id.
abbrev pub is_taken : (id hash : String) → KeyRow → Bool
is_taken id hash row = row.key_hash == hash && not (row.id == id)

-- WHERE account=?
abbrev pub of_account : String → PolicyRow → Bool
of_account account row = row.account == account

-- INSERT … ON CONFLICT(id) DO UPDATE SET …, where the update sets what `set` does.
unfoldable pub upsert : KeyRow → (set : KeyRow → KeyRow) → List KeyRow → List KeyRow
upsert new set rows = elim (find (has_id new.id) rows) [
  | some _ ↦ update (has_id new.id) set rows
  | none ↦ rows ++ new ∷ []
]

-- A new row has no origins; an old one keeps its own.
abbrev pub upsert_key : (id owner hash : String) → List KeyRow → List KeyRow
upsert_key id owner hash =
    upsert (record { id = id; owner_account = owner; key_hash = hash; allowed_origins = "[]" })
      (λ row. record row { owner_account = owner; key_hash = hash })

-- INSERT … ON CONFLICT(account) DO UPDATE … WHERE excluded.version > policy_blobs.version
unfoldable pub upsert_policy : PolicyRow → List PolicyRow → List PolicyRow
upsert_policy new rows = elim (find (of_account new.account) rows) [
  | some _ ↦
      update (λ row. of_account new.account row && not (leb_ℤ new.version row.version))
        (λ row. record row { version = new.version; blob = new.blob }) rows
  | none ↦ rows ++ new ∷ []
]

module _ (json : Json) where
  unfoldable pub decode_origins : String → List String
  decode_origins s =
      if s == ""
      then []
      else if s == "[]"
      then []
      else elim (json.unmarshal s) [ none ↦ [] | some origins ↦ origins ]

  abbrev pub key_of : KeyRow → ApiKey
  key_of row = record {
    id = row.id;
    owner_account = row.owner_account;
    allowed_origins = decode_origins row.allowed_origins;
  }

-- RowsAffected, and the error for none.
abbrev pub unless_none : ℕ → Option StoreError
unless_none n = if nat_eq n 0 then some not_found else none

module _ (engine : Engine) where
  -- One ExecContext: nothing is written if the engine fails.
  unfoldable pub exec : Database → Database × Option StoreError → Database × Option StoreError
  exec db result = elim engine.failure [ some text ↦ (db, some (failed text)) | none ↦ result ]

  unfoldable pub register_api_key :
      Database → (key_id owner_account hash : String) → Database × Option StoreError
  unfolding exec
  register_api_key db key_id owner hash = exec db (
      if any (is_taken key_id hash) db.api_keys
      then (db, some (failed engine.unique_violation))
      else (record db { api_keys = upsert_key key_id owner hash db.api_keys }, none))

  unfoldable pub rebind_api_key :
      Database → (key_id old_account new_account : String) → Database × Option StoreError
  unfolding exec
  rebind_api_key db key_id old new = exec db (
      let where_owned = is_owned key_id old in
      (
        record db {
          api_keys = update where_owned (λ row. record row { owner_account = new }) db.api_keys;
        },
        unless_none (affected where_owned db.api_keys),
      ))

  unfoldable pub revoke_api_key :
      Database → (owner_account id : String) → Database × Option StoreError
  unfolding exec
  revoke_api_key db owner id = exec db (
    record db { api_keys = delete (is_owned id owner) db.api_keys },
    unless_none (affected (is_owned id owner) db.api_keys),
  )

  unfoldable pub put_policy :
      Database → (account : String) → ℤ → List ℕ → Database × Option StoreError
  unfolding exec upsert_policy
  put_policy db account version blob = exec db (
    record db {
      policy_blobs =
          upsert_policy (record { account = account; version = version; blob = blob })
            db.policy_blobs;
    },
    none,
  )

  unfoldable pub get_policy : Database → String → Option PolicyBlob × Option StoreError
  get_policy db account = elim engine.failure [
    | some text ↦ (none, some (failed text))
    | none ↦ elim (find (of_account account) db.policy_blobs) [
      | none ↦ (none, none)
      | some row ↦ (some (record { version = row.version; blob = row.blob }), none)
    ]
  ]

  module _ (json : Json) where
    unfoldable pub update_key_origins :
        Database → (key_id owner_account : String) → List String → Database × Option StoreError
    unfolding exec
    update_key_origins db key_id owner origins = elim (json.marshal origins) [
      | none ↦ (db, some (failed json.marshal_error))
      | some text ↦ exec db (
        record db {
          api_keys =
              update (is_owned key_id owner) (λ row. record row { allowed_origins = text })
                db.api_keys;
        },
        unless_none (affected (is_owned key_id owner) db.api_keys),
      )
    ]

    -- WHERE allowed_origins <> '[]', and the loop over the rows.
    abbrev pub allows : String → KeyRow → Bool
    allows origin row =
        not (row.allowed_origins == "[]")
        && any (λ o. o == origin) (decode_origins json row.allowed_origins)

    unfoldable pub origin_allowed : Database → String → Bool × Option StoreError
    origin_allowed db origin = elim engine.failure [
      | some text ↦ (false, some (failed text))
      | none ↦ (any (allows origin) db.api_keys, none)
    ]

    unfoldable pub resolve_api_key :
        (sha256 : List ℕ → List ℕ) → Database → (plaintext : String) → Resolved
    resolve_api_key sha256 db plaintext = elim engine.failure [
      | some text ↦ missing (failed text)
      | none ↦ elim (find (has_hash (hash_secret sha256 plaintext)) db.api_keys) [
        | none ↦ missing not_found
        | some row ↦ found (key_of json row)
      ]
    ]

    abbrev pub sqlite_store : (sha256 : List ℕ → List ℕ) → Store Database
    sqlite_store sha256 = record {
      register_api_key = register_api_key;
      revoke_api_key = revoke_api_key;
      resolve_api_key = resolve_api_key sha256;
      rebind_api_key = rebind_api_key;
      update_key_origins = update_key_origins;
      origin_allowed = origin_allowed;
      put_policy = put_policy;
      get_policy = get_policy;
    }
