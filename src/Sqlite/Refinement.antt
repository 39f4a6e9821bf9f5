-- ===== src/Sqlite/Refinement.antt =====
-- cmd/relay/store_sqlite.go: each statement of sqliteStore against the contract of `Store`.
use nora_relay.Base.{
  String, ◌==◌, eq_iff, ◌≡◌, ◌≢◌, List, [], Option, none, some, arith, any, Bool-eq, Option-cases,
  inl, inr,
}
use nora_relay.Base.Map
use nora_relay.Base.Map.{any_value_sound, any_value_complete}
use nora_relay.Store.{StoreError, PolicyBlob, failed}
use nora_relay.Store.Registry
use nora_relay.Store.Registry.{Row, Registry, conflict, change}
use nora_relay.Store.Registry.Effects.{rows-change, policies-change, row_refusal}
use nora_relay.Sqlite.{
  KeyRow, PolicyRow, Database, Json, Engine, has_id, is_owned, is_taken, of_account, decode_origins,
  unless_none,
}
use nora_relay.Sqlite.Keyed.{
  id_of, IsKeyed, update-IsKeyed, delete-IsKeyed, find-update_owned, find-delete_owned,
}
use nora_relay.Sqlite.Table.{
  find, update, delete, affected, find_sound, affected-at, any_sound, any_complete,
}

-- What the store relies on of encoding/json: every list of texts has an encoding, which is read back,
-- is not empty, and "[]" is the empty list.
pub record IsFaithful (json : Json) : Type 0 where
  pub total : (origins : List String) → (text : String) × (json.marshal origins ≡ some text)
  pub read_back :
      (origins : List String) (text : String)
      → json.marshal origins ≡ some text
      → (json.unmarshal text ≡ some origins) × (text ≢ "")
  pub no_origins : json.unmarshal "[]" ≡ some []

abbrev pub account_of : PolicyRow → String
account_of row = row.account

abbrev pub blob_of : Option PolicyRow → Option PolicyBlob
blob_of none = none
blob_of (some row) = some (record { version = row.version; blob = row.blob })

-- An engine that answers.
abbrev pub running : String → Engine
running text = record { failure = none; unique_violation = text }

-- The contract's error with the engine's text.
abbrev pub in_words : String → Option StoreError → Option StoreError
in_words text (some (failed _)) = some (failed text)
in_words text e = e

module _ (json : Json) where
  abbrev pub row_of : KeyRow → Row
  row_of row = record {
    id = row.id;
    owner_account = row.owner_account;
    key_hash = row.key_hash;
    allowed_origins = decode_origins json row.allowed_origins;
  }

  abbrev pub row_at : Option KeyRow → Option Row
  row_at none = none
  row_at (some row) = some (row_of row)

  pub record Refines (db : Database) (r : Registry) : Type 0 where
    pub keyed : IsKeyed db.api_keys
    pub rows : (id : String) → Map.lookup r.rows id ≡ row_at (find (has_id id) db.api_keys)
    pub policies :
        (a : String) → Map.lookup r.policies a ≡ blob_of (find (of_account a) db.policy_blobs)

  module _ (db : Database) (r : Registry) (ref : Refines db r) where
    pub taken-eq :
        (id hash : String)
        → any (is_taken id hash) db.api_keys ≡ Map.any_value (Registry.is_taken id hash) r.rows
    taken-eq id hash =
        Bool-eq _ _
          (λ h.
            let (x, there, good) =
              any_sound KeyRow id_of (is_taken id hash) db.api_keys ref.keyed.once h in
            any_value_complete r.rows (Registry.is_taken id hash) x.id (row_of x)
              (ground (arith, ref.rows x.id)) good)
          (λ h.
            let (j, row, there, good) = any_value_sound r.rows (Registry.is_taken id hash) h in
            elim (Option-cases (find (has_id j) db.api_keys)) [
              | inl gone ↦ absurd (ground (arith, ref.rows j))
              | inr (x, e) ↦
                  any_complete KeyRow id_of (is_taken id hash) db.api_keys j x e
                    (ground (arith, ref.rows j))
            ])

    -- A statement that changes the rows with an id and an owner, and neither their ids nor hashes.
    pub update-Refines :
        (id owner : String) (g : KeyRow → KeyRow) (f : Row → Option Row)
        → ((x : KeyRow) → (g x).id ≡ x.id)
        → ((x : KeyRow) → (g x).key_hash ≡ x.key_hash)
        → ((x : KeyRow) → f (row_of x) ≡ some (row_of (g x)))
        → Refines
            (record db { api_keys = update (is_owned id owner) g db.api_keys })
            (change r id owner f).0
    update-Refines id owner g f same_id same_hash same_row = record {
      keyed = update-IsKeyed db.api_keys g same_id id owner same_hash ref.keyed;
      rows = λ j.
          rw (find-update_owned db.api_keys g same_id id owner j)
            (elim (Option-cases (find (has_id j) db.api_keys)) [
              | inl gone ↦ ground (
                arith,
                gone,
                rows-change r id owner j f,
                ref.rows j,
                ref.rows id,
                eq_iff id j,
                eq_iff j id,
              )
              | inr (x, there) ↦ ground (
                arith,
                there,
                rows-change r id owner j f,
                ref.rows j,
                ref.rows id,
                same_row x,
                find_sound (has_id j) db.api_keys x there,
                eq_iff x.id j,
                eq_iff x.id id,
                eq_iff id j,
              )
            ]);
      policies = λ a. rw (policies-change r id owner f) (ref.policies a);
    }

    pub delete-Refines :
        (owner id : String)
        → Refines
            (record db { api_keys = delete (is_owned id owner) db.api_keys })
            (change r id owner (λ _. none)).0
    delete-Refines owner id = record {
      keyed = delete-IsKeyed db.api_keys id owner ref.keyed;
      rows = λ j.
          rw (find-delete_owned db.api_keys id owner j ref.keyed)
            (elim (Option-cases (find (has_id j) db.api_keys)) [
              | inl gone ↦ ground (
                arith,
                gone,
                rows-change r id owner j (λ (_ : Row). none),
                ref.rows j,
                ref.rows id,
                eq_iff id j,
                eq_iff j id,
              )
              | inr (x, there) ↦ ground (
                arith,
                there,
                rows-change r id owner j (λ (_ : Row). none),
                ref.rows j,
                ref.rows id,
                find_sound (has_id j) db.api_keys x there,
                eq_iff x.id j,
                eq_iff x.id id,
                eq_iff id j,
              )
            ]);
      policies = λ a. rw (policies-change r id owner (λ (_ : Row). none)) (ref.policies a);
    }

    pub error-owned :
        (id owner : String)
        → unless_none (affected (is_owned id owner) db.api_keys)
          ≡ row_refusal owner (Map.lookup r.rows id)
    error-owned id owner = elim (Option-cases (find (has_id id) db.api_keys)) [
      | inl gone ↦ ground (
        arith,
        gone,
        ref.rows id,
        affected-at KeyRow id_of (λ x. x.owner_account == owner) db.api_keys id ref.keyed.once,
      )
      | inr (x, there) ↦ ground (
        arith,
        there,
        ref.rows id,
        affected-at KeyRow id_of (λ x. x.owner_account == owner) db.api_keys id ref.keyed.once,
      )
    ]
