-- ===== src/Sqlite/Tests.antt =====
-- sqliteStore at concrete inputs.
use nora_relay.Base.{ℕ, pos, ◌≡◌, refl, List, [], ◌∷◌, none, some, any}
use nora_relay.Text.{bytes, hex_encode}
use nora_relay.Store.{
  Write, register, update_origins, put, perform, run, outcomes, found, failed, Store,
}
use nora_relay.Store.Memory.{hash_secret}
use nora_relay.Store.Registry
use nora_relay.Store.Registry.{registry}
use nora_relay.Sqlite
use nora_relay.Sqlite.{Database, new_database, sqlite_store, decode_origins}
use nora_relay.Sqlite.Table.{find, update, affected}
use nora_relay.Sqlite.Refinement.{running}
use nora_relay.Sqlite.Interchange.{sqlite_store-refines-registry}
use nora_relay.Sqlite.Sample.{slashed, slashed-IsFaithful, read_texts}

abbrev digest : List ℕ → List ℕ
digest bs = bs

abbrev store : Store Database
store = sqlite_store (running "unique") slashed digest

abbrev history : List Write
history =
    register "k1" "nano_1" "7331"
    ∷ update_origins "k1" "nano_1" ("https://a" ∷ [])
    ∷ register "k2" "nano_1" "7331"
    ∷ put "nano_1" (pos 2) (7 ∷ [])
    ∷ put "nano_1" (pos 1) (8 ∷ [])
    ∷ []

stored : Database
unfolding run perform outcomes Sqlite.upsert Sqlite.register_api_key Sqlite.update_key_origins
    Sqlite.put_policy Sqlite.get_policy Sqlite.resolve_api_key decode_origins find update affected
    any hash_secret bytes hex_encode read_texts
stored = run store new_database history

-- The second key is refused, for its hash.
refused :
    outcomes store new_database history ≡ none ∷ none ∷ some (failed "unique") ∷ none ∷ none ∷ []
unfolding stored
refused = refl

resolves :
    store.resolve_api_key stored "s1"
    ≡ found (record { id = "k1"; owner_account = "nano_1"; allowed_origins = "https://a" ∷ [] })
unfolding stored
resolves = refl

sqlite_store-refines-registry_example :
    store.resolve_api_key (run store new_database history) "s1"
    ≡ (registry digest).resolve_api_key (run (registry digest) Registry.empty history) "s1"
sqlite_store-refines-registry_example =
    (sqlite_store-refines-registry slashed slashed-IsFaithful "unique" digest history).1 "s1"
