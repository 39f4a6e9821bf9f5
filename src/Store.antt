-- ===== src/Store.antt =====
-- cmd/relay/store.go: the types of the persistence boundary.
pub mod Memory
pub mod Registry
mod Refinement
pub mod Interchange
pub mod Laws
mod Tests
use nora_relay.Base.{ℕ, ℤ, String, Bool, List, [], ◌∷◌, Option}

-- ErrNotFound, or another error by its text.
pub data StoreError : Type 0 where
  not_found : StoreError
  failed : String → StoreError

-- err.Error()
abbrev pub message : StoreError → String
message not_found = "not found"
message (failed text) = text

pub record ApiKey : Type 0 where
  pub id : String
  pub owner_account : String
  pub allowed_origins : List String

pub record PolicyBlob : Type 0 where
  pub version : ℤ
  pub blob : List ℕ

-- (APIKey, error)
pub data Resolved : Type 0 where
  found : ApiKey → Resolved
  missing : StoreError → Resolved

-- The interface `Store`, over the states of an implementation. A method that writes gives the new
-- state and the error, `none` for nil.
pub record Store (S : Type 0) : Type 0 where
  pub register_api_key : S → (key_id owner_account hash : String) → S × Option StoreError
  pub revoke_api_key : S → (owner_account id : String) → S × Option StoreError
  pub resolve_api_key : S → (plaintext : String) → Resolved
  pub rebind_api_key : S → (key_id old_account new_account : String) → S × Option StoreError
  pub update_key_origins :
      S → (key_id owner_account : String) → (origins : List String) → S × Option StoreError
  pub origin_allowed : S → (origin : String) → Bool × Option StoreError
  pub put_policy : S → (account : String) → (version : ℤ) → (blob : List ℕ) → S × Option StoreError
  pub get_policy : S → (account : String) → Option PolicyBlob × Option StoreError

-- A call of a method that writes.
pub data Write : Type 0 where
  register : (key_id owner_account hash : String) → Write
  revoke : (owner_account id : String) → Write
  rebind : (key_id old_account new_account : String) → Write
  update_origins : (key_id owner_account : String) → (origins : List String) → Write
  put : (account : String) → (version : ℤ) → (blob : List ℕ) → Write

module _ {S : Type 0} (store : Store S) where
  unfoldable pub perform : S → Write → S × Option StoreError
  perform s (register key_id owner hash) = store.register_api_key s key_id owner hash
  perform s (revoke owner id) = store.revoke_api_key s owner id
  perform s (rebind key_id old new) = store.rebind_api_key s key_id old new
  perform s (update_origins key_id owner origins) = store.update_key_origins s key_id owner origins
  perform s (put account version blob) = store.put_policy s account version blob

  -- The state after a sequence of writes, whatever errors they return.
  unfoldable pub run : S → List Write → S
  run s [] = s
  run s (w ∷ ws) = run (perform s w).0 ws

  -- The errors that a sequence of writes returns.
  unfoldable pub outcomes : S → List Write → List (Option StoreError)
  outcomes s [] = []
  outcomes s (w ∷ ws) = let (s', e) = perform s w in e ∷ outcomes s' ws
