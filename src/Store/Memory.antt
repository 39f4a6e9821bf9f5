-- ===== src/Store/Memory.antt =====
-- cmd/relay/store.go: memStore. Each method holds the mutex throughout, so it is one step.
-- `sha256` is the digest of crypto/sha256.
pub mod Effects
pub mod Invariant
pub mod Tokens
pub mod Policies
pub mod Origins
use nora_relay.Base.{
  ℕ, ℤ, leb_ℤ, String, ◌==◌, Bool, false, true, not, ◌&&◌, ◌||◌, List, [], ◌∷◌, Option, none, some,
  if◌then◌else◌, or_zero, any,
}
use nora_relay.Base.Map
use nora_relay.Base.Map.{Map}
use nora_relay.Text.{bytes, hex_encode}
use nora_relay.Store.{ApiKey, PolicyBlob, StoreError, not_found, Resolved, found, missing, Store}

pub record MemStore : Type 0 where
  pub keys : Map ApiKey
  pub by_hash : Map String
  pub policy : Map PolicyBlob

unfoldable pub new_mem_store : MemStore
new_mem_store = record { keys = Map.empty; by_hash = Map.empty; policy = Map.empty }

-- APIKey{}
abbrev pub zero_key : ApiKey
zero_key = record { id = ""; owner_account = ""; allowed_origins = [] }

unfoldable pub put_policy : MemStore → String → ℤ → List ℕ → MemStore × Option StoreError
put_policy s account version blob =
    let stored : MemStore = record s {
      policy = Map.insert account (record { version = version; blob = blob }) s.policy;
    } in
    elim (Map.lookup s.policy account) [
      | none ↦ (stored, none)
      | some cur ↦ if leb_ℤ version cur.version then (s, none) else (stored, none)
    ]

unfoldable pub get_policy : MemStore → String → Option PolicyBlob × Option StoreError
get_policy s account = (Map.lookup s.policy account, none)

unfoldable pub register_api_key : MemStore → String → String → String → MemStore × Option StoreError
register_api_key s key_id owner_account hash =
    let by_hash = Map.discard (λ (kid : String). kid == key_id) s.by_hash in
    let k = or_zero zero_key (Map.lookup s.keys key_id) in
    let k' : ApiKey = record k { id = key_id; owner_account = owner_account } in
    (
      record s { keys = Map.insert key_id k' s.keys; by_hash = Map.insert hash key_id by_hash },
      none,
    )

unfoldable pub rebind_api_key : MemStore → String → String → String → MemStore × Option StoreError
rebind_api_key s key_id old_account new_account = elim (Map.lookup s.keys key_id) [
  | none ↦ (s, some not_found)
  | some k ↦ if not (k.owner_account == old_account) then (s, some not_found) else (
    record s { keys = Map.insert key_id (record k { owner_account = new_account }) s.keys },
    none,
  )
]

unfoldable pub update_key_origins :
    MemStore → String → String → List String → MemStore × Option StoreError
update_key_origins s key_id owner_account origins = elim (Map.lookup s.keys key_id) [
  | none ↦ (s, some not_found)
  | some k ↦ if not (k.owner_account == owner_account) then (s, some not_found) else (
    record s { keys = Map.insert key_id (record k { allowed_origins = origins }) s.keys },
    none,
  )
]

unfoldable pub origin_allowed : MemStore → String → Bool × Option StoreError
origin_allowed s origin =
    (Map.any_value (λ (k : ApiKey). any (λ o. o == origin) k.allowed_origins) s.keys, none)

unfoldable pub revoke_api_key : MemStore → String → String → MemStore × Option StoreError
revoke_api_key s owner_account id = elim (Map.lookup s.keys id) [
  | none ↦ (s, some not_found)
  | some k ↦ if not (k.owner_account == owner_account) then (s, some not_found) else (
    record s {
      keys = Map.remove id s.keys;
      by_hash = Map.discard (λ (kid : String). kid == id) s.by_hash;
    },
    none,
  )
]

module _ (sha256 : List ℕ → List ℕ) where
  unfoldable pub hash_secret : String → String
  hash_secret s = hex_encode (sha256 (bytes s))

  unfoldable pub resolve_api_key : MemStore → String → Resolved
  resolve_api_key s plaintext = elim (Map.lookup s.by_hash (hash_secret plaintext)) [
    | none ↦ missing not_found
    | some id ↦ found (or_zero zero_key (Map.lookup s.keys id))
  ]

  -- memStore as a `Store`
  abbrev pub mem_store : Store MemStore
  mem_store = record {
    register_api_key = register_api_key;
    revoke_api_key = revoke_api_key;
    resolve_api_key = resolve_api_key;
    rebind_api_key = rebind_api_key;
    update_key_origins = update_key_origins;
    origin_allowed = origin_allowed;
    put_policy = put_policy;
    get_policy = get_policy;
  }
