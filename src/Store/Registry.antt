-- ===== src/Store/Registry.antt =====
-- The contract of the interface `Store` (cmd/relay/store.go): a table of keys, one row for each id,
-- in which a key hash stands once, and a table of policy blobs, of which newer versions win.
pub mod Effects
use nora_relay.Base.{
  ℕ, ℤ, leb_ℤ, String, ◌==◌, Bool, false, true, not, ◌&&◌, List, [], ◌∷◌, Option, none, some,
  if◌then◌else◌, any,
}
use nora_relay.Base.Map
use nora_relay.Base.Map.{Map}
use nora_relay.Store.{
  ApiKey, PolicyBlob, StoreError, not_found, failed, Resolved, found, missing, Store,
}
use nora_relay.Store.Memory.{hash_secret}

pub record Row : Type 0 where
  pub id : String
  pub owner_account : String
  pub key_hash : String
  pub allowed_origins : List String

pub record Registry : Type 0 where
  pub rows : Map Row
  pub policies : Map PolicyBlob

unfoldable pub empty : Registry
empty = record { rows = Map.empty; policies = Map.empty }

abbrev pub key_of : Row → ApiKey
key_of row = record {
  id = row.id;
  owner_account = row.owner_account;
  allowed_origins = row.allowed_origins;
}

abbrev pub conflict : StoreError
conflict = failed "key_hash is taken"

-- The row of another key has the hash.
abbrev pub is_taken : String → String → Row → Bool
is_taken id hash row = row.key_hash == hash && not (row.id == id)

abbrev pub origins_of : Option Row → List String
origins_of none = []
origins_of (some row) = row.allowed_origins

abbrev pub new_row : String → String → String → Option Row → Row
new_row id owner hash old = record {
  id = id;
  owner_account = owner;
  key_hash = hash;
  allowed_origins = origins_of old;
}

module _ (r : Registry) where
  unfoldable pub register_api_key :
      (key_id owner_account hash : String) → Registry × Option StoreError
  register_api_key key_id owner hash =
      if Map.any_value (is_taken key_id hash) r.rows then (r, some conflict) else (
        record r {
          rows = Map.insert key_id (new_row key_id owner hash (Map.lookup r.rows key_id)) r.rows;
        },
        none,
      )

  -- A change of the row with this id and owner; none removes it.
  unfoldable pub change : String → String → (Row → Option Row) → Registry × Option StoreError
  change id owner f = elim (Map.lookup r.rows id) [
    | none ↦ (r, some not_found)
    | some row ↦
        if row.owner_account == owner
        then elim (f row) [
          | none ↦ (record r { rows = Map.remove id r.rows }, none)
          | some row' ↦ (record r { rows = Map.insert id row' r.rows }, none)
        ]
        else (r, some not_found)
  ]

  unfoldable pub put_policy : (account : String) → ℤ → List ℕ → Registry × Option StoreError
  put_policy account version blob =
      let stored : Registry = record r {
        policies = Map.insert account (record { version = version; blob = blob }) r.policies;
      } in
      elim (Map.lookup r.policies account) [
        | none ↦ (stored, none)
        | some cur ↦ if leb_ℤ version cur.version then (r, none) else (stored, none)
      ]

-- The contract as a `Store`: `find` gives the key with a hash.
module _ (sha256 : List ℕ → List ℕ) where
  abbrev pub registry : Store Registry
  registry = record {
    register_api_key = register_api_key;
    revoke_api_key = λ r owner id. change r id owner (λ _. none);
    resolve_api_key = λ r plaintext.
        elim (Map.first (λ (row : Row). row.key_hash == hash_secret sha256 plaintext) r.rows) [
          | none ↦ missing not_found
          | some row ↦ found (key_of row)
        ];
    rebind_api_key =
        λ r id old new. change r id old (λ row. some (record row { owner_account = new }));
    update_key_origins = λ r id owner origins.
        change r id owner (λ row. some (record row { allowed_origins = origins }));
    origin_allowed = λ r origin.
        (Map.any_value (λ (row : Row). any (λ o. o == origin) row.allowed_origins) r.rows, none);
    put_policy = put_policy;
    get_policy = λ r account. (Map.lookup r.policies account, none);
  }
