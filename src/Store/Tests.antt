-- ===== src/Store/Tests.antt =====
-- The store's theorems at concrete inputs.
use nora_relay.Base.{ℕ, pos, ◌≤ℤ◌, ◌≡◌, ◌⊎◌, refl, inl, inr, List, [], ◌∷◌, none, some, Any, any}
use nora_relay.Base.Map
use nora_relay.Text.{bytes, hex_encode}
use nora_relay.Store.{
  ApiKey, PolicyBlob, found, missing, not_found, Write, register, update_origins, put, perform, run,
}
use nora_relay.Store.Memory.{
  MemStore, new_mem_store, mem_store, hash_secret, register_api_key, revoke_api_key, rebind_api_key,
  update_key_origins, origin_allowed, put_policy, get_policy, resolve_api_key,
}
use nora_relay.Store.Memory.Invariant.{Inv, new_mem_store-Inv, run-Inv}
use nora_relay.Store.Memory.Tokens.{resolve-register}
use nora_relay.Store.Memory.Policies.{get_policy-newest, get_policy-source}
use nora_relay.Store.Registry
use nora_relay.Store.Registry.{registry}
use nora_relay.Store.Interchange.{IsAccepted, mem_store-refines-registry}

-- A digest for the tests.
abbrev digest : List ℕ → List ℕ
digest bs = bs

-- The hexadecimal digits of "s1" and "s2".
abbrev history : List Write
history =
    register "k1" "nano_1" "7331"
    ∷ update_origins "k1" "nano_1" ("https://a" ∷ [])
    ∷ put "nano_1" (pos 2) (7 ∷ [])
    ∷ put "nano_1" (pos 1) (8 ∷ [])
    ∷ []

-- Opening this state opens the operations that the tests run.
stored : MemStore
unfolding run perform new_mem_store register_api_key update_key_origins put_policy resolve_api_key
    hash_secret bytes hex_encode Map.empty Map.lookup Map.insert Map.discard Map.remove
    Map.any_value origin_allowed revoke_api_key rebind_api_key get_policy any
stored = run (mem_store digest) new_mem_store history

stored-Inv : Inv stored
unfolding stored
stored-Inv = run-Inv digest new_mem_store history new_mem_store-Inv

abbrev key_one : ApiKey
key_one = record { id = "k1"; owner_account = "nano_1"; allowed_origins = "https://a" ∷ [] }

-- The key resolves by its secret, with its origins; the older put of a policy was ignored.
resolves :
    (resolve_api_key digest stored "s1" ≡ found key_one)
    × (get_policy stored "nano_1" ≡ (some (record { version = pos 2; blob = 7 ∷ [] }), none))
unfolding stored
resolves = (refl, refl)

run-Inv_example : Inv (run (mem_store digest) new_mem_store history)
run-Inv_example = run-Inv digest new_mem_store history new_mem_store-Inv

history-IsAccepted : IsAccepted digest Registry.empty history
unfolding stored Registry.empty Registry.register_api_key Registry.change Registry.put_policy
history-IsAccepted = ((λ e. cc), ((λ e. cc), ((λ e. cc), ((λ e. cc), tt))))

-- The contract and memStore give the same answer to the secret "s1".
mem_store-refines-registry_example :
    (mem_store digest).resolve_api_key (run (mem_store digest) new_mem_store history) "s1"
    ≡ (registry digest).resolve_api_key (run (registry digest) Registry.empty history) "s1"
mem_store-refines-registry_example =
    (mem_store-refines-registry digest history history-IsAccepted).1 "s1"

-- A rotation to the secret "s2": the old secret is not found any more.
resolve-register_example :
    resolve_api_key digest (register_api_key stored "k1" "nano_2" "7332").0 "s1" ≡ missing not_found
unfolding stored
resolve-register_example = resolve-register digest stored stored-Inv "k1" "nano_2" "7332" "s1"

get_policy-newest_example :
    (q : PolicyBlob) × (get_policy (run (mem_store digest) new_mem_store history) "nano_1"
      ≡ (some q, none))
    × (pos 1 ≤ℤ q.version)
get_policy-newest_example =
    get_policy-newest digest new_mem_store history "nano_1" (pos 1) (8 ∷ [])
      (inr (inr (inr (inl refl))))

get_policy-source_example :
    (get_policy new_mem_store "nano_1" ≡ (some (record { version = pos 2; blob = 7 ∷ [] }), none))
    ⊎ Any (λ w. w ≡ put "nano_1" (pos 2) (7 ∷ [])) history
unfolding stored
get_policy-source_example =
    get_policy-source digest new_mem_store history "nano_1"
      (record { version = pos 2; blob = 7 ∷ [] }) refl
