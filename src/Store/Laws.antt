-- ===== src/Store/Laws.antt =====
-- cmd/relay/store.go: what the handlers of the relay rely on of any implementation of `Store`: its
-- keys by id, its blobs by account, and how each write changes them.
use nora_relay.Base.{
  ℕ, ℤ, String, ◌==◌, eq_iff, ◌≡◌, ◌≢◌, ap, List, Option, none, some, arith, if◌then◌else◌,
}
use nora_relay.Base.Map
use nora_relay.Store.{ApiKey, PolicyBlob, Store}
use nora_relay.Store.Memory
use nora_relay.Store.Memory.{MemStore, mem_store}
use nora_relay.Store.Memory.Effects.{
  if_owned, refusal, keys-register, keys-rebind, keys-update_origins, keys-revoke, keys-put,
  policy-register, policy-rebind, policy-update_origins, policy-revoke, policy-put, error-rebind,
  error-revoke,
}

pub record Laws {S : Type 0} (store : Store S) : Type 0 where
  pub key_at : S → String → Option ApiKey
  pub policy_at : S → String → Option PolicyBlob
  -- A registration changes the key with its id only.
  pub key-register :
      (s : S) (id owner hash j : String)
      → id ≢ j
      → key_at (store.register_api_key s id owner hash).0 j ≡ key_at s j
  pub key-rebind :
      (s : S) (id old new j : String)
      → key_at (store.rebind_api_key s id old new).0 j ≡ (
          if id == j
          then if_owned old (λ k. some (record k { owner_account = new })) (key_at s id)
          else key_at s j)
  pub key-update_origins :
      (s : S) (id owner j : String) (origins : List String)
      → key_at (store.update_key_origins s id owner origins).0 j ≡ (
          if id == j
          then if_owned owner (λ k. some (record k { allowed_origins = origins })) (key_at s id)
          else key_at s j)
  pub key-revoke :
      (s : S) (owner id j : String)
      → key_at (store.revoke_api_key s owner id).0 j
        ≡ (if id == j then if_owned owner (λ _. none) (key_at s id) else key_at s j)
  pub key-put :
      (s : S) (account : String) (version : ℤ) (blob : List ℕ) (j : String)
      → key_at (store.put_policy s account version blob).0 j ≡ key_at s j
  pub error-rebind :
      (s : S) (id old new : String)
      → (store.rebind_api_key s id old new).1 ≡ refusal old (key_at s id)
  pub error-revoke :
      (s : S) (owner id : String)
      → (store.revoke_api_key s owner id).1 ≡ refusal owner (key_at s id)
  pub policy-register :
      (s : S) (id owner hash a : String)
      → policy_at (store.register_api_key s id owner hash).0 a ≡ policy_at s a
  pub policy-rebind :
      (s : S) (id old new a : String)
      → policy_at (store.rebind_api_key s id old new).0 a ≡ policy_at s a
  pub policy-update_origins :
      (s : S) (id owner a : String) (origins : List String)
      → policy_at (store.update_key_origins s id owner origins).0 a ≡ policy_at s a
  pub policy-revoke :
      (s : S) (owner id a : String)
      → policy_at (store.revoke_api_key s owner id).0 a ≡ policy_at s a
  -- A put changes the blob of its account only.
  pub policy-put :
      (s : S) (account : String) (version : ℤ) (blob : List ℕ) (a : String)
      → account ≢ a
      → policy_at (store.put_policy s account version blob).0 a ≡ policy_at s a

pub key-register_mem :
    (s : MemStore) (id owner hash j : String)
    → id ≢ j
    → Map.lookup (Memory.register_api_key s id owner hash).0.keys j ≡ Map.lookup s.keys j
key-register_mem s id owner hash j h = ground (arith, keys-register s id owner hash j, eq_iff id j)

pub policy-put_mem :
    (s : MemStore) (account : String) (version : ℤ) (blob : List ℕ) (a : String)
    → account ≢ a
    → Map.lookup (Memory.put_policy s account version blob).0.policy a ≡ Map.lookup s.policy a
policy-put_mem s account version blob a h =
    ground (arith, policy-put s account a version blob, eq_iff account a)

-- memStore keeps the laws.
abbrev pub mem_store-Laws : (sha256 : List ℕ → List ℕ) → Laws (mem_store sha256)
mem_store-Laws sha256 = record {
  key_at = λ s id. Map.lookup s.keys id;
  policy_at = λ s a. Map.lookup s.policy a;
  key-register = key-register_mem;
  key-rebind = keys-rebind;
  key-update_origins = λ s id owner j origins. keys-update_origins s id owner j origins;
  key-revoke = keys-revoke;
  key-put = λ s account version blob j. ap (λ m. Map.lookup m j) (keys-put s account version blob);
  error-rebind = error-rebind;
  error-revoke = error-revoke;
  policy-register = λ s id owner hash a. ap (λ m. Map.lookup m a) (policy-register s id owner hash);
  policy-rebind = λ s id old new a. ap (λ m. Map.lookup m a) (policy-rebind s id old new);
  policy-update_origins =
      λ s id owner a origins. ap (λ m. Map.lookup m a) (policy-update_origins s id owner origins);
  policy-revoke = λ s owner id a. ap (λ m. Map.lookup m a) (policy-revoke s owner id);
  policy-put = policy-put_mem;
}
