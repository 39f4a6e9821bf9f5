-- ===== src/Api/Bearer.antt =====
-- cmd/relay/http.go: which key a bearer token authenticates.
use Prim.Native.Char.{code}
use Prim.Native.String.{◌++◌, len}
use Prim.Native.String.append
use text.Mathlib.TextPositions.{len-append}
use nora_relay.Base.{
  ℕ, String, ◌==◌, eq_iff, eq_refl, ◌≡◌, ◌≢◌, refl, ap, ◌∙◌, false, List, some, nat_eq_refl, arith,
  inl, inr, String-cases,
}
use nora_relay.Base.Map
use nora_relay.Store.{Store, found}
use nora_relay.Store.Memory.{MemStore, mem_store, register_api_key, hash_secret, resolve_api_key}
use nora_relay.Store.Memory.Invariant.{Inv}
use nora_relay.Store.Memory.Effects.{registered}
use nora_relay.Store.Memory.Tokens.{resolve-register}
use nora_relay.Api.{auth_key, key_of}
use nora_relay.Text.{cut_prefix, trim_space}

cut_prefix-append : (p s : String) → cut_prefix p (p ++ s) ≡ some s
unfolding cut_prefix
cut_prefix-append String.[] s = rw (append.nil s) refl
cut_prefix-append (String.◌∷◌ c p) s =
    rw (append.cons c p s) (ground (arith, nat_eq_refl (code c), cut_prefix-append p s))

bearer-longer : (token : String) → (token == ("Bearer " ++ token)) ≡ false
bearer-longer token = elim (String-cases token ("Bearer " ++ token)) [
  | inl (e, _) ↦ absurd (omega (arith, ap len e, len-append "Bearer " token))
  | inr (_, differ) ↦ differ
]

module _ {S : Type 0} (store : Store S) where
  -- A header "Bearer " with a token that is not empty and has no space at either end
  -- authenticates what the store resolves the token to.
  pub auth_key-bearer :
      (s : S) (token : String)
      → token ≢ ""
      → trim_space token ≡ token
      → auth_key store ("Bearer " ++ token) s ≡ key_of (store.resolve_api_key s token)
  unfolding auth_key
  auth_key-bearer s token some_token trimmed = ground (
    arith,
    cut_prefix-append "Bearer " token,
    trimmed,
    some_token,
    eq_iff token "",
    bearer-longer token,
  )

-- After a device registers a key with the hash of a secret, a caller with the header "Bearer " and
-- that secret is authenticated as that key, with the account of the registration: for a
-- secret that is not empty and has no space at either end.
pub auth_key-register :
    (sha256 : List ℕ → List ℕ) (s : MemStore)
    → Inv s
    → (id owner secret : String) → secret ≢ ""
    → trim_space secret ≡ secret
    → auth_key
        (mem_store sha256)
        ("Bearer " ++ secret)
        (register_api_key s id owner (hash_secret sha256 secret)).0
      ≡ some (registered id owner (Map.lookup s.keys id))
auth_key-register sha256 s inv id owner secret some_secret trimmed =
    let h = hash_secret sha256 secret in
    let k = registered id owner (Map.lookup s.keys id) in
    let resolved : resolve_api_key sha256 (register_api_key s id owner h).0 secret ≡ found k =
      resolve-register sha256 s inv id owner h secret ∙ rw (eq_refl h) refl in
    auth_key-bearer (mem_store sha256) _ secret some_secret trimmed ∙ ap key_of resolved
