-- ===== src/Store/Memory/Tokens.antt =====
-- cmd/relay/store.go: what the writes of memStore do to the tokens that callers hold.
use nora_relay.Base.{
  ℕ, String, ◌==◌, ◌≡◌, ◌&&◌, List, none, some, arith, eq_iff, if◌then◌else◌, Option-cases, inl,
  inr,
}
use nora_relay.Base.Map
use nora_relay.Store.{ApiKey, Resolved, found, missing, not_found}
use nora_relay.Store.Memory.{
  MemStore, register_api_key, rebind_api_key, update_key_origins, revoke_api_key, hash_secret,
  resolve_api_key,
}
use nora_relay.Store.Memory.Effects
use nora_relay.Store.Memory.Effects.{registered, refusal}
use nora_relay.Store.Memory.Invariant.{Inv}

-- The answer for a key, unless it has this id.
abbrev pub not_this : String → Resolved → Resolved
not_this id (missing e) = missing e
not_this id (found k) = if k.id == id then missing not_found else found k

-- The answer with a key changed.
abbrev pub change_key : (ApiKey → ApiKey) → Resolved → Resolved
change_key f (missing e) = missing e
change_key f (found k) = found (f k)

abbrev pub rebound : (id old new : String) → ApiKey → ApiKey
rebound id old new k =
    if k.id == id && k.owner_account == old then record k { owner_account = new } else k

abbrev pub with_origins : (id owner : String) → List String → ApiKey → ApiKey
with_origins id owner origins k =
    if k.id == id && k.owner_account == owner then record k { allowed_origins = origins } else k

module _ (sha256 : List ℕ → List ℕ) (s : MemStore) (inv : Inv s) where
  -- RegisterAPIKey on a key id, old or new: a token with the new hash resolves to the key, with the
  -- new owner and the origins that the id had before. Any other token resolves as it did, except
  -- those of this id, which are not found any more.
  pub resolve-register :
      (id owner hash plaintext : String)
      → resolve_api_key sha256 (register_api_key s id owner hash).0 plaintext ≡ (
          if hash == hash_secret sha256 plaintext
          then found (registered id owner (Map.lookup s.keys id))
          else not_this id (resolve_api_key sha256 s plaintext))
  unfolding resolve_api_key
  resolve-register id owner hash plaintext =
      let h = hash_secret sha256 plaintext in
      elim (Option-cases (Map.lookup s.by_hash h)) [
        | inl unknown ↦ ground (
          arith,
          Effects.by_hash-register s id owner hash h,
          Effects.keys-register s id owner hash id,
          eq_iff id id,
        )
        | inr (j, e) ↦
            let (k, there) = inv.leads h j e in
            ground (
              arith,
              Effects.by_hash-register s id owner hash h,
              Effects.keys-register s id owner hash id,
              Effects.keys-register s id owner hash j,
              inv.keyed j k there,
              eq_iff id id,
              eq_iff id j,
              eq_iff j id,
            )
      ]

  -- RevokeAPIKey: if the account owns the key, no token resolves to this id any more and all other
  -- tokens resolve as before; otherwise the error is ErrNotFound and nothing changes.
  pub resolve-revoke :
      (owner id plaintext : String)
      → resolve_api_key sha256 (revoke_api_key s owner id).0 plaintext
        ≡ elim (revoke_api_key s owner id).1 [
          | none ↦ not_this id (resolve_api_key sha256 s plaintext)
          | some _ ↦ resolve_api_key sha256 s plaintext
        ]
  unfolding resolve_api_key
  resolve-revoke owner id plaintext =
      let h = hash_secret sha256 plaintext in
      elim (Option-cases (Map.lookup s.by_hash h)) [
        | inl unknown ↦
            ground (arith, Effects.by_hash-revoke s owner id h, Effects.error-revoke s owner id)
        | inr (j, e) ↦
            let (k, there) = inv.leads h j e in
            ground (
              arith,
              Effects.by_hash-revoke s owner id h,
              Effects.error-revoke s owner id,
              Effects.keys-revoke s owner id j,
              inv.keyed j k there,
              eq_iff id j,
              eq_iff j id,
            )
      ]

  -- RebindAPIKey: every token keeps resolving to the same key id and origins; only the owner
  -- account of this id changes, and only if it was the old account.
  pub resolve-rebind :
      (id old new plaintext : String)
      → resolve_api_key sha256 (rebind_api_key s id old new).0 plaintext
        ≡ change_key (rebound id old new) (resolve_api_key sha256 s plaintext)
  unfolding resolve_api_key
  resolve-rebind id old new plaintext =
      let h = hash_secret sha256 plaintext in
      elim (Option-cases (Map.lookup s.by_hash h)) [
        | inl unknown ↦ ground (arith, Effects.by_hash-rebind s id old new)
        | inr (j, e) ↦
            let (k, there) = inv.leads h j e in
            ground (
              arith,
              Effects.by_hash-rebind s id old new,
              Effects.keys-rebind s id old new j,
              inv.keyed j k there,
              eq_iff id j,
              eq_iff j id,
            )
      ]

  -- UpdateKeyOrigins: every token keeps resolving to the same key id and owner; only the origins
  -- of this id change, and only if the account owns it.
  pub resolve-update_origins :
      (id owner : String) (origins : List String) (plaintext : String)
      → resolve_api_key sha256 (update_key_origins s id owner origins).0 plaintext
        ≡ change_key (with_origins id owner origins) (resolve_api_key sha256 s plaintext)
  unfolding resolve_api_key
  resolve-update_origins id owner origins plaintext =
      let h = hash_secret sha256 plaintext in
      elim (Option-cases (Map.lookup s.by_hash h)) [
        | inl unknown ↦ ground (arith, Effects.by_hash-update_origins s id owner origins)
        | inr (j, e) ↦
            let (k, there) = inv.leads h j e in
            ground (
              arith,
              Effects.by_hash-update_origins s id owner origins,
              Effects.keys-update_origins s id owner j origins,
              inv.keyed j k there,
              eq_iff id j,
              eq_iff j id,
            )
      ]
