-- ===== src/Control/Takeover.antt =====
-- cmd/relay/http.go: "register_key" on a key id that another user already has.
use nora_relay.Base.{ℕ, String, eq_iff, ◌≡◌, ◌≢◌, true, List, [], some, arith, length, ap}
use nora_relay.Base.Map
use nora_relay.Protocol.{Control}
use nora_relay.Hub.Bindings.{AgentConn}
use nora_relay.Store.{ApiKey, found, missing, not_found}
use nora_relay.Store.Memory.{MemStore, mem_store, hash_secret, resolve_api_key}
use nora_relay.Store.Memory.Effects
use nora_relay.Store.Memory.Invariant.{Inv}
use nora_relay.Store.Memory.Tokens.{resolve-register}
use nora_relay.Control.{contains, register_key, handle_control}

module _ (sha256 : List ℕ → List ℕ) (a : AgentConn) (c : Control) (s : MemStore) (inv : Inv s) where
  -- Over memStore, in a state that satisfies its invariant: a "register_key" of a proved account, with a key id and a
  -- hash that are not empty and no origins, takes the id over, whatever account owns it and whatever hash it has. The
  -- key then belongs to the account of the message, and every token that resolved to the id and whose hash is not
  -- that of the message stops resolving.
  pub register_key-takeover :
      c.op ≡ "register_key"
      → contains a.accounts c.account ≡ true
      → c.key_id ≢ ""
      → c.hash ≢ ""
      → c.allowed_origins ≡ []
      → let s' = (handle_control (mem_store sha256) a c s).1 in
        (Map.lookup s'.keys c.key_id
          ≡ some (Effects.registered c.key_id c.account (Map.lookup s.keys c.key_id)))
        × ((k : ApiKey) (plaintext : String)
            → resolve_api_key sha256 s plaintext ≡ found k
            → k.id ≡ c.key_id
            → hash_secret sha256 plaintext ≢ c.hash
            → resolve_api_key sha256 s' plaintext ≡ missing not_found)
  unfolding handle_control register_key
  register_key-takeover op mine some_id some_hash no_origins = (
    ground (
      arith,
      ap (λ (o : List String). length o) no_origins,
      eq_iff c.op "register_key",
      eq_iff c.key_id "",
      eq_iff c.hash "",
      eq_iff c.key_id c.key_id,
      Effects.keys-register s c.key_id c.account c.hash c.key_id,
    ),
    λ k plaintext known same other. ground (
      arith,
      ap (λ (o : List String). length o) no_origins,
      eq_iff c.op "register_key",
      eq_iff c.key_id "",
      eq_iff c.hash "",
      eq_iff k.id c.key_id,
      eq_iff c.hash (hash_secret sha256 plaintext),
      resolve-register sha256 s inv c.key_id c.account c.hash plaintext,
    ),
  )
