-- ===== src/Control/Tests.antt =====
-- The theorems on control messages, over memStore at concrete inputs.
use nora_relay.Base.{ℕ, pos, String, eq_iff, ◌≡◌, ◌≢◌, refl, List, [], ◌∷◌, none, some, arith}
use nora_relay.Base.Map
use nora_relay.Text.{bytes, hex_encode}
use nora_relay.Protocol.{Control}
use nora_relay.Hub.Bindings.{AgentConn}
use nora_relay.Store.{ApiKey, register, perform, run, found, missing, not_found}
use nora_relay.Store.Memory
use nora_relay.Store.Memory.{MemStore, mem_store, new_mem_store, hash_secret, resolve_api_key}
use nora_relay.Store.Memory.Invariant.{Inv, new_mem_store-Inv, run-Inv}
use nora_relay.Store.Laws.{mem_store-Laws}
use nora_relay.Control.{contains, handle_control}
use nora_relay.Control.Authority.{handle_control-foreign_key, handle_control-foreign_policy}
use nora_relay.Control.Rebind.{handle_control-rebind, handle_control-revoke}
use nora_relay.Control.Takeover.{register_key-takeover}

abbrev digest : List ℕ → List ℕ
digest bs = bs

-- A key of nano_1, whose secret is "s1".
stored : MemStore
unfolding run perform new_mem_store Memory.register_api_key Memory.put_policy Map.empty Map.lookup
    Map.insert Map.discard resolve_api_key hash_secret bytes hex_encode contains
stored = run (mem_store digest) new_mem_store (register "k1" "nano_1" "7331" ∷ [])

stored-Inv : Inv stored
unfolding stored
stored-Inv = run-Inv digest new_mem_store (register "k1" "nano_1" "7331" ∷ []) new_mem_store-Inv

abbrev key_one : ApiKey
key_one = record { id = "k1"; owner_account = "nano_1"; allowed_origins = [] }

abbrev device : List String → AgentConn
device accounts = record { pointer = 1; device_id = "d"; accounts = accounts }

abbrev message_of : String → String → String → Control
message_of op account hash = record {
  op = op;
  corr_id = "c";
  account = account;
  key_id = "k1";
  hash = hash;
  allowed_origins = [];
  version = pos 1;
  blob = [];
  error = "";
}

stored_key : Map.lookup stored.keys "k1" ≡ some key_one
unfolding stored
stored_key = refl

op_literal : ◌≢◌ {A = String} "revoke_key" "register_key"
op_literal = ground (arith, eq_iff "revoke_key" "register_key")

-- A stranger cannot revoke the key.
handle_control-foreign_key_example :
    Map.lookup
      (handle_control
        (mem_store digest)
        (device ("nano_2" ∷ []))
        (message_of "revoke_key" "" "")
        stored).1.keys
      "k1"
    ≡ some key_one
unfolding stored
handle_control-foreign_key_example =
    handle_control-foreign_key (mem_store digest) (mem_store-Laws digest)
      (message_of "revoke_key" "" "") (device ("nano_2" ∷ [])) stored "k1" key_one refl stored_key
      (λ e. absurd (op_literal e))

handle_control-foreign_policy_example :
    Map.lookup
      (handle_control
        (mem_store digest)
        (device ("nano_2" ∷ []))
        (message_of "put_policy" "nano_2" "")
        stored).1.policy
      "nano_1"
    ≡ Map.lookup stored.policy "nano_1"
unfolding stored
handle_control-foreign_policy_example =
    handle_control-foreign_policy (mem_store digest) (mem_store-Laws digest)
      (message_of "put_policy" "nano_2" "") (device ("nano_2" ∷ [])) stored "nano_1" (λ e. refl)

-- A device of both accounts moves the key.
handle_control-rebind_example :
    Map.lookup
      (handle_control
        (mem_store digest)
        (device ("nano_2" ∷ "nano_1" ∷ []))
        (message_of "rebind_key" "nano_2" "")
        stored).1.keys
      "k1"
    ≡ some (record key_one { owner_account = "nano_2" })
unfolding stored
handle_control-rebind_example =
    (handle_control-rebind (mem_store digest) (mem_store-Laws digest)
      (message_of "rebind_key" "nano_2" "") (device ("nano_2" ∷ "nano_1" ∷ [])) stored "k1" refl).1

handle_control-revoke_example :
    Map.lookup
      (handle_control
        (mem_store digest)
        (device ("nano_1" ∷ []))
        (message_of "revoke_key" "" "")
        stored).1.keys
      "k1"
    ≡ none
unfolding stored
handle_control-revoke_example =
    (handle_control-revoke (mem_store digest) (mem_store-Laws digest)
      (message_of "revoke_key" "" "") (device ("nano_1" ∷ [])) stored "k1" refl).1

-- A device of nano_2 alone takes the key over, and the secret "s1" stops working.
abbrev taken : MemStore
taken =
    (handle_control (mem_store digest) (device ("nano_2" ∷ []))
      (message_of "register_key" "nano_2" "7332") stored).1

register_key-takeover_example :
    (Map.lookup taken.keys "k1"
      ≡ some (record { id = "k1"; owner_account = "nano_2"; allowed_origins = [] }))
    × ((k : ApiKey) (plaintext : String)
        → resolve_api_key digest stored plaintext ≡ found k
        → k.id ≡ "k1"
        → hash_secret digest plaintext ≢ "7332"
        → resolve_api_key digest taken plaintext ≡ missing not_found)
unfolding stored
register_key-takeover_example =
    register_key-takeover digest (device ("nano_2" ∷ []))
      (message_of "register_key" "nano_2" "7332") stored stored-Inv refl refl
      (ground (arith, eq_iff "k1" "")) (ground (arith, eq_iff "7332" "")) refl

-- The secret "s1" did resolve.
known_before : resolve_api_key digest stored "s1" ≡ found key_one
unfolding stored
known_before = refl
