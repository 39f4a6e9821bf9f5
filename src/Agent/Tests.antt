-- ===== src/Agent/Tests.antt =====
-- Enrollment and sessions at concrete inputs.
use nora_relay.Base.{
  ℕ, String, eq_iff, ◌≡◌, ◌≢◌, refl, ◌&&◌, List, [], ◌∷◌, none, some, any, arith, pos,
}
use nora_relay.Base.Map
use nora_relay.Text.{bytes, hex_encode}
use nora_relay.Protocol.{Envelope, EnvelopeType, Control, envelope}
use nora_relay.Hub.{joins, new_hub}
use nora_relay.Hub.Bindings.{devices_for_account}
use nora_relay.Hub.Bindings.Invariant.{empty-Inv}
use nora_relay.Nano.Account.{
  zeros, address, encode_base32, encode_from, gather, char_at, byte_at, take, drop,
}
use nora_relay.Nano.Keys.{
  key_address, public, expanded_scalar, blake2b_sum, written, copy_bytes, answer_challenge,
  sign_with,
}
use nora_relay.Agent.Honest.{IsAnswered, enroll-IsAnswered}
use nora_relay.Nano.Signing.{sign, auth_challenge_digest}
use nora_relay.Nano.Sample.{
  parity, parity-Sound, parity-Sized, sample_key, zero_digest, zero_address, numbers,
}
use nora_relay.Store.{Store, register, perform, run}
use nora_relay.Store.Memory
use nora_relay.Store.Memory.{MemStore, mem_store, new_mem_store, hash_secret}
use nora_relay.Control.{contains}
use nora_relay.Agent.{
  Turn, message, event, accepted, enroll, has_signed, signature_of, handle_agent,
}
use nora_relay.Agent.Sample.{zero_signature, hello, auth, laptop, laptop_enrolled}
use nora_relay.Agent.Enrollment.{enroll-accounts}
use nora_relay.Agent.Session.{Absent, handle_agent-Absent}

abbrev digest : List ℕ → List ℕ
digest bs = bs

abbrev store : Store MemStore
store = mem_store digest

enroll-accounts_example :
    (laptop.accounts ≢ [])
    × ((acc : String)
        → contains laptop.accounts acc ≡ (
            contains ("nano_2" ∷ zero_address ∷ []) acc
            && has_signed numbers zero_digest
                ((zero_address, zero_signature) ∷ ("nano_2", zero_signature) ∷ [])
                (7 ∷ [])
                acc))
enroll-accounts_example =
    enroll-accounts numbers zero_digest 1 (some hello) (7 ∷ []) none (some auth) "laptop"
      ("nano_2" ∷ zero_address ∷ [])
      ((zero_address, zero_signature) ∷ ("nano_2", zero_signature) ∷ []) laptop refl refl
      laptop_enrolled

-- A key of another account.
stored : MemStore
unfolding run perform new_mem_store Memory.register_api_key Map.empty Map.lookup Map.insert
    Map.discard contains any
stored = run store new_mem_store (register "k1" "nano_1" "7331" ∷ [])

abbrev revoke : Control
revoke = record {
  op = "revoke_key";
  corr_id = "c";
  account = "";
  key_id = "k1";
  hash = "";
  allowed_origins = [];
  version = pos 1;
  blob = [];
  error = "";
}

abbrev turns : List Turn
turns =
    message (record (envelope EnvelopeType.control "") { control = some revoke })
    ∷ event (joins (record { pointer = 2; device_id = "desktop"; accounts = zero_address ∷ [] }))
    ∷ []

not_registration : ◌≢◌ {A = String} "revoke_key" "register_key"
not_registration = ground (arith, eq_iff "revoke_key" "register_key")

handle_agent-Absent_example : Absent laptop (
    devices_for_account (handle_agent store laptop turns (new_hub, stored)).0.bindings zero_address)
unfolding new_hub
handle_agent-Absent_example =
    handle_agent-Absent store laptop turns new_hub stored zero_address empty-Inv

abbrev one_account : Envelope
one_account = record (envelope EnvelopeType.hello "") {
  hello = some (record { device_id = "laptop"; accounts = zero_address ∷ [] });
}

zero_address-IsAnswered :
    IsAnswered parity zero_digest
      ((zero_address, zero_signature) ∷ ("nano_2", zero_signature) ∷ [])
      (7 ∷ [])
      zero_address
unfolding key_address public expanded_scalar blake2b_sum written copy_bytes take drop
    answer_challenge sign_with sign auth_challenge_digest signature_of hex_encode bytes address
    encode_base32 encode_from gather char_at byte_at
zero_address-IsAnswered = record {
  key = sample_key;
  has_address = refl;
  sig = record { first = zeros 32; second = zeros 32 };
  has_answer = refl;
  is_sent = refl;
}

enroll-IsAnswered_example :
    enroll parity zero_digest 1 (some one_account) (7 ∷ []) none (some auth)
    ≡ accepted (record { pointer = 1; device_id = "laptop"; accounts = zero_address ∷ [] })
enroll-IsAnswered_example =
    enroll-IsAnswered parity zero_digest parity-Sized (parity-Sound zero_digest) 1
      (some one_account) (7 ∷ []) (some auth) "laptop" (zero_address ∷ [])
      ((zero_address, zero_signature) ∷ ("nano_2", zero_signature) ∷ []) refl refl (λ e. cc)
      (zero_address-IsAnswered, tt)
