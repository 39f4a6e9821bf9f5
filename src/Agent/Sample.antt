-- ===== src/Agent/Sample.antt =====
-- A device that enrolls with one valid address of two, over the curve of the numbers.
use nora_relay.Base.{String, ◌≡◌, refl, [], ◌∷◌, none, some}
use nora_relay.Text.{bytes, hex_decode, from_hex_char}
use nora_relay.Protocol.{Envelope, EnvelopeType, envelope}
use nora_relay.Hub.Bindings.{AgentConn}
use nora_relay.Nano.Account.{
  parse_address, parse_rest, check_sum, bytes_equal, cut_prefix, take, drop, decode_base32,
  decode_from, index_from, scatter, set_byte,
}
use nora_relay.Nano.Signing.{verify, verify_challenge, auth_challenge_digest}
use nora_relay.Nano.Sample.{zero_digest, zero_address, numbers}
use nora_relay.Agent.{
  accepted, enroll, enroll_proven, proven, has_signed, signature_of, verify_account_sig,
}

-- A signature of 64 zeros.
abbrev pub zero_signature : String
zero_signature =
    "00000000000000000000000000000000000000000000000000000000000000000000000000000000000000000000000000000000000000000000000000000000"

abbrev pub hello : Envelope
hello = record (envelope EnvelopeType.hello "") {
  hello = some (record { device_id = "laptop"; accounts = "nano_2" ∷ zero_address ∷ [] });
}

abbrev pub auth : Envelope
auth = record (envelope EnvelopeType.auth "") {
  auth = some ((zero_address, zero_signature) ∷ ("nano_2", zero_signature) ∷ []);
}

abbrev pub laptop : AgentConn
laptop = record { pointer = 1; device_id = "laptop"; accounts = zero_address ∷ [] }

-- The device signs for both accounts, and proves the one whose address is valid.
pub laptop_enrolled :
    enroll numbers zero_digest 1 (some hello) (7 ∷ []) none (some auth) ≡ accepted laptop
unfolding enroll enroll_proven proven has_signed signature_of verify_account_sig verify
    verify_challenge auth_challenge_digest hex_decode from_hex_char bytes decode_base32 decode_from
    index_from scatter set_byte parse_address parse_rest check_sum bytes_equal cut_prefix take drop
laptop_enrolled = refl
