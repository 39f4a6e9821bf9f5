-- ===== src/Nano/Tests.antt =====
-- internal/nano at concrete inputs.
use nora_relay.Base.{ℕ, List, ◌++◌, ◌≡◌, refl, true, [], ◌∷◌, some, pos}
use nora_relay.Text.{bytes, hex_encode}
use nora_relay.Nano.Account.{
  encode_base32, encode_from, gather, char_at, byte_at, decode_base32, decode_from, index_from,
  scatter, set_byte, zeros, parse_address, parse_rest, check_sum, bytes_equal, cut_prefix, take,
  drop, address,
}
use nora_relay.Nano.Amount.{parse_nano_amount}
use nora_relay.Nano.Account.RoundTrip.{parse_address-address}
use nora_relay.Nano.Signing.{Signature, verify_challenge}
use nora_relay.Nano.Keys.{
  copy_bytes, hex, written, blake2b_sum, derive_key, public, answer_challenge,
}
use nora_relay.Nano.Keys.Challenges.{verify_challenge-answer_challenge}
use nora_relay.Nano.Sample.{
  zero_digest, parity, parity-Sound, parity-Sized, zero_address, sample_key, sample_key-IsByte,
  zeros-IsByte,
}

encode_five : encode_base32 (0x00 ∷ 0x44 ∷ 0x32 ∷ 0x14 ∷ 0xc7 ∷ []) 0 ≡ "13456789"
unfolding encode_base32 encode_from gather char_at byte_at
encode_five = refl

decode_five : decode_base32 (bytes "13456789") 0 ≡ some (0x00 ∷ 0x44 ∷ 0x32 ∷ 0x14 ∷ 0xc7 ∷ [])
unfolding bytes decode_base32 decode_from index_from scatter set_byte
decode_five = refl

parse_zero : parse_address zero_digest zero_address ≡ some (zeros 32)
unfolding bytes decode_base32 decode_from index_from scatter set_byte parse_address parse_rest
    check_sum bytes_equal cut_prefix take drop
parse_zero = refl

-- The four pad bits are dropped unread, so that another first character gives the same key.
parse_other_pad :
    parse_address zero_digest "nano_411111111111111111111111111111111111111111111111111111111111"
    ≡ some (zeros 32)
unfolding parse_zero
parse_other_pad = refl

address_zero : address zero_digest (zeros 32) ≡ zero_address
unfolding address encode_five
address_zero = refl

-- Half a nano.
parse_half :
    parse_nano_amount (λ s. some (record { num = pos 1; denom = 2 })) "0.5"
    ≡ some 500000000000000000000000000000
unfolding parse_nano_amount
parse_half = refl

parse_address-address_example :
    parse_address zero_digest (address zero_digest sample_key) ≡ some sample_key
parse_address-address_example =
    parse_address-address zero_digest sample_key refl sample_key-IsByte refl (zeros-IsByte 5)

hex_sample : hex sample_key ≡ "ff07000000000000000000000000000000000000000000000000000000000000"
unfolding hex hex_encode
hex_sample = refl

derive_sample :
    derive_key (λ size octets. take size (drop 32 octets ++ zeros 28)) sample_key 258
    ≡ some (0 ∷ 0 ∷ 1 ∷ 2 ∷ zeros 28)
unfolding derive_key blake2b_sum written copy_bytes take drop
derive_sample = refl

verify_challenge-answer_challenge_example :
    (account : List ℕ) × (sig : Signature) × (public zero_digest parity sample_key ≡ some account)
    × (answer_challenge zero_digest parity sample_key (1 ∷ 2 ∷ []) ≡ some sig)
    × (verify_challenge parity zero_digest account (1 ∷ 2 ∷ []) sig ≡ true)
verify_challenge-answer_challenge_example =
    verify_challenge-answer_challenge parity zero_digest parity-Sized (parity-Sound zero_digest)
      sample_key (1 ∷ 2 ∷ [])
