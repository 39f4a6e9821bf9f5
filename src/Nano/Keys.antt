-- ===== src/Nano/Keys.antt =====
-- internal/nano/keys.go and hash.go: seeds, private keys, and what sign.go and auth.go do with a private key.
-- `none` is a panic, and in `parse_seed` an error. `blake2b size octets` is the digest of golang.org/x/crypto/blake2b.
pub mod Challenges
use Prim.Native.String
use nora_relay.Base.{
  ℕ, ◌+◌, ◌*◌, ◌/◌, ◌%◌, ◌^◌, String, Bool, not, ◌&&◌, List, [], ◌∷◌, ◌++◌, Option, none, some, leb,
  nat_eq, length, if◌then◌else◌,
}
use nora_relay.Text.{bytes, hex_encode, hex_decode}
use nora_relay.Nano.Account.{zeros, take, drop, address}
use nora_relay.Nano.Signing.{Curve, Signature, sign, auth_challenge_digest}

-- copy(dst, src)
unfoldable pub copy_bytes : (dst src : List ℕ) → List ℕ
copy_bytes [] src = []
copy_bytes (d ∷ dst) [] = d ∷ dst
copy_bytes (d ∷ dst) (b ∷ src) = b ∷ copy_bytes dst src

unfoldable pub parse_seed : (hex_seed : String) → Option (List ℕ)
parse_seed hex_seed = elim (hex_decode (bytes hex_seed)) [
  | none ↦ none
  | some b ↦ if not (nat_eq (length b) 32) then none else some (copy_bytes (zeros 32) b)
]

-- Seed.Hex
unfoldable pub hex : (seed : List ℕ) → String
hex seed = hex_encode seed

-- binary.BigEndian.PutUint32 of an index below 2 ^ 32
abbrev pub put_uint32 : (index : ℕ) → List ℕ
put_uint32 index =
    (index / 2 ^ 24 % 256) ∷ (index / 2 ^ 16 % 256) ∷ (index / 2 ^ 8 % 256) ∷ (index % 256) ∷ []

-- The writes of the parts, one after the other.
unfoldable pub written : (parts : List (List ℕ)) → List ℕ
written [] = []
written (p ∷ parts) = p ++ written parts

module _ (blake2b : ℕ → List ℕ → List ℕ) where
  -- blake2b.New fails on a size that is not between 1 and 64.
  unfoldable pub blake2b_sum : (size : ℕ) → (parts : List (List ℕ)) → Option (List ℕ)
  blake2b_sum size parts =
      if leb 1 size && leb size 64 then some (blake2b size (written parts)) else none

  abbrev pub blake2b256 : (parts : List (List ℕ)) → Option (List ℕ)
  blake2b256 parts = blake2b_sum 32 parts

  abbrev pub blake2b512 : (parts : List (List ℕ)) → Option (List ℕ)
  blake2b512 parts = blake2b_sum 64 parts

  unfoldable pub derive_key : (seed : List ℕ) → (index : ℕ) → Option (List ℕ)
  derive_key seed index = elim (blake2b256 (seed ∷ put_uint32 index ∷ [])) [
    | none ↦ none
    | some digest ↦ some (copy_bytes (zeros 32) digest)
  ]

  unfoldable pub policy_sync_key : (pk : List ℕ) → Option (List ℕ)
  policy_sync_key pk = blake2b256 (bytes "nora-policy-sync-v1" ∷ pk ∷ [])

  module _ (curve : Curve) where
    open curve use {set_bytes_with_clamping, scalar_base_mult, point_bytes}

    unfoldable pub expanded_scalar : (pk : List ℕ) → Option (curve.Scalar × List ℕ)
    expanded_scalar pk = elim (blake2b512 (pk ∷ [])) [
      | none ↦ none
      | some h ↦ elim (set_bytes_with_clamping (take 32 h)) [
        | none ↦ none
        | some scalar ↦ some (scalar, drop 32 h)
      ]
    ]

    -- PrivateKey.Public
    unfoldable pub public : (pk : List ℕ) → Option (List ℕ)
    public pk = elim (expanded_scalar pk) [
      | none ↦ none
      | some (scalar, prefix) ↦ some (copy_bytes (zeros 32) (point_bytes (scalar_base_mult scalar)))
    ]

    -- PrivateKey.Address
    unfoldable pub key_address : (pk : List ℕ) → Option String
    key_address pk = elim (public pk) [
      | none ↦ none
      | some account ↦ some (address blake2b account)
    ]

    -- Sign, with the key expanded first.
    unfoldable pub sign_with : (pk msg : List ℕ) → Option Signature
    sign_with pk msg = elim (expanded_scalar pk) [
      | none ↦ none
      | some (a, prefix) ↦ elim (sign curve blake2b a prefix msg) [
        | none ↦ none
        | some sig ↦ some (record {
          first = copy_bytes (zeros 32) sig.first;
          second = copy_bytes (zeros 32) sig.second;
        })
      ]
    ]

    -- SignChallenge
    unfoldable pub answer_challenge : (pk nonce : List ℕ) → Option Signature
    answer_challenge pk nonce = elim (public pk) [
      | none ↦ none
      | some account ↦ sign_with pk (auth_challenge_digest curve blake2b nonce account)
    ]
