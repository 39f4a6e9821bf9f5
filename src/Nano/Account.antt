-- ===== src/Nano/Account.antt =====
-- internal/nano/account.go: account addresses. A public key is its list of bytes, and `blake2b size octets`
-- the digest of golang.org/x/crypto/blake2b.
pub mod Bits
pub mod Codec
pub mod RoundTrip
use Prim.Native.Char.{Char, code}
use Prim.Native.String
use nora_relay.Base.{
  ℕ, zero, suc, ◌+◌, ◌-◌, ◌*◌, ◌/◌, ◌%◌, ◌^◌, String, Bool, true, false, not, ◌&&◌, List, [], ◌∷◌,
  reverse, Option, none, some, ltb, nat_eq, length, if◌then◌else◌,
}
use nora_relay.Text.{bytes}

-- The indices of nanoAlphabet.
abbrev alphabet : String
alphabet = "13456789abcdefghijkmnopqrstuwxyz"

-- s[i] of an ASCII string
unfoldable pub char_at : String → ℕ → Char
char_at String.[] i = "1"
char_at (String.◌∷◌ c s) zero = c
char_at (String.◌∷◌ c s) (suc i) = char_at s i

-- nanoReverse[c] from index `i` on, `none` for -1
unfoldable pub index_from : String → (i c : ℕ) → Option ℕ
index_from String.[] i c = none
index_from (String.◌∷◌ d s) i c =
    let rest = index_from s (suc i) c in if nat_eq (code d) c then some i else rest

unfoldable pub byte_at : List ℕ → ℕ → ℕ
byte_at [] i = 0
byte_at (b ∷ bs) zero = b
byte_at (b ∷ bs) (suc i) = byte_at bs i

-- (b >> (7 - p)) & 1
abbrev pub bit_of : (b p : ℕ) → ℕ
bit_of b p = b / 2 ^ (7 - p) % 2

-- The closure bitAt of encodeBase32.
abbrev pub bit_at : List ℕ → (pad i : ℕ) → ℕ
bit_at octets pad i =
    if ltb i pad then 0 else bit_of (byte_at octets ((i - pad) / 8)) ((i - pad) % 8)

-- The inner loop, with `n` turns left.
unfoldable pub gather : List ℕ → (pad i n v : ℕ) → ℕ
gather octets pad i zero v = v
gather octets pad i (suc n) v = gather octets pad (i + 1) n (2 * v + bit_at octets pad i)

-- The outer loop, with `n` turns left, one for each character.
unfoldable pub encode_from : List ℕ → (pad i n : ℕ) → String
encode_from octets pad i zero = ""
encode_from octets pad i (suc n) =
    String.◌∷◌ (char_at alphabet (gather octets pad i 5 0)) (encode_from octets pad (i + 5) n)

unfoldable pub encode_base32 : List ℕ → (pad : ℕ) → String
encode_base32 octets pad = encode_from octets pad 0 ((pad + length octets * 8 + 4) / 5)

-- out[i] |= mask, for a bit that is not set there
unfoldable pub set_byte : List ℕ → (i mask : ℕ) → List ℕ
set_byte [] i mask = []
set_byte (b ∷ out) zero mask = (b + mask) ∷ out
set_byte (b ∷ out) (suc i) mask = b ∷ set_byte out i mask

-- The loop over the bits of a character's value, with `k` bits left, the highest first.
unfoldable pub scatter : (v k : ℕ) → (pad bit_idx : ℕ) → List ℕ → List ℕ
scatter v zero pad bit_idx out = out
scatter v (suc k) pad bit_idx out =
    let pos = bit_idx - pad in
    scatter v k pad (bit_idx + 1)
      (if ltb bit_idx pad then out else set_byte out (pos / 8) (v / 2 ^ k % 2 * 2 ^ (7 - pos % 8)))

unfoldable pub decode_from : List ℕ → (pad bit_idx : ℕ) → List ℕ → Option (List ℕ)
decode_from [] pad bit_idx out = some out
decode_from (c ∷ s) pad bit_idx out = elim (index_from alphabet 0 c) [
  | none ↦ none
  | some v ↦ decode_from s pad (bit_idx + 5) (scatter v 5 pad bit_idx out)
]

-- make([]byte, n)
abbrev pub zeros : ℕ → List ℕ
zeros zero = []
zeros (suc n) = 0 ∷ zeros n

-- The error is `none`: it is told from the others by no caller.
unfoldable pub decode_base32 : List ℕ → (pad : ℕ) → Option (List ℕ)
decode_base32 s pad =
    let out_bits = length s * 5 - pad in
    let rest = decode_from s pad 0 (zeros (out_bits / 8)) in
    if nat_eq (out_bits % 8) 0 then rest else none

unfoldable pub bytes_equal : (a b : List ℕ) → Bool
bytes_equal [] [] = true
bytes_equal (x ∷ a) (y ∷ b) = nat_eq x y && bytes_equal a b
bytes_equal _ _ = false

-- strings.HasPrefix and the slice after the prefix
unfoldable pub cut_prefix : (prefix s : List ℕ) → Option (List ℕ)
cut_prefix [] s = some s
cut_prefix (p ∷ prefix) [] = none
cut_prefix (p ∷ prefix) (c ∷ s) =
    let rest = cut_prefix prefix s in if nat_eq p c then rest else none

unfoldable pub take : ℕ → List ℕ → List ℕ
take zero s = []
take (suc n) [] = []
take (suc n) (c ∷ s) = c ∷ take n s

unfoldable pub drop : ℕ → List ℕ → List ℕ
drop zero s = s
drop (suc n) [] = []
drop (suc n) (c ∷ s) = drop n s

module _ (blake2b : ℕ → List ℕ → List ℕ) where
  unfoldable pub address : List ℕ → String
  address pk =
      String.◌++◌ "nano_"
        (String.◌++◌ (encode_base32 pk 4) (encode_base32 (reverse (blake2b 5 pk)) 0))

  -- The checksum of a decoded key.
  unfoldable pub check_sum : List ℕ → Option (List ℕ) → Option (List ℕ)
  check_sum pub_key none = none
  check_sum pub_key (some got) =
      if bytes_equal (reverse got) (blake2b 5 pub_key) then some pub_key else none

  -- ParseAddress after the prefix.
  unfoldable pub parse_rest : List ℕ → Option (List ℕ)
  unfolding check_sum
  parse_rest addr =
      if not (nat_eq (length addr) 60) then none else elim (decode_base32 (take 52 addr) 4) [
        | none ↦ none
        | some pub_key ↦
            if not (nat_eq (length pub_key) 32)
            then none
            else check_sum pub_key (decode_base32 (drop 52 addr) 0)
      ]

  unfoldable pub parse_address : String → Option (List ℕ)
  unfolding parse_rest
  parse_address addr = elim (cut_prefix (bytes "nano_") (bytes addr)) [
    | some rest ↦ parse_rest rest
    | none ↦ elim (cut_prefix (bytes "xrb_") (bytes addr)) [
      | some rest ↦ parse_rest rest
      | none ↦ none
    ]
  ]
