-- ===== src/Nano/Sample.antt =====
-- internal/nano: two small curves, of the numbers and of the field of two elements, and a digest of zeros, at which
-- tests run the code.
use nora_relay.Base.{
  Bool, true, false, not, ◌&&◌, ◌%◌, zero, suc, ◌≡◌, ap, length, All, ℕ, ◌+◌, ◌*◌, String, refl,
  List, [], ◌∷◌, Option, none, some, nat_eq, nat_eq_refl, arith,
}
use nora_relay.Nano.Account.{zeros}
use nora_relay.Nano.Account.Bits.{IsByte}
use nora_relay.Nano.Signing.{Curve, Sound}
use nora_relay.Nano.Keys.Challenges.{Sized}

abbrev pub zero_digest : ℕ → List ℕ → List ℕ
zero_digest size octets = zeros size

abbrev pub first_byte : List ℕ → Option ℕ
first_byte [] = none
first_byte (b ∷ bs) = some b

abbrev pub numbers : Curve
numbers = record {
  Point = ℕ;
  Scalar = ℕ;
  point_set_bytes = first_byte;
  point_bytes = λ p. p ∷ zeros 31;
  set_bytes_with_clamping = first_byte;
  set_canonical_bytes = first_byte;
  set_uniform_bytes = first_byte;
  scalar_bytes = λ s. s ∷ zeros 31;
  scalar_base_mult = λ s. s;
  scalar_mult = λ k p. k * p;
  add = λ p q. p + q;
  multiply_add = λ k a r. k * a + r;
  equal = nat_eq;
}

pub numbers-Sound : (blake2b : ℕ → List ℕ → List ℕ) → Sound numbers blake2b
numbers-Sound blake2b = record {
  point_roundtrip = λ p. refl;
  scalar_roundtrip = λ s. refl;
  base_mult-multiply_add = λ k a r. omega arith;
  equal_refl = nat_eq_refl;
}

-- The address of the key of zeros.
abbrev pub zero_address : String
zero_address = "nano_111111111111111111111111111111111111111111111111111111111111"

-- A seed or a key.
abbrev pub sample_key : List ℕ
sample_key = 0xff ∷ 0x07 ∷ zeros 30

length-zeros : (n : ℕ) → length (zeros n) ≡ n
length-zeros zero = refl
length-zeros (suc n) = ap suc (length-zeros n)

pub zeros-IsByte : (n : ℕ) → All IsByte (zeros n)
zeros-IsByte zero = tt
zeros-IsByte (suc n) = (omega arith, zeros-IsByte n)

pub sample_key-IsByte : All IsByte sample_key
sample_key-IsByte = (omega arith, (omega arith, zeros-IsByte 30))

-- The field of two elements, each 32 bytes with the element in the first.
abbrev pub byte_of : Bool → ℕ
byte_of false = 0
byte_of true = 1

abbrev pub array_of : Bool → List ℕ
array_of b = byte_of b ∷ zeros 31

abbrev pub is_odd : List ℕ → Option Bool
is_odd [] = none
is_odd (b ∷ bs) = some (nat_eq (b % 2) 1)

abbrev pub xor : Bool → Bool → Bool
xor false b = b
xor true b = not b

abbrev pub same : Bool → Bool → Bool
same a b = not (xor a b)

abbrev pub parity : Curve
parity = record {
  Point = Bool;
  Scalar = Bool;
  point_set_bytes = is_odd;
  point_bytes = array_of;
  set_bytes_with_clamping = is_odd;
  set_canonical_bytes = is_odd;
  set_uniform_bytes = is_odd;
  scalar_bytes = array_of;
  scalar_base_mult = λ s. s;
  scalar_mult = λ k p. k && p;
  add = xor;
  multiply_add = λ k a r. xor (k && a) r;
  equal = same;
}

array_roundtrip : (b : Bool) → is_odd (array_of b) ≡ some b
array_roundtrip false = refl
array_roundtrip true = refl

xor_comm : (a b : Bool) → xor a b ≡ xor b a
xor_comm false false = refl
xor_comm false true = refl
xor_comm true false = refl
xor_comm true true = refl

same_refl : (a : Bool) → same a a ≡ true
same_refl false = refl
same_refl true = refl

pub parity-Sound : (blake2b : ℕ → List ℕ → List ℕ) → Sound parity blake2b
parity-Sound blake2b = record {
  point_roundtrip = array_roundtrip;
  scalar_roundtrip = array_roundtrip;
  base_mult-multiply_add = λ k a r. xor_comm (k && a) r;
  equal_refl = same_refl;
}

is_odd-total : (b : List ℕ) (n : ℕ) → length b ≡ suc n → (s : Bool) × (is_odd b ≡ some s)
is_odd-total [] n h = ground arith
is_odd-total (b ∷ bs) n h = (nat_eq (b % 2) 1, refl)

array-IsByte : (b : Bool) → All IsByte (array_of b)
array-IsByte false = zeros-IsByte 32
array-IsByte true = (omega arith, zeros-IsByte 31)

pub parity-Sized : Sized parity zero_digest
parity-Sized = record {
  digest_octets = λ size l low high. (length-zeros size, zeros-IsByte size);
  clamps = λ b h. is_odd-total b 31 h;
  reduces = λ b h. is_odd-total b 63 h;
  point_octets = λ p. (refl, array-IsByte p);
  scalar_octets = λ s. (refl, array-IsByte s);
}
