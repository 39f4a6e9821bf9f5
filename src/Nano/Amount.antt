-- ===== src/Nano/Amount.antt =====
-- internal/nano/amount.go: amounts in raw. A big.Rat is its numerator and denominator in lowest terms;
-- the methods of big.Rat are parameters.
pub mod RoundTrip
use nora_relay.Base.{
  ℕ, ◌*◌, ◌/◌, ◌%◌, ◌^◌, ℤ, pos, negsuc, String, Option, none, some, nat_eq, if◌then◌else◌,
}

abbrev pub raw_per_nano : ℕ
raw_per_nano = 10 ^ 30

pub record Rat : Type 0 where
  pub num : ℤ
  pub denom : ℕ

-- The errors are `none`: they are told apart by no caller.
unfoldable pub parse_nano_amount : (String → Option Rat) → String → Option ℕ
parse_nano_amount set_string s = elim (set_string s) [
  | none ↦ none
  | some rat ↦ elim rat.num [
    | negsuc _ ↦ none
    | pos n ↦
        if nat_eq (n * raw_per_nano % rat.denom) 0
        then some (n * raw_per_nano / rat.denom)
        else none
  ]
]

-- A nil *big.Int is `none`. `set_frac` and `float_string` are the methods of big.Rat.
unfoldable pub format_nano_amount :
    (set_frac : ℕ → ℕ → Rat) → (float_string : Rat → ℕ → String) → (raw : Option ℕ) → String
format_nano_amount set_frac float_string none = "0"
format_nano_amount set_frac float_string (some raw) = float_string (set_frac raw raw_per_nano) 30
