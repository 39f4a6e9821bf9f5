-- ===== src/Nano/Amount/RoundTrip.antt =====
-- internal/nano/amount.go: ParseNanoAmount after FormatNanoAmount.
use native.Mathlib.Nat.{mul-div_cancel, mul-mod_left}
use nora_relay.Base.{
  ℕ, ◌*◌, ◌/◌, ◌%◌, ◌<◌, ◌≡◌, ap, ◌∙◌, pos, negsuc, String, Option, none, some, nat_eq,
  if◌then◌else◌,
}
use nora_relay.Nano.Amount.{Rat, raw_per_nano, parse_nano_amount, format_nano_amount}

-- What the source relies on of math/big: SetFrac gives a fraction of the same value, and SetString reads what FloatString
-- writes of a fraction that needs no more than the 30 digits it is given.
pub record IsExact (set_string : String → Option Rat) (set_frac : ℕ → ℕ → Rat)
    (float_string : Rat → ℕ → String) : Type 0 where
  pub num : ℕ → ℕ
  pub is_num : (raw : ℕ) → (set_frac raw raw_per_nano).num ≡ pos (num raw)
  pub has_denom : (raw : ℕ) → 0 < (set_frac raw raw_per_nano).denom
  pub same_value : (raw : ℕ) → num raw * raw_per_nano ≡ raw * (set_frac raw raw_per_nano).denom
  pub reads :
      (raw : ℕ)
      → set_string (float_string (set_frac raw raw_per_nano) 30) ≡ some (set_frac raw raw_per_nano)

-- ParseNanoAmount gives back the amount that FormatNanoAmount wrote, where math/big is exact.
pub parse_nano_amount-format_nano_amount :
    (set_string : String → Option Rat) (set_frac : ℕ → ℕ → Rat) (float_string : Rat → ℕ → String)
    → IsExact set_string set_frac float_string
    → (raw : ℕ)
    → parse_nano_amount set_string (format_nano_amount set_frac float_string (some raw)) ≡ some raw
unfolding parse_nano_amount format_nano_amount
parse_nano_amount-format_nano_amount set_string set_frac float_string exact raw =
    let d = (set_frac raw raw_per_nano).denom in
    let q = set_frac raw raw_per_nano in
    let n = exact.num raw in
    let d = q.denom in
    let value = exact.same_value raw in
    let divides : n * raw_per_nano % d ≡ 0 = ap (λ v. v % d) value ∙ mul-mod_left raw d in
    let quotient : n * raw_per_nano / d ≡ raw =
      ap (λ v. v / d) value ∙ mul-div_cancel raw (exact.has_denom raw) in
    let whole : Rat → Option ℕ = λ rat. elim rat.num [
      | negsuc _ ↦ none
      | pos m ↦
          if nat_eq (m * raw_per_nano % rat.denom) 0
          then some (m * raw_per_nano / rat.denom)
          else none
    ] in
    ap (λ found. elim found [ none ↦ none | some rat ↦ whole rat ]) (exact.reads raw)
    ∙ ap
        (λ num. elim num [
          | negsuc _ ↦ none
          | pos m ↦ if nat_eq (m * raw_per_nano % d) 0 then some (m * raw_per_nano / d) else none
        ])
        (exact.is_num raw)
    ∙ ap (λ r. if nat_eq r 0 then some (n * raw_per_nano / d) else none) divides
    ∙ ap some quotient
