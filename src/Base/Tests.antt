-- ===== src/Base/Tests.antt =====
-- Boolean tests, the conditional, and the splits on a computed value that keep its equation.
use Prim.Native.Nat.{ℕ, compare, Ordering}
use Prim.Native.String.{String}
use mathlib.Core.Path.{◌≡◌, refl, sym}
use mathlib.Core.Logic.{◌↔◌, ◌≢◌, ◌⊎◌, inl, inr}
use mathlib.Core.Bool.{Bool, true, false}
use mathlib.Core.Option.{Option, none, some}
use native.Mathlib.Omega.{arith}
use text.Mathlib.Text.{◌==◌}
use text.Mathlib.TextEquality.{eq_iff}

abbrev pub ltb : ℕ → ℕ → Bool
ltb a b = elim (compare a b) [ Ordering.lt ↦ true | _ ↦ false ]

abbrev pub leb : ℕ → ℕ → Bool
leb a b = elim (compare a b) [ Ordering.gt ↦ false | _ ↦ true ]

abbrev pub nat_eq : ℕ → ℕ → Bool
nat_eq a b = elim (compare a b) [ Ordering.eq ↦ true | _ ↦ false ]

infix 1 if◌then◌else◌
abbrev pub if◌then◌else◌ {ℓ} : {A : Type ℓ} → Bool → A → A → A
if true then x else y = x
if false then x else y = y

pub nat_eq_iff : (a b : ℕ) → (nat_eq a b ≡ true) ↔ (a ≡ b)
nat_eq_iff a b = ground arith

pub nat_eq_refl : (a : ℕ) → nat_eq a a ≡ true
nat_eq_refl a = ground arith

pub Bool-cases : (b : Bool) → (b ≡ true) ⊎ (b ≡ false)
Bool-cases true = inl refl
Bool-cases false = inr refl

pub String-cases : (s t : String) → ((s ≡ t) × ((s == t) ≡ true)) ⊎ ((s ≢ t) × ((s == t) ≡ false))
String-cases s t = elim (Bool-cases (s == t)) [
  | inl e ↦ inl ((eq_iff s t).0 e, e)
  | inr e ↦ inr ((λ p. ground (arith, eq_iff s t)), e)
]

module _ {ℓ} {A : Type ℓ} where
  pub Option-cases : (o : Option A) → (o ≡ none) ⊎ ((a : A) × (o ≡ some a))
  Option-cases none = inl refl
  Option-cases (some a) = inr (a, refl)

  -- Go's read of a missing map key: the zero value.
  abbrev pub or_zero : A → Option A → A
  or_zero z none = z
  or_zero z (some a) = a

  -- Does an optional value pass a test?
  abbrev pub holds : (A → Bool) → Option A → Bool
  holds p none = false
  holds p (some a) = p a

pub Bool-eq : (a b : Bool) → (a ≡ true → b ≡ true) → (b ≡ true → a ≡ true) → a ≡ b
Bool-eq true b f g = sym (f refl)
Bool-eq false true f g = g refl
Bool-eq false false f g = refl
