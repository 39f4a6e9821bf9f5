-- ===== src/Base/Below.antt =====
-- Tables of ASCII characters: a test of all numbers below a bound that a character is read back as its number.
use Prim.Native.Nat.{ℕ, zero, suc, ◌<◌}
use mathlib.Core.Path.{◌≡◌, refl, ap, ◌∙◌}
use mathlib.Core.Logic.{inl, inr}
use mathlib.Core.Bool.{Bool, true, false, ◌&&◌}
use mathlib.Core.Option.{Option, none, some}
use native.Mathlib.Omega.{arith}
use nora_relay.Base.Tests.{ltb, nat_eq, nat_eq_iff, Bool-cases}

both_true : (a b : Bool) → (a && b) ≡ true → (a ≡ true) × (b ≡ true)
both_true true b h = (refl, h)
both_true false b h = ground arith

is_index : ℕ → Option ℕ → Bool
is_index v none = false
is_index v (some w) = nat_eq w v

is_index-Sound : (v : ℕ) (found : Option ℕ) → is_index v found ≡ true → found ≡ some v
unfolding is_index
is_index-Sound v none h = ground arith
is_index-Sound v (some w) h = ap some ((nat_eq_iff w v).0 h)

unfoldable pub all_below : (ℕ → Bool) → ℕ → Bool
all_below p zero = true
all_below p (suc n) = p n && all_below p n

all_below-Sound : (p : ℕ → Bool) (n : ℕ) → all_below p n ≡ true → (v : ℕ) → v < n → p v ≡ true
unfolding all_below
all_below-Sound p zero h v hv = ground arith
all_below-Sound p (suc n) h v hv =
    let both = both_true (p n) (all_below p n) h in
    elim (Bool-cases (nat_eq v n)) [
      | inl here ↦ ap p ((nat_eq_iff v n).0 here) ∙ both.0
      | inr other ↦ all_below-Sound p n both.1 v (ground arith)
    ]

-- Is the code that `write` gives for `v` ASCII, and does `read` give `v` back?
unfoldable pub reads_back : (write : ℕ → ℕ) → (read : ℕ → Option ℕ) → ℕ → Bool
unfolding is_index
reads_back write read v = ltb (write v) 128 && is_index v (read (write v))

ltb-Sound : (a b : ℕ) → ltb a b ≡ true → a < b
ltb-Sound a b h = ground arith

pub reads_back-Sound :
    (write : ℕ → ℕ) (read : ℕ → Option ℕ) (n : ℕ)
    → all_below (reads_back write read) n ≡ true
    → (v : ℕ) → v < n
    → (write v < 128) × (read (write v) ≡ some v)
unfolding reads_back
reads_back-Sound write read n h v hv =
    let both = both_true _ _ (all_below-Sound (reads_back write read) n h v hv) in
    (ltb-Sound _ _ both.0, is_index-Sound v _ both.1)
