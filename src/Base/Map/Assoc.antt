-- ===== src/Base/Map/Assoc.antt =====
-- The entries of a Go map as an association list, at most one for each key.
use Prim.Native.String.{String}
use mathlib.Core.Path.{◌≡◌, refl}
use mathlib.Core.Logic.{inl, inr}
use mathlib.Core.Bool.{Bool, true, false, ◌||◌}
use mathlib.Core.Option.{Option, none, some}
use mathlib.Core.List.{List, [], ◌∷◌}
use native.Mathlib.Omega.{arith}
use text.Mathlib.Text.{◌==◌}
use text.Mathlib.TextEquality.{eq_iff}
use text.Mathlib.TextPositions.{eq_refl}
use nora_relay.Base.Tests.{if◌then◌else◌, Bool-cases}

-- A value that passes the test is dropped.
abbrev pub unless {ℓ} : {V : Type ℓ} → (V → Bool) → Option V → Option V
unless p none = none
unless p (some v) = if p v then none else some v

module _ {ℓ} {V : Type ℓ} where
  unfoldable pub lookup_in : String → List (String × V) → Option V
  lookup_in k [] = none
  lookup_in k ((j, v) ∷ m) = if j == k then some v else lookup_in k m

  unfoldable pub insert_in : String → V → List (String × V) → List (String × V)
  insert_in k v [] = (k, v) ∷ []
  insert_in k v ((j, w) ∷ m) = if j == k then (k, v) ∷ m else (j, w) ∷ insert_in k v m

  unfoldable pub remove_in : String → List (String × V) → List (String × V)
  remove_in k [] = []
  remove_in k ((j, v) ∷ m) = let rest = remove_in k m in if j == k then rest else (j, v) ∷ rest

  unfoldable pub discard_in : (V → Bool) → List (String × V) → List (String × V)
  discard_in p [] = []
  discard_in p ((j, v) ∷ m) = let rest = discard_in p m in if p v then rest else (j, v) ∷ rest

  unfoldable pub any_in : (V → Bool) → List (String × V) → Bool
  any_in p [] = false
  any_in p ((j, v) ∷ m) = p v || any_in p m

  unfoldable pub first_in : (V → Bool) → List (String × V) → Option V
  first_in p [] = none
  first_in p ((j, v) ∷ m) = if p v then some v else first_in p m

  abbrev pub Unique : List (String × V) → Type ℓ
  Unique [] = Unit
  Unique ((k, v) ∷ m) = (lookup_in k m ≡ none) × Unique m

module _ {ℓ} {V : Type ℓ} where
  pub lookup_in-insert :
      (k j : String) (v : V) (m : List (String × V))
      → lookup_in j (insert_in k v m) ≡ (if k == j then some v else lookup_in j m)
  unfolding lookup_in insert_in
  lookup_in-insert k j v [] = refl
  lookup_in-insert k j v ((i, w) ∷ m) =
      ground (arith, eq_iff k j, eq_iff i k, eq_iff i j, lookup_in-insert k j v m)

  pub lookup_in-remove :
      (k j : String) (m : List (String × V))
      → lookup_in j (remove_in k m) ≡ (if k == j then none else lookup_in j m)
  unfolding lookup_in remove_in
  lookup_in-remove k j [] = ground arith
  lookup_in-remove k j ((i, v) ∷ m) =
      ground (arith, lookup_in-remove k j m, eq_iff i k, eq_iff i j, eq_iff k j)

  pub lookup_in-discard :
      (p : V → Bool) (j : String) (m : List (String × V))
      → Unique m
      → lookup_in j (discard_in p m) ≡ unless p (lookup_in j m)
  unfolding lookup_in discard_in
  lookup_in-discard p j [] u = refl
  lookup_in-discard p j ((i, v) ∷ m) u =
      ground (arith, lookup_in-discard p j m u.1, eq_iff i j, u.0)

  pub insert-Unique :
      (k : String) (v : V) (m : List (String × V)) → Unique m → Unique (insert_in k v m)
  unfolding insert_in lookup_in
  insert-Unique k v [] u = (refl, tt)
  insert-Unique k v ((i, w) ∷ m) u =
      ground (arith, eq_iff i k, eq_iff k i, lookup_in-insert k i v m, insert-Unique k v m u.1)

  pub remove-Unique : (k : String) (m : List (String × V)) → Unique m → Unique (remove_in k m)
  unfolding remove_in
  remove-Unique k [] u = tt
  remove-Unique k ((i, v) ∷ m) u =
      ground (arith, eq_iff k i, lookup_in-remove k i m, remove-Unique k m u.1)

  pub discard-Unique : (p : V → Bool) (m : List (String × V)) → Unique m → Unique (discard_in p m)
  unfolding discard_in
  discard-Unique p [] u = tt
  discard-Unique p ((i, v) ∷ m) u =
      ground (arith, lookup_in-discard p i m u.1, discard-Unique p m u.1)

  pub any_in_complete :
      (p : V → Bool) (k : String) (v : V) (m : List (String × V))
      → lookup_in k m ≡ some v
      → p v ≡ true
      → any_in p m ≡ true
  unfolding lookup_in any_in
  any_in_complete p k v [] e h = cc
  any_in_complete p k v ((i, w) ∷ m) e h = ground (arith, any_in_complete p k v m)

  -- The key of a later entry is not that of the first.
  lookup_in_tail :
      (i k : String) (v w : V) (m : List (String × V))
      → lookup_in i m ≡ none
      → lookup_in k m ≡ some v
      → lookup_in k ((i, w) ∷ m) ≡ some v
  unfolding lookup_in
  lookup_in_tail i k v w m absent e = ground (arith, eq_iff i k)

  pub any_in_sound :
      (p : V → Bool) (m : List (String × V))
      → Unique m
      → any_in p m ≡ true
      → (k : String) × (v : V) × (lookup_in k m ≡ some v) × (p v ≡ true)
  unfolding lookup_in any_in
  any_in_sound p [] u h = cc
  any_in_sound p ((i, w) ∷ m) u h = elim (Bool-cases (p w)) [
    | inl here ↦ (i, w, rw (eq_refl i), here)
    | inr miss ↦
        let later : any_in p m ≡ true = ground arith in
        let (k, v, e, good) = any_in_sound p m u.1 later in
        (k, v, lookup_in_tail i k v w m u.0 e, good)
  ]

  -- The first match is an entry, and where there is none no entry passes the test.
  pub first_in_sound :
      (p : V → Bool) (m : List (String × V)) (v : V)
      → Unique m
      → first_in p m ≡ some v
      → (k : String) × (lookup_in k m ≡ some v) × (p v ≡ true)
  unfolding lookup_in first_in
  first_in_sound p [] v u h = cc
  first_in_sound p ((i, w) ∷ m) v u h = elim (Bool-cases (p w)) [
    | inl here ↦ (i, rw (eq_refl i) (ground arith), ground arith)
    | inr miss ↦
        let (k, e, good) = first_in_sound p m v u.1 (ground arith) in
        (k, lookup_in_tail i k v w m u.0 e, good)
  ]

  pub first_in_complete :
      (p : V → Bool) (k : String) (v : V) (m : List (String × V))
      → first_in p m ≡ none
      → lookup_in k m ≡ some v
      → p v ≡ false
  unfolding lookup_in first_in
  first_in_complete p k v [] h e = cc
  first_in_complete p k v ((i, w) ∷ m) h e = ground (arith, first_in_complete p k v m)
