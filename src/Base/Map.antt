-- ===== src/Base/Map.antt =====
-- A Go map with string keys: at most one entry for each key. Clients see it through its laws.
mod Assoc
use Assoc.{lookup_in, insert_in, remove_in, discard_in, any_in, Unique}
use Assoc.{lookup_in-insert, lookup_in-remove, lookup_in-discard}
use Assoc.{insert-Unique, remove-Unique, discard-Unique, any_in_sound, any_in_complete}
use Assoc.{first_in, first_in_sound, first_in_complete}
use Prim.Native.String.{String}
use mathlib.Core.Path.{◌≡◌, refl}
use mathlib.Core.Bool.{Bool, true, false}
use mathlib.Core.Option.{Option, none, some}
use mathlib.Core.List.{List, [], ◌∷◌}
use text.Mathlib.Text.{◌==◌}
use nora_relay.Base.Tests.{if◌then◌else◌}
pub use Assoc.{unless}

pub record Map {ℓ} (V : Type ℓ) : Type ℓ where
  entries : List (String × V)
  unique : Unique entries

module _ {ℓ} {V : Type ℓ} where
  -- map[string]V{}
  unfoldable pub empty : Map V
  empty = record { entries = []; unique = tt }

  -- v, ok := m[k]
  unfoldable pub lookup : Map V → String → Option V
  unfolding lookup_in
  lookup m k = lookup_in k m.entries

  -- m[k] = v
  unfoldable pub insert : String → V → Map V → Map V
  unfolding insert_in
  insert k v m = record {
    entries = insert_in k v m.entries;
    unique = insert-Unique k v m.entries m.unique;
  }

  -- delete(m, k)
  unfoldable pub remove : String → Map V → Map V
  unfolding remove_in
  remove k m = record {
    entries = remove_in k m.entries;
    unique = remove-Unique k m.entries m.unique;
  }

  -- for k, v := range m { if p(v) { delete(m, k) } }
  unfoldable pub discard : (V → Bool) → Map V → Map V
  unfolding discard_in
  discard p m = record {
    entries = discard_in p m.entries;
    unique = discard-Unique p m.entries m.unique;
  }

  -- for _, v := range m { if p(v) { return true } }; return false
  unfoldable pub any_value : (V → Bool) → Map V → Bool
  unfolding any_in
  any_value p m = any_in p m.entries

  -- a value that passes the test
  unfoldable pub first : (V → Bool) → Map V → Option V
  unfolding first_in
  first p m = first_in p m.entries

  pub first_sound :
      (m : Map V) (p : V → Bool) (v : V)
      → first p m ≡ some v
      → (k : String) × (lookup m k ≡ some v) × (p v ≡ true)
  unfolding lookup first
  first_sound m p v = first_in_sound p m.entries v m.unique

  pub first_complete :
      (m : Map V) (p : V → Bool) (k : String) (v : V)
      → first p m ≡ none
      → lookup m k ≡ some v
      → p v ≡ false
  unfolding lookup first
  first_complete m p k v = first_in_complete p k v m.entries

  pub lookup-insert :
      (m : Map V) (k j : String) (v : V)
      → lookup (insert k v m) j ≡ (if k == j then some v else lookup m j)
  unfolding lookup insert
  lookup-insert m k j v = lookup_in-insert k j v m.entries

  pub lookup-remove :
      (m : Map V) (k j : String) → lookup (remove k m) j ≡ (if k == j then none else lookup m j)
  unfolding lookup remove
  lookup-remove m k j = lookup_in-remove k j m.entries

  pub lookup-discard :
      (m : Map V) (p : V → Bool) (j : String) → lookup (discard p m) j ≡ unless p (lookup m j)
  unfolding lookup discard
  lookup-discard m p j = lookup_in-discard p j m.entries m.unique

  pub any_value_sound :
      (m : Map V) (p : V → Bool)
      → any_value p m ≡ true
      → (k : String) × (v : V) × (lookup m k ≡ some v) × (p v ≡ true)
  unfolding lookup any_value
  any_value_sound m p h = any_in_sound p m.entries m.unique h

  pub any_value_complete :
      (m : Map V) (p : V → Bool) (k : String) (v : V)
      → lookup m k ≡ some v
      → p v ≡ true
      → any_value p m ≡ true
  unfolding lookup any_value
  any_value_complete m p k v = any_in_complete p k v m.entries

pub lookup-empty {ℓ} : {V : Type ℓ} (k : String) → lookup (empty {V = V}) k ≡ none
unfolding lookup empty
lookup-empty k = refl

pub ruleset map_laws = (lookup-empty, lookup-insert, lookup-remove, lookup-discard)
