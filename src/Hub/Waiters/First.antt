-- ===== src/Hub/Waiters/First.antt =====
-- cmd/relay/hub.go: which answer a waiting caller gets.
use nora_relay.Base.{
  ℕ, ◌<◌, String, ◌==◌, ◌≡◌, ◌≢◌, refl, List, [], ◌∷◌, Option, none, some, nat_eq, arith, All, Any,
  eq_iff, if◌then◌else◌, inl, inr, Option-cases, Bool-cases, String-cases, ◌⊎◌, ◌∙◌, ap, nat_eq_iff,
}
use nora_relay.Base.Map
use nora_relay.Base.Map.{lookup-insert, lookup-remove, lookup-empty}
use nora_relay.Hub.Waiters.{
  WaitTable, empty, add, Step, adds, forgets, delivers, receives, advance, wait,
}

module _ {A : Type 0} where
  -- Channels are made before they are used.
  abbrev pub IsFresh : WaitTable A → Type 0
  IsFresh w = (id : String) (c : ℕ) → Map.lookup w.pending id ≡ some c → c < w.fresh

  -- A channel that no other id leads to.
  pub record Owned (id : String) (c : ℕ) (w : WaitTable A) : Type 0 where
    pub only : (j : String) → Map.lookup w.pending j ≡ some c → j ≡ id
    pub made : c < w.fresh

  -- A caller that can be answered.
  pub record Waiting (id : String) (c : ℕ) (w : WaitTable A) : Type 0 where
    pub mine : Map.lookup w.pending id ≡ some c
    pub owned : Owned id c w

  -- The first value that is delivered under an id.
  unfoldable pub first_delivery : String → List (Step A) → Option A
  first_delivery id [] = none
  first_delivery id (delivers j a ∷ steps) = if j == id then some a else first_delivery id steps
  first_delivery id (_ ∷ steps) = first_delivery id steps

  -- The id is in use by one caller only, and no other goroutine reads the caller's channel.
  abbrev pub Leaves : String → ℕ → Step A → Type 0
  Leaves id c (adds j) = j ≢ id
  Leaves id c (forgets j) = j ≢ id
  Leaves id c (delivers j a) = Unit
  Leaves id c (receives d) = d ≢ c

  pub add-Waiting : (id : String) (w : WaitTable A) → IsFresh w → Waiting id w.fresh (add id w).1
  unfolding add
  add-Waiting id w fresh = record {
    mine = ground (arith, lookup-insert w.pending id id w.fresh, eq_iff id id);
    owned = record {
      only =
          λ j e. ground (arith, lookup-insert w.pending id j w.fresh, eq_iff id j, fresh j w.fresh);
      made = omega arith;
    };
  }

  -- A channel stays bound to its own id only, whatever the other goroutines do.
  advance-Owned :
      (id : String) (c : ℕ) (s : Step A) (w : WaitTable A) → Owned id c w → Owned id c (advance s w)
  unfolding advance
  advance-Owned id c (adds j) w v = record {
    only = λ k e. ground (arith, lookup-insert w.pending j k w.fresh, eq_iff j k, v.only k, v.made);
    made = omega (arith, v.made);
  }
  advance-Owned id c (forgets j) w v = record {
    only = λ k e. ground (arith, lookup-remove w.pending j k, v.only k);
    made = v.made;
  }
  advance-Owned id c (delivers j a) w v = record {
    only = λ k e. ground (arith, v.only k);
    made = ground (arith, v.made);
  }
  advance-Owned id c (receives d) w v = record { only = v.only; made = v.made }

  mine-advance :
      (id : String) (c : ℕ) (s : Step A) (w : WaitTable A)
      → Leaves id c s
      → Map.lookup w.pending id ≡ some c
      → Map.lookup (advance s w).pending id ≡ some c
  unfolding advance
  mine-advance id c (adds j) w h e =
      ground (arith, lookup-insert w.pending j id w.fresh, eq_iff j id)
  mine-advance id c (forgets j) w h e = ground (arith, lookup-remove w.pending j id, eq_iff j id)
  mine-advance id c (delivers j a) w h e = ground arith
  mine-advance id c (receives d) w h e = e

  -- Whatever the step, a value enters an empty channel only by a delivery to its id.
  buffer-advance_source :
      (id : String) (c : ℕ) (s : Step A) (w : WaitTable A) (a : A)
      → Owned id c w
      → w.buffer c ≡ none
      → (advance s w).buffer c ≡ some a
      → s ≡ delivers id a
  unfolding advance
  buffer-advance_source id c (adds j) w a v e h = ground arith
  buffer-advance_source id c (forgets j) w a v e h = ground arith
  buffer-advance_source id c (delivers j b) w a v e h =
      elim (Option-cases (Map.lookup w.pending j)) [
        | inl unknown ↦ ground arith
        | inr (d, there) ↦ elim (Bool-cases (nat_eq d c)) [
          | inl same ↦
              let ours : Map.lookup w.pending j ≡ some c =
                there ∙ ap some ((nat_eq_iff d c).0 same) in
              ground (arith, v.only j ours)
          | inr other ↦ ground arith
        ]
      ]
  buffer-advance_source id c (receives d) w a v e h = ground arith

  buffer-advance :
      (id : String) (c : ℕ) (s : Step A) (w : WaitTable A) (rest : List (Step A))
      → Leaves id c s
      → Waiting id c w
      → w.buffer c ≡ none
      → (((advance s w).buffer c ≡ none) × (first_delivery id (s ∷ rest) ≡ first_delivery id rest))
        ⊎ ((a : A) × ((advance s w).buffer c ≡ some a) × (first_delivery id (s ∷ rest) ≡ some a))
  unfolding advance first_delivery
  buffer-advance id c (adds j) w rest h v e = inl (ground (arith, v.owned.made), refl)
  buffer-advance id c (forgets j) w rest h v e = inl (e, refl)
  buffer-advance id c (delivers j a) w rest h v e = elim (String-cases j id) [
    | inl (same, t) ↦
        let ours : Map.lookup w.pending j ≡ some c = rw same v.mine in inr (a, ground arith, rw t)
    | inr (differ, t) ↦ elim (Option-cases ((advance (delivers j a) w).buffer c)) [
      | inl still ↦ inl (still, rw t)
      | inr (b, put) ↦
          let same = buffer-advance_source id c (delivers j a) w b v.owned e put in
          absurd (differ (ground arith))
    ]
  ]
  buffer-advance id c (receives d) w rest h v e = inl (ground arith, refl)

  wait_filled :
      (c : ℕ) (steps : List (Step A)) (w : WaitTable A) (a : A)
      → w.buffer c ≡ some a
      → wait c steps w ≡ some a
  unfolding wait
  wait_filled c [] w a e = e
  wait_filled c (s ∷ steps) w a e = ground arith

  -- While no other goroutine uses the id or the channel, the wait ends with the first value that is
  -- delivered under the id, and with the deadline if there is none.
  pub wait-first_delivery :
      (id : String) (c : ℕ) (steps : List (Step A)) (w : WaitTable A)
      → All (Leaves id c) steps
      → Waiting id c w
      → w.buffer c ≡ none
      → wait c steps w ≡ first_delivery id steps
  unfolding wait first_delivery
  wait-first_delivery id c [] w h v e = e
  wait-first_delivery id c (s ∷ steps) w h v e =
      let w' = advance s w in
      let v' : Waiting id c w' = record {
        mine = mine-advance id c s w h.0 v.mine;
        owned = advance-Owned id c s w v.owned;
      } in
      elim (buffer-advance id c s w steps h.0 v e) [
        | inl (still, same) ↦ ground (arith, same, wait-first_delivery id c steps w' h.1 v' still)
        | inr (a, put, here) ↦ ground (arith, here, wait_filled c steps w' a put)
      ]

  -- Whatever the other goroutines do, an answer was delivered under the caller's id.
  pub wait-delivered :
      (id : String) (c : ℕ) (steps : List (Step A)) (w : WaitTable A) (a : A)
      → Owned id c w
      → w.buffer c ≡ none
      → wait c steps w ≡ some a
      → Any (λ s. s ≡ delivers id a) steps
  unfolding wait
  wait-delivered id c [] w a v e h = cc
  wait-delivered id c (s ∷ steps) w a v e h =
      let w' = advance s w in
      elim (Option-cases (w'.buffer c)) [
        | inl still ↦
            inr (wait-delivered id c steps w' a (advance-Owned id c s w v) still (ground arith))
        | inr (b, put) ↦
            inl
              (buffer-advance_source id c s w a v e (ground (arith, wait_filled c steps w' b put)))
      ]

  pub advance-IsFresh : (s : Step A) (w : WaitTable A) → IsFresh w → IsFresh (advance s w)
  unfolding advance
  advance-IsFresh (adds j) w f id c e = ground (arith, lookup-insert w.pending j id w.fresh, f id c)
  advance-IsFresh (forgets j) w f id c e = ground (arith, lookup-remove w.pending j id, f id c)
  advance-IsFresh (delivers j a) w f id c e = ground (arith, f id c)
  advance-IsFresh (receives d) w f id c e = f id c e

pub empty-IsFresh : (A : Type 0) → IsFresh (empty {A = A})
unfolding empty
empty-IsFresh A id c e = cc (lookup-empty {V = ℕ} id)
