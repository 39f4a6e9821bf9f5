-- ===== src/Sqlite/Table.antt =====
-- A SQL table as the list of its rows: SELECT, UPDATE, DELETE and RowsAffected by a WHERE test, and what
-- a column that is a key says about them.
use nora_relay.Base.{
  ℕ, ◌+◌, String, ◌==◌, eq_iff, ◌≡◌, refl, Bool, true, false, not, ◌&&◌, ◌||◌, List, [], ◌∷◌, ◌++◌,
  Option, none, some, if◌then◌else◌, any, arith, nat_eq, Bool-cases, Option-cases, inl, inr,
}

module _ {ℓ} {A : Type ℓ} where
  -- The first row that passes the test.
  unfoldable pub find : (A → Bool) → List A → Option A
  find p [] = none
  find p (x ∷ xs) = if p x then some x else find p xs

  unfoldable pub update : (A → Bool) → (A → A) → List A → List A
  update p f [] = []
  update p f (x ∷ xs) = (if p x then f x else x) ∷ update p f xs

  unfoldable pub delete : (A → Bool) → List A → List A
  delete p [] = []
  delete p (x ∷ xs) = let rest = delete p xs in if p x then rest else x ∷ rest

  -- How many rows pass the test.
  unfoldable pub affected : (A → Bool) → List A → ℕ
  affected p [] = 0
  affected p (x ∷ xs) = (if p x then 1 else 0) + affected p xs

  pub any-update :
      (q p : A → Bool) (f : A → A) (xs : List A)
      → ((x : A) → q (f x) ≡ q x)
      → any q (update p f xs) ≡ any q xs
  unfolding any update
  any-update q p f [] same = refl
  any-update q p f (x ∷ xs) same = ground (arith, same x, any-update q p f xs same)

  pub find_sound : (p : A → Bool) (xs : List A) (x : A) → find p xs ≡ some x → p x ≡ true
  unfolding find
  find_sound p [] x e = cc
  find_sound p (y ∷ xs) x e = ground (arith, find_sound p xs x)

  pub any-find : (p : A → Bool) (xs : List A) → find p xs ≡ none → any p xs ≡ false
  unfolding any find
  any-find p [] e = refl
  any-find p (x ∷ xs) e = ground (arith, any-find p xs)

-- An updated or missing row.
abbrev pub if_passes {ℓ} : {A : Type ℓ} → (A → Bool) → (A → Option A) → Option A → Option A
if_passes p f none = none
if_passes p f (some x) = if p x then f x else some x

module _ (A : Type 0) (key : A → String) where
  -- WHERE key=?
  abbrev pub at : String → A → Bool
  at k x = key x == k

  -- The column has no value twice.
  abbrev pub Once : List A → Type 0
  Once [] = Unit
  Once (x ∷ xs) = (any (at (key x)) xs ≡ false) × Once xs

  pub find-update :
      (p : A → Bool) (f : A → A) (xs : List A) (k : String)
      → ((x : A) → key (f x) ≡ key x)
      → find (at k) (update p f xs) ≡ if_passes p (λ x. some (f x)) (find (at k) xs)
  unfolding find update
  find-update p f [] k same = refl
  find-update p f (x ∷ xs) k same = ground (arith, same x, find-update p f xs k same)

  pub find-append :
      (xs : List A) (x : A) (k : String)
      → find (at k) (xs ++ x ∷ [])
        ≡ elim (find (at k) xs) [ none ↦ if key x == k then some x else none | some y ↦ some y ]
  unfolding find
  find-append [] x k = refl
  find-append (y ∷ xs) x k = ground (arith, find-append xs x k)

  pub find-none : (xs : List A) (k : String) → any (at k) xs ≡ false → find (at k) xs ≡ none
  unfolding find any
  find-none [] k h = refl
  find-none (x ∷ xs) k h = ground (arith, find-none xs k)

  pub find-delete :
      (p : A → Bool) (xs : List A) (k : String)
      → Once xs
      → find (at k) (delete p xs) ≡ if_passes p (λ x. none) (find (at k) xs)
  unfolding find delete
  find-delete p [] k once = refl
  find-delete p (x ∷ xs) k once =
      ground (arith, find-delete p xs k once.1, eq_iff (key x) k, find-none xs k)

  affected_none :
      (q : A → Bool) (xs : List A) (k : String)
      → any (at k) xs ≡ false
      → affected (λ x. at k x && q x) xs ≡ 0
  unfolding any affected
  affected_none q [] k h = refl
  affected_none q (x ∷ xs) k h = ground (arith, affected_none q xs k)

  -- A test for one value of the column passes as the row with that value does.
  pub affected-at :
      (q : A → Bool) (xs : List A) (k : String)
      → Once xs
      → nat_eq (affected (λ x. at k x && q x) xs) 0
        ≡ elim (find (at k) xs) [ none ↦ true | some x ↦ not (q x) ]
  unfolding find affected
  affected-at q [] k once = refl
  affected-at q (x ∷ xs) k once =
      ground (arith, affected-at q xs k once.1, affected_none q xs k, eq_iff (key x) k)

  pub update-Once :
      (p : A → Bool) (f : A → A) (xs : List A)
      → ((x : A) → key (f x) ≡ key x)
      → Once xs
      → Once (update p f xs)
  unfolding update
  update-Once p f [] same once = tt
  update-Once p f (x ∷ xs) same once =
      let left = any-update (at (key x)) p f xs (λ y. rw (same y) refl) in
      (
        elim (Bool-cases (p x)) [
          | inl passes ↦ rw (passes, same x, left) once.0
          | inr fails ↦ rw (fails, left) once.0
        ],
        update-Once p f xs same once.1,
      )

  any-delete : (q p : A → Bool) (xs : List A) → any q xs ≡ false → any q (delete p xs) ≡ false
  unfolding delete any
  any-delete q p [] h = refl
  any-delete q p (x ∷ xs) h = ground (arith, any-delete q p xs)

  pub delete-Once : (p : A → Bool) (xs : List A) → Once xs → Once (delete p xs)
  unfolding delete any
  delete-Once p [] once = tt
  delete-Once p (x ∷ xs) once = elim (Bool-cases (p x)) [
    | inl passes ↦ rw (passes) (delete-Once p xs once.1)
    | inr fails ↦ rw (fails) (any-delete (at (key x)) p xs once.0, delete-Once p xs once.1)
  ]

  any-append : (q : A → Bool) (xs : List A) (x : A) → any q (xs ++ x ∷ []) ≡ (any q xs || q x)
  unfolding any
  any-append q [] x = ground arith
  any-append q (y ∷ xs) x = ground (arith, any-append q xs x)

  pub append-Once :
      (xs : List A) (x : A) → Once xs → find (at (key x)) xs ≡ none → Once (xs ++ x ∷ [])
  unfolding any find
  append-Once [] x once new = (refl, tt)
  append-Once (y ∷ xs) x once new = (
    ground (
      arith,
      any-append (at (key y)) xs x,
      once.0,
      eq_iff (key y) (key x),
      eq_iff (key x) (key y),
    ),
    append-Once xs x once.1 (ground arith),
  )

  pub find-at :
      (p : A → Bool) (xs : List A) (x : A)
      → Once xs
      → find p xs ≡ some x
      → find (at (key x)) xs ≡ some x
  unfolding find
  find-at p [] x once e = cc
  find-at p (y ∷ xs) x once e =
      ground (arith, find-at p xs x once.1, find-none xs (key y), eq_iff (key y) (key x))

  pub any_sound :
      (p : A → Bool) (xs : List A)
      → Once xs
      → any p xs ≡ true
      → (x : A) × (find (at (key x)) xs ≡ some x) × (p x ≡ true)
  any_sound p xs once h = elim (Option-cases (find p xs)) [
    | inl gone ↦ absurd (ground (arith, any-find p xs gone))
    | inr (x, e) ↦ (x, find-at p xs x once e, find_sound p xs x e)
  ]

  pub any_complete :
      (p : A → Bool) (xs : List A) (k : String) (x : A)
      → find (at k) xs ≡ some x
      → p x ≡ true
      → any p xs ≡ true
  unfolding find any
  any_complete p [] k x e h = cc
  any_complete p (y ∷ xs) k x e h = ground (arith, any_complete p xs k x)

  update_absent :
      (f : A → A) (xs : List A) (k : String) → any (at k) xs ≡ false → update (at k) f xs ≡ xs
  unfolding any update
  update_absent f [] k h = refl
  update_absent f (x ∷ xs) k h = ground (arith, update_absent f xs k)

  -- An update that leaves the row with the value as it is changes nothing.
  pub update_same :
      (f : A → A) (xs : List A) (k : String) (x : A)
      → Once xs
      → find (at k) xs ≡ some x
      → f x ≡ x
      → update (at k) f xs ≡ xs
  unfolding find update
  update_same f [] k x once e h = refl
  update_same f (y ∷ xs) k x once e h =
      ground (arith, update_same f xs k x once.1, update_absent f xs k, eq_iff (key y) k)
