-- ===== src/Store/Registry/Effects.antt =====
-- What the operations of the contract do to the rows.
use nora_relay.Base.{
  ℕ, ℤ, String, ◌==◌, ◌≡◌, List, Option, none, some, arith, eq_iff, if◌then◌else◌, Option-cases,
  inl, inr, false,
}
use nora_relay.Base.Map
use nora_relay.Base.Map.{lookup-insert, lookup-remove}
use nora_relay.Store.{StoreError, not_found}
use nora_relay.Store.Memory.Effects.{newer}
use nora_relay.Store.Registry.{
  Row, Registry, conflict, is_taken, new_row, register_api_key, change, put_policy,
}

abbrev pub row_if_owned : String → (Row → Option Row) → Option Row → Option Row
row_if_owned owner f none = none
row_if_owned owner f (some row) = if row.owner_account == owner then f row else some row

abbrev pub row_refusal : String → Option Row → Option StoreError
row_refusal owner none = some not_found
row_refusal owner (some row) = if row.owner_account == owner then none else some not_found

module _ (r : Registry) where
  pub rows-change :
      (id owner j : String) (f : Row → Option Row)
      → Map.lookup (change r id owner f).0.rows j
        ≡ (if id == j then row_if_owned owner f (Map.lookup r.rows id) else Map.lookup r.rows j)
  unfolding change
  rows-change id owner j f = elim (Option-cases (Map.lookup r.rows id)) [
    | inl e ↦ ground (arith, eq_iff id j)
    | inr (row, e) ↦ elim (Option-cases (f row)) [
      | inl gone ↦ ground (arith, eq_iff id j, lookup-remove r.rows id j)
      | inr (row', kept) ↦ ground (arith, eq_iff id j, lookup-insert r.rows id j row')
    ]
  ]

  pub error-change :
      (id owner : String) (f : Row → Option Row)
      → (change r id owner f).1 ≡ row_refusal owner (Map.lookup r.rows id)
  unfolding change
  error-change id owner f = ground arith

  pub policies-change :
      (id owner : String) (f : Row → Option Row) → (change r id owner f).0.policies ≡ r.policies
  unfolding change
  policies-change id owner f = ground arith

  pub rows-register :
      (id owner hash j : String)
      → Map.any_value (is_taken id hash) r.rows ≡ false
      → Map.lookup (register_api_key r id owner hash).0.rows j ≡ (
          if id == j
          then some (new_row id owner hash (Map.lookup r.rows id))
          else Map.lookup r.rows j)
  unfolding register_api_key
  rows-register id owner hash j free =
      ground (
        arith,
        eq_iff id j,
        lookup-insert r.rows id j (new_row id owner hash (Map.lookup r.rows id)),
      )

  pub error-register :
      (id owner hash : String)
      → (register_api_key r id owner hash).1
        ≡ (if Map.any_value (is_taken id hash) r.rows then some conflict else none)
  unfolding register_api_key
  error-register id owner hash = ground arith

  pub policies-register :
      (id owner hash : String) → (register_api_key r id owner hash).0.policies ≡ r.policies
  unfolding register_api_key
  policies-register id owner hash = ground arith

  pub policies-put :
      (account a : String) (version : ℤ) (blob : List ℕ)
      → Map.lookup (put_policy r account version blob).0.policies a ≡ (
          if account == a
          then some
              (newer (record { version = version; blob = blob }) (Map.lookup r.policies account))
          else Map.lookup r.policies a)
  unfolding put_policy
  policies-put account a version blob = ground (
    arith,
    eq_iff account a,
    lookup-insert r.policies account a (record { version = version; blob = blob }),
  )

  pub rows-put :
      (account : String) (version : ℤ) (blob : List ℕ)
      → (put_policy r account version blob).0.rows ≡ r.rows
  unfolding put_policy
  rows-put account version blob = ground arith
