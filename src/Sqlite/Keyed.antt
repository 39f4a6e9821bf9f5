-- ===== src/Sqlite/Keyed.antt =====
-- cmd/relay/store_sqlite.go: the constraints of the table api_keys, an id once and a hash once, through the
-- statements that write it.
use nora_relay.Base.{
  String, ◌==◌, eq_iff, ◌≡◌, refl, sym, ap, ◌∙◌, false, List, Option, none, some, arith,
  if◌then◌else◌, any, Option-cases, inl, inr,
}
use nora_relay.Sqlite.{KeyRow, has_id, is_owned, is_taken, upsert}
use nora_relay.Sqlite.Table.{
  find, update, delete, if_passes, Once, find_sound, find-update, find-append, find-delete,
  update-Once, delete-Once, append-Once, any_complete,
}

abbrev pub id_of : KeyRow → String
id_of row = row.id

abbrev pub hash_of : Option KeyRow → Option String
hash_of none = none
hash_of (some row) = some row.key_hash

pub record IsKeyed (rows : List KeyRow) : Type 0 where
  pub once : Once KeyRow id_of rows
  pub hashes :
      (i j h : String)
      → hash_of (find (has_id i) rows) ≡ some h
      → hash_of (find (has_id j) rows) ≡ some h
      → i ≡ j

-- Only the row of the id can have a hash that is not taken.
pub taken_elsewhere :
    (rows : List KeyRow) (id hash j : String)
    → any (is_taken id hash) rows ≡ false
    → hash_of (find (has_id j) rows) ≡ some hash
    → j ≡ id
taken_elsewhere rows id hash j free e = elim (Option-cases (find (has_id j) rows)) [
  | inl gone ↦ cc
  | inr (x, there) ↦ ground (
    arith,
    find_sound (has_id j) rows x there,
    any_complete KeyRow id_of (is_taken id hash) rows j x there,
    eq_iff x.key_hash hash,
    eq_iff x.id id,
    eq_iff x.id j,
  )
]

module _ (rows : List KeyRow) where
  -- An update that keeps the ids.
  module _ (g : KeyRow → KeyRow) (same_id : (x : KeyRow) → (g x).id ≡ x.id) where
    pub find-update_owned :
        (id owner j : String)
        → find (has_id j) (update (is_owned id owner) g rows)
          ≡ if_passes (is_owned id owner) (λ x. some (g x)) (find (has_id j) rows)
    find-update_owned id owner j = find-update KeyRow id_of (is_owned id owner) g rows j same_id

    pub update-IsKeyed :
        (id owner : String)
        → ((x : KeyRow) → (g x).key_hash ≡ x.key_hash)
        → IsKeyed rows
        → IsKeyed (update (is_owned id owner) g rows)
    update-IsKeyed id owner same_hash keyed = record {
      once = update-Once KeyRow id_of (is_owned id owner) g rows same_id keyed.once;
      hashes = λ i j h ei ej. keyed.hashes i j h (sym (kept i) ∙ ei) (sym (kept j) ∙ ej);
    }
      where
        kept :
            (j : String)
            → hash_of (find (has_id j) (update (is_owned id owner) g rows))
              ≡ hash_of (find (has_id j) rows)
        kept j = rw (find-update_owned id owner j) (elim (Option-cases (find (has_id j) rows)) [
          | inl gone ↦ ground (arith, gone)
          | inr (x, there) ↦ ground (arith, there, same_hash x)
        ])

    -- The row of an id after an INSERT with that update.
    pub find-upsert :
        (new : KeyRow) (j : String)
        → find (has_id j) (upsert new g rows) ≡ (
            if new.id == j
            then some (elim (find (has_id new.id) rows) [ none ↦ new | some x ↦ g x ])
            else find (has_id j) rows)
    unfolding upsert
    find-upsert new j = elim (Option-cases (find (has_id new.id) rows)) [
      | inl absent ↦
          rw (absent, upsert)
            (rw (find-append KeyRow id_of rows new j) (ground (arith, absent, eq_iff new.id j)))
      | inr (x, old) ↦
          rw (old, upsert)
            (rw (find-update KeyRow id_of (has_id new.id) g rows j same_id)
              (elim (Option-cases (find (has_id j) rows)) [
                | inl gone ↦ ground (arith, old, gone, eq_iff new.id j)
                | inr (y, there) ↦ ground (
                  arith,
                  old,
                  there,
                  eq_iff new.id j,
                  eq_iff y.id new.id,
                  eq_iff y.id j,
                  find_sound (has_id j) rows y there,
                )
              ]))
    ]

    upsert-Once : (new : KeyRow) → Once KeyRow id_of rows → Once KeyRow id_of (upsert new g rows)
    unfolding upsert
    upsert-Once new once = elim (Option-cases (find (has_id new.id) rows)) [
      | inl absent ↦ rw (absent, upsert) (append-Once KeyRow id_of rows new once absent)
      | inr (x, old) ↦
          rw (old, upsert) (update-Once KeyRow id_of (has_id new.id) g rows same_id once)
    ]

    pub upsert-IsKeyed :
        (new : KeyRow)
        → ((x : KeyRow) → (g x).key_hash ≡ new.key_hash)
        → any (is_taken new.id new.key_hash) rows ≡ false
        → IsKeyed rows
        → IsKeyed (upsert new g rows)
    upsert-IsKeyed new sets_hash free keyed = record {
      once = upsert-Once new keyed.once;
      hashes = λ i j h ei ej. ground (
        arith,
        ap hash_of (find-upsert new i),
        ap hash_of (find-upsert new j),
        written,
        taken_elsewhere rows new.id new.key_hash i free,
        taken_elsewhere rows new.id new.key_hash j free,
        keyed.hashes i j h,
        eq_iff new.id i,
        eq_iff new.id j,
      );
    }
      where
        written :
            hash_of (some (elim (find (has_id new.id) rows) [ none ↦ new | some x ↦ g x ]))
            ≡ some new.key_hash
        written = elim (Option-cases (find (has_id new.id) rows)) [
          | inl absent ↦ rw (absent) refl
          | inr (x, old) ↦ rw (old, sets_hash x) refl
        ]

  pub find-delete_owned :
      (id owner j : String)
      → IsKeyed rows
      → find (has_id j) (delete (is_owned id owner) rows)
        ≡ if_passes (is_owned id owner) (λ x. none) (find (has_id j) rows)
  find-delete_owned id owner j keyed =
      find-delete KeyRow id_of (is_owned id owner) rows j keyed.once

  pub delete-IsKeyed :
      (id owner : String) → IsKeyed rows → IsKeyed (delete (is_owned id owner) rows)
  delete-IsKeyed id owner keyed = record {
    once = delete-Once KeyRow id_of (is_owned id owner) rows keyed.once;
    hashes = λ i j h ei ej. keyed.hashes i j h (kept i h ei) (kept j h ej);
  }
    where
      kept :
          (j h : String)
          → hash_of (find (has_id j) (delete (is_owned id owner) rows)) ≡ some h
          → hash_of (find (has_id j) rows) ≡ some h
      kept j h e = elim (Option-cases (find (has_id j) rows)) [
        | inl gone ↦ ground (arith, gone, find-delete_owned id owner j keyed)
        | inr (x, there) ↦ ground (arith, there, find-delete_owned id owner j keyed)
      ]
