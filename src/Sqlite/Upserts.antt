-- ===== src/Sqlite/Upserts.antt =====
-- cmd/relay/store_sqlite.go: the two INSERT … ON CONFLICT statements against the contract of `Store`.
use nora_relay.Base.{
  ℕ, ℤ, leb_ℤ, String, ◌==◌, eq_iff, ◌≡◌, refl, sym, ◌∙◌, Bool, false, not, ◌&&◌, List, some, arith,
  if◌then◌else◌, any, Option-cases, inl, inr,
}
use nora_relay.Store.Memory.Effects.{newer}
use nora_relay.Store.Registry
use nora_relay.Store.Registry.{Row, Registry, conflict, change}
use nora_relay.Store.Registry.Effects.{rows-register, policies-register, policies-put, rows-put}
use nora_relay.Sqlite.{
  KeyRow, PolicyRow, Database, Json, has_id, is_taken, of_account, upsert_key, upsert_policy,
  decode_origins,
}
use nora_relay.Sqlite.Keyed.{find-upsert, upsert-IsKeyed}
use nora_relay.Sqlite.Table.{find, find_sound, find-update, find-append}
use nora_relay.Sqlite.Refinement.{account_of, blob_of, Refines, taken-eq}

module _ (json : Json) (db : Database) (r : Registry) (ref : Refines json db r) where
  pub register-Refines :
      (id owner hash : String)
      → any (is_taken id hash) db.api_keys ≡ false
      → Refines json
          (record db { api_keys = upsert_key id owner hash db.api_keys })
          (Registry.register_api_key r id owner hash).0
  unfolding decode_origins
  register-Refines id owner hash free =
      let new : KeyRow = record {
        id = id;
        owner_account = owner;
        key_hash = hash;
        allowed_origins = "[]";
      } in
      let g : KeyRow → KeyRow = λ row. record row { owner_account = owner; key_hash = hash } in
      record {
        keyed = upsert-IsKeyed db.api_keys g (λ x. refl) new (λ x. refl) free ref.keyed;
        rows = λ j. elim (Option-cases (find (has_id id) db.api_keys)) [
          | inl absent ↦
              rw (find-upsert db.api_keys g (λ x. refl) new j, absent)
                (ground (
                  arith,
                  rows-register r id owner hash j (sym (taken-eq json db r ref id hash) ∙ free),
                  ref.rows j,
                  ref.rows id,
                ))
          | inr (x, old) ↦
              rw (find-upsert db.api_keys g (λ x. refl) new j, old)
                (ground (
                  arith,
                  rows-register r id owner hash j (sym (taken-eq json db r ref id hash) ∙ free),
                  ref.rows j,
                  ref.rows id,
                  find_sound (has_id id) db.api_keys x old,
                  eq_iff x.id id,
                ))
        ];
        policies = λ a. rw (policies-register r id owner hash) (ref.policies a);
      }

  find-upsert_policy :
      (new : PolicyRow) (a : String)
      → blob_of (find (of_account a) (upsert_policy new db.policy_blobs)) ≡ (
          if new.account == a
          then some (
              newer
                (record { version = new.version; blob = new.blob })
                (blob_of (find (of_account new.account) db.policy_blobs)))
          else blob_of (find (of_account a) db.policy_blobs))
  unfolding upsert_policy
  find-upsert_policy new a = elim (Option-cases (find (of_account new.account) db.policy_blobs)) [
    | inl absent ↦
        rw (absent, upsert_policy)
          (rw (find-append PolicyRow account_of db.policy_blobs new a)
            (ground (arith, absent, eq_iff new.account a)))
    | inr (x, old) ↦
        let test : PolicyRow → Bool =
          λ row. of_account new.account row && not (leb_ℤ new.version row.version) in
        let g : PolicyRow → PolicyRow =
          λ row. record row { version = new.version; blob = new.blob } in
        rw (old, upsert_policy)
          (rw (find-update PolicyRow account_of test g db.policy_blobs a (λ y. refl))
            (elim (Option-cases (find (of_account a) db.policy_blobs)) [
              | inl gone ↦ ground (arith, old, gone, eq_iff new.account a)
              | inr (y, there) ↦ ground (
                arith,
                old,
                there,
                find_sound (of_account a) db.policy_blobs y there,
                eq_iff new.account a,
                eq_iff y.account a,
                eq_iff y.account new.account,
              )
            ]))
  ]

  pub put-Refines :
      (account : String) (version : ℤ) (blob : List ℕ)
      → Refines json
          (record db {
            policy_blobs =
                upsert_policy
                  (record { account = account; version = version; blob = blob })
                  db.policy_blobs;
          })
          (Registry.put_policy r account version blob).0
  put-Refines account version blob = record {
    keyed = ref.keyed;
    rows = rw (rows-put r account version blob) ref.rows;
    policies = λ a. ground (
      arith,
      policies-put r account a version blob,
      find-upsert_policy (record { account = account; version = version; blob = blob }) a,
      ref.policies a,
      ref.policies account,
    );
  }
