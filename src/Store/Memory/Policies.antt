-- ===== src/Store/Memory/Policies.antt =====
-- cmd/relay/store.go: PutPolicy and GetPolicy of memStore, last write wins by version.
use nora_relay.Base.{
  ℕ, ℤ, ◌≤ℤ◌, String, ◌==◌, ◌≡◌, ◌≢◌, refl, ap, ◌∙◌, ◌⊎◌, inl, inr, List, [], ◌∷◌, Any, Option,
  none, some, arith, eq_iff, if◌then◌else◌, eq_refl,
}
use nora_relay.Base.Map
use nora_relay.Store.{
  PolicyBlob, Write, register, revoke, rebind, update_origins, put, perform, run,
}
use nora_relay.Store.Memory.{MemStore, mem_store, put_policy, get_policy}
use nora_relay.Store.Memory.Effects
use nora_relay.Store.Memory.Effects.{newer}

-- Two puts of different versions, in either order, leave the same blob for every account: a device
-- that syncs late cannot undo a newer policy.
pub put_policy_comm :
    (s : MemStore) (account : String) (v w : ℤ) (b c : List ℕ) (a : String)
    → v ≢ w
    → get_policy (put_policy (put_policy s account v b).0 account w c).0 a
      ≡ get_policy (put_policy (put_policy s account w c).0 account v b).0 a
unfolding get_policy
put_policy_comm s account v w b c a h = ground (
  arith,
  Effects.policy-put s account a v b,
  Effects.policy-put s account account v b,
  Effects.policy-put s account a w c,
  Effects.policy-put s account account w c,
  Effects.policy-put (put_policy s account v b).0 account a w c,
  Effects.policy-put (put_policy s account w c).0 account a v b,
  eq_refl account,
)

-- The blob of an account after a write.
abbrev after_write : Write → String → Option PolicyBlob → Option PolicyBlob
after_write (put account v b) a old =
    if account == a then some (newer (record { version = v; blob = b }) old) else old
after_write _ a old = old

abbrev kept : Write → String → PolicyBlob → PolicyBlob
kept (put account v b) a p =
    if account == a then newer (record { version = v; blob = b }) (some p) else p
kept _ a p = p

after_write-grows :
    (w : Write) (a : String) (p : PolicyBlob)
    → (p' : PolicyBlob) × (after_write w a (some p) ≡ some p') × (p.version ≤ℤ p'.version)
after_write-grows (put account v b) a p = (kept (put account v b) a p, ground arith, ground arith)
after_write-grows (register id owner hash) a p = (p, refl, omega arith)
after_write-grows _ a p = (p, refl, omega arith)

after_write-here :
    (a : String) (v : ℤ) (b : List ℕ) (old : Option PolicyBlob)
    → after_write (put a v b) a old ≡ some (newer (record { version = v; blob = b }) old)
after_write-here a v b old = rw (eq_refl a)

version-newer :
    (v : ℤ) (b : List ℕ) (old : Option PolicyBlob)
    → v ≤ℤ (newer (record { version = v; blob = b }) old).version
version-newer v b none = omega arith
version-newer v b (some cur) = ground arith

after_write-source :
    (w : Write) (a : String) (p : PolicyBlob) (old : Option PolicyBlob)
    → after_write w a old ≡ some p
    → (old ≡ some p) ⊎ (w ≡ put a p.version p.blob)
after_write-source (put account v b) a p none e = ground (arith, eq_iff account a)
after_write-source (put account v b) a p (some q) e = ground (arith, eq_iff account a)
after_write-source (register id owner hash) a p old e = inl e
after_write-source _ a p old e = inl e

module _ (sha256 : List ℕ → List ℕ) where
  abbrev stored : MemStore → String → Option PolicyBlob
  stored s a = Map.lookup s.policy a

  stored-perform :
      (s : MemStore) (w : Write) (a : String)
      → stored (perform (mem_store sha256) s w).0 a ≡ after_write w a (stored s a)
  unfolding perform
  stored-perform s (put account v b) a =
      ground (arith, Effects.policy-put s account a v b, eq_iff account a)
  stored-perform s (register id owner hash) a = rw (Effects.policy-register s id owner hash)
  stored-perform s (revoke owner id) a = rw (Effects.policy-revoke s owner id)
  stored-perform s (rebind id old new) a = rw (Effects.policy-rebind s id old new)
  stored-perform s (update_origins id owner origins) a =
      rw (Effects.policy-update_origins s id owner origins)

  -- A stored version never goes down.
  stored-grows :
      (s : MemStore) (ws : List Write) (a : String) (p : PolicyBlob)
      → stored s a ≡ some p
      → (q : PolicyBlob) × (stored (run (mem_store sha256) s ws) a ≡ some q)
        × (p.version ≤ℤ q.version)
  unfolding run
  stored-grows s [] a p e = (p, e, omega arith)
  stored-grows s (w ∷ ws) a p e =
      let s' = (perform (mem_store sha256) s w).0 in
      let (p', e', up) = after_write-grows w a p in
      let (q, last, more) =
        stored-grows s' ws a p' (stored-perform s w a ∙ ap (after_write w a) e ∙ e') in
      (q, last, omega arith)

  -- After any history of writes that has a put for an account, GetPolicy finds a blob of that
  -- account whose version is at least the version of the put.
  pub get_policy-newest :
      (s : MemStore) (ws : List Write) (a : String) (v : ℤ) (b : List ℕ)
      → Any (λ w. w ≡ put a v b) ws
      → (q : PolicyBlob) × (get_policy (run (mem_store sha256) s ws) a ≡ (some q, none))
        × (v ≤ℤ q.version)
  unfolding run get_policy
  get_policy-newest s [] a v b member = elim member [ ]
  get_policy-newest s (w ∷ ws) a v b (inl here) =
      let s' = (perform (mem_store sha256) s w).0 in
      let p : PolicyBlob = newer (record { version = v; blob = b }) (stored s a) in
      let e : stored s' a ≡ some p =
        stored-perform s w a ∙ rw here (after_write-here a v b (stored s a)) in
      let (q, last, up) = stored-grows s' ws a p e in
      (q, ap (λ o. (o, none)) last, omega (arith, version-newer v b (stored s a)))
  get_policy-newest s (w ∷ ws) a v b (inr later) =
      get_policy-newest (perform (mem_store sha256) s w).0 ws a v b later

  -- A blob that is stored after a history of writes was there before, or is that of a put of the
  -- history, for this account and with this version.
  pub get_policy-source :
      (s : MemStore) (ws : List Write) (a : String) (p : PolicyBlob)
      → get_policy (run (mem_store sha256) s ws) a ≡ (some p, none)
      → (get_policy s a ≡ (some p, none)) ⊎ Any (λ w. w ≡ put a p.version p.blob) ws
  unfolding run
  get_policy-source s [] a p e = inl e
  get_policy-source s (w ∷ ws) a p e =
      elim (get_policy-source (perform (mem_store sha256) s w).0 ws a p e) [
        | inr later ↦ inr (inr later)
        | inl now ↦
            unfold get_policy in
            elim (after_write-source w a p (stored s a) (ground (arith, stored-perform s w a))) [
              | inl before ↦ inl (ap (λ o. (o, none)) before)
              | inr written ↦ inr (inl written)
            ]
      ]
