-- ===== src/Store/Memory/Origins.antt =====
-- cmd/relay/store.go: OriginAllowed of memStore.
use nora_relay.Base.{String, ◌==◌, ◌≡◌, ◌↔◌, true, some, any, Any, eq_iff, List, [], ◌∷◌, arith}
use nora_relay.Base.Map
use nora_relay.Base.Map.{any_value_sound, any_value_complete}
use nora_relay.Store.{ApiKey}
use nora_relay.Store.Memory.{MemStore, origin_allowed}

-- Some stored key lists the origin.
abbrev pub Lists : MemStore → String → Type 0
Lists s origin =
    (id : String) × (k : ApiKey) × (Map.lookup s.keys id ≡ some k)
    × Any (λ o. o ≡ origin) k.allowed_origins

listed_sound : (o : String) (xs : List String) → any (λ x. x == o) xs ≡ true → Any (λ x. x ≡ o) xs
unfolding any
listed_sound o [] h = cc
listed_sound o (x ∷ xs) h = ground (arith, eq_iff x o, listed_sound o xs)

listed_complete :
    (o : String) (xs : List String) → Any (λ x. x ≡ o) xs → any (λ x. x == o) xs ≡ true
unfolding any
listed_complete o [] h = elim h [ ]
listed_complete o (x ∷ xs) h = ground (arith, eq_iff x o, listed_complete o xs)

-- OriginAllowed answers true exactly when some stored key lists the origin.
pub origin_allowed_iff :
    (s : MemStore) (origin : String) → ((origin_allowed s origin).0 ≡ true) ↔ Lists s origin
unfolding origin_allowed
origin_allowed_iff s origin =
    let lists : ApiKey → _ = λ k. any (λ o. o == origin) k.allowed_origins in
    (
      λ h.
          let (id, k, e, good) = any_value_sound s.keys lists h in
          (id, k, e, listed_sound origin k.allowed_origins good),
      λ (id, k, e, member).
          any_value_complete s.keys lists id k e (listed_complete origin k.allowed_origins member),
    )
