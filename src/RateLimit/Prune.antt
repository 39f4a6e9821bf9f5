-- ===== src/RateLimit/Prune.antt =====
-- cmd/relay/ratelimit.go: pruning is not seen by callers.
use nora_relay.Base.{
  ℕ, ◌-◌, ◌*◌, ◌≤◌, String, ◌≡◌, refl, ap, ◌∙◌, sym, Bool, true, List, [], ◌∷◌, Option, none, some,
  arith, inl, inr, Option-cases, String-cases, Bool-cases,
}
use nora_relay.Base.Map
use nora_relay.Base.Map.{lookup-insert, lookup-discard}
use nora_relay.RateLimit.{
  second, KeyLimiter, refill, allow_key, RateLimiter, limiter_at, allow, is_idle, prune,
}

-- A call for a key: the two readings of the clock.
pub record Call : Type 0 where
  pub key_id : String
  pub created : ℕ
  pub now : ℕ

pub answers : RateLimiter → List Call → List Bool
answers rl [] = []
answers rl (c ∷ calls) = let (ok, rl') = allow rl c.key_id c.created c.now in ok ∷ answers rl' calls

-- The clock does not go back within the calls.
abbrev pub Ordered : ℕ → List Call → Type 0
Ordered from [] = Unit
Ordered from (c ∷ calls) = (from ≤ c.created) × (c.created ≤ c.now) × Ordered c.now calls

-- A bucket that is full at any time from `p` on.
abbrev pub IsFull : (rate burst p : ℕ) → KeyLimiter → Type 0
IsFull rate burst p kl = (now : ℕ) → p ≤ now → refill kl rate burst now ≡ burst * second

-- The entries of a key with and without the pruning.
abbrev Alike : (rate burst p : ℕ) → Option KeyLimiter → Option KeyLimiter → Type 0
Alike rate burst p none none = Unit
Alike rate burst p none (some kl) = IsFull rate burst p kl
Alike rate burst p (some kl) none = ⊥
Alike rate burst p (some kl) (some kl') = kl ≡ kl'

pub mul-le : (a b r : ℕ) → a ≤ b → a * r ≤ b * r
mul-le a b r h = grind arith

pub idle-IsFull :
    (rate burst ttl p : ℕ) (kl : KeyLimiter)
    → burst * second ≤ ttl * rate
    → is_idle ttl p kl ≡ true
    → IsFull rate burst p kl
unfolding refill
idle-IsFull rate burst ttl p kl enough idle now h =
    let long : ttl ≤ now - kl.last = ground arith in
    ground (arith, mul-le ttl (now - kl.last) rate long)

pub fresh-full :
    (rl : RateLimiter) (created now : ℕ)
    → refill (limiter_at rl created none) rl.rate rl.burst now ≡ rl.burst * second
unfolding refill
fresh-full rl created now = ground arith

allow_key-eq :
    (kl kl' : KeyLimiter) (rate burst now : ℕ)
    → refill kl rate burst now ≡ refill kl' rate burst now
    → allow_key kl rate burst now ≡ allow_key kl' rate burst now
unfolding allow_key
allow_key-eq kl kl' rate burst now e = ground arith

-- Both maps give a call the same limiter after the refill.
allow_key-Alike :
    (rl : RateLimiter) (created now p : ℕ) (o o' : Option KeyLimiter)
    → p ≤ now
    → Alike rl.rate rl.burst p o o'
    → allow_key (limiter_at rl created o) rl.rate rl.burst now
      ≡ allow_key (limiter_at rl created o') rl.rate rl.burst now
allow_key-Alike rl created now p none none h a = refl
allow_key-Alike rl created now p none (some kl) h a =
    allow_key-eq _ kl rl.rate rl.burst now (fresh-full rl created now ∙ sym (a now h))
allow_key-Alike rl created now p (some kl) none h a = elim a [ ]
allow_key-Alike rl created now p (some kl) (some kl') h a =
    ap (λ k. allow_key k rl.rate rl.burst now) a

abbrev with_keys : RateLimiter → Map.Map KeyLimiter → RateLimiter
with_keys rl ks = record rl { keys = ks }

-- A new entry for one key, in both maps.
insert-Alike :
    (rl : RateLimiter) (p : ℕ) (ks : Map.Map KeyLimiter) (k : String) (kl : KeyLimiter)
    → ((j : String) → Alike rl.rate rl.burst p (Map.lookup ks j) (Map.lookup rl.keys j))
    → (j : String)
    → Alike rl.rate rl.burst p
        (Map.lookup (Map.insert k kl ks) j)
        (Map.lookup (Map.insert k kl rl.keys) j)
insert-Alike rl p ks k kl a j = elim (String-cases k j) [
  | inl (_, same) ↦ rw (lookup-insert ks k j kl, lookup-insert rl.keys k j kl, same)
  | inr (_, differ) ↦ rw (lookup-insert ks k j kl, lookup-insert rl.keys k j kl, differ) (a j)
]

Ordered-weaken : (p q : ℕ) (calls : List Call) → p ≤ q → Ordered q calls → Ordered p calls
Ordered-weaken p q [] h o = tt
Ordered-weaken p q (c ∷ calls) h o = (omega arith, o.1, o.2)

answers-Alike :
    (p : ℕ) (rl : RateLimiter) (ks : Map.Map KeyLimiter) (calls : List Call)
    → ((j : String) → Alike rl.rate rl.burst p (Map.lookup ks j) (Map.lookup rl.keys j))
    → Ordered p calls
    → answers (with_keys rl ks) calls ≡ answers rl calls
unfolding answers allow
answers-Alike p rl ks [] a h = refl
answers-Alike p rl ks (c ∷ calls) a h =
    let r =
      allow_key (limiter_at rl c.created (Map.lookup rl.keys c.key_id)) rl.rate rl.burst c.now in
    let same =
      allow_key-Alike rl c.created c.now p (Map.lookup ks c.key_id) (Map.lookup rl.keys c.key_id)
        (omega (arith, h)) (a c.key_id) in
    rw same (
      ap (λ bs. r.0 ∷ bs)
        (answers-Alike p (with_keys rl (Map.insert c.key_id r.1 rl.keys))
          (Map.insert c.key_id r.1 ks) calls (insert-Alike rl p ks c.key_id r.1 a)
          (Ordered-weaken p c.now calls (omega arith) h.2)))

-- With a time to live in which an empty bucket fills up, pruning at a time changes no answer to any
-- later calls, whatever their keys.
pub prune-answers :
    (rl : RateLimiter) (p : ℕ) (calls : List Call)
    → rl.burst * second ≤ rl.ttl * rl.rate
    → Ordered p calls
    → answers (prune rl p) calls ≡ answers rl calls
unfolding prune
prune-answers rl p calls enough h = answers-Alike p rl _ calls alike h
  where
    alike :
        (j : String)
        → Alike rl.rate rl.burst p
            (Map.lookup (Map.discard (is_idle rl.ttl p) rl.keys) j)
            (Map.lookup rl.keys j)
    alike j = elim (Option-cases (Map.lookup rl.keys j)) [
      | inl gone ↦ rw (lookup-discard, gone) tt
      | inr (kl, there) ↦ elim (Bool-cases (is_idle rl.ttl p kl)) [
        | inl idle ↦
            rw (lookup-discard, there, idle) (idle-IsFull rl.rate rl.burst rl.ttl p kl enough idle)
        | inr busy ↦ rw (lookup-discard, there, busy)
      ]
    ]
