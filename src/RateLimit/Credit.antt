-- ===== src/RateLimit/Credit.antt =====
-- cmd/relay/ratelimit.go: the tokens that a key has at a time, with or without an entry, through calls and pruning.
use nora_relay.Base.{
  subst, String-cases, ◌==◌, ◌&&◌, ℕ, ◌+◌, ◌-◌, ◌*◌, ◌≤◌, String, ◌≡◌, refl, sym, false, eq_refl,
  Option, none, some, arith, inl, inr, Option-cases, Bool-cases, if◌then◌else◌, ◌==◌,
}
use nora_relay.Base.Map
use nora_relay.Base.Map.{lookup-insert, lookup-discard}
use nora_relay.RateLimit.{
  second, KeyLimiter, refill, allow_key, RateLimiter, limiter_at, allow, is_idle, prune,
}
use nora_relay.RateLimit.Prune.{fresh-full, mul-le, idle-IsFull}

abbrev pub credit_of : RateLimiter → (now : ℕ) → Option KeyLimiter → ℕ
credit_of rl now none = rl.burst * second
credit_of rl now (some kl) = refill kl rl.rate rl.burst now

-- The parts of a token that a key has at a time.
abbrev pub credit : RateLimiter → String → (now : ℕ) → ℕ
credit rl j now = credit_of rl now (Map.lookup rl.keys j)

distrib : (a b r : ℕ) → (a + b) * r ≡ a * r + b * r
distrib a b r = omega arith

refill-later :
    (kl : KeyLimiter) (rate burst t t' : ℕ)
    → t ≤ t'
    → refill kl rate burst t' ≤ refill kl rate burst t + (t' - t) * rate
unfolding refill
refill-later kl rate burst t t' h =
    let longer : t' - kl.last ≤ (t - kl.last) + (t' - t) = ground arith in
    ground (
      arith,
      mul-le (t' - kl.last) ((t - kl.last) + (t' - t)) rate longer,
      distrib (t - kl.last) (t' - t) rate,
    )

pub credit-later :
    (rl : RateLimiter) (j : String) (t t' : ℕ)
    → t ≤ t'
    → credit rl j t' ≤ credit rl j t + (t' - t) * rl.rate
credit-later rl j t t' h = go (Map.lookup rl.keys j)
  where
    go : (o : Option KeyLimiter) → credit_of rl t' o ≤ credit_of rl t o + (t' - t) * rl.rate
    go none = omega arith
    go (some kl) = refill-later kl rl.rate rl.burst t t' h

pub credit-le : (rl : RateLimiter) (j : String) (t : ℕ) → credit rl j t ≤ rl.burst * second
unfolding refill
credit-le rl j t = go (Map.lookup rl.keys j)
  where
    go : (o : Option KeyLimiter) → credit_of rl t o ≤ rl.burst * second
    go none = omega arith
    go (some kl) = ground arith

limiter-credit :
    (rl : RateLimiter) (created now : ℕ) (o : Option KeyLimiter)
    → refill (limiter_at rl created o) rl.rate rl.burst now ≡ credit_of rl now o
limiter-credit rl created now none = fresh-full rl created now
limiter-credit rl created now (some kl) = refl

refill-allow_key :
    (kl : KeyLimiter) (rate burst now : ℕ)
    → let (ok, kl') = allow_key kl rate burst now in
      (if ok then second else 0) + refill kl' rate burst now ≤ refill kl rate burst now
unfolding allow_key refill
refill-allow_key kl rate burst now = ground arith

own_call :
    (rl : RateLimiter) (j : String) (created now : ℕ)
    → let (ok, rl') = allow rl j created now in
      (if ok then second else 0) + credit rl' j now ≤ credit rl j now
unfolding allow
own_call rl j created now =
    let kl = limiter_at rl created (Map.lookup rl.keys j) in
    rw (lookup-insert, eq_refl j, sym (limiter-credit rl created now (Map.lookup rl.keys j)))
      (refill-allow_key kl rl.rate rl.burst now)

other_call :
    (rl : RateLimiter) (key_id j : String) (created now t : ℕ)
    → (key_id == j) ≡ false
    → credit (allow rl key_id created now).1 j t ≡ credit rl j t
unfolding allow
other_call rl key_id j created now t differ = rw (lookup-insert, differ) refl

-- A call takes a token of its key if it is allowed, and gives no key any.
pub credit-allow :
    (rl : RateLimiter) (key_id j : String) (created now : ℕ)
    → let (ok, rl') = allow rl key_id created now in
      (if ok && key_id == j then second else 0) + credit rl' j now ≤ credit rl j now
credit-allow rl key_id j created now = elim (String-cases key_id j) [
  | inl (e, same) ↦
      subst
        (λ i.
          let (ok, rl') = allow rl key_id created now in
          (if ok && key_id == i then second else 0) + credit rl' i now ≤ credit rl i now)
        e (ground (arith, eq_refl key_id, own_call rl key_id created now))
  | inr (_, differ) ↦ ground (arith, differ, other_call rl key_id j created now now differ)
]

-- With a time to live in which an empty bucket fills up, pruning takes no token and gives none.
pub credit-prune :
    (rl : RateLimiter) (j : String) (p now : ℕ)
    → rl.burst * second ≤ rl.ttl * rl.rate
    → p ≤ now
    → credit (prune rl p) j now ≡ credit rl j now
unfolding prune
credit-prune rl j p now enough h = elim (Option-cases (Map.lookup rl.keys j)) [
  | inl gone ↦ rw (lookup-discard, gone) refl
  | inr (kl, there) ↦ elim (Bool-cases (is_idle rl.ttl p kl)) [
    | inl idle ↦
        rw (lookup-discard, there, idle)
          (sym (idle-IsFull rl.rate rl.burst rl.ttl p kl enough idle now h))
    | inr busy ↦ rw (lookup-discard, there, busy) refl
  ]
]
