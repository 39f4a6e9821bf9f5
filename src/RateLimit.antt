-- ===== src/RateLimit.antt =====
-- cmd/relay/ratelimit.go. Times are nanoseconds of the monotonic clock. Go counts tokens in float64;
-- here a token is 10^9 parts, so that a nanosecond at `rate` tokens a second is `rate` parts and all
-- the arithmetic is exact: the rounding of float64 is not modelled.
pub mod Bound
pub mod Prune
pub mod Credit
mod Tests
use nora_relay.Base.{
  ℕ, ◌+◌, ◌-◌, ◌*◌, String, Bool, true, false, Option, none, some, ltb, if◌then◌else◌, List, [],
  ◌∷◌,
}
use nora_relay.Base.Map
use nora_relay.Base.Map.{Map}

-- The parts of a token, and the nanoseconds of a second.
abbrev pub second : ℕ
second = 1_000_000_000

pub record KeyLimiter : Type 0 where
  pub tokens : ℕ
  pub last : ℕ

-- The tokens at a time, at most the burst.
unfoldable pub refill : KeyLimiter → (rate burst now : ℕ) → ℕ
refill l rate burst now =
    let tokens = l.tokens + (now - l.last) * rate in
    if ltb (burst * second) tokens then burst * second else tokens

-- keyLimiter.allow
unfoldable pub allow_key : KeyLimiter → (rate burst now : ℕ) → Bool × KeyLimiter
allow_key l rate burst now =
    let tokens = refill l rate burst now in
    if ltb tokens second
    then (false, record { tokens = tokens; last = now })
    else (true, record { tokens = tokens - second; last = now })

pub record RateLimiter : Type 0 where
  pub keys : Map KeyLimiter
  pub rate : ℕ
  pub burst : ℕ
  pub ttl : ℕ

unfoldable pub new_rate_limiter : (rate burst ttl : ℕ) → RateLimiter
new_rate_limiter rate burst ttl = record { keys = Map.empty; rate = rate; burst = burst; ttl = ttl }

-- The limiter of a key, made at the time `created` if it is not there.
abbrev pub limiter_at : RateLimiter → (created : ℕ) → Option KeyLimiter → KeyLimiter
limiter_at rl created none = record { tokens = rl.burst * second; last = created }
limiter_at rl created (some kl) = kl

-- rateLimiter.allow reads the clock for a new limiter, and again in `keyLimiter.allow`. The limiter
-- is a pointer, so its change is seen in the map, unless a round of pruning removes it between the
-- two locks: this is the call when none does, and System.antt has the other case.
unfoldable pub allow : RateLimiter → String → (created now : ℕ) → Bool × RateLimiter
allow rl key_id created now =
    let kl = limiter_at rl created (Map.lookup rl.keys key_id) in
    let (ok, kl') = allow_key kl rl.rate rl.burst now in
    (ok, record rl { keys = Map.insert key_id kl' rl.keys })

-- kl.last.Before(now - ttl)
abbrev pub is_idle : (ttl now : ℕ) → KeyLimiter → Bool
is_idle ttl now kl = ltb (kl.last + ttl) now

unfoldable pub prune : RateLimiter → (now : ℕ) → RateLimiter
prune rl now = record rl { keys = Map.discard (is_idle rl.ttl now) rl.keys }
