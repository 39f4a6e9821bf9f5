-- ===== src/RateLimit/Tests.antt =====
-- The rate limiter's theorems at concrete inputs: 5 tokens a second, a burst of 20.
use nora_relay.Base.{◌+◌, ◌*◌, ◌≤◌, ◌≡◌, true, false, List, [], ◌∷◌, refl, arith}
use nora_relay.RateLimit.{
  second, KeyLimiter, allow_key, refill, RateLimiter, new_rate_limiter, allow, prune,
}
use nora_relay.RateLimit.Bound.{allowed, allowed-le}
use nora_relay.RateLimit.Prune.{Call, answers, prune-answers}

abbrev nearly_empty : KeyLimiter
nearly_empty = record { tokens = 500_000_000; last = 0 }

-- A tenth of a second brings half a token: the call is allowed, and the next at once is not.
half_token :
    ((allow_key nearly_empty 5 20 100_000_000).0 ≡ true)
    × ((allow_key (allow_key nearly_empty 5 20 100_000_000).1 5 20 100_000_000).0 ≡ false)
unfolding allow_key refill
half_token = (refl, refl)

allowed-le_example :
    (allowed 5 20 nearly_empty (100_000_000 ∷ 100_000_000 ∷ 400_000_000 ∷ [])).0 * second
    ≤ 20 * second + 1_000_000_000 * 5
allowed-le_example =
    allowed-le 5 20 1_000_000_000 nearly_empty (100_000_000 ∷ 100_000_000 ∷ 400_000_000 ∷ [])
      (omega arith) (omega arith)

-- The relay's limiter: entries live for an hour.
abbrev used : RateLimiter
used = (allow (new_rate_limiter 5 20 (3600 * second)) "k1" 0 10).1

abbrev later_calls : List Call
later_calls =
    record { key_id = "k1"; created = 3700 * second; now = 3700 * second + 5 }
    ∷ record { key_id = "k2"; created = 3701 * second; now = 3701 * second }
    ∷ []

prune-answers_example : answers (prune used (3700 * second)) later_calls ≡ answers used later_calls
prune-answers_example =
    prune-answers used (3700 * second) later_calls (unfold allow new_rate_limiter in omega arith)
      (omega arith)
