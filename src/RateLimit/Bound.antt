-- ===== src/RateLimit/Bound.antt =====
-- cmd/relay/ratelimit.go: how many calls a key is allowed, and when.
use nora_relay.Base.{
  ap, ◌↔◌, ℕ, suc, ◌+◌, ◌-◌, ◌*◌, ◌≤◌, ◌≡◌, Bool, true, false, List, [], ◌∷◌, arith, if◌then◌else◌,
}
use nora_relay.RateLimit.{second, KeyLimiter, refill, allow_key}

-- Calls at the given times, and the number of them that are allowed.
pub allowed : (rate burst : ℕ) → KeyLimiter → List ℕ → ℕ × KeyLimiter
allowed rate burst l [] = (0, l)
allowed rate burst l (now ∷ times) =
    let (ok, l') = allow_key l rate burst now in
    let (n, last) = allowed rate burst l' times in (if ok then suc n else n, last)

-- Times that do not go back, from the first on, and end by the second.
abbrev pub Within : ℕ → ℕ → List ℕ → Type 0
Within from to [] = from ≤ to
Within from to (t ∷ times) = (from ≤ t) × Within t to times

-- No call loses or makes tokens: what is spent and what is left come from what was there and what
-- time has brought.
allow_key-spends :
    (l : KeyLimiter) (rate burst now : ℕ)
    → let (ok, l') = allow_key l rate burst now in
      (if ok then second else 0) + l'.tokens ≤ l.tokens + (now - l.last) * rate
unfolding allow_key refill
allow_key-spends l rate burst now = ground arith

pub split_time : (a t b r : ℕ) → a ≤ t → t ≤ b → (t - a) * r + (b - t) * r ≡ (b - a) * r
split_time a t b r h k =
    let sum : (t - a) + (b - t) ≡ b - a = omega arith in omega (arith, ap (λ (x : ℕ). x * r) sum)

last-allow_key : (l : KeyLimiter) (rate burst now : ℕ) → (allow_key l rate burst now).1.last ≡ now
unfolding allow_key
last-allow_key l rate burst now = ground arith

Within-le : (from to : ℕ) (times : List ℕ) → Within from to times → from ≤ to
Within-le from to [] h = h
Within-le from to (t ∷ times) h = omega (arith, Within-le t to times h.1)

-- One call and the rest of the calls.
spend_sum :
    (ok : Bool) (n left base mid x y z : ℕ)
    → (if ok then second else 0) + mid ≤ base + x
    → n * second + left ≤ mid + y
    → x + y ≡ z
    → (if ok then suc n else n) * second + left ≤ base + z
spend_sum true n left base mid x y z h k e = omega arith
spend_sum false n left base mid x y z h k e = omega arith

allowed-spends :
    (rate burst to : ℕ) (l : KeyLimiter) (times : List ℕ)
    → Within l.last to times
    → (allowed rate burst l times).0 * second + (allowed rate burst l times).1.tokens
      ≤ l.tokens + (to - l.last) * rate
unfolding allowed
allowed-spends rate burst to l [] h = omega arith
allowed-spends rate burst to l (t ∷ times) h =
    let step = allow_key l rate burst t in
    let l' = step.1 in
    let same : l'.last ≡ t = last-allow_key l rate burst t in
    let rest = allowed-spends rate burst to l' times (rw same h.1) in
    let rest' : (allowed rate burst l' times).0 * second + (allowed rate burst l' times).1.tokens
        ≤ l'.tokens + (to - t) * rate =
      rw same at rest in
    spend_sum step.0 _ _ _ _ _ _ _ (allow_key-spends l rate burst t) rest'
      (split_time l.last t to rate h.0 (Within-le t to times h.1))

-- A bucket never holds more than the burst.
pub tokens-allow_key :
    (l : KeyLimiter) (rate burst now : ℕ) → (allow_key l rate burst now).1.tokens ≤ burst * second
unfolding allow_key refill
tokens-allow_key l rate burst now = ground arith

-- From a bucket that holds at most the burst, in any window of calls whose times do not go back, the
-- number of allowed calls is at most the burst and the tokens that the window's length brings.
pub allowed-le :
    (rate burst to : ℕ) (l : KeyLimiter) (times : List ℕ)
    → l.tokens ≤ burst * second
    → Within l.last to times
    → (allowed rate burst l times).0 * second ≤ burst * second + (to - l.last) * rate
allowed-le rate burst to l times full h = omega (arith, allowed-spends rate burst to l times h)

-- A call is allowed when the bucket, before the cap, has a whole token at its time, and refused
-- otherwise; so a key that waits a token's worth of time is served again.
pub allow_key_iff :
    (l : KeyLimiter) (rate burst now : ℕ)
    → 1 ≤ burst
    → ((allow_key l rate burst now).0 ≡ true) ↔ (second ≤ l.tokens + (now - l.last) * rate)
unfolding allow_key refill
allow_key_iff l rate burst now h = (λ e. ground arith, λ e. ground arith)
