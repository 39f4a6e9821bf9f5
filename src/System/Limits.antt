-- ===== src/System/Limits.antt =====
-- cmd/relay: how many requests of a key the relay forwards to sign or to broadcast.
use nora_relay.Base.{
  All, subst, ℕ, ◌+◌, ◌-◌, ◌*◌, ◌≤◌, String, ◌≡◌, refl, sym, ap, ◌∙◌, Bool, false, List, some, any,
  arith, inl, inr, Bool-cases, if◌then◌else◌,
}
use nora_relay.Nano.Signing.{Curve}
use nora_relay.RateLimit.{second, RateLimiter, new_rate_limiter, allow, prune}
use nora_relay.RateLimit.Bound.{split_time}
use nora_relay.RateLimit.Credit.{credit, credit-later, credit-le, credit-allow, credit-prune}
use nora_relay.Store.{Store, ApiKey}
use nora_relay.Hub.Discipline.{unguarded, unguarded_happen}
use nora_relay.Api.{Request, Server, Call}
use nora_relay.Api.Build.{Outside}
use nora_relay.Api.Confined.{Confined, IsFor, caller}
use nora_relay.Api.Exposure.{routes-Keeps}
use nora_relay.Api.Charges.{is_charged, any_charged_to, any_free}
use nora_relay.Api.Limits.{routes-Pays}
use nora_relay.Api.Routes.{routes}
use nora_relay.System.{
  Step, connects, ends, says, asks, asks_detached, prunes, Reach, starts, next, Run, still,
  and_then,
}

abbrev cost : Bool → ℕ
cost test = if test then second else 0

at_most : {a b : ℕ} → a ≤ b → a ≤ b + 0
at_most h = omega arith

-- What happens at a moment, and the time before and after it.
through :
    (rl rl' : RateLimiter) (j : String) (spent from now to : ℕ)
    → from ≤ now
    → now ≤ to
    → rl'.rate ≡ rl.rate
    → spent + credit rl' j now ≤ credit rl j now
    → spent + credit rl' j to ≤ credit rl j from + (to - from) * rl.rate
through rl rl' j spent from now to h k same takes =
    let later : credit rl' j to ≤ credit rl' j now + (to - now) * rl.rate =
      rw (sym same) (credit-later rl' j now to k) in
    omega (arith, later, takes, credit-later rl j from now h, split_time from now to rl.rate h k)

module _ (curve : Curve) (blake2b : ℕ → List ℕ → List ℕ) {S : Type 0} (store : Store S)
    (o : Outside) (j : String) where
  -- Whether a step writes a message to a device that asks it to sign or to broadcast for the key.
  abbrev pub is_forwarded : {sv sv' : Server S} → Step curve blake2b store o sv sv' → Bool
  is_forwarded {sv} (asks r call happen) = any (is_charged j) (routes store o call r sv).1
  is_forwarded {sv} (asks_detached r call rl happen) =
      any (is_charged j) (routes store o call r (record sv { rl = rl })).1
  is_forwarded (connects a e) = false
  is_forwarded (ends a) = false
  is_forwarded (says a e env) = false
  is_forwarded (prunes now) = false

  -- The number of such steps.
  pub forwarded : {sv sv' : Server S} → Run curve blake2b store o sv sv' → ℕ
  forwarded still = 0
  forwarded (and_then run st) = forwarded run + (if is_forwarded st then 1 else 0)

  -- Whether it does so after its limiter was removed.
  abbrev pub is_detached : {sv sv' : Server S} → Step curve blake2b store o sv sv' → Bool
  is_detached {sv} (asks_detached r call rl happen) =
      any (is_charged j) (routes store o call r (record sv { rl = rl })).1
  is_detached (asks r call happen) = false
  is_detached (connects a e) = false
  is_detached (ends a) = false
  is_detached (says a e env) = false
  is_detached (prunes now) = false

  -- The number of such steps.
  pub detached : {sv sv' : Server S} → Run curve blake2b store o sv sv' → ℕ
  detached still = 0
  detached (and_then run st) = detached run + (if is_detached st then 1 else 0)

  -- The clock, as the limiter reads it in a step, is between two times.
  abbrev pub Moment :
      {sv sv' : Server S} → (from : ℕ) → Step curve blake2b store o sv sv' → (to : ℕ) → Type 0
  Moment from (asks r call happen) to = (from ≤ call.now) × (call.now ≤ to)
  Moment from (asks_detached r call rl happen) to = (from ≤ call.now) × (call.now ≤ to)
  Moment from (prunes now) to = (from ≤ now) × (now ≤ to)
  Moment from (connects a e) to = from ≤ to
  Moment from (ends a) to = from ≤ to
  Moment from (says a e env) to = from ≤ to

  -- The run lasts from a time to a time, and the clock does not go back in it.
  abbrev pub Lasts :
      {sv sv' : Server S} → (from : ℕ) → Run curve blake2b store o sv sv' → (to : ℕ) → Type 0
  Lasts from still to = from ≤ to
  Lasts from (and_then run st) to = (t : ℕ) × Lasts from run t × Moment t st to

  routes-credit :
      (r : Request) (call : Call) (sv : Server S)
      → let (resp, sent, sv') = routes store o call r sv in
        cost (any (is_charged j) sent) + credit sv'.rl j call.now ≤ credit sv.rl j call.now
  unfolding any
  routes-credit r call sv = elim (routes-Pays store o call r sv) [
    | inl f ↦ rw (f.kept, any_free j _ f.sent) (omega arith)
    | inr t ↦
        let takes = credit-allow sv.rl t.key.id j call.created call.now in
        elim (Bool-cases (any (is_charged j) (routes store o call r sv).1)) [
          | inr nothing ↦ rw (nothing, t.taken) (ground (arith, takes))
          | inl charged ↦ elim (Bool-cases (allow sv.rl t.key.id call.created call.now).0) [
            | inl yes_allowed ↦
                rw (charged, t.taken)
                  (ground (
                    arith,
                    takes,
                    yes_allowed,
                    any_charged_to t.key j _ (own t.key t.authentic) charged,
                  ))
            | inr refused ↦
                absurd (ground (arith, charged, ap (any (is_charged j)) (t.refused refused)))
          ]
        ]
  ]
    where
      own :
          (key : ApiKey)
          → caller store r sv ≡ some key
          → All (IsFor unguarded.Holds key) (routes store o call r sv).1
      own key authentic =
          subst (λ k. Confined unguarded.Holds k (routes store o call r sv).1) authentic
            (routes-Keeps unguarded store o call r sv (unguarded_happen call.events) tt).confined

  -- The limits of newServer.
  record IsLimited (rl : RateLimiter) : Type 0 where
    rate : rl.rate ≡ 5
    burst : rl.burst ≡ 20
    ttl : rl.ttl ≡ 3600 * second

  allow-IsLimited :
      (rl : RateLimiter) (key_id : String) (created now : ℕ)
      → IsLimited rl
      → IsLimited (allow rl key_id created now).1
  unfolding allow
  allow-IsLimited rl key_id created now l = record { rate = l.rate; burst = l.burst; ttl = l.ttl }

  Step-IsLimited :
      {sv sv' : Server S} → Step curve blake2b store o sv sv' → IsLimited sv.rl → IsLimited sv'.rl
  unfolding prune
  Step-IsLimited (connects a e) l = l
  Step-IsLimited (ends a) l = l
  Step-IsLimited (says a e env) l = l
  Step-IsLimited {sv} (asks r call happen) l = elim (routes-Pays store o call r sv) [
    | inl f ↦ rw f.kept l
    | inr t ↦ rw t.taken (allow-IsLimited sv.rl t.key.id call.created call.now l)
  ]
  Step-IsLimited (asks_detached r call rl happen) l = l
  Step-IsLimited (prunes now) l = record { rate = l.rate; burst = l.burst; ttl = l.ttl }

  Reach-IsLimited : {s : S} {sv : Server S} → Reach curve blake2b store o s sv → IsLimited sv.rl
  unfolding new_rate_limiter
  Reach-IsLimited starts = record { rate = refl; burst = refl; ttl = refl }
  Reach-IsLimited (next r st) = Step-IsLimited st (Reach-IsLimited r)

  Run-IsLimited :
      {sv sv' : Server S} → Run curve blake2b store o sv sv' → IsLimited sv.rl → IsLimited sv'.rl
  Run-IsLimited still l = l
  Run-IsLimited (and_then run st) l = Step-IsLimited st (Run-IsLimited run l)

  later :
      (rl : RateLimiter) (from to : ℕ)
      → IsLimited rl
      → from ≤ to
      → 0 + credit rl j to ≤ credit rl j from + (to - from) * 5
  later rl from to l h =
      subst (λ rate. 0 + credit rl j to ≤ credit rl j from + (to - from) * rate) l.rate
        (omega (arith, credit-later rl j from to h))

  long_lived : (rl : RateLimiter) → IsLimited rl → rl.burst * second ≤ rl.ttl * rl.rate
  long_lived rl l = rw (l.burst, l.ttl, l.rate) (omega arith)

  Moment-le :
      {sv sv' : Server S} (from to : ℕ) (st : Step curve blake2b store o sv sv')
      → Moment from st to
      → from ≤ to
  Moment-le from to (connects a e) h = h
  Moment-le from to (ends a) h = h
  Moment-le from to (says a e env) h = h
  Moment-le from to (asks r call happen) h = omega arith
  Moment-le from to (asks_detached r call rl happen) h = omega arith
  Moment-le from to (prunes now) h = omega arith

  Lasts-le :
      {sv sv' : Server S} (from to : ℕ) (run : Run curve blake2b store o sv sv')
      → Lasts from run to
      → from ≤ to
  Lasts-le from to still h = h
  Lasts-le from to (and_then run st) (t, before, moment) =
      omega (arith, Lasts-le from t run before, Moment-le t to st moment)

  Step-credit :
      {sv sv' : Server S} (from to : ℕ) (st : Step curve blake2b store o sv sv')
      → IsLimited sv.rl
      → Moment from st to
      → cost (is_forwarded st) + credit sv'.rl j to
        ≤ credit sv.rl j from + (to - from) * 5 + cost (is_detached st)
  Step-credit {sv} from to (connects a e) l h = omega (arith, later sv.rl from to l h)
  Step-credit {sv} from to (ends a) l h = omega (arith, later sv.rl from to l h)
  Step-credit {sv} from to (says a e env) l h = omega (arith, later sv.rl from to l h)
  Step-credit {sv} from to (asks_detached r call rl happen) l h =
      omega (arith, later sv.rl from to l (omega (arith, h)))
  Step-credit {sv} from to (asks r call happen) l h =
      let same = Step-IsLimited (asks r call happen) l in
      let sent = (routes store o call r sv).1 in
      let sv' = (routes store o call r sv).2 in
      subst
        (λ rate.
          cost (any (is_charged j) sent) + credit sv'.rl j to
          ≤ credit sv.rl j from + (to - from) * rate + 0)
        l.rate
        (at_most (
          through sv.rl sv'.rl j (cost (any (is_charged j) sent)) from call.now to h.0 h.1
            (same.rate ∙ sym l.rate) (routes-credit r call sv)))
  Step-credit {sv} from to (prunes now) l h =
      let same = credit-prune sv.rl j now now (long_lived sv.rl l) (omega arith) in
      subst
        (λ rate. 0 + credit (prune sv.rl now) j to ≤ credit sv.rl j from + (to - from) * rate + 0)
        l.rate
        (at_most (
          through sv.rl (prune sv.rl now) j 0 from now to h.0 h.1 (unfold prune in refl)
            (omega (arith, same))))

  Run-credit :
      {sv sv' : Server S} (from to : ℕ) (run : Run curve blake2b store o sv sv')
      → IsLimited sv.rl
      → Lasts from run to
      → forwarded run * second + credit sv'.rl j to
        ≤ credit sv.rl j from + (to - from) * 5 + detached run * second
  unfolding forwarded detached
  Run-credit {sv} from to still l h = omega (arith, later sv.rl from to l h)
  Run-credit from to (and_then run st) l (t, before, moment) = ground (
    arith,
    Run-credit from t run l before,
    Step-credit t to st (Run-IsLimited run l) moment,
    Lasts-le from t run before,
    Moment-le t to st moment,
  )

  -- From any state that the relay reaches from its start, in any run from a time to a time: the requests after which a
  -- device is asked, on behalf of a key, to sign a transaction or to broadcast one are at most 20, and 5 for each
  -- second between the times, and one for each of them whose limiter a round of pruning removed between the two
  -- locks of rateLimiter.allow. Other rounds of pruning, and whatever else happens, let no more through.
  pub Run-limit :
      {s : S} {sv sv' : Server S} (from to : ℕ) (run : Run curve blake2b store o sv sv')
      → Reach curve blake2b store o s sv
      → Lasts from run to
      → forwarded run * second ≤ 20 * second + (to - from) * 5 + detached run * second
  Run-limit {s} {sv} from to run reached h =
      let l = Reach-IsLimited reached in
      let full : credit sv.rl j from ≤ 20 * second =
        subst (λ burst. credit sv.rl j from ≤ burst * second) l.burst (credit-le sv.rl j from) in
      omega (arith, full, Run-credit from to run l h)
