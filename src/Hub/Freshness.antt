-- ===== src/Hub/Freshness.antt =====
-- cmd/relay/hub.go: the channels of the tables of waiting calls, while other goroutines run.
use nora_relay.Base.{subst, sym, Option, none, some}
use nora_relay.Hub.{Hub, Event, apply}
use nora_relay.Hub.Await.{request_step, query_step, try, requests-apply, queries-apply}
use nora_relay.Hub.Waiters.{WaitTable, Step}
use nora_relay.Hub.Waiters.First.{IsFresh, advance-IsFresh}

try-IsFresh :
    {A : Type 0} (step : Option (Step A)) (w : WaitTable A) → IsFresh w → IsFresh (try step w)
try-IsFresh none w fresh = fresh
try-IsFresh (some step) w fresh = advance-IsFresh step w fresh

-- No event makes a call wait on the channel that the next call will get.
pub apply-requests : (e : Event) (h : Hub) → IsFresh h.requests → IsFresh (apply e h).requests
apply-requests e h fresh =
    subst IsFresh (sym (requests-apply e h)) (try-IsFresh (request_step e) h.requests fresh)

pub apply-queries : (e : Event) (h : Hub) → IsFresh h.queries → IsFresh (apply e h).queries
apply-queries e h fresh =
    subst IsFresh (sym (queries-apply e h)) (try-IsFresh (query_step e) h.queries fresh)
