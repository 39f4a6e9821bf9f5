-- ===== src/Hub/Discipline.antt =====
-- cmd/relay/hub.go: what is kept of the hub while other goroutines run, as the calls that wait need it.
use nora_relay.Base.{String, List, [], ◌∷◌, All}
use nora_relay.Hub.{
  Hub, Event, joins, leaves, request_opens, request_closes, query_opens, query_closes, apply,
  deliver_result, deliver_query_result,
}
use nora_relay.Hub.Bindings.{AgentConn, devices_for_account}
use nora_relay.Hub.Bindings.Invariant.{
  Inv, HasProved, Change, change, change-Inv, devices_for_account-proven,
}

-- A property of the hub that the events which happen preserve, the steps of the calls among them, and what it gives for
-- the devices of an account.
pub record Discipline : Type 1 where
  pub Good : Hub → Type 0
  pub Holds : String → AgentConn → Type 0
  pub Happens : Event → Type 0
  pub devices :
      (h : Hub) (acc : String) → Good h → All (Holds acc) (devices_for_account h.bindings acc)
  pub apply-Good : (e : Event) (h : Hub) → Happens e → Good h → Good (apply e h)
  pub opens_request : (id : String) → Happens (request_opens id)
  pub closes_request : (id : String) → Happens (request_closes id)
  pub opens_query : (id : String) → Happens (query_opens id)
  pub closes_query : (id : String) → Happens (query_closes id)

pub apply-Inv : (e : Event) (h : Hub) → Inv h.bindings → Inv (apply e h).bindings
unfolding apply deliver_result deliver_query_result change
apply-Inv (joins a) h inv = change-Inv h.bindings (Change.joins a) inv
apply-Inv (leaves a) h inv = change-Inv h.bindings (Change.leaves a) inv
apply-Inv _ h inv = inv

-- Any events may happen: the hub binds devices to accounts of their own.
abbrev pub proved : Discipline
proved = record {
  Good = λ h. Inv h.bindings;
  Holds = HasProved;
  Happens = λ e. Unit;
  devices = λ h acc inv. devices_for_account-proven h.bindings acc inv;
  apply-Good = λ e h any inv. apply-Inv e h inv;
  opens_request = λ id. tt;
  closes_request = λ id. tt;
  opens_query = λ id. tt;
  closes_query = λ id. tt;
}

abbrev pub Anything : AgentConn → Type 0
Anything d = Unit

pub anything : (ds : List AgentConn) → All Anything ds
anything [] = tt
anything (d ∷ ds) = (tt, anything ds)

-- Nothing is kept.
abbrev pub unguarded : Discipline
unguarded = record {
  Good = λ h. Unit;
  Holds = λ acc. Anything;
  Happens = λ e. Unit;
  devices = λ h acc good. anything (devices_for_account h.bindings acc);
  apply-Good = λ e h any good. tt;
  opens_request = λ id. tt;
  closes_request = λ id. tt;
  opens_query = λ id. tt;
  closes_query = λ id. tt;
}

pub unguarded_happen : (events : List Event) → All unguarded.Happens events
unguarded_happen [] = tt
unguarded_happen (e ∷ events) = (tt, unguarded_happen events)
