-- ===== src/Api/Charges.antt =====
-- cmd/relay/http.go: which messages to a device are asked for by the requests that the rate limiter counts.
use nora_relay.Base.{
  String, ◌==◌, ◌≡◌, refl, Bool, true, false, ◌||◌, ◌&&◌, inl, inr, List, [], ◌∷◌, Option, none,
  some, All, any, arith, Bool-cases,
}
use nora_relay.Protocol.{TxRequest, Query}
use nora_relay.Hub.{Sent}
use nora_relay.Hub.Discipline.{unguarded}
use nora_relay.Store.{ApiKey}
use nora_relay.Api.Confined.{IsFor, RequestFor, QueryFor}

abbrev pub requests_for : String → Option TxRequest → Bool
requests_for j none = false
requests_for j (some req) = req.contact_id == j

abbrev pub broadcasts_for : String → Option Query → Bool
broadcasts_for j none = false
broadcasts_for j (some q) = q.op == "broadcast_nonce" && q.contact_id == j

-- A message that asks a device, on behalf of a key, to sign a transaction or to broadcast one.
abbrev pub is_charged : String → Sent → Bool
is_charged j (d, env) = requests_for j env.request || broadcasts_for j env.query

abbrev pub IsFree : Sent → Type 0
IsFree m = (j : String) → is_charged j m ≡ false

-- A message for a key is charged to that key.
charged_to :
    (key : ApiKey) (j : String) (req : Option TxRequest) (q : Option Query)
    → RequestFor key req
    → QueryFor key q
    → (requests_for j req || broadcasts_for j q) ≡ true
    → (key.id == j) ≡ true
charged_to key j none none f g h = ground arith
charged_to key j none (some q) f g h = ground (arith, g.0)
charged_to key j (some req) none f g h = ground (arith, f.0)
charged_to key j (some req) (some q) f g h = ground (arith, f.0, g.0)

pub any_charged_to :
    (key : ApiKey) (j : String) (sent : List Sent)
    → All (IsFor unguarded.Holds key) sent
    → any (is_charged j) sent ≡ true
    → (key.id == j) ≡ true
unfolding any
any_charged_to key j [] held h = ground arith
any_charged_to key j ((d, env) ∷ sent) held h = elim (Bool-cases (is_charged j (d, env))) [
  | inl charged ↦ charged_to key j env.request env.query held.0.1.0 held.0.1.1 charged
  | inr not_charged ↦ any_charged_to key j sent held.1 (ground (arith, not_charged, h))
]

pub any_free : (j : String) (sent : List Sent) → All IsFree sent → any (is_charged j) sent ≡ false
unfolding any
any_free j [] held = refl
any_free j (m ∷ sent) held = ground (arith, held.0 j, any_free j sent held.1)
