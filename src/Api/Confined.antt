-- ===== src/Api/Confined.antt =====
-- cmd/relay/http.go: what a call of the API makes the relay write to devices, and the hub it leaves.
use nora_relay.Base.{
  String, ◌==◌, ◌≡◌, refl, Bool, true, false, not, List, [], Option, none, some, All, arith,
  if◌then◌else◌,
}
use nora_relay.Protocol.{TxRequest, Query, Envelope}
use nora_relay.Hub.{Sent}
use nora_relay.Hub.Bindings.{AgentConn, account_online}
use nora_relay.Hub.Discipline.{Discipline}
use nora_relay.Hub.Proven.{send_request-Left, send_query-Left}
use nora_relay.RateLimit.{allow}
use nora_relay.Store.{Store, ApiKey}
use nora_relay.Api.{Request, Response, Server, Call, Served, auth_key}
use nora_relay.Text.{trim_space}
use nora_relay.Api.Build.{CreateBody, Outside, Result, ok, fails, build_tx_request}
use nora_relay.Api.Handlers.{
  forward_request, forward_query, create_from, handle_create_request, broadcast_nonce, text_of,
  handle_broadcast, handle_status, device_query, handle_request_status, query_of, unauthorized,
}

abbrev pub RequestFor : ApiKey → Option TxRequest → Type 0
RequestFor key none = Unit
RequestFor key (some req) = (req.contact_id ≡ key.id) × (req.account ≡ key.owner_account)

abbrev pub QueryFor : ApiKey → Option Query → Type 0
QueryFor key none = Unit
QueryFor key (some q) = (q.contact_id ≡ key.id) × (q.account ≡ key.owner_account)

-- A request or a query, if the message has one, is for the key and its account.
abbrev pub AsksFor : ApiKey → Envelope → Type 0
AsksFor key env = RequestFor key env.request × QueryFor key env.query

module _ (Holds : String → AgentConn → Type 0) where
  -- A message that goes to a device of the key's account.
  abbrev pub IsFor : ApiKey → Sent → Type 0
  IsFor key (d, env) = Holds key.owner_account d × AsksFor key env

  abbrev pub Confined : Option ApiKey → List Sent → Type 0
  Confined none sent = sent ≡ []
  Confined (some key) sent = All (IsFor key) sent

  pub nothing-Confined : (k : Option ApiKey) → Confined k []
  nothing-Confined none = refl
  nothing-Confined (some key) = tt

module _ (D : Discipline) where
  open D use {Good, Holds, Happens}

  -- What is written stays with the key's devices, the hub is kept in order, and the store is as it was.
  pub record Keeps {S : Type 0} (k : Option ApiKey) (s : S) (served : Served S) : Type 0 where
    pub confined : Confined Holds k served.1
    pub good : Good served.2.hub
    pub stored : served.2.store ≡ s

  pub quiet :
      {S : Type 0} (k : Option ApiKey) (resp : Response) (sv : Server S)
      → Good sv.hub
      → Keeps k sv.store (resp, [], sv)
  quiet k resp sv good = record { confined = nothing-Confined Holds k; good = good; stored = refl }

  -- What holds of both branches of a test holds of the test.
  pub either-Keeps :
      {S : Type 0} (k : Option ApiKey) (s : S) (test : Bool) (here rest : Served S)
      → Keeps k s here
      → Keeps k s rest
      → Keeps k s (if test then here else rest)
  either-Keeps k s true here rest h g = h
  either-Keeps k s false here rest h g = g

  -- A handler that refuses without a key.
  with_key :
      {S : Type 0} (k : Option ApiKey) (sv : Server S) (serve : ApiKey → Served S)
      → Good sv.hub
      → ((key : ApiKey) → Keeps (some key) sv.store (serve key))
      → Keeps k sv.store (elim k [ none ↦ (unauthorized, [], sv) | some key ↦ serve key ])
  with_key none sv serve good h = quiet none unauthorized sv good
  with_key (some key) sv serve good h = h key

  module _ {S : Type 0} (call : Call) (happen : All Happens call.events) (key : ApiKey) where
    forward_request-Keeps :
        (sv : Server S) (req : TxRequest)
        → req.contact_id ≡ key.id
        → req.account ≡ key.owner_account
        → Good sv.hub
        → Keeps (some key) sv.store (forward_request call sv key req)
    unfolding forward_request
    forward_request-Keeps sv req contact account good =
        let left =
          send_request-Left D (IsFor Holds key) key.owner_account call.accepts req call.events
            sv.hub (λ d held. (held, ((contact, account), tt))) (λ d held. (held, (tt, tt))) happen
            good in
        either-Keeps (some key) sv.store (not (account_online sv.hub.bindings key.owner_account)) _
          _ (quiet (some key) _ sv good)
          (record { confined = left.sent; good = left.good; stored = refl })

    forward_query-Keeps :
        (sv : Server S) (text : Option String) (op nonce : String)
        → Good sv.hub
        → Keeps (some key) sv.store (forward_query call sv text key (query_of op key nonce))
    unfolding forward_query
    forward_query-Keeps sv text op nonce good =
        let left =
          send_query-Left D (IsFor Holds key) key.owner_account call.accepts call.secret
            (query_of op key nonce) call.events sv.hub (λ d held. (held, (tt, (refl, refl)))) happen
            good in
        either-Keeps (some key) sv.store (not (account_online sv.hub.bindings key.owner_account)) _
          _ (quiet (some key) _ sv good)
          (record { confined = left.sent; good = left.good; stored = refl })

-- A request that is built is the draft of the key.
built :
    (o : Outside) (call : Call) (key : ApiKey) (body : CreateBody) (req : TxRequest)
    → build_tx_request o call.secret call.time key body ≡ ok req
    → (req.contact_id ≡ key.id) × (req.account ≡ key.owner_account)
unfolding build_tx_request
built o call key body req e = ground arith

-- The key that the caller's token resolves to.
abbrev pub caller : {S : Type 0} → Store S → Request → Server S → Option ApiKey
caller store r sv = auth_key store r.authorization sv.store

module _ (D : Discipline) {S : Type 0} (store : Store S) (o : Outside) (call : Call)
    (r : Request) where
  open D use {Good, Happens}

  create_from-Keeps :
      (key : ApiKey) (body : Option CreateBody) (sv : Server S)
      → All Happens call.events
      → Good sv.hub
      → Keeps D (some key) sv.store (create_from store o call r key body sv)
  unfolding create_from
  create_from-Keeps key none sv happen good = quiet D (some key) _ sv good
  create_from-Keeps key (some body) sv happen good =
      go (build_tx_request o call.secret call.time key body) refl
    where
      go :
          (b : Result TxRequest)
          → build_tx_request o call.secret call.time key body ≡ b
          → Keeps D (some key) sv.store (create_from store o call r key (some body) sv)
      go (fails text) e = rw (e, create_from) (quiet D (some key) _ sv good)
      go (ok req) e =
          let fit = built o call key body req e in
          rw (e, create_from) (forward_request-Keeps D call happen key sv req fit.0 fit.1 good)

  module _ (sv : Server S) (happen : All Happens call.events) (good : Good sv.hub) where
    pub handle_create_request-Keeps :
        Keeps D (caller store r sv) sv.store (handle_create_request store o call r sv)
    unfolding handle_create_request
    handle_create_request-Keeps =
        either-Keeps D _ sv.store (not (r.method == "POST")) _ _ (quiet D _ _ sv good) (
          with_key D (caller store r sv) sv _ good (λ key.
            let (allowed, rl) = allow sv.rl key.id call.created call.now in
            either-Keeps D _ sv.store (not allowed) _ _ (quiet D _ _ (record sv { rl = rl }) good)
              (create_from-Keeps key _ (record sv { rl = rl }) happen good)))

    pub handle_broadcast-Keeps :
        Keeps D (caller store r sv) sv.store (handle_broadcast store o call r sv)
    unfolding handle_broadcast broadcast_nonce
    handle_broadcast-Keeps =
        either-Keeps D _ sv.store (not (r.method == "POST")) _ _ (quiet D _ _ sv good) (
          with_key D (caller store r sv) sv _ good (λ key.
            let (allowed, rl) = allow sv.rl key.id call.created call.now in
            let sv' : Server S = record sv { rl = rl } in
            let nonce = text_of store o call r (o.decode_broadcast 4096 r.body) in
            either-Keeps D _ sv.store (not allowed) _ _ (quiet D _ _ sv' good) (
              either-Keeps D _ sv.store (nonce == "") _ _ (quiet D _ _ sv' good)
                (forward_query-Keeps D call happen key sv' _ _ nonce good))))

    pub handle_status-Keeps : Keeps D (caller store r sv) sv.store (handle_status store o call r sv)
    unfolding handle_status
    handle_status-Keeps =
        with_key D (caller store r sv) sv _ good (λ key. quiet D (some key) _ sv good)

    pub device_query-Keeps :
        (op : String) → Keeps D (caller store r sv) sv.store (device_query store o call r op sv)
    unfolding device_query
    device_query-Keeps op =
        either-Keeps D _ sv.store (not (r.method == "GET")) _ _ (quiet D _ _ sv good) (
          with_key D (caller store r sv) sv _ good
            (λ key. forward_query-Keeps D call happen key sv none op "" good))

    pub handle_request_status-Keeps :
        Keeps D (caller store r sv) sv.store (handle_request_status store o call r sv)
    unfolding handle_request_status
    handle_request_status-Keeps =
        either-Keeps D _ sv.store (not (r.method == "GET")) _ _ (quiet D _ _ sv good) (
          with_key D (caller store r sv) sv _ good (λ key.
            let nonce = trim_space r.nonce in
            either-Keeps D _ sv.store (nonce == "") _ _ (quiet D _ _ sv good)
              (forward_query-Keeps D call happen key sv _ _ nonce good)))
