-- ===== src/Api/Limits.antt =====
-- cmd/relay/http.go: what a request takes of its key's tokens, and what it must take them for.
use nora_relay.Base.{
  String, ◌==◌, ◌≡◌, refl, Bool, true, false, not, ◌||◌, ◌⊎◌, inl, inr, [], Option, none, some, All,
  arith, if◌then◌else◌,
}
use nora_relay.Protocol.{TxRequest, Query}
use nora_relay.Hub.Bindings.{account_online}
use nora_relay.Hub.Proven.{send_query-Left}
use nora_relay.RateLimit.{RateLimiter, allow}
use nora_relay.Store.{Store, ApiKey}
use nora_relay.Text.{trim_space, has_prefix}
use nora_relay.Api.{Request, Response, Server, Call, Served}
use nora_relay.Api.Build.{CreateBody, Outside, Result, ok, fails, build_tx_request}
use nora_relay.Api.Confined.{caller}
use nora_relay.Hub.Discipline.{unguarded, unguarded_happen}
use nora_relay.Api.Handlers.{
  unauthorized, forward_request, forward_query, create_from, handle_create_request,
  handle_broadcast, broadcast_nonce, text_of, handle_status, device_query, handle_request_status,
  query_of,
}
use nora_relay.Api.Charges.{IsFree}
use nora_relay.Api.Routes.{cors_middleware, mux, routes}

module _ {S : Type 0} (call : Call) (k : Option ApiKey) (rl : RateLimiter) where
  pub record Free (served : Served S) : Type 0 where
    pub kept : served.2.rl ≡ rl
    pub sent : All IsFree served.1

  pub record Taken (served : Served S) : Type 0 where
    pub key : ApiKey
    pub authentic : k ≡ some key
    pub taken : served.2.rl ≡ (allow rl key.id call.created call.now).1
    pub refused : (allow rl key.id call.created call.now).0 ≡ false → served.1 ≡ []

  -- Either nothing is taken and nothing is written that has to be paid for, or the limiter is asked for the caller's
  -- key, and nothing is written when it refuses.
  abbrev pub Pays : Served S → Type 0
  Pays served = Free served ⊎ Taken served

  either-Pays :
      (test : Bool) (here rest : Served S)
      → Pays here
      → Pays rest
      → Pays (if test then here else rest)
  either-Pays true here rest h g = h
  either-Pays false here rest h g = g

  quiet-Pays : (resp : Response) (sv : Server S) → sv.rl ≡ rl → Pays (resp, [], sv)
  quiet-Pays resp sv e = inl (record { kept = e; sent = tt })

  key-Pays :
      (sv : Server S) (serve : ApiKey → Served S) (k' : Option ApiKey)
      → sv.rl ≡ rl
      → k ≡ k'
      → ((key : ApiKey) → k ≡ some key → Pays (serve key))
      → Pays (elim k' [ none ↦ (unauthorized, [], sv) | some key ↦ serve key ])
  key-Pays sv serve none e same h = quiet-Pays unauthorized sv e
  key-Pays sv serve (some key) e same h = h key same

  -- The branch after the limiter has been asked.
  asked-Pays :
      (key : ApiKey) (resp : Response) (sv : Server S) (rest : Served S)
      → k ≡ some key
      → sv.rl ≡ (allow rl key.id call.created call.now).1
      → rest.2.rl ≡ sv.rl
      → Pays (if not (allow rl key.id call.created call.now).0 then (resp, [], sv) else rest)
  asked-Pays key resp sv rest authentic taken same =
      inr (record {
        key = key;
        authentic = authentic;
        taken = ground arith;
        refused = λ e. rw e refl;
      })

forward_request-rl :
    {S : Type 0} (call : Call) (sv : Server S) (key : ApiKey) (req : TxRequest)
    → (forward_request call sv key req).2.rl ≡ sv.rl
unfolding forward_request
forward_request-rl call sv key req = ground arith

forward_query-rl :
    {S : Type 0} (call : Call) (sv : Server S) (text : Option String) (key : ApiKey) (q : Query)
    → (forward_query call sv text key q).2.rl ≡ sv.rl
unfolding forward_query
forward_query-rl call sv text key q = ground arith

either-rl :
    {S : Type 0} (test : Bool) (here rest : Served S) (rl : RateLimiter)
    → here.2.rl ≡ rl
    → rest.2.rl ≡ rl
    → (if test then here else rest).2.rl ≡ rl
either-rl true here rest rl h g = h
either-rl false here rest rl h g = g

module _ {S : Type 0} (store : Store S) (o : Outside) (call : Call) (r : Request) where
  create_from-rl :
      (key : ApiKey) (body : Option CreateBody) (sv : Server S)
      → (create_from store o call r key body sv).2.rl ≡ sv.rl
  unfolding create_from
  create_from-rl key none sv = refl
  create_from-rl key (some body) sv = go (build_tx_request o call.secret call.time key body) refl
    where
      go :
          (b : Result TxRequest)
          → build_tx_request o call.secret call.time key body ≡ b
          → (create_from store o call r key (some body) sv).2.rl ≡ sv.rl
      go (fails text) e = rw (e, create_from) refl
      go (ok req) e = rw (e, create_from) (forward_request-rl call sv key req)

  module _ (sv : Server S) where
    handle_create_request-Pays :
        Pays call (caller store r sv) sv.rl (handle_create_request store o call r sv)
    unfolding handle_create_request
    handle_create_request-Pays =
        let k = caller store r sv in
        either-Pays call k sv.rl (not (r.method == "POST")) _ _ (quiet-Pays call k sv.rl _ sv refl)
          (key-Pays call k sv.rl sv _ k refl refl (λ key authentic.
            let (allowed, rl) = allow sv.rl key.id call.created call.now in
            let sv' : Server S = record sv { rl = rl } in
            asked-Pays call k sv.rl key _ sv' _ authentic refl (create_from-rl key _ sv')))

    handle_broadcast-Pays : Pays call (caller store r sv) sv.rl (handle_broadcast store o call r sv)
    unfolding handle_broadcast broadcast_nonce
    handle_broadcast-Pays =
        let k = caller store r sv in
        either-Pays call k sv.rl (not (r.method == "POST")) _ _ (quiet-Pays call k sv.rl _ sv refl)
          (key-Pays call k sv.rl sv _ k refl refl (λ key authentic.
            let (allowed, rl) = allow sv.rl key.id call.created call.now in
            let sv' : Server S = record sv { rl = rl } in
            let nonce = text_of store o call r (o.decode_broadcast 4096 r.body) in
            asked-Pays call k sv.rl key _ sv' _ authentic refl
              (either-rl (nonce == "") _ _ _ refl (forward_query-rl call sv' _ key _))))

    forward_query-Pays :
        (key : ApiKey) (text : Option String) (op nonce : String)
        → (op == "broadcast_nonce") ≡ false
        → Pays call
            (caller store r sv)
            sv.rl
            (forward_query call sv text key (query_of op key nonce))
    unfolding forward_query
    forward_query-Pays key text op nonce other =
        let k = caller store r sv in
        let left =
          send_query-Left unguarded IsFree key.owner_account call.accepts call.secret
            (query_of op key nonce) call.events sv.hub (λ d held j. rw other refl)
            (unguarded_happen call.events) tt in
        either-Pays call k sv.rl (not (account_online sv.hub.bindings key.owner_account)) _ _
          (quiet-Pays call k sv.rl _ sv refl) (inl (record { kept = refl; sent = left.sent }))

    device_query-Pays :
        (op : String)
        → (op == "broadcast_nonce") ≡ false
        → Pays call (caller store r sv) sv.rl (device_query store o call r op sv)
    unfolding device_query
    device_query-Pays op other =
        let k = caller store r sv in
        either-Pays call k sv.rl (not (r.method == "GET")) _ _ (quiet-Pays call k sv.rl _ sv refl) (
          key-Pays call k sv.rl sv _ k refl refl
            (λ key authentic. forward_query-Pays key none op "" other))

    handle_request_status-Pays :
        Pays call (caller store r sv) sv.rl (handle_request_status store o call r sv)
    unfolding handle_request_status
    handle_request_status-Pays =
        let k = caller store r sv in
        either-Pays call k sv.rl (not (r.method == "GET")) _ _ (quiet-Pays call k sv.rl _ sv refl) (
          key-Pays call k sv.rl sv _ k refl refl (λ key authentic.
            let nonce = trim_space r.nonce in
            either-Pays call k sv.rl (nonce == "") _ _ (quiet-Pays call k sv.rl _ sv refl)
              (forward_query-Pays key _ "request_status" nonce refl)))

    handle_status-Pays : Pays call (caller store r sv) sv.rl (handle_status store o call r sv)
    unfolding handle_status
    handle_status-Pays =
        let k = caller store r sv in
        key-Pays call k sv.rl sv _ k refl refl (λ key authentic. quiet-Pays call k sv.rl _ sv refl)

    mux-Pays : Pays call (caller store r sv) sv.rl (mux store o call r sv)
    unfolding mux
    mux-Pays =
        let either = either-Pays call (caller store r sv) sv.rl in
        let quiet = λ (resp : Response). quiet-Pays call (caller store r sv) sv.rl resp sv refl in
        either (r.path == "/v1/requests") _ _ handle_create_request-Pays (
          either (r.path == "/v1/requests/status") _ _ handle_request_status-Pays (
            either (r.path == "/v1/broadcast") _ _ handle_broadcast-Pays (
              either (r.path == "/v1/status") _ _ handle_status-Pays (
                either (r.path == "/v1/settings") _ _ (device_query-Pays "settings" refl) (
                  either (r.path == "/v1/balance") _ _ (device_query-Pays "balance" refl) (
                    either (r.path == "/v1/activity") _ _ (device_query-Pays "activity" refl)
                      (either (r.path == "/healthz") _ _ (quiet _) (quiet _))))))))

    with_headers-Pays :
        (resp : Response) (served : Served S)
        → Pays call (caller store r sv) sv.rl served
        → Pays call (caller store r sv) sv.rl (resp, served.1, served.2)
    with_headers-Pays resp served (inl f) = inl (record { kept = f.kept; sent = f.sent })
    with_headers-Pays resp served (inr t) =
        inr (record { key = t.key; authentic = t.authentic; taken = t.taken; refused = t.refused })

    pub routes-Pays : Pays call (caller store r sv) sv.rl (routes store o call r sv)
    unfolding routes cors_middleware
    routes-Pays =
        let k = caller store r sv in
        either-Pays call k sv.rl (r.origin == "" || not (has_prefix r.path "/v1/")) _ _
          (with_headers-Pays _ _ mux-Pays)
          (either-Pays call k sv.rl (r.method == "OPTIONS") _ _ (quiet-Pays call k sv.rl _ sv refl)
            (with_headers-Pays _ _ mux-Pays))
