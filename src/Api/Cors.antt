-- ===== src/Api/Cors.antt =====
-- cmd/relay/http.go: which responses corsMiddleware opens to the page of an origin.
use nora_relay.Base.{
  ℕ, String, ◌==◌, eq_iff, ◌≡◌, ◌≢◌, ◌↔◌, refl, ◌∙◌, sym, subst, Bool, true, false, not, ◌||◌, List,
  [], ◌∷◌, Option, none, some, if◌then◌else◌, arith,
}
use nora_relay.Hub.{Sent, Outcome, answered, account_offline, expired}
use nora_relay.Protocol.{TxResult, QueryResult, TxRequest, Query}
use nora_relay.RateLimit.{allow}
use nora_relay.Hub.Bindings.{account_online}
use nora_relay.Store.{Store, ApiKey}
use nora_relay.Store.Memory.{MemStore, mem_store}
use nora_relay.Store.Memory.Origins.{Lists, origin_allowed_iff}
use nora_relay.Text.{has_prefix, trim_space}
use nora_relay.Api.{auth_key, write_json_error, Request, Response, Server, Call, Served}
use nora_relay.Api.Build.{Outside, CreateBody, ok, fails, build_tx_request}
use nora_relay.Api.Handlers.{
  respond, respond_data, respond_query, unauthorized, text_of, forward_request, forward_query,
  create_from, broadcast_nonce, handle_create_request, handle_broadcast, handle_status,
  device_query, handle_request_status,
}
use nora_relay.Api.Routes.{cors_middleware, mux, routes}

unfoldable pub header_value : (name : String) → List (String × String) → Option String
header_value name [] = none
header_value name ((n, v) ∷ hs) =
    let rest = header_value name hs in if n == name then some v else rest

-- The origin whose pages may read the response.
unfoldable pub opened_to : Response → Option String
unfolding header_value
opened_to resp = header_value "Access-Control-Allow-Origin" resp.headers

record Plain (resp : Response) : Type 0 where
  plain : opened_to resp ≡ none

respond-Plain : (outcome : Outcome TxResult) → Plain (respond outcome)
unfolding opened_to
respond-Plain (answered res) = record { plain = refl }
respond-Plain account_offline = record { plain = refl }
respond-Plain expired = record { plain = refl }

either-Plain : (test : Bool) (a b : Response) → Plain a → Plain b → Plain (if test then a else b)
either-Plain true a b h g = h
either-Plain false a b h g = g

-- The same of what a handler serves.
record Closed {S : Type 0} (served : Served S) : Type 0 where
  closed : Plain served.0

serves :
    {S : Type 0} (resp : Response) (sent : List Sent) (sv : Server S)
    → Plain resp
    → Closed {S = S} (resp, sent, sv)
serves resp sent sv h = record { closed = h }

either-Closed :
    {S : Type 0} (test : Bool) (a b : Served S)
    → Closed a
    → Closed b
    → Closed (if test then a else b)
either-Closed true a b h g = h
either-Closed false a b h g = g

respond_data-Plain : (text : Option String) (qr : QueryResult) → Plain (respond_data text qr)
unfolding opened_to
respond_data-Plain none qr =
    either-Plain (not (qr.error == "")) _ _ (record { plain = refl }) (record { plain = refl })
respond_data-Plain (some text) qr =
    either-Plain (qr.error == "not_found") _ _ (record { plain = refl })
      (either-Plain (not (qr.error == "")) _ _ (record { plain = refl }) (record { plain = refl }))

respond_query-Plain :
    (text : Option String) (outcome : Outcome QueryResult) → Plain (respond_query text outcome)
unfolding opened_to
respond_query-Plain text (answered qr) = respond_data-Plain text qr
respond_query-Plain text account_offline = record { plain = refl }
respond_query-Plain text expired = record { plain = refl }

module _ {S : Type 0} (call : Call) (sv : Server S) where
  forward_request-Closed :
      (key : ApiKey) (req : TxRequest) → Closed (forward_request call sv key req)
  unfolding forward_request opened_to
  forward_request-Closed key req =
      either-Closed (not (account_online sv.hub.bindings key.owner_account)) _ _
        (serves _ _ _ (record { plain = refl })) (serves _ _ _ (respond-Plain _))

  forward_query-Closed :
      (text : Option String) (key : ApiKey) (q : Query) → Closed (forward_query call sv text key q)
  unfolding forward_query opened_to
  forward_query-Closed text key q =
      either-Closed (not (account_online sv.hub.bindings key.owner_account)) _ _
        (serves _ _ _ (record { plain = refl })) (serves _ _ _ (respond_query-Plain text _))

-- A handler that refuses without a key.
with_key :
    {S : Type 0} (found : Option ApiKey) (sv : Server S) (serve : ApiKey → Served S)
    → ((key : ApiKey) → Closed (serve key))
    → Closed (elim found [ none ↦ (unauthorized, [], sv) | some key ↦ serve key ])
unfolding opened_to
with_key none sv serve h = (serves _ _ _ (record { plain = refl }))
with_key (some key) sv serve h = h key

module _ {S : Type 0} (store : Store S) (o : Outside) (call : Call) (r : Request)
    (sv : Server S) where
  create_from-Closed :
      (key : ApiKey) (body : Option CreateBody) (at : Server S)
      → Closed (create_from store o call r key body at)
  unfolding create_from opened_to
  create_from-Closed key none at = (serves _ _ _ (record { plain = refl }))
  create_from-Closed key (some body) at =
      elim (build_tx_request o call.secret call.time key body)
        as (λ built. Closed (elim built [
          | fails text ↦ (write_json_error 400 text, [], at)
          | ok req ↦ forward_request call at key req
        ])) [
          | fails text ↦ serves _ _ _ (record { plain = refl })
          | ok req ↦ forward_request-Closed call at key req
        ]

  handle_create_request-Closed : Closed (handle_create_request store o call r sv)
  unfolding handle_create_request opened_to
  handle_create_request-Closed =
      either-Closed (not (r.method == "POST")) _ _ (serves _ _ _ (record { plain = refl })) (
        with_key (auth_key store r.authorization sv.store) sv _ (λ key.
          either-Closed (not (allow sv.rl key.id call.created call.now).0) _ _
            (serves _ _ _ (record { plain = refl })) (create_from-Closed key _ _)))

  handle_broadcast-Closed : Closed (handle_broadcast store o call r sv)
  unfolding handle_broadcast broadcast_nonce opened_to
  handle_broadcast-Closed =
      either-Closed (not (r.method == "POST")) _ _ (serves _ _ _ (record { plain = refl })) (
        with_key (auth_key store r.authorization sv.store) sv _ (λ key.
          either-Closed (not (allow sv.rl key.id call.created call.now).0) _ _
            (serves _ _ _ (record { plain = refl }))
            (either-Closed (text_of store o call r (o.decode_broadcast 4096 r.body) == "") _ _
              (serves _ _ _ (record { plain = refl })) (forward_query-Closed call _ _ key _))))

  handle_status-Closed : Closed (handle_status store o call r sv)
  unfolding handle_status opened_to
  handle_status-Closed =
      with_key (auth_key store r.authorization sv.store) sv _
        (λ key. (serves _ _ _ (record { plain = refl })))

  device_query-Closed : (op : String) → Closed (device_query store o call r op sv)
  unfolding device_query opened_to
  device_query-Closed op =
      either-Closed (not (r.method == "GET")) _ _ (serves _ _ _ (record { plain = refl })) (
        with_key (auth_key store r.authorization sv.store) sv _
          (λ key. forward_query-Closed call sv none key _))

  handle_request_status-Closed : Closed (handle_request_status store o call r sv)
  unfolding handle_request_status opened_to
  handle_request_status-Closed =
      either-Closed (not (r.method == "GET")) _ _ (serves _ _ _ (record { plain = refl })) (
        with_key (auth_key store r.authorization sv.store) sv _ (λ key.
          either-Closed (trim_space r.nonce == "") _ _ (serves _ _ _ (record { plain = refl }))
            (forward_query-Closed call sv _ key _)))

  mux-Closed : Closed (mux store o call r sv)
  unfolding mux opened_to
  mux-Closed = either-Closed (r.path == "/v1/requests") _ _ handle_create_request-Closed (
      either-Closed (r.path == "/v1/requests/status") _ _ handle_request_status-Closed (
        either-Closed (r.path == "/v1/broadcast") _ _ handle_broadcast-Closed (
          either-Closed (r.path == "/v1/status") _ _ handle_status-Closed (
            either-Closed (r.path == "/v1/settings") _ _ (device_query-Closed "settings") (
              either-Closed (r.path == "/v1/balance") _ _ (device_query-Closed "balance") (
                either-Closed (r.path == "/v1/activity") _ _ (device_query-Closed "activity") (
                  either-Closed (r.path == "/healthz") _ _ (serves _ _ _ (record { plain = refl }))
                    (serves _ _ _ (record { plain = refl })))))))))

  -- What corsMiddleware adds to the response of a handler that names no origin.
  routes-opened_to : opened_to (routes store o call r sv).0 ≡ (
      if r.origin == "" || not (has_prefix r.path "/v1/")
      then none
      else if (store.origin_allowed sv.store r.origin).0
      then some r.origin
      else none)
  unfolding routes cors_middleware opened_to
  routes-opened_to = ground (arith, mux-Closed.closed.plain)

guards :
    (empty under allowed : Bool) (own origin : String)
    → (if empty || not under then none else if allowed then some own else none) ≡ some origin
    → (empty ≡ false) × (under ≡ true) × (allowed ≡ true) × (own ≡ origin)
guards true under allowed own origin e = ground arith
guards false false allowed own origin e = ground arith
guards false true false own origin e = ground arith
guards false true true own origin e = (refl, refl, refl, ground (arith, e))

module _ (sha256 : List ℕ → List ℕ) (o : Outside) (call : Call) (r : Request)
    (sv : Server MemStore) where
  -- Over memStore, whose OriginAllowed never fails: a response names an origin whose pages may read it exactly when
  -- that origin is the request's own, not empty, the path is under /v1/, and some stored key lists the origin. This
  -- holds for every method and path, and for refused requests too.
  pub routes-opened_to_iff :
      (origin : String)
      → (opened_to (routes (mem_store sha256) o call r sv).0 ≡ some origin) ↔ (
          (origin ≡ r.origin)
          × (origin ≢ "")
          × (has_prefix r.path "/v1/" ≡ true)
          × Lists sv.store origin)
  routes-opened_to_iff origin =
      let opened = routes-opened_to (mem_store sha256) o call r sv in
      (
        λ e.
            let (named, under, allowed, own) = guards _ _ _ r.origin origin (sym opened ∙ e) in
            (
              sym own,
              (λ none_given. ground (arith, named, own, none_given, eq_iff r.origin "")),
              under,
              subst (λ x. Lists sv.store x) own ((origin_allowed_iff sv.store r.origin).0 allowed),
            ),
        λ (own, given, under, lists).
            let allowed =
              (origin_allowed_iff sv.store r.origin).1 (subst (λ x. Lists sv.store x) own lists) in
            ground (arith, opened, own, given, under, allowed, eq_iff r.origin ""),
      )
