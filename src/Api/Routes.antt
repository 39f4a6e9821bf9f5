-- ===== src/Api/Routes.antt =====
-- cmd/relay/http.go: the routes behind the CORS middleware. /agent, which becomes a WebSocket, is
-- not among them; a path that no route has gives 404.
use nora_relay.Base.{ℕ, String, ◌==◌, not, ◌||◌, List, [], ◌∷◌, ◌++◌, if◌then◌else◌}
use nora_relay.Store.{Store}
use nora_relay.Api.{Request, Response, Server, Call, Served, nothing, text}
use nora_relay.Text.{has_prefix}
use nora_relay.Api.Build.{Outside}
use nora_relay.Api.Handlers.{
  handle_create_request, handle_broadcast, handle_status, device_query, handle_request_status,
}

abbrev pub not_found_page : Response
not_found_page = record { status = 404; headers = []; payload = text "404 page not found" }

abbrev pub healthy : Response
healthy = record { status = 200; headers = []; payload = text "ok" }

abbrev pub no_content : ℕ → Response
no_content status = record { status = status; headers = []; payload = nothing }

abbrev pub with_headers : List (String × String) → Response → Response
with_headers hs resp = record resp { headers = hs ++ resp.headers }

abbrev pub allow_origin : String → List (String × String)
allow_origin origin =
    ("Access-Control-Allow-Origin", origin)
    ∷ ("Access-Control-Allow-Headers", "Authorization, Content-Type")
    ∷ []

abbrev pub preflight : String → List (String × String)
preflight origin =
    ("Access-Control-Allow-Origin", origin)
    ∷ ("Access-Control-Allow-Methods", "GET, POST, OPTIONS")
    ∷ ("Access-Control-Allow-Headers", "Authorization, Content-Type")
    ∷ ("Access-Control-Max-Age", "86400")
    ∷ []

module _ {S : Type 0} (store : Store S) where
  -- A next handler is given the server. The error of OriginAllowed is logged.
  unfoldable pub cors_middleware : (Server S → Served S) → Request → Server S → Served S
  cors_middleware next r sv =
      let (resp, sent, sv') = next sv in
      let allowed = (store.origin_allowed sv.store r.origin).0 in
      if r.origin == "" || not (has_prefix r.path "/v1/")
      then (resp, sent, sv')
      else if r.method == "OPTIONS"
      then (
        (if allowed then with_headers (preflight r.origin) (no_content 204) else no_content 403),
        [],
        sv,
      )
      else ((if allowed then with_headers (allow_origin r.origin) resp else resp), sent, sv')

  module _ (o : Outside) (call : Call) where
    unfoldable pub mux : Request → Server S → Served S
    mux r sv =
        if r.path == "/v1/requests"
        then handle_create_request store o call r sv
        else if r.path == "/v1/requests/status"
        then handle_request_status store o call r sv
        else if r.path == "/v1/broadcast"
        then handle_broadcast store o call r sv
        else if r.path == "/v1/status"
        then handle_status store o call r sv
        else if r.path == "/v1/settings"
        then device_query store o call r "settings" sv
        else if r.path == "/v1/balance"
        then device_query store o call r "balance" sv
        else if r.path == "/v1/activity"
        then device_query store o call r "activity" sv
        else if r.path == "/healthz"
        then (healthy, [], sv)
        else (not_found_page, [], sv)

    unfoldable pub routes : Request → Server S → Served S
    unfolding cors_middleware mux
    routes r sv = cors_middleware (mux r) r sv
