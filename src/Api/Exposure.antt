-- ===== src/Api/Exposure.antt =====
-- cmd/relay/http.go: what a request makes the relay write to devices, through the middleware and the mux.
use nora_relay.Base.{◌≡◌, ◌==◌, not, ◌||◌, List, [], ◌∷◌, All}
use nora_relay.Hub.{Event}
use nora_relay.Hub.Bindings.Invariant.{Inv, HasProved}
use nora_relay.Hub.Discipline.{Discipline, proved, unguarded, unguarded_happen}
use nora_relay.Store.{Store}
use nora_relay.Api.{Request, Server, Call}
use nora_relay.Text.{has_prefix}
use nora_relay.Api.Build.{Outside}
use nora_relay.Api.Confined.{
  Confined, Keeps, quiet, either-Keeps, caller, handle_create_request-Keeps, handle_broadcast-Keeps,
  handle_status-Keeps, device_query-Keeps, handle_request_status-Keeps,
}
use nora_relay.Api.Routes.{cors_middleware, mux, routes}

module _ (D : Discipline) {S : Type 0} (store : Store S) (o : Outside) (call : Call) (r : Request)
    (sv : Server S) (happen : All D.Happens call.events) (good : D.Good sv.hub) where
  mux-Keeps : Keeps D (caller store r sv) sv.store (mux store o call r sv)
  unfolding mux
  mux-Keeps =
      let k = caller store r sv in
      let query = device_query-Keeps D store o call r sv happen good in
      either-Keeps D k sv.store (r.path == "/v1/requests") _ _
        (handle_create_request-Keeps D store o call r sv happen good)
        (either-Keeps D k sv.store (r.path == "/v1/requests/status") _ _
          (handle_request_status-Keeps D store o call r sv happen good)
          (either-Keeps D k sv.store (r.path == "/v1/broadcast") _ _
            (handle_broadcast-Keeps D store o call r sv happen good)
            (either-Keeps D k sv.store (r.path == "/v1/status") _ _
              (handle_status-Keeps D store o call r sv happen good)
              (either-Keeps D k sv.store (r.path == "/v1/settings") _ _ (query "settings") (
                either-Keeps D k sv.store (r.path == "/v1/balance") _ _ (query "balance") (
                  either-Keeps D k sv.store (r.path == "/v1/activity") _ _ (query "activity") (
                    either-Keeps D k sv.store (r.path == "/healthz") _ _ (quiet D k _ sv good)
                      (quiet D k _ sv good))))))))

  pub routes-Keeps : Keeps D (caller store r sv) sv.store (routes store o call r sv)
  unfolding routes cors_middleware
  routes-Keeps =
      let k = caller store r sv in
      either-Keeps D k sv.store (r.origin == "" || not (has_prefix r.path "/v1/")) _ _
        (record { confined = mux-Keeps.confined; good = mux-Keeps.good; stored = mux-Keeps.stored })
        (either-Keeps D k sv.store (r.method == "OPTIONS") _ _ (quiet D k _ sv good) (record {
          confined = mux-Keeps.confined;
          good = mux-Keeps.good;
          stored = mux-Keeps.stored;
        }))

any_happen : (events : List Event) → All proved.Happens events
any_happen [] = tt
any_happen (e ∷ events) = (tt, any_happen events)

module _ {S : Type 0} (store : Store S) (o : Outside) (call : Call) (r : Request) where
  -- Whatever a caller sends, where the hub binds devices to accounts they have proved: without a
  -- token that resolves to a key nothing is written to any device; with one, every message
  -- goes to a device that has proved the account of that key, and a request or query in it names
  -- that key and that account.
  pub routes-Confined :
      (sv : Server S)
      → Inv sv.hub.bindings
      → Confined HasProved (caller store r sv) (routes store o call r sv).1
  routes-Confined sv inv =
      (routes-Keeps proved store o call r sv (any_happen call.events) inv).confined

  -- No request of a caller writes to the store.
  pub routes-store : (sv : Server S) → (routes store o call r sv).2.store ≡ sv.store
  routes-store sv =
      (routes-Keeps unguarded store o call r sv (unguarded_happen call.events) tt).stored
