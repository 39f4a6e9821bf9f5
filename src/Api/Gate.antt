-- ===== src/Api/Gate.antt =====
-- cmd/relay/http.go: what must hold for a call to create a request to reach a device.
use nora_relay.Base.{◌==◌, ◌≡◌, ◌≢◌, refl, true, [], some, Bool-cases, Option-cases, inl, inr}
use nora_relay.Protocol.{TxRequest}
use nora_relay.Hub.Bindings.{account_online}
use nora_relay.RateLimit.{allow}
use nora_relay.Store.{Store, ApiKey}
use nora_relay.Api.{Request, Server, Call, auth_key}
use nora_relay.Api.Build.{CreateBody, Outside, Result, ok, fails, build_tx_request}
use nora_relay.Api.Handlers.{
  max_request_body_bytes, forward_request, create_from, handle_create_request,
}
use nora_relay.Api.Answers.{Valid}

module _ {S : Type 0} (store : Store S) (o : Outside) (call : Call) (r : Request)
    (sv : Server S) where
  -- The call is valid for a key whose account has a device.
  abbrev pub Admitted : Type 0
  Admitted =
      (key : ApiKey) × (body : CreateBody) × (req : TxRequest) × Valid store o call r sv key body
        req
      × (account_online sv.hub.bindings key.owner_account ≡ true)

  -- If a call to create a request makes the relay write anything to a device, then it is a POST
  -- with a token that resolves to a key, the rate limiter allows that key, the body can be read
  -- and gives a request, and the key's account is online.
  pub handle_create_request-Admitted : (handle_create_request store o call r sv).1 ≢ [] → Admitted
  unfolding handle_create_request forward_request
  handle_create_request-Admitted wrote = elim (Bool-cases (r.method == "POST")) [
    | inr other ↦ absurd (wrote (rw (other, handle_create_request) refl))
    | inl post ↦ elim (Option-cases (auth_key store r.authorization sv.store)) [
      | inl nobody ↦ absurd (wrote (rw (post, nobody, handle_create_request) refl))
      | inr (key, authentic) ↦ elim (Bool-cases (allow sv.rl key.id call.created call.now).0) [
        | inr over ↦ absurd (wrote (rw (post, authentic, over, handle_create_request) refl))
        | inl within ↦
            let read = o.decode_create max_request_body_bytes r.body in
            elim (Option-cases read) [
              | inl unread ↦ absurd (
                  wrote (
                    rw (post, authentic, within, unread, handle_create_request)
                      (unfold create_from in refl)))
              | inr (body, decoded) ↦
                  go key body post authentic within decoded
                    (build_tx_request o call.secret call.time key body) refl
            ]
      ]
    ]
  ]
    where
      go :
          (key : ApiKey) (body : CreateBody)
          → (r.method == "POST") ≡ true
          → auth_key store r.authorization sv.store ≡ some key
          → (allow sv.rl key.id call.created call.now).0 ≡ true
          → o.decode_create max_request_body_bytes r.body ≡ some body
          → (b : Result TxRequest) → build_tx_request o call.secret call.time key body ≡ b
          → Admitted
      go key body post authentic within decoded (fails text) built = absurd (
          wrote (
            rw (post, authentic, within, decoded, handle_create_request)
              (rw (built, create_from) refl)))
      go key body post authentic within decoded (ok req) built =
          elim (Bool-cases (account_online sv.hub.bindings key.owner_account)) [
            | inl on ↦ (
              key,
              body,
              req,
              record {
                post = post;
                authentic = authentic;
                within = within;
                decoded = decoded;
                built = built;
              },
              on,
            )
            | inr off ↦ absurd (
                wrote (
                  rw (post, authentic, within, decoded, handle_create_request)
                    (rw (built, create_from) (rw (off, forward_request) refl))))
          ]
