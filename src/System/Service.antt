-- ===== src/System/Service.antt =====
-- cmd/relay: from the registration of a key to the answer of a caller's request.
use Prim.Native.String.{◌++◌}
use nora_relay.Base.{ℕ, String, List, [], some, pos}
use nora_relay.Base.Map
use nora_relay.Protocol.{EnvelopeType, Control, envelope}
use nora_relay.Hub.{Hub}
use nora_relay.Hub.Bindings.{AgentConn, bind}
use nora_relay.Store.Memory.{MemStore, mem_store, hash_secret}
use nora_relay.Api.{Request, Server}
use nora_relay.Agent.{dispatch}

module _ (sha256 : List ℕ → List ℕ) (id acc secret : String) where
  -- A device registers the key with the hash of its secret.
  abbrev pub registration : Control
  registration = record {
    op = "register_key";
    corr_id = "";
    account = acc;
    key_id = id;
    hash = hash_secret sha256 secret;
    allowed_origins = [];
    version = pos 0;
    blob = [];
    error = "";
  }

  -- The server after a device has been bound and its registration has been handled.
  abbrev pub ready : AgentConn → Server MemStore → Server MemStore
  ready a sv =
      let env = record (envelope EnvelopeType.control "") { control = some registration } in
      let bound : Hub = record sv.hub { bindings = bind a sv.hub.bindings } in
      let (hub, s) = dispatch (mem_store sha256) a env (bound, sv.store) in
      record sv { hub = hub; store = s }

  -- A caller that is no browser posts a body with the secret.
  abbrev pub posts : List ℕ → Request
  posts octets = record {
    method = "POST";
    path = "/v1/requests";
    origin = "";
    authorization = "Bearer " ++ secret;
    nonce = "";
    body = octets;
  }
