-- ===== src/Startup.antt =====
-- cmd/relay/main.go and config.go: the configuration, the choice of the store and the server. The flags are what the
-- package flag gives, if they are on the command line.
use nora_relay.Text.{hex_encode}
use nora_relay.Hub.{new_hub}
use nora_relay.RateLimit.{second, new_rate_limiter}
use nora_relay.Api.{Server}
use nora_relay.Base.{ℕ, ◌*◌, String, ◌==◌, Option, none, some, if◌then◌else◌, or_zero, List}
use nora_relay.Base.Map
use nora_relay.Base.Map.{Map}
use nora_relay.Environment.{load_dot_env}
use nora_relay.Store.Memory.{MemStore, new_mem_store}
use nora_relay.Sqlite.{Database}
use nora_relay.Sqlite.Opening.{Statement, Opened, new_sqlite_store}

pub record Config : Type 0 where
  pub listen : String
  pub request_timeout_seconds : ℕ
  pub sqlite_path : String

-- os.Getenv
abbrev pub getenv : Map String → String → String
getenv env key = or_zero "" (Map.lookup env key)

unfoldable pub env_or : Map String → (key default : String) → String
env_or env key default = let v = getenv env key in if v == "" then default else v

-- The environment is the one that loadDotEnv leaves.
unfoldable pub config_of :
    (env : Map String) → (listen : Option String) → (timeout : Option ℕ) → Config
unfolding env_or
config_of env listen timeout = record {
  listen = or_zero (env_or env "LISTEN" ":8080") listen;
  request_timeout_seconds = or_zero 45 timeout;
  sqlite_path = getenv env "SQLITE_PATH";
}

pub data StoreOpened : Type 0 where
  in_memory : MemStore → StoreOpened
  on_file : Opened → StoreOpened

unfoldable pub open_store :
    Config
    → (exec : Statement → Option String) → (open_error : Option String)
    → (file : String → Option Database) → StoreOpened
open_store cfg exec open_error file =
    if cfg.sqlite_path == ""
    then in_memory new_mem_store
    else on_file (new_sqlite_store exec open_error (file cfg.sqlite_path))

-- main up to the store: loadDotEnv, the flags, and openStore.
unfoldable pub start :
    (files : String → Option (List String))
    → (env : Map String) → (listen : Option String) → (timeout : Option ℕ)
    → (exec : Statement → Option String) → (open_error : Option String)
    → (file : String → Option Database) → Config × StoreOpened
unfolding config_of open_store
start files env listen timeout exec open_error file =
    let cfg = config_of (load_dot_env files env) listen timeout in
    (cfg, open_store cfg exec open_error file)

-- newServer, less its configuration: 5 requests each second, a burst of 20, and entries that are pruned after an hour.
abbrev pub new_server : {S : Type 0} → (store : S) → Server S
new_server store = record {
  hub = new_hub;
  store = store;
  rl = new_rate_limiter 5 20 (3600 * second);
}

-- randomSecret, of the bytes that crypto/rand gives; `none` is its panic.
abbrev pub random_secret : (read : Option (List ℕ)) → Option String
random_secret none = none
random_secret (some b) = some (hex_encode b)
