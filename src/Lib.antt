-- ===== src/Lib.antt =====
-- The Nora relay (README.md): the hub between callers with API keys and the desktop agents that
-- hold the seeds of Nano accounts. A model of its Go code, and theorems about it.
--
-- The parts of the program, and the files that model them:
--
-- * cmd/relay/store.go, the persistence boundary. Store.antt has its types and the interface `Store`
--   as a record of methods over the states of an implementation; Store/Memory.antt is memStore,
--   method by method (RegisterAPIKey is `register_api_key`, and so on). Store/Registry.antt is the
--   contract: a table of rows, in which a hash stands once, and a table of policies. Store/Laws.antt
--   is what the handlers rely on of any implementation.
-- * cmd/relay/hub.go. Hub/Bindings.antt has bind, unbind, accountOnline and devicesForAccount;
--   Hub/Waiters.antt the tables `pending` and `queryPending`, which have one shape; Hub.antt
--   sendRequest, sendQuery and the deliveries.
-- * cmd/relay/ratelimit.go is RateLimit.antt.
-- * cmd/relay/http.go, over any `Store`. Control.antt is handleControl. Agent.antt is enroll,
--   agentReadLoop and the binding around it, and Agent/Connection.antt handleAgent with its clock
--   and what it writes. Api.antt has the callers' requests and authKey, Api/Build.antt buildTxRequest,
--   Api/Handlers.antt the handlers of /v1/*, and Api/Routes.antt the mux behind corsMiddleware.
-- * cmd/relay/store_sqlite.go is Sqlite.antt, a second implementation of `Store`: a table is the list of
--   its rows (Sqlite/Table.antt), and a method is what its statement does to them.
--   Sqlite/Opening.antt is newSQLiteStore.
-- * cmd/relay/main.go and config.go, up to the choice of the store, and newServer are Startup.antt.
-- * cmd/migrate/main.go is Migrate.antt, the two loops that copy the rows, and Migrate/Main.antt, main.
-- * internal/nano. Nano/Account.antt is account.go, with its bit loops; Nano/Signing.antt is sign.go and
--   the challenges of auth.go, for an expanded key; Nano/Keys.antt is keys.go and hash.go, with Sign
--   and SignChallenge for a private key; Nano/Amount.antt is amount.go.
-- * cmd/relay/env.go is Environment.antt.
-- * internal/protocol/protocol.go is Protocol.antt.
--
-- System.antt is the relay as a whole: the states that newServer leads to, by the steps of agents, callers
-- and the pruning. Hub/Discipline.antt is the interface by which the proofs about waiting calls learn what
-- other goroutines keep of the hub.
--
-- Base has what the modules share: Go maps with string keys (Base/Map.antt, at most one entry for each
-- key, used through laws), lists, Boolean tests and Go's `int` as an integer. Text.antt has the bytes
-- of a string, encoding/hex, and what is used of the package strings.
--
-- How they meet: an agent enrolls by signing a challenge, and is bound in the hub under each account
-- it proves; its control messages go to the store through handleControl, with the accounts as the
-- authority. A caller's token is resolved by the store to a key, and its requests and queries go
-- out through the rate limiter and the hub to the devices of the account of that key.
--
-- Times are nanoseconds. A connection takes the list of what comes on it, each with its time; a frame that
-- comes after the read deadline is not read, and handlers take no time.
--
-- State is passed explicitly. A method that holds a mutex throughout is one step. A call that waits
-- (sendRequest, sendQuery) takes the list of what other goroutines do before its deadline, so every
-- interleaving is a list; the wait recurs on that list and needs no fuel. Channels are numbers, with
-- room for one value. Whether a write to a WebSocket succeeds is a function of the connection.
-- Errors are values: `Option StoreError`, `Resolved`, `Outcome`.
--
-- Loops over indices count their remaining turns: encode_base32 has one turn for each character,
-- ceil(bits / 5), which is the bound of the source's loop; no fuel is chosen anywhere.
--
-- Parameters, for code that is not in the repository or is not modelled: crypto/sha256, BLAKE2b
-- (golang.org/x/crypto), the operations of filippo.io/edwards25519 (the record `Curve`, with the laws
-- the source relies on in `Sound`), the random bytes of ids, the writes of gorilla/websocket, the
-- decoding of JSON bodies, the methods of big.Rat, and big.Int.String (the record `Outside`). For SQLite, the
-- record `Json` is encoding/json on a list of strings, which `IsFaithful` says is read back, and the record
-- `Engine` says whether modernc.org/sqlite answers: a statement that it refuses writes nothing. The rows
-- that pgx gives are a list. That BLAKE2b and the curve give bytes, and how many, is the record `Sized`.
--
-- Not modelled: float64 rounding in the rate limiter (tokens are exact), logging, write deadlines, JSON
-- encoding, TLS, the HTTP server's own loop and the redirects of ServeMux for paths that are not clean.
-- Strings are sequences of code points, so text that is not UTF-8 is not represented. Go's `int` is an
-- integer here, since versions are only compared. In SQLite, created_at and updated_at, which nothing
-- reads, and the difference of a nil blob and an empty one are left out. Nor are the listener and its
-- shutdown, and NewSeed modelled.
mod Base
pub mod Text
pub mod Nano
pub mod Store
pub mod Sqlite
pub mod Migrate
pub mod Protocol
pub mod Hub
pub mod RateLimit
pub mod Control
pub mod Api
pub mod Agent
pub mod Environment
pub mod Startup
pub mod System
