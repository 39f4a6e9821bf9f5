-- ===== src/Api/Build.antt =====
-- cmd/relay/http.go: buildTxRequest and resolveAmount. big.Int.String is `decimal`, encoding/json is
-- `decode_create` and `decode_broadcast`, which are given the limit of http.MaxBytesReader.
use Prim.Native.String
use nora_relay.Base.{ℕ, String, ◌==◌, not, List, Option, none, some, if◌then◌else◌}
use nora_relay.Text.{hex_encode}
use nora_relay.Nano.Account.{parse_address}
use nora_relay.Nano.Amount.{Rat, parse_nano_amount}
use nora_relay.Protocol.{TxRequest}
use nora_relay.Store.{ApiKey}

pub record CreateBody : Type 0 where
  pub kind : String
  pub destination : String
  pub amount_raw : String
  pub amount : String
  pub counterparty : String
  pub memo : String
  pub nonce : String
  pub action : String

pub record Outside : Type 0 where
  pub blake2b : ℕ → List ℕ → List ℕ
  pub set_string : String → Option Rat
  pub decimal : ℕ → String
  pub decode_create : (limit : ℕ) → List ℕ → Option CreateBody
  pub decode_broadcast : (limit : ℕ) → List ℕ → Option String

-- (value, nil) or an error by its text
pub data Result (A : Type 0) : Type 0 where
  ok : A → Result A
  fails : String → Result A

module _ (o : Outside) where
  unfoldable pub resolve_amount : CreateBody → Result String
  resolve_amount body =
      if not (body.amount_raw == "")
      then ok body.amount_raw
      else if not (body.amount == "")
      then elim (parse_nano_amount o.set_string body.amount) [
        | none ↦ fails "invalid amount"
        | some raw ↦ ok (o.decimal raw)
      ]
      else fails "amount_raw or amount is required"

  -- "req_" + randomSecret(12)
  unfoldable pub request_id : List ℕ → String
  request_id secret = String.◌++◌ "req_" (hex_encode secret)

  module _ (secret : List ℕ) (time : ℕ) (key : ApiKey) (body : CreateBody) where
    -- The request with its destination checked.
    abbrev pub draft : String → TxRequest
    draft amount = record {
      id = request_id secret;
      contact_id = key.id;
      contact_name = "";
      kind = "send";
      account = key.owner_account;
      counterparty = body.counterparty;
      destination = body.destination;
      amount_raw = amount;
      memo = body.memo;
      nonce = if body.nonce == "" then request_id secret else body.nonce;
      created_at = time;
      action_override = if body.action == "sign_only" then "sign_only" else "";
    }

    unfoldable pub build_tx_request : Result TxRequest
    unfolding resolve_amount
    build_tx_request =
        if not (body.kind == "send")
        then fails "kind must be \"send\""
        else elim (parse_address o.blake2b body.destination) [
          | none ↦ fails "destination is not a valid nano_ address"
          | some _ ↦ elim (resolve_amount body) [
            | fails text ↦ fails text
            | ok amount ↦ ok (draft amount)
          ]
        ]
