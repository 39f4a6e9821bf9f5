-- ===== src/Hub/Tests.antt =====
-- The hub's theorems at concrete inputs: two devices of one account.
use nora_relay.Base.{
  String, ◌==◌, eq_iff, ◌≡◌, ◌≢◌, refl, Bool, List, [], ◌∷◌, none, some, Any, any, arith,
}
use nora_relay.Base.Map
use nora_relay.Text.{hex_encode}
use nora_relay.Protocol.{TxRequest, TxResult, TxStatus, Query, QueryResult}
use nora_relay.Hub.{
  Hub, Event, leaves, results, query_results, request_opens, answered, outcome_of, send_request,
  send_query, query_id,
}
use nora_relay.Hub.Bindings.{
  AgentConn, Routes, bind, bind_all, unbind, unbind_all, remove_conn, devices_for_account,
  account_online,
}
use nora_relay.Hub.Waiters
use nora_relay.Hub.Waiters.First.{IsFresh, empty-IsFresh}
use nora_relay.Hub.Requests
use nora_relay.Hub.Requests.{
  send_request-first_result, send_request-request_id, send_request-Closes, first_result, Closes,
}
use nora_relay.Hub.Queries.{send_query-first_reply, first_reply}

abbrev laptop : AgentConn
laptop = record { pointer = 1; device_id = "laptop"; accounts = "nano_1" ∷ "nano_2" ∷ [] }

abbrev desktop : AgentConn
desktop = record { pointer = 2; device_id = "desktop"; accounts = "nano_1" ∷ [] }

-- Opening these bindings opens the operations that the tests run.
both : Routes
unfolding bind unbind bind_all unbind_all remove_conn devices_for_account account_online any
    Map.empty Map.lookup Map.insert Map.remove
both = bind desktop (bind laptop Map.empty)

most_recent_first : devices_for_account both "nano_1" ≡ desktop ∷ laptop ∷ []
unfolding both
most_recent_first = refl

hub : Hub
unfolding both
hub = record { bindings = both; requests = Waiters.empty; queries = Waiters.empty }

-- Writes to the laptop fail.
abbrev desktop_only : AgentConn → Bool
desktop_only c = c.device_id == "desktop"

abbrev request : TxRequest
request = record {
  id = "req_1";
  contact_id = "k1";
  contact_name = "";
  kind = "send";
  account = "nano_1";
  counterparty = "";
  destination = "nano_3";
  amount_raw = "1";
  memo = "";
  nonce = "n";
  created_at = 0;
  action_override = "";
}

abbrev result_for : String → TxResult
result_for id = record {
  request_id = id;
  status = TxStatus.broadcast;
  block_hash = "AB";
  signed_block = none;
  reason = "";
  decided_at = 0;
}

-- Another call opens, its result and one for this call arrive, and a device leaves.
abbrev traffic : List Event
traffic =
    request_opens "req_2"
    ∷ results (result_for "req_2")
    ∷ results (result_for "req_1")
    ∷ leaves laptop
    ∷ []

hub-IsFresh : IsFresh hub.requests
unfolding hub
hub-IsFresh = empty-IsFresh TxResult

first_in_traffic : first_result "req_1" traffic ≡ some (result_for "req_1")
unfolding first_result
first_in_traffic = refl

other_id : ◌≢◌ {A = String} "req_2" "req_1"
other_id = ground (arith, eq_iff "req_2" "req_1")

send_request-first_result_example :
    (send_request desktop_only "nano_1" request traffic hub).0
    ≡ outcome_of (first_result "req_1" traffic)
unfolding hub
send_request-first_result_example =
    send_request-first_result desktop_only "nano_1" request traffic hub hub-IsFresh refl
      (other_id, (tt, (tt, (tt, tt))))

answered_in_traffic :
    (send_request desktop_only "nano_1" request traffic hub).0 ≡ answered (result_for "req_1")
unfolding first_result
answered_in_traffic = send_request-first_result_example

send_request-request_id_example :
    ((result_for "req_1").request_id ≡ "req_1")
    × Any (λ e. e ≡ results (result_for "req_1")) traffic
send_request-request_id_example =
    send_request-request_id desktop_only "nano_1" request traffic hub (result_for "req_1")
      hub-IsFresh answered_in_traffic

send_request-Closes_example :
    Requests.Closes desktop_only "nano_1" request
      (desktop ∷ laptop ∷ [])
      (send_request desktop_only "nano_1" request traffic hub)
unfolding hub
send_request-Closes_example =
    send_request-Closes desktop_only "nano_1" request traffic hub (λ e. cc)

abbrev query : Query
query = record { op = "balance"; contact_id = "k1"; account = "nano_1"; nonce = "" }

abbrev reply : QueryResult
reply = record { error = ""; payload = 1 ∷ [] }

hub-IsFresh_queries : IsFresh hub.queries
unfolding hub
hub-IsFresh_queries = empty-IsFresh QueryResult

send_query-first_reply_example :
    (send_query desktop_only "nano_1" (1 ∷ []) query (query_results "qry_01" reply ∷ []) hub).0
    ≡ answered reply
unfolding hub query_id hex_encode first_reply
send_query-first_reply_example =
    send_query-first_reply desktop_only "nano_1" (1 ∷ []) query (query_results "qry_01" reply ∷ [])
      hub hub-IsFresh_queries (tt, tt)
