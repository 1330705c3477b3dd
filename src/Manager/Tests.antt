-- ===== src/Manager/Tests.antt =====
-- The theorems of the manager at concrete tables.
use xdp_nat_forward.Base.{◌≡◌, refl, true, [], ◌∷◌, none, some}
use xdp_nat_forward.Console.Text.{codes}
use xdp_nat_forward.Console.State.{App, nodes_in_group}
use xdp_nat_forward.Console.Audit.{AuditEntry, new_entry, audit_row, is_present, set_present}
use xdp_nat_forward.Console.Handlers.{sync_request}
use xdp_nat_forward.Console.Samples.{web_rule}
use xdp_nat_forward.Console.Steps.{initial}
use xdp_nat_forward.Manager.{
  WsParams, AppState, connect, report, disconnect, get_nodes, remove, insert, get, modify,
  AddRulePayload, as_unsigned, payload_of, decode_add, add_rule, send_all, start_query,
  query_response, query_timeout,
}
use xdp_nat_forward.Manager.Laws.{disconnect-connect_again, start_query-shared_id}
use xdp_nat_forward.Manager.Sync.{receiver_ids, add_rule-sync_request}

-- What a run of the manager unfolds.
unfoldable pub manager : Unit {0}
unfolding remove insert get modify connect report disconnect get_nodes as_unsigned payload_of
    decode_add send_all add_rule start_query query_response query_timeout sync_request audit_row
    is_present nodes_in_group
manager = tt

abbrev nobody : AppState
nobody = record { nodes = []; pending_queries = [] }

abbrev pub params_a : WsParams
params_a = record { node_id = codes "a"; group = codes "edge"; hostname = codes "host-a" }

abbrev pub params_b : WsParams
params_b = record { node_id = codes "b"; group = codes "edge"; hostname = codes "host-b" }

abbrev two_connected : AppState
two_connected = connect 2 params_b (connect 1 params_a nobody)

disconnect-connect_again_example :
    let both = connect 3 params_a (connect 1 params_a nobody) in
    (get both.nodes (codes "a")
      ≡ some (record {
        node_id = codes "a";
        group = codes "edge";
        hostname = codes "host-a";
        rules = [];
        ws_sender = 3;
      }))
    × (get (disconnect (codes "a") both).nodes (codes "a") ≡ none)
    × (get (disconnect (codes "a") both).nodes (codes "b") ≡ get nobody.nodes (codes "b"))
disconnect-connect_again_example =
    disconnect-connect_again 1 3 params_a params_a (codes "b") nobody refl refl

start_query-shared_id_example :
    let t =
      (start_query
        (codes "b")
        (codes "query-41")
        8
        true
        (start_query (codes "a") (codes "query-41") 7 true two_connected).1).1 in
    ((query_response (codes "query-41") t).0 ≡ some 8)
    × ((query_response (codes "query-41") (query_response (codes "query-41") t).1).0 ≡ none)
unfolding manager
start_query-shared_id_example =
    start_query-shared_id (codes "a") (codes "b") (codes "query-41") 7 8 true true two_connected
      refl refl

abbrev web_entry : AuditEntry
web_entry = set_present (codes "a") (new_entry web_rule)

-- The console shows the nodes of the manager.
abbrev showing : App
showing = record initial { nodes = get_nodes two_connected; target_group = codes "edge" }

abbrev web_payload : AddRulePayload
web_payload = record {
  group = codes "edge";
  node_ids = some (codes "b" ∷ []);
  proto = codes "tcp";
  local_port = 80;
  forward_ip = codes "10.0.0.2";
  forward_port = 8080;
}

add_rule-sync_request_example :
    receiver_ids (add_rule web_payload two_connected).receivers ≡ codes "b" ∷ []
unfolding manager
add_rule-sync_request_example =
    add_rule-sync_request showing web_entry two_connected web_payload refl refl
