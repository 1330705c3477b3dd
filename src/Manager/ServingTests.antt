-- ===== src/Manager/ServingTests.antt =====
-- The manager with one node that reports a rule and answers a query.
use xdp_nat_forward.Base.{◌≡◌, refl, true, [], ◌∷◌, some}
use xdp_nat_forward.Console.Text.{codes}
use xdp_nat_forward.Console.State.{ConnectedNodeInfo, App, selected_node}
use xdp_nat_forward.Console.Handlers.{DeleteRequest, delete_request}
use xdp_nat_forward.Console.Samples.{web_rule}
use xdp_nat_forward.Console.Steps.{initial}
use xdp_nat_forward.Console.View.{rule_row}
use xdp_nat_forward.Console.Elements.{handle_delete_rule}
use xdp_nat_forward.Manager.{get_nodes, DeleteRulePayload, decode_delete, delete_rule, report}
use xdp_nat_forward.Manager.Sync.{receiver_ids}
use xdp_nat_forward.Manager.Serving.{
  Server, started, on_connect, on_query, connected, reported, queried, Served, start, after_event,
}
use xdp_nat_forward.Manager.Serving.Laws.{Linked, Served-Linked}
use xdp_nat_forward.Manager.Removal.{delete_rule-rule_row}
use xdp_nat_forward.Manager.Tests.{manager, params_a}

abbrev joined : Server
joined = on_connect 1 params_a started

abbrev in_use : Server
in_use = record joined {
  app = report (codes "a") (codes "edge") (codes "host-a") (web_rule ∷ []) joined.app;
}

in_use-Served : Served in_use
in_use-Served =
    after_event joined in_use (after_event started joined start (connected 1 params_a))
      (reported (codes "a") (codes "edge") (codes "host-a") (web_rule ∷ []))

abbrev asked : Server
asked = on_query (codes "a") (codes "query-1") 7 true in_use

Served-Linked_example : Linked asked
Served-Linked_example =
    Served-Linked asked
      (after_event in_use asked in_use-Served (queried (codes "a") (codes "query-1") 7 true))

abbrev shown_node : ConnectedNodeInfo
shown_node = record {
  node_id = codes "a";
  group = codes "edge";
  hostname = codes "host-a";
  rules = web_rule ∷ [];
}

-- The console shows the node's rules while another group is the target.
abbrev showing : App
showing = record initial {
  nodes = get_nodes in_use.app;
  selected_node_id = some (codes "a");
  target_group = codes "core";
}

abbrev removal : DeleteRequest
removal = record {
  group = codes "core";
  node_ids = some (codes "a" ∷ []);
  proto = codes "tcp";
  local_port = 80;
}

abbrev removal_payload : DeleteRulePayload
removal_payload = record {
  group = codes "core";
  node_ids = some (codes "a" ∷ []);
  proto = codes "tcp";
  local_port = 80;
}

delete_rule-rule_row_example : receiver_ids (delete_rule removal_payload in_use.app).receivers ≡ []
unfolding manager on_connect selected_node rule_row handle_delete_rule delete_request decode_delete
delete_rule-rule_row_example =
    delete_rule-rule_row showing in_use shown_node web_rule removal removal_payload in_use-Served
      refl refl refl refl
