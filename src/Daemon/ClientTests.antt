-- ===== src/Daemon/ClientTests.antt =====
-- The theorems of forward/src/manager_client.rs at a concrete node.
use xdp_nat_forward.Base.{
  ◌≡◌, ◌↔◌, inl, arith, refl, true, false, some, List, [], ◌∷◌, none, IsIn, ℕ_discrete,
}
use xdp_nat_forward.Console.Text.{codes}
use xdp_nat_forward.Console.State.{App}
use xdp_nat_forward.Console.Steps.{initial}
use xdp_nat_forward.Console.Audit.{rule_key}
use xdp_nat_forward.Console.Audit.Entries.{held}
use xdp_nat_forward.Datapath.Types.{ForwardKey-discrete}
use xdp_nat_forward.Datapath.Maps.Listed.{walk_readable, listed_maps}
use xdp_nat_forward.Manager.{
  AppState, AddRulePayload, DeleteRulePayload, decode_delete, connect, get_nodes,
}
use xdp_nat_forward.Daemon.Rules.{ForwardRule, delete_forward_rule, delete_values}
use xdp_nat_forward.Daemon.Client as Client
use xdp_nat_forward.Daemon.Client.{
  Identity, handle_node_command, receive_all, command_of, delete_command_of, reported,
}
use xdp_nat_forward.Daemon.Client.Sync.{answers}
use xdp_nat_forward.Daemon.Client.Repair.{sync_request-held}
use xdp_nat_forward.Daemon.Client.Removal.{handle_delete_rule-unheld}
use xdp_nat_forward.Console.Handlers.{DeleteRequest, delete_request}
use xdp_nat_forward.Console.Elements.{handle_delete_rule}
use xdp_nat_forward.Daemon.Service.{State, delete_and_save}
use xdp_nat_forward.Datapath.Samples.{web_key, web_rule}
use xdp_nat_forward.Manager.Serving.{Server, started, on_connect, connected, start, after_event}
use xdp_nat_forward.Daemon.Samples.{
  sessions_iteration, one_open, daemon, gateway_network, gateway_mac, memory_file, idle, rules_map,
  rules_iteration, web_HasRules,
}
use xdp_nat_forward.Datapath.Types.{SessionKey-discrete}
use xdp_nat_forward.Daemon.Words.{show_ipv4}
use xdp_nat_forward.Daemon.Sessions.{SessionInfo}
use xdp_nat_forward.Daemon.Client.Queries.{IsReported, query_session-exact}

abbrev node_a : Identity
node_a = record {
  node_id = codes "a";
  group = codes "edge";
  hostname = codes "host-a";
  has_path = false;
}

abbrev at_home : Client.Surroundings
at_home = record {
  network = gateway_network;
  session_items = [];
  error_text = λ e. codes "failed";
  query_error_text = λ e. codes "failed";
}

abbrev one_connected : AppState
one_connected =
    connect 1 (record { node_id = codes "a"; group = codes "edge"; hostname = codes "host-a" })
      (record { nodes = []; pending_queries = [] })

abbrev web : ForwardRule
web = record {
  proto = 6;
  local_port = 8080;
  forward_ip = 0x0A000002;
  forward_port = 80;
  forward_mac = gateway_mac;
}

-- The console shows the node, and the rule is another's.
abbrev showing : App
showing = record initial { nodes = get_nodes one_connected; target_group = codes "edge" }

abbrev web_payload : AddRulePayload
web_payload = record {
  group = codes "edge";
  node_ids = some (codes "a" ∷ []);
  proto = codes "tcp";
  local_port = 8080;
  forward_ip = codes "10.0.0.2";
  forward_port = 80;
}

sync_request-held_example :
    held
      (get_nodes (
        receive_all
          (answers rules_map rules_iteration memory_file node_a at_home
            (command_of (codes "add-41") web_payload)
            idle)
          one_connected))
      (rule_key (reported web))
      (codes "a")
    ≡ true
unfolding daemon
sync_request-held_example =
    sync_request-held rules_map rules_iteration memory_file showing web (codes "b" ∷ []) web_payload
      node_a at_home (codes "add-41") idle one_connected
      (record {
        node_id = codes "a";
        group = codes "edge";
        hostname = codes "host-a";
        rules = [];
        ws_sender = 1;
      })
      (inl refl) (omega arith) refl refl refl (λ m. walk_readable ForwardKey-discrete m m)
      (inl refl)

-- The daemon finds the session of `one_open` in its walk.
abbrev with_sessions : Client.Surroundings
with_sessions = record at_home { session_items = sessions_iteration.iter one_open.session_map }

query_session-exact_example :
    (infos : List SessionInfo) × (handle_node_command rules_map rules_iteration memory_file node_a
        with_sessions
        (Client.query_session (codes "query-41") (show_ipv4 0xC0A80105) (show_ipv4 0x0A000002))
        idle
      ≡ (Client.query_reply (codes "query-41") (codes "success") infos none ∷ [], idle))
    × ((i : SessionInfo)
        → IsIn i infos
          ↔ IsReported listed_maps.session sessions_iteration 0xC0A80105 0x0A000002
              one_open.session_map i)
query_session-exact_example =
    query_session-exact listed_maps.session sessions_iteration rules_map rules_iteration memory_file
      node_a with_sessions (codes "query-41") 0xC0A80105 0x0A000002 idle one_open.session_map
      (omega arith) (omega arith) refl
      (walk_readable SessionKey-discrete one_open.session_map one_open.session_map)

-- The node has the rule of TCP port 8080, and the console shows it.
abbrev with_rule : State rules_map rules_iteration memory_file
with_rule = record idle { rules = (web_key, web_rule) ∷ [] }

abbrev at_work : Server
at_work =
    on_connect 1 (record { node_id = codes "a"; group = codes "edge"; hostname = codes "host-a" })
      started

abbrev removal : DeleteRequest
removal = record {
  group = codes "edge";
  node_ids = some (codes "a" ∷ []);
  proto = codes "tcp";
  local_port = 8080;
}

abbrev removal_payload : DeleteRulePayload
removal_payload = record {
  group = codes "edge";
  node_ids = some (codes "a" ∷ []);
  proto = codes "tcp";
  local_port = 8080;
}

handle_delete_rule-unheld_example :
    held
      (get_nodes (
        receive_all
          (answers rules_map rules_iteration memory_file node_a at_home
            (delete_command_of (codes "del-41") removal_payload)
            with_rule)
          at_work.app))
      (rule_key (reported web))
      (codes "a")
    ≡ false
unfolding daemon handle_delete_rule delete_request decode_delete delete_and_save delete_forward_rule
    delete_values ForwardKey-discrete ℕ_discrete
handle_delete_rule-unheld_example =
    handle_delete_rule-unheld rules_map rules_iteration memory_file node_a at_home (codes "del-41")
      (reported web) (some (codes "a" ∷ [])) showing removal removal_payload with_rule at_work
      web_HasRules (inl refl)
      (after_event started at_work start (
        connected 1
          (record { node_id = codes "a"; group = codes "edge"; hostname = codes "host-a" })))
      (λ m. walk_readable ForwardKey-discrete m m) refl refl (inl refl)
