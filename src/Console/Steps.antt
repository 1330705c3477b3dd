-- ===== src/Console/Steps.antt =====
-- App.tsx as a state machine: the events that change the console's state, one step each. A request
-- is under way for some time, so the reply to a poll may come between any two other events.
pub mod Laws
pub mod Group
use xdp_nat_forward.Base.{ℕ, ◌≡◌, Bool, true, false, List, [], Option, none, some}
use xdp_nat_forward.Console.Text.{codes}
use xdp_nat_forward.Console.Sets.{includes}
use xdp_nat_forward.Console.State.{
  ConnectedNodeInfo, SessionResults, Tab, rules_tab, Proto, tcp, App, nodes_in_group, node_ids,
  choose_group, handle_target_node_checkbox_change,
}
use xdp_nat_forward.Console.View.{group_options}
use xdp_nat_forward.Console.Handlers.{
  Reply, fetch_nodes, submit_query, settle_query, submit_add, settle_add, settle_delete,
  settle_sync, Outcome,
}

-- The arguments of `useState`.
abbrev pub initial : App
initial = record {
  nodes = [];
  selected_node_id = none;
  error = none;
  active_tab = rules_tab;
  form_proto = tcp;
  form_local_port = [];
  form_forward_ip = [];
  form_forward_port = [];
  target_group = codes "default";
  custom_targets = false;
  selected_node_targets = [];
  form_error = none;
  form_success = none;
  query_src_ip = [];
  query_dst_ip = [];
  session_results = none;
  query_loading = false;
  query_error = none;
}

-- The ids that have a check box.
abbrev pub listed : App → List (List ℕ)
listed s = node_ids (nodes_in_group s.nodes s.target_group)

pub data Step (s : App) : App → Type 0 where
  fetched : (r : Reply (List ConnectedNodeInfo)) → Step s (fetch_nodes r s)
  clicked_node : (id : List ℕ) → Step s (record s { selected_node_id = some id })
  clicked_tab : (t : Tab) → Step s (record s { active_tab = t })
  -- Both selectors of the group offer groups of the nodes; without nodes the form offers the default.
  chose_group : (g : List ℕ) → includes (group_options s) g ≡ true → Step s (choose_group g s)
  chose_targets : (b : Bool) → Step s (record s { custom_targets = b })
  -- A check box stands for a node of the target group.
  changed_checkbox :
      (id : List ℕ)
      → includes (listed s) id ≡ true
      → Step s (handle_target_node_checkbox_change id s)
  chose_proto : (p : Proto) → Step s (record s { form_proto = p })
  typed_local_port : (t : List ℕ) → Step s (record s { form_local_port = t })
  typed_forward_ip : (t : List ℕ) → Step s (record s { form_forward_ip = t })
  typed_forward_port : (t : List ℕ) → Step s (record s { form_forward_port = t })
  submitted_rule : Step s (submit_add s)
  settled_rule : (r : Reply Unit) → Step s (settle_add r s).state
  settled_delete : (r : Reply Unit) → Step s (settle_delete r s).state
  settled_sync : (r : Reply Unit) → Step s (settle_sync r s).state
  typed_src_ip : (t : List ℕ) → Step s (record s { query_src_ip = t })
  typed_dst_ip : (t : List ℕ) → Step s (record s { query_dst_ip = t })
  -- The button is disabled while a query is under way.
  submitted_query : s.query_loading ≡ false → Step s (submit_query s)
  settled_query : (r : Reply SessionResults) → s.query_loading ≡ true → Step s (settle_query r s)

pub data Reachable : App → Type 0 where
  start : Reachable initial
  after : {s t : App} → Reachable s → Step s t → Reachable t
