-- ===== src/Console/Handlers.antt =====
-- App.tsx, the handlers that call the manager's API. A handler that awaits a reply is two functions:
-- what it does when it is called, with the request that it sends, and what the reply makes of the
-- state, with what it calls last.
pub mod Laws
use mathlib.Core.Option
use xdp_nat_forward.Base.{
  ℕ, Bool, true, false, not, ◌&&◌, ◌||◌, List, [], ◌∷◌, ◌++◌, map, Option, none, some,
  if◌then◌else◌, ◌⊎◌, inl, inr,
}
use xdp_nat_forward.Console.Text.{codes, text_eq, is_empty, or_default, parse_int, JsInteger}
use xdp_nat_forward.Console.State.{
  ForwardRule, ConnectedNodeInfo, SessionResults, Proto, tcp, udp, App, is_falsy, effects_of_nodes,
}
use xdp_nat_forward.Console.Audit.{AuditRow}

-- What becomes of a `fetch`: it or the reading of its body is rejected with an error's message, the
-- status is not ok and the body has a text, or the body is read.
pub data Reply (A : Type 0) : Type 0 where
  rejected : List ℕ → Reply A
  not_ok : List ℕ → Reply A
  ok : A → Reply A

pub record AddRequest : Type 0 where
  pub group : List ℕ
  pub node_ids : Option (List (List ℕ))
  pub proto : List ℕ
  pub local_port : JsInteger
  pub forward_ip : List ℕ
  pub forward_port : JsInteger

pub record DeleteRequest : Type 0 where
  pub group : List ℕ
  pub node_ids : Option (List (List ℕ))
  pub proto : List ℕ
  pub local_port : ℕ

pub record QueryRequest : Type 0 where
  pub node_id : List ℕ
  pub src_ip : List ℕ
  pub dst_ip : List ℕ

-- A state with what else the handler does: it calls `fetchNodes`, or shows an alert.
pub record Outcome : Type 0 where
  pub state : App
  pub fetches_nodes : Bool
  pub alert : Option (List ℕ)

abbrev pub quietly : App → Outcome
quietly s = record { state = s; fetches_nodes = false; alert = none }

abbrev pub refetch : App → Outcome
refetch s = record { state = s; fetches_nodes = true; alert = none }

abbrev pub alerting : List ℕ → App → Outcome
alerting text s = record { state = s; fetches_nodes = false; alert = some text }

-- `fetchNodes`, with the effects of the new array.
unfoldable pub fetch_nodes : Reply (List ConnectedNodeInfo) → App → App
fetch_nodes (rejected message) s = record s {
  error = some (or_default message (codes "Error loading agent nodes info"));
}
fetch_nodes (not_ok text) s = record s { error = some (codes "Failed to fetch nodes") }
fetch_nodes (ok nodes) s = effects_of_nodes (record s { nodes = nodes; error = none })

abbrev pub query_of : App → List ℕ → QueryRequest
query_of s id = record { node_id = id; src_ip = s.query_src_ip; dst_ip = s.query_dst_ip }

-- The request of `handleQuerySessions`, when the node and both addresses are chosen.
unfoldable pub query_request : App → Option QueryRequest
query_request s =
    if is_falsy s.selected_node_id || is_empty s.query_src_ip || is_empty s.query_dst_ip
    then none
    else Option.map (query_of s) s.selected_node_id

unfoldable pub submit_query : App → App
submit_query s =
    if is_falsy s.selected_node_id
    then record s {
      query_error = some (codes "Please select an agent node from the sidebar first.");
    }
    else if is_empty s.query_src_ip || is_empty s.query_dst_ip
    then record s { query_error = some (codes "Please enter both source IP and target IP.") }
    else record s { query_loading = true; query_error = none; session_results = none }

abbrev pub some_or : Option (List ℕ) → List ℕ → List ℕ
some_or none d = d
some_or (some s) d = or_default s d

-- The `try` block after the call: the message that is thrown, or the body.
unfoldable pub query_result : Reply SessionResults → List ℕ ⊎ SessionResults
query_result (rejected message) = inl message
query_result (not_ok text) = inl (or_default text (codes "Failed to query sessions"))
query_result (ok body) =
    if text_eq body.status (codes "error")
    then inl (some_or body.error_message (codes "Node failed to query sessions"))
    else inr body

-- The `catch` and `finally` blocks.
unfoldable pub show_answer : List ℕ ⊎ SessionResults → App → App
show_answer (inl message) s = record s {
  query_error = some (or_default message (codes "Error communicating with manager"));
  query_loading = false;
}
show_answer (inr body) s = record s { session_results = some body; query_loading = false }

unfoldable pub settle_query : Reply SessionResults → App → App
settle_query r s = show_answer (query_result r) s

abbrev pub proto_text : Proto → List ℕ
proto_text tcp = codes "tcp"
proto_text udp = codes "udp"

unfoldable pub add_payload : App → Option JsInteger → Option JsInteger → Option AddRequest
add_payload s none forward_port = none
add_payload s (some local_port) none = none
add_payload s (some local_port) (some forward_port) =
    if is_empty s.form_forward_ip
    then none
    else some (record {
      group = s.target_group;
      node_ids = if s.custom_targets then some s.selected_node_targets else none;
      proto = proto_text s.form_proto;
      local_port = local_port;
      forward_ip = s.form_forward_ip;
      forward_port = forward_port;
    })

-- The request of `handleAddRule`, when the fields are filled in.
unfoldable pub add_request : App → Option AddRequest
add_request s = add_payload s (parse_int s.form_local_port) (parse_int s.form_forward_port)

unfoldable pub submit_add : App → App
submit_add s = elim (add_request s) [
  | none ↦ record s {
    form_error = some (codes "Please fill in all target rule fields with valid inputs.");
    form_success = none;
  }
  | some q ↦ record s { form_error = none; form_success = none }
]

abbrev pub form_failed : List ℕ → App → App
form_failed message s = record s {
  form_error = some (or_default message (codes "Error communicating with manager"));
}

-- The reply to `handleAddRule`; its body is not read when the status is ok.
unfoldable pub settle_add : Reply Unit → App → Outcome
settle_add (rejected message) s = quietly (form_failed message s)
settle_add (not_ok text) s = quietly (form_failed (or_default text (codes "Failed to add rule")) s)
settle_add (ok u) s = refetch (record s {
  form_success = some (codes "Add rule command dispatched successfully!");
  form_local_port = [];
  form_forward_ip = [];
  form_forward_port = [];
})

-- The request of `handleDeleteRule`, if the user confirms.
unfoldable pub delete_request :
    Bool → List ℕ → ℕ → Option (List (List ℕ)) → App → Option DeleteRequest
delete_request confirmed proto local_port node_ids s =
    if confirmed
    then some (record {
      group = s.target_group;
      node_ids = node_ids;
      proto = proto;
      local_port = local_port;
    })
    else none

unfoldable pub settle_delete : Reply Unit → App → Outcome
settle_delete (rejected message) s = alerting (codes "Error deleting rule: " ++ message) s
settle_delete (not_ok text) s =
    alerting (codes "Error deleting rule: " ++ or_default text (codes "Failed to delete rule")) s
settle_delete (ok u) s = refetch s

abbrev pub js_integer : ℕ → JsInteger
js_integer n = record { is_negative = false; magnitude = n }

-- The request of the button `Sync Cluster` in a row of the audit.
unfoldable pub sync_request : App → AuditRow → AddRequest
sync_request s row = record {
  group = s.target_group;
  node_ids = some row.missing_node_ids;
  proto = row.entry.proto;
  local_port = js_integer row.entry.local_port;
  forward_ip = row.entry.forward_ip;
  forward_port = js_integer row.entry.forward_port;
}

unfoldable pub settle_sync : Reply Unit → App → Outcome
settle_sync (rejected message) s = alerting (codes "Sync error: " ++ message) s
settle_sync (not_ok text) s = alerting (codes "Sync error: " ++ text) s
settle_sync (ok u) s = refetch s
