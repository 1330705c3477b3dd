-- ===== src/Manager.antt =====
-- forward-manager/src/handlers.rs and types.rs, the manager server: the table of connected nodes, the
-- routing of commands to them, and the queries that wait for a node's answer.
pub mod Laws
pub mod Tables
pub mod Serving
pub mod Removal
pub mod Sync
mod Tests
mod ServingTests
use xdp_nat_forward.Base.{
  ℕ, suc, ◌^◌, ◌==◌, Bool, true, false, not, ◌&&◌, ◌||◌, List, [], ◌∷◌, map, Option, none, some,
  ltb, if◌then◌else◌,
}
use xdp_nat_forward.Console.Text.{codes, text_eq, JsInteger}
use xdp_nat_forward.Console.Sets.{includes}
use xdp_nat_forward.Console.State.{ForwardRule, ConnectedNodeInfo}
use xdp_nat_forward.Console.Handlers.{AddRequest, DeleteRequest}

-- `ws_sender` is the number of the connection that it writes to.
pub record ConnectedNode : Type 0 where
  pub node_id : List ℕ
  pub group : List ℕ
  pub hostname : List ℕ
  pub rules : List ForwardRule
  pub ws_sender : ℕ

pub record WsParams : Type 0 where
  pub node_id : List ℕ
  pub group : List ℕ
  pub hostname : List ℕ

-- A `HashMap` with text keys, as the list of its entries in an order that no theorem uses.
abbrev pub TextMap : Type 0 → Type 0
TextMap A = List (List ℕ × A)

unfoldable pub remove : {A : Type 0} → TextMap A → List ℕ → TextMap A
remove [] k = []
remove ((j, a) ∷ m) k = let rest = remove m k in if text_eq j k then rest else (j, a) ∷ rest

unfoldable pub insert : {A : Type 0} → TextMap A → List ℕ → A → TextMap A
insert m k a = (k, a) ∷ remove m k

unfoldable pub get : {A : Type 0} → TextMap A → List ℕ → Option A
get [] k = none
get ((j, a) ∷ m) k = let rest = get m k in if text_eq j k then some a else rest

-- The effect of `get_mut` and a write through it.
unfoldable pub modify : {A : Type 0} → TextMap A → List ℕ → (A → A) → TextMap A
modify [] k f = []
modify ((j, a) ∷ m) k f = (j, (if text_eq j k then f a else a)) ∷ modify m k f

-- A pending query holds the number of the request that waits.
pub record AppState : Type 0 where
  pub nodes : TextMap ConnectedNode
  pub pending_queries : TextMap ℕ

-- `handle_socket` up to its loop.
unfoldable pub connect : ℕ → WsParams → AppState → AppState
connect socket params s = record s {
  nodes = insert s.nodes params.node_id (record {
    node_id = params.node_id;
    group = params.group;
    hostname = params.hostname;
    rules = [];
    ws_sender = socket;
  });
}

-- The message `Report`.
unfoldable pub report : List ℕ → List ℕ → List ℕ → List ForwardRule → AppState → AppState
report node_id group hostname rules s = record s {
  nodes =
      modify s.nodes node_id
        (λ node. record node { rules = rules; group = group; hostname = hostname });
}

-- The end of `handle_socket`, when the connection of the id has closed or failed.
unfoldable pub disconnect : List ℕ → AppState → AppState
disconnect node_id s = record s { nodes = remove s.nodes node_id }

abbrev pub node_info : ConnectedNode → ConnectedNodeInfo
node_info node = record {
  node_id = node.node_id;
  group = node.group;
  hostname = node.hostname;
  rules = node.rules;
}

unfoldable pub get_nodes : AppState → List ConnectedNodeInfo
get_nodes s = map (λ r. node_info r.1) s.nodes

pub record AddRulePayload : Type 0 where
  pub group : List ℕ
  pub node_ids : Option (List (List ℕ))
  pub proto : List ℕ
  pub local_port : ℕ
  pub forward_ip : List ℕ
  pub forward_port : ℕ

-- An integer of the request's body as an unsigned integer of the width; -0 is written 0.
unfoldable pub as_unsigned : ℕ → JsInteger → Option ℕ
as_unsigned width n =
    if (not n.is_negative || (n.magnitude == 0)) && ltb n.magnitude (2 ^ width)
    then some n.magnitude
    else none

unfoldable pub payload_of : AddRequest → Option ℕ → Option ℕ → Option AddRulePayload
payload_of q none forward_port = none
payload_of q (some local_port) none = none
payload_of q (some local_port) (some forward_port) = some (record {
  group = q.group;
  node_ids = q.node_ids;
  proto = q.proto;
  local_port = local_port;
  forward_ip = q.forward_ip;
  forward_port = forward_port;
})

-- The payload that a console's request decodes to: a `u32` and a `u16`.
unfoldable pub decode_add : AddRequest → Option AddRulePayload
decode_add q = payload_of q (as_unsigned 32 q.local_port) (as_unsigned 16 q.forward_port)

abbrev pub matches_node_filter : Option (List (List ℕ)) → List ℕ → Bool
matches_node_filter none id = true
matches_node_filter (some ids) id = includes ids id

-- What the loops of `add_rule` and `delete_rule` do: the nodes that the command is written to, and
-- `targets_sent`. The result of a write is ignored.
pub record Sent : Type 0 where
  pub receivers : List ConnectedNode
  pub targets_sent : ℕ

abbrev pub send_to : ConnectedNode → Sent → Sent
send_to node r = record { receivers = node ∷ r.receivers; targets_sent = suc r.targets_sent }

unfoldable pub send_all : TextMap ConnectedNode → List ℕ → Option (List (List ℕ)) → Sent
send_all [] group node_ids = record { receivers = []; targets_sent = 0 }
send_all ((k, node) ∷ m) group node_ids =
    let rest = send_all m group node_ids in
    if text_eq node.group group
    then (if matches_node_filter node_ids node.node_id then send_to node rest else rest)
    else rest

unfoldable pub add_rule : AddRulePayload → AppState → Sent
add_rule payload s = send_all s.nodes payload.group payload.node_ids

pub record DeleteRulePayload : Type 0 where
  pub group : List ℕ
  pub node_ids : Option (List (List ℕ))
  pub proto : List ℕ
  pub local_port : ℕ

-- The payload that a console's request decodes to: its port is a `u32`.
unfoldable pub decode_delete : DeleteRequest → Option DeleteRulePayload
decode_delete q =
    if ltb q.local_port (2 ^ 32)
    then some (record {
      group = q.group;
      node_ids = q.node_ids;
      proto = q.proto;
      local_port = q.local_port;
    })
    else none

unfoldable pub delete_rule : DeleteRulePayload → AppState → Sent
delete_rule payload s = send_all s.nodes payload.group payload.node_ids

-- What `query_sessions` does before it waits: it is refused with 404 or 500, or waits under its id.
pub data QueryStart : Type 0 where
  not_connected : QueryStart
  send_failed : QueryStart
  waiting : QueryStart

-- `sent` is whether the write to the node succeeds.
unfoldable pub start_query : List ℕ → List ℕ → ℕ → Bool → AppState → QueryStart × AppState
start_query node_id command_id request sent s = elim (get s.nodes node_id) [
  | none ↦ (not_connected, s)
  | some node ↦
      if sent
      then (waiting, record s { pending_queries = insert s.pending_queries command_id request })
      else (
        send_failed,
        record s {
          pending_queries = remove (insert s.pending_queries command_id request) command_id;
        },
      )
]

-- The message `QueryResponse`: the request that its value is sent to, if one waits.
unfoldable pub query_response : List ℕ → AppState → Option ℕ × AppState
query_response command_id s = (
  get s.pending_queries command_id,
  record s { pending_queries = remove s.pending_queries command_id },
)

-- Five seconds have passed.
unfoldable pub query_timeout : List ℕ → AppState → AppState
query_timeout command_id s = record s { pending_queries = remove s.pending_queries command_id }
