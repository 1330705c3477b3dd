-- ===== src/Console/View.antt =====
-- App.tsx, what the panels show: the texts, cells and buttons of the returned tree without its styles.
pub mod Laws
use xdp_nat_forward.Base.{
  ℕ, zero, suc, ◌+◌, ◌-◌, ◌/◌, ◌%◌, ◌==◌, Bool, true, false, not, ◌&&◌, ◌||◌, List, [], ◌∷◌, ◌++◌,
  map, Option, none, some, if◌then◌else◌, ltb, length,
}
use xdp_nat_forward.Console.Text.{codes, text_eq, is_empty, show}
use xdp_nat_forward.Console.Sets.{includes, filter}
use xdp_nat_forward.Console.State.{
  ForwardRule, ConnectedNodeInfo, SessionInfo, SessionResults, App, groups, selected_node,
  nodes_in_group, is_selected,
}
use xdp_nat_forward.Console.Audit.{AuditEntry, AuditRow, proto_str, is_present, diff_audit_list}
use xdp_nat_forward.Console.Handlers.{AddRequest, sync_request}

-- A node in the sidebar; a click selects it.
pub record SidebarNode : Type 0 where
  pub node_id : List ℕ
  pub hostname : List ℕ
  pub is_highlighted : Bool

pub record SidebarGroup : Type 0 where
  pub group : List ℕ
  pub members : List SidebarNode

unfoldable pub sidebar_node : App → ConnectedNodeInfo → SidebarNode
sidebar_node s n = record {
  node_id = n.node_id;
  hostname = n.hostname;
  is_highlighted = is_selected s.selected_node_id n.node_id;
}

unfoldable pub sidebar_group : App → List ℕ → SidebarGroup
sidebar_group s g = record { group = g; members = map (sidebar_node s) (nodes_in_group s.nodes g) }

-- The sidebar; with no node it shows a hint in place of the groups.
unfoldable pub sidebar : App → List SidebarGroup
sidebar s = map (sidebar_group s) (groups s.nodes)

abbrev pub hex_digit : ℕ → ℕ
hex_digit d = if ltb d 10 then 48 + d else 87 + d

-- The hexadecimal digits of `n` in front of `rest`. A fuel above `n` is enough.
unfoldable pub hex_digits : ℕ → ℕ → List ℕ → List ℕ
hex_digits zero n rest = rest
hex_digits (suc fuel) n rest = elim (ltb n 16) [
  | true ↦ hex_digit n ∷ rest
  | false ↦ hex_digits fuel (n / 16) (hex_digit (n % 16) ∷ rest)
]

-- `s.padStart(2, '0')`
abbrev pub pad_start_2 : List ℕ → List ℕ
pad_start_2 [] = b'0' ∷ (b'0' ∷ [])
pad_start_2 (c ∷ []) = b'0' ∷ (c ∷ [])
pad_start_2 (c ∷ d ∷ s) = c ∷ d ∷ s

-- `b.toString(16).padStart(2, '0')`
unfoldable pub byte_text : ℕ → List ℕ
byte_text b = pad_start_2 (hex_digits (suc b) b [])

-- `xs.join(':')`
unfoldable pub join_colon : List (List ℕ) → List ℕ
join_colon [] = []
join_colon (x ∷ []) = x
join_colon (x ∷ y ∷ xs) = x ++ (b':' ∷ join_colon (y ∷ xs))

-- A row of the rules of the selected node; its button deletes the rule on that node.
pub record RuleRow : Type 0 where
  pub proto : List ℕ
  pub local_port : ℕ
  pub target : List ℕ
  pub mac : List ℕ
  pub delete_on : List (List ℕ)

pub data RulesPanel : Type 0 where
  no_node_selected : RulesPanel
  no_rules_on_node : RulesPanel
  rules_table : List RuleRow → RulesPanel

abbrev pub target_text : List ℕ → ℕ → List ℕ
target_text ip port = ip ++ (b':' ∷ show port)

unfoldable pub rule_row : ConnectedNodeInfo → ForwardRule → RuleRow
rule_row node rule = record {
  proto = proto_str rule;
  local_port = rule.local_port;
  target = target_text rule.forward_ip rule.forward_port;
  mac = join_colon (map byte_text rule.forward_mac);
  delete_on = node.node_id ∷ [];
}

unfoldable pub rules_of : Option ConnectedNodeInfo → RulesPanel
rules_of none = no_node_selected
rules_of (some node) =
    if is_empty node.rules then no_rules_on_node else rules_table (map (rule_row node) node.rules)

unfoldable pub rules_panel : App → RulesPanel
rules_panel s = rules_of (selected_node s)

-- The options of the form's group selector.
unfoldable pub group_options : App → List (List ℕ)
group_options s = if is_empty (groups s.nodes) then codes "default" ∷ [] else groups s.nodes

-- The check boxes of the target group, each with whether it is checked, when nodes are chosen.
unfoldable pub checklist : App → List (List ℕ × Bool)
checklist s =
    if s.custom_targets
    then map (λ n. (n.node_id, includes s.selected_node_targets n.node_id))
        (nodes_in_group s.nodes s.target_group)
    else []

-- The button of a row of the audit: delete the rule in the whole group, or add it where it is missing.
pub data AuditAction : Type 0 where
  group_del : List ℕ → ℕ → AuditAction
  sync_cluster : AddRequest → AuditAction

pub record AuditLine : Type 0 where
  pub proto : List ℕ
  pub local_port : ℕ
  pub target : List ℕ
  pub cells : List Bool
  pub is_synced : Bool
  pub action : AuditAction

pub data AuditPanel : Type 0 where
  no_nodes_in_group : AuditPanel
  no_rules_in_group : AuditPanel
  audit_table : List (List ℕ) → List AuditLine → AuditPanel

unfoldable pub audit_action : App → AuditRow → AuditAction
audit_action s row =
    if row.is_consistent
    then group_del row.entry.proto row.entry.local_port
    else sync_cluster (sync_request s row)

-- A cell is a check mark if the node has the rule, and a cross if not.
unfoldable pub audit_line : App → AuditRow → AuditLine
audit_line s row = record {
  proto = row.entry.proto;
  local_port = row.entry.local_port;
  target = target_text row.entry.forward_ip row.entry.forward_port;
  cells = map (λ n. is_present row.entry n.node_id) (nodes_in_group s.nodes s.target_group);
  is_synced = row.is_consistent;
  action = audit_action s row;
}

unfoldable pub audit_panel : App → AuditPanel
audit_panel s =
    if is_empty (nodes_in_group s.nodes s.target_group)
    then no_nodes_in_group
    else if is_empty (diff_audit_list s.nodes s.target_group)
    then no_rules_in_group
    else audit_table (map (λ n. n.node_id) (nodes_in_group s.nodes s.target_group))
        (map (audit_line s) (diff_audit_list s.nodes s.target_group))

-- The sessions found, below their number: no table when there is none.
pub data SessionsPanel : Type 0 where
  nothing_queried : SessionsPanel
  no_sessions : SessionsPanel
  sessions_table : ℕ → List SessionInfo → SessionsPanel

unfoldable pub sessions_of : Option SessionResults → SessionsPanel
sessions_of none = nothing_queried
sessions_of (some r) =
    if is_empty r.sessions then no_sessions else sessions_table (length r.sessions) r.sessions

unfoldable pub sessions_panel : App → SessionsPanel
sessions_panel s = sessions_of s.session_results
