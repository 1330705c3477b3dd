-- ===== src/Console/Audit.antt =====
-- App.tsx, `diffAuditList`: which nodes of the target group lack which rule.
pub mod Keys
pub mod Entries
pub mod Exact
pub mod Signature
use xdp_nat_forward.Base.{
  ℕ, ◌==◌, Bool, true, false, not, ◌||◌, List, [], ◌∷◌, ◌++◌, map, if◌then◌else◌,
}
use xdp_nat_forward.Console.Text.{codes, text_eq, show, is_empty}
use xdp_nat_forward.Console.Sets.{includes, any, filter}
use xdp_nat_forward.Console.State.{ForwardRule, ConnectedNodeInfo, nodes_in_group, node_ids}

-- The value of a signature in `rulesMap`. `node_presence` lists the keys that were set to true on
-- the object.
pub record AuditEntry : Type 0 where
  pub proto : List ℕ
  pub local_port : ℕ
  pub forward_ip : List ℕ
  pub forward_port : ℕ
  pub node_presence : List (List ℕ)

-- A row of the result, which has the fields of the entry.
pub record AuditRow : Type 0 where
  pub entry : AuditEntry
  pub is_consistent : Bool
  pub missing_node_ids : List (List ℕ)

abbrev pub proto_str : ForwardRule → List ℕ
proto_str rule = if rule.proto == 6 then codes "tcp" else codes "udp"

-- `${protoStr}:${local_port}:${forward_ip}:${forward_port}`
unfoldable pub key_of : List ℕ → ℕ → List ℕ → ℕ → List ℕ
key_of proto local_port forward_ip forward_port =
    proto ++ (b':' ∷ (show local_port ++ (b':' ∷ (forward_ip ++ (b':' ∷ show forward_port)))))

abbrev pub rule_key : ForwardRule → List ℕ
rule_key rule = key_of (proto_str rule) rule.local_port rule.forward_ip rule.forward_port

-- `Map` as the list of its entries in the order of insertion.
abbrev pub RulesMap : Type 0
RulesMap = List (List ℕ × AuditEntry)

abbrev pub keys : RulesMap → List (List ℕ)
keys = map (λ r. r.0)

abbrev pub new_entry : ForwardRule → AuditEntry
new_entry rule = record {
  proto = proto_str rule;
  local_port = rule.local_port;
  forward_ip = rule.forward_ip;
  forward_port = rule.forward_port;
  node_presence = [];
}

-- `if (!rulesMap.has(key)) rulesMap.set(key, { … })`
unfoldable pub ensure : RulesMap → ForwardRule → RulesMap
ensure m rule =
    if includes (keys m) (rule_key rule) then m else m ++ ((rule_key rule, new_entry rule) ∷ [])

abbrev pub set_present : List ℕ → AuditEntry → AuditEntry
set_present node_id e = record e { node_presence = node_id ∷ e.node_presence }

-- `rulesMap.get(key)!.nodePresence[node_id] = true`
unfoldable pub mark : RulesMap → List ℕ → List ℕ → RulesMap
mark [] key node_id = []
mark ((k, e) ∷ m) key node_id =
    (k, (if text_eq k key then set_present node_id e else e)) ∷ mark m key node_id

unfoldable pub audit_rule : List ℕ → RulesMap → ForwardRule → RulesMap
audit_rule node_id m rule = mark (ensure m rule) (rule_key rule) node_id

unfoldable pub audit_rules : List ℕ → RulesMap → List ForwardRule → RulesMap
audit_rules node_id m [] = m
audit_rules node_id m (r ∷ rs) = audit_rules node_id (audit_rule node_id m r) rs

unfoldable pub audit_nodes : RulesMap → List ConnectedNodeInfo → RulesMap
audit_nodes m [] = m
audit_nodes m (n ∷ ns) = audit_nodes (audit_rules n.node_id m n.rules) ns

-- The properties that an object literal `{}` inherits. Each is truthy.
abbrev pub inherited : List (List ℕ)
inherited = map codes (
    "constructor" ∷ "toString" ∷ "valueOf" ∷ "hasOwnProperty" ∷ "isPrototypeOf"
    ∷ "propertyIsEnumerable" ∷ "toLocaleString" ∷ "__proto__" ∷ "__defineGetter__"
    ∷ "__defineSetter__" ∷ "__lookupGetter__" ∷ "__lookupSetter__" ∷ [])

-- The truth value of `item.nodePresence[id]`.
unfoldable pub is_present : AuditEntry → List ℕ → Bool
is_present e id = includes e.node_presence id || includes inherited id

unfoldable pub audit_row : List ConnectedNodeInfo → AuditEntry → AuditRow
audit_row group_nodes e =
    let missing_nodes = filter (λ n. not (is_present e n.node_id)) group_nodes in
    record {
      entry = e;
      is_consistent = is_empty missing_nodes;
      missing_node_ids = node_ids missing_nodes;
    }

unfoldable pub audit_group : List ConnectedNodeInfo → List AuditRow
audit_group group_nodes =
    if is_empty group_nodes
    then []
    else map (λ r. audit_row group_nodes r.1) (audit_nodes [] group_nodes)

unfoldable pub diff_audit_list : List ConnectedNodeInfo → List ℕ → List AuditRow
diff_audit_list nodes target_group = audit_group (nodes_in_group nodes target_group)
