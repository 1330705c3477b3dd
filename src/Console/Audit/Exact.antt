-- ===== src/Console/Audit/Exact.antt =====
-- The audit against a description of it that has no map.
use xdp_nat_forward.Base.{ℕ, ◌≡◌, ◌∙◌, ap, refl, Bool, not, ◌||◌, List, [], ◌∷◌, map, All}
use xdp_nat_forward.Console.Text.{is_empty}
use xdp_nat_forward.Console.Sets.{includes, filter, add_all}
use xdp_nat_forward.Console.State.{ConnectedNodeInfo, nodes_in_group, node_ids}
use xdp_nat_forward.Console.Audit.{
  AuditEntry, AuditRow, RulesMap, keys, audit_nodes, inherited, is_present, audit_row, audit_group,
  diff_audit_list,
}
use xdp_nat_forward.Console.Audit.Keys.{signatures, keys-audit_nodes}
use xdp_nat_forward.Console.Audit.Entries.{entry_key, held, IsMarked, audit-Marked}

-- What a row says: the signature, whether the group agrees on it, and who lacks it.
pub record Finding : Type 0 where
  pub signature : List ℕ
  pub is_consistent : Bool
  pub missing : List (List ℕ)

abbrev pub finding_of : AuditRow → Finding
finding_of row = record {
  signature = entry_key row.entry;
  is_consistent = row.is_consistent;
  missing = row.missing_node_ids;
}

abbrev pub finding : List ConnectedNodeInfo → List ℕ → (ConnectedNodeInfo → Bool) → Finding
finding ns k lacks = record {
  signature = k;
  is_consistent = is_empty (filter lacks ns);
  missing = node_ids (filter lacks ns);
}

-- The node has no rule of the signature, and its id is no name of an inherited property.
abbrev pub lacks_rule : List ConnectedNodeInfo → List ℕ → ConnectedNodeInfo → Bool
lacks_rule ns k n = not (held ns k n.node_id || includes inherited n.node_id)

abbrev pub expected : List ConnectedNodeInfo → List ℕ → Finding
expected ns k = finding ns k (lacks_rule ns k)

row_lem :
    (ns : List ConnectedNodeInfo) (r : List ℕ × AuditEntry)
    → IsMarked (held ns) r
    → finding_of (audit_row ns r.1) ≡ expected ns r.0
unfolding audit_row is_present
row_lem ns r w =
    λ i. finding ns (w.0 i) (λ n. not (w.1 n.node_id i || includes inherited n.node_id))

rows_lem :
    (ns : List ConnectedNodeInfo) (m : RulesMap)
    → All (IsMarked (held ns)) m
    → map finding_of (map (λ r. audit_row ns r.1) m) ≡ map (expected ns) (keys m)
rows_lem ns [] w = refl
rows_lem ns (r ∷ m) w = λ i. row_lem ns r w.0 i ∷ rows_lem ns m w.1 i

-- The audit of a group reports each signature that a node of it has once, in the order of the first
-- occurrence; the missing ids of a signature are those of the nodes that have no such rule and whose id
-- is not the name of an inherited property of an object, such as constructor, and it is consistent if
-- there are none.
pub diff_audit_list-expected :
    (nodes : List ConnectedNodeInfo) (g : List ℕ)
    → map finding_of (diff_audit_list nodes g)
      ≡ map (expected (nodes_in_group nodes g)) (signatures (nodes_in_group nodes g))
unfolding diff_audit_list audit_group add_all audit_nodes
diff_audit_list-expected nodes g = group_lem (nodes_in_group nodes g)
  where
    group_lem :
        (ns : List ConnectedNodeInfo)
        → map finding_of (audit_group ns) ≡ map (expected ns) (signatures ns)
    group_lem [] = refl
    group_lem (n ∷ ns) =
        rows_lem (n ∷ ns) (audit_nodes [] (n ∷ ns)) (audit-Marked (n ∷ ns)).rows
        ∙ ap (map (expected (n ∷ ns))) (keys-audit_nodes [] (n ∷ ns))
