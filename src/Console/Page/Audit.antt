-- ===== src/Console/Page/Audit.antt =====
-- App.tsx, the tab of the audit: the group's selector and the matrix of rules and nodes.
use xdp_nat_forward.Base.{Bool, List, [], ◌∷◌, ◌++◌, map, none, some, if◌then◌else◌}
use xdp_nat_forward.Console.Text.{codes, show}
use xdp_nat_forward.Console.State.{App, groups, choose_group}
use xdp_nat_forward.Console.Handlers.{AddRequest}
use xdp_nat_forward.Console.View.{
  AuditAction, group_del, sync_cluster, AuditLine, AuditPanel, no_nodes_in_group, no_rules_in_group,
  audit_table, audit_panel,
}
use xdp_nat_forward.Console.Elements.{
  Element, text, control, selector, plain_button, confirm_button, Effect, add, handle_delete_rule,
}

unfoldable pub audit_heading : App → List Element
audit_heading s =
    text (codes "Cluster Configuration Audit Matrix")
    ∷ text (codes "Auditing rules for group: " ++ s.target_group)
    ∷ control (selector (codes "Select Audit Group:") s.target_group (groups s.nodes) choose_group)
    ∷ []

-- The handler of the button `Sync Cluster`.
unfoldable pub sync_row : AddRequest → App → Effect
sync_row q s = record { state = s; sent = some (add q) }

unfoldable pub action_element : AuditAction → Element
action_element (group_del proto local_port) =
    control (confirm_button (codes "Group Del") (handle_delete_rule proto local_port none))
action_element (sync_cluster q) = control (plain_button (codes "Sync Cluster") (sync_row q))

-- A check mark, U+2713, or a cross, U+2717.
abbrev pub cell_mark : Bool → Element
cell_mark exists = text ((if exists then 0x2713 else 0x2717) ∷ [])

unfoldable pub line_elements : AuditLine → List Element
line_elements l =
    text l.proto
    ∷ text (show l.local_port)
    ∷ text l.target
    ∷ (map cell_mark l.cells
        ++ (text (if l.is_synced then codes "Synced" else codes "Mismatch")
            ∷ action_element l.action
            ∷ []))

abbrev pub body_elements : List AuditLine → List Element
body_elements [] = []
body_elements (l ∷ ls) = line_elements l ++ body_elements ls

unfoldable pub audit_elements : AuditPanel → List Element
audit_elements no_nodes_in_group =
    text (codes "No active connected nodes found in this group.") ∷ []
audit_elements no_rules_in_group =
    text (codes "No rules configured on any nodes in this group.") ∷ []
audit_elements (audit_table ids lines) =
    text (codes "NAT Rule Config Mapping")
    ∷ (map text ids ++ (text (codes "Status") ∷ text (codes "Actions") ∷ body_elements lines))

unfoldable pub diff_tab_elements : App → List Element
diff_tab_elements s = audit_heading s ++ audit_elements (audit_panel s)
