-- ===== src/Console/Page/Rules.antt =====
-- App.tsx, the tab of the rules: the rules of the selected node, and the form that adds a rule.
use xdp_nat_forward.Base.{
  ℕ, Bool, true, false, not, List, [], ◌∷◌, ◌++◌, map, Option, none, some, if◌then◌else◌,
}
use xdp_nat_forward.Console.Text.{codes, text_eq, is_empty, show}
use xdp_nat_forward.Console.State.{
  ConnectedNodeInfo, Proto, tcp, udp, App, selected_node, choose_group,
  handle_target_node_checkbox_change,
}
use xdp_nat_forward.Console.Handlers.{proto_text}
use xdp_nat_forward.Console.View.{
  RuleRow, RulesPanel, no_node_selected, no_rules_on_node, rules_table, rules_panel, group_options,
  checklist,
}
use xdp_nat_forward.Console.Elements.{
  Element, text, control, text_input, selector, check_box, submit_button, confirm_button,
  handle_add_rule, handle_delete_rule, message_or_null, id_or_none_selected, concat,
}

unfoldable pub selected_info : Option ConnectedNodeInfo → List Element
selected_info none = []
selected_info (some n) = text (codes "Group: " ++ n.group ++ codes " | Host: " ++ n.hostname) ∷ []

unfoldable pub rules_heading : App → List Element
rules_heading s =
    text (codes "Active NAT Rules on " ++ id_or_none_selected s.selected_node_id)
    ∷ selected_info (selected_node s)

unfoldable pub rule_elements : RuleRow → List Element
rule_elements r =
    text r.proto
    ∷ text (show r.local_port)
    ∷ text r.target
    ∷ text r.mac
    ∷ control (
        confirm_button (codes "Remove")
          (handle_delete_rule r.proto r.local_port (some r.delete_on)))
    ∷ []

abbrev pub row_elements : List RuleRow → List Element
row_elements [] = []
row_elements (r ∷ rs) = rule_elements r ++ row_elements rs

unfoldable pub rules_elements : RulesPanel → List Element
rules_elements no_node_selected =
    text (codes "Select a node from the sidebar to inspect rules list.") ∷ []
rules_elements no_rules_on_node =
    text (codes "No dynamic NAT rule mappings registered on this node.") ∷ []
rules_elements (rules_table rows) =
    text (codes "Proto")
    ∷ text (codes "Local Port")
    ∷ text (codes "Forward Target")
    ∷ text (codes "Resolved MAC")
    ∷ text (codes "Actions")
    ∷ row_elements rows

unfoldable pub set_custom_targets : Bool → App → App
set_custom_targets b s = record s { custom_targets = b }

unfoldable pub mode_elements : App → List Element
mode_elements s =
    text (codes "Target Mode")
    ∷ control (check_box (codes "Whole Group") (not s.custom_targets) (set_custom_targets false))
    ∷ control (check_box (codes "Specific Nodes") s.custom_targets (set_custom_targets true))
    ∷ []

unfoldable pub target_box : List ℕ × Bool → Element
target_box r = control (check_box r.0 r.1 (handle_target_node_checkbox_change r.0))

-- The check boxes of the nodes, when nodes are chosen.
unfoldable pub target_elements : App → List Element
target_elements s =
    if s.custom_targets
    then text (codes "Select Target Nodes")
      ∷ (if is_empty (checklist s)
          then text (codes "No nodes in this group") ∷ []
          else map target_box (checklist s))
    else []

-- `e.target.value as 'tcp' | 'udp'` of the two options.
abbrev pub proto_of : List ℕ → Proto
proto_of t = if text_eq t (codes "tcp") then tcp else udp

unfoldable pub set_form_proto : List ℕ → App → App
set_form_proto t s = record s { form_proto = proto_of t }

unfoldable pub set_form_local_port : List ℕ → App → App
set_form_local_port t s = record s { form_local_port = t }

unfoldable pub set_form_forward_ip : List ℕ → App → App
set_form_forward_ip t s = record s { form_forward_ip = t }

unfoldable pub set_form_forward_port : List ℕ → App → App
set_form_forward_port t s = record s { form_forward_port = t }

unfoldable pub detail_elements : App → List Element
detail_elements s =
    control (
      selector (codes "Protocol") (proto_text s.form_proto) (codes "tcp" ∷ codes "udp" ∷ [])
        set_form_proto)
    ∷ control (text_input (codes "Local Port") s.form_local_port set_form_local_port)
    ∷ control (text_input (codes "Forward Target IP") s.form_forward_ip set_form_forward_ip)
    ∷ control (text_input (codes "Port") s.form_forward_port set_form_forward_port)
    ∷ []

unfoldable pub group_selector : App → List Element
group_selector s =
    control (selector (codes "Target Group") s.target_group (group_options s) choose_group) ∷ []

unfoldable pub add_button : List Element
add_button = control (submit_button (codes "Push NAT Rule Mapping") false handle_add_rule) ∷ []

unfoldable pub form_elements : App → List Element
form_elements s =
    text (codes "Deploy Rules Command")
    ∷ concat (
        message_or_null s.form_error
        ∷ message_or_null s.form_success
        ∷ group_selector s
        ∷ mode_elements s
        ∷ target_elements s
        ∷ detail_elements s
        ∷ add_button
        ∷ [])

unfoldable pub rules_tab_elements : App → List Element
rules_tab_elements s =
    concat (rules_heading s ∷ rules_elements (rules_panel s) ∷ form_elements s ∷ [])
