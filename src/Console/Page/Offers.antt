-- ===== src/Console/Page/Offers.antt =====
-- The controls of App.tsx's page and the events of the console's state machine.
pub mod Around
pub mod Rules
pub mod Audit
pub mod Sessions
use xdp_nat_forward.Base.{
  ℕ, ◌≡◌, ◌∙◌, sym, subst, refl, arith, Bool, true, false, not, ◌&&◌, ◌||◌, List, [], ◌∷◌, ◌++◌,
  map, Option, none, some, Bool-cases, Option-cases, ◌⊎◌, inl, inr, if◌then◌else◌, IsIn, All,
  append-All, map-All, All-if, All-IsIn, some_injective, none_not_some,
}
use mathlib.Core.Option
use xdp_nat_forward.Console.Text.{text_eq, codes, is_empty, parse_int, JsInteger}
use xdp_nat_forward.Console.Text.Laws.{text_eq_refl}
use xdp_nat_forward.Console.Sets.{includes}
use xdp_nat_forward.Console.State.{
  ConnectedNodeInfo, App, SessionInfo, Tab, rules_tab, diff_tab, sessions_tab, groups,
  selected_node, nodes_in_group, node_ids, choose_group,
}
use xdp_nat_forward.Console.Audit.{AuditRow, diff_audit_list}
use xdp_nat_forward.Console.View.{
  SidebarNode, SidebarGroup, sidebar, RuleRow, RulesPanel, no_node_selected, no_rules_on_node,
  rules_table, rules_panel, group_options, checklist, AuditAction, group_del, sync_cluster,
  audit_action, audit_line, AuditLine, AuditPanel, no_nodes_in_group, no_rules_in_group,
  audit_table, audit_panel, SessionsPanel, nothing_queried, no_sessions, sessions_table,
  sessions_panel,
}
use xdp_nat_forward.Console.Handlers.{
  add_request, AddRequest, add_payload, submit_add, query_request, submit_query, delete_request,
  sync_request,
}
use xdp_nat_forward.Console.Handlers.Laws.{submit_query_lem}
use xdp_nat_forward.Console.Steps.{
  listed, Step, clicked_node, clicked_tab, chose_group, chose_targets, changed_checkbox,
  chose_proto, typed_local_port, typed_forward_ip, typed_forward_port, submitted_rule, typed_src_ip,
  typed_dst_ip, submitted_query,
}
use xdp_nat_forward.Console.Elements.{
  Request, add, delete, query, Effect, quiet, Control, tab_button, node_entry, text_input, selector,
  check_box, submit_button, plain_button, confirm_button, Element, text, control, Fires, clicks_tab,
  clicks_node, types, chooses, checks, submits, clicks, answers, handle_query_sessions,
  handle_add_rule, handle_delete_rule, message_or_null, concat,
}
use xdp_nat_forward.Console.Page.Sidebar.{
  select_node, node_element, group_elements, sidebar_elements, is_tab, set_active_tab, toolbar,
  error_banner,
}
use xdp_nat_forward.Console.Page.Rules.{
  selected_info, rules_heading, rule_elements, row_elements, rules_elements, set_custom_targets,
  mode_elements, target_box, target_elements, proto_of, set_form_proto, set_form_local_port,
  set_form_forward_ip, set_form_forward_port, detail_elements, form_elements, rules_tab_elements,
  group_selector, add_button,
}
use xdp_nat_forward.Console.Page.Audit.{
  audit_heading, sync_row, action_element, line_elements, body_elements, audit_elements,
  diff_tab_elements,
}
use xdp_nat_forward.Console.Page.Sessions.{
  set_query_src_ip, set_query_dst_ip, query_elements, session_elements, found_elements,
  number_found, results_elements, sessions_tab_elements,
}

-- The request names the target group, or the selected node.
abbrev pub Names : App → Request → Type 0
Names s (add q) = q.group ≡ s.target_group
Names s (delete q) = q.group ≡ s.target_group
Names s (query q) = s.selected_node_id ≡ some q.node_id

-- The effect leaves the state or is an event of the state machine, and its request is about what the
-- state shows.
abbrev pub IsEvent : App → Effect → Type 0
IsEvent s e = ((e.state ≡ s) ⊎ Step s e.state) × ((q : Request) → e.sent ≡ some q → Names s q)

abbrev pub Offers : App → Element → Type 0
Offers s (text t) = Unit
Offers s (control c) = (e : Effect) → Fires s c e → IsEvent s e

pub quiet-IsEvent : (s t : App) → Step s t → IsEvent s (quiet t)
quiet-IsEvent s t st = (inr st, λ q e. absurd (none_not_some e))

pub message-Offers : (s : App) (m : Option (List ℕ)) → All (Offers s) (message_or_null m)
message-Offers s none = tt
message-Offers s (some t) =
    All-if (Offers s) (is_empty t) [] (text t ∷ []) (λ e. tt) (λ e. (tt, tt))

pub delete-IsEvent :
    (s : App) (proto : List ℕ) (port : ℕ) (ids : Option (List (List ℕ))) (b : Bool)
    → IsEvent s (handle_delete_rule proto port ids b s)
unfolding handle_delete_rule delete_request
delete-IsEvent s proto port ids true = (inl refl, λ q e. subst (Names s) (some_injective e) refl)
delete-IsEvent s proto port ids false = (inl refl, λ q e. absurd (none_not_some e))

pub includes-IsIn : (gs : List (List ℕ)) (g : List ℕ) → IsIn g gs → includes gs g ≡ true
includes-IsIn [] g i = absurd i
includes-IsIn (h ∷ gs) g i = elim i [
  | inl e ↦ rw e (ground (arith, text_eq_refl h))
  | inr k ↦ ground (arith, includes-IsIn gs g k)
]

module _ (s : App) where
  pub concat-Offers :
      (xss : List (List Element)) → All (All (Offers s)) xss → All (Offers s) (concat xss)
  concat-Offers [] h = tt
  concat-Offers (xs ∷ xss) h = append-All (Offers s) xs (concat xss) h.0 (concat-Offers xss h.1)

  pub group-Offers :
      (label value : List ℕ) (options : List (List ℕ))
      → ((g : List ℕ) → IsIn g options → includes (group_options s) g ≡ true)
      → Offers s (control (selector label value options choose_group))
  group-Offers label value options h e (chooses l v os f g i) =
      quiet-IsEvent s _ (chose_group g (h g i))
