-- ===== src/Console/PageTests.antt =====
-- The theorems of the page of App.tsx, after a poll that finds two nodes.
use xdp_nat_forward.Base.{
  ℕ, zero, suc, ◌≡◌, refl, Bool, true, false, List, [], ◌∷◌, Option, none, some, ◌⊎◌, inl, inr,
  IsIn,
}
use xdp_nat_forward.Console.Text.{codes}
use xdp_nat_forward.Console.Sets.{includes}
use xdp_nat_forward.Console.State.{App, diff_tab, groups, selected_node}
use xdp_nat_forward.Console.View.{rule_row, rules_of, rules_panel}
use xdp_nat_forward.Console.Handlers.{ok, fetch_nodes, DeleteRequest, delete_request}
use xdp_nat_forward.Console.Steps.{initial, Step, Reachable, start, after, fetched}
use xdp_nat_forward.Console.Elements.{
  Element, control, Control, tab_button, confirm_button, clicks_tab, answers, delete, quiet, Effect,
  handle_delete_rule,
}
use xdp_nat_forward.Console.Page.{page, Input, uses}
use xdp_nat_forward.Console.Page.Sidebar.{
  node_element, group_elements, sidebar_elements, toolbar, error_banner, set_active_tab,
}
use xdp_nat_forward.Console.Page.Rules.{
  rules_tab_elements, rules_heading, rules_elements, rule_elements, selected_info,
}
use xdp_nat_forward.Console.Page.Inputs.{Input-Step, Input-IsAddressed}
use xdp_nat_forward.Console.Samples.{two_nodes}
use xdp_nat_forward.Console.Tests.{console}

abbrev element_at : List Element → ℕ → Option Element
element_at [] n = none
element_at (x ∷ xs) zero = some x
element_at (x ∷ xs) (suc n) = element_at xs n

element_at-IsIn : (xs : List Element) (n : ℕ) (x : Element) → element_at xs n ≡ some x → IsIn x xs
element_at-IsIn [] n x e = absurd (cc)
element_at-IsIn (y ∷ ys) zero x e = inl (cc)
element_at-IsIn (y ∷ ys) (suc n) x e = inr (element_at-IsIn ys n x e)

abbrev shown : App
shown = fetch_nodes (ok two_nodes) initial

shown-Reachable : Reachable shown
shown-Reachable = after start (fetched (ok two_nodes))

abbrev to_audit : Control
to_audit = tab_button (codes "Cluster Diff Auditor") false (set_active_tab diff_tab)

to_audit-shown : element_at (page shown) 11 ≡ some (control to_audit)
unfolding console page sidebar_elements group_elements node_element toolbar
to_audit-shown = refl

audit-Input : Input shown (quiet (set_active_tab diff_tab shown))
audit-Input =
    uses to_audit (element_at-IsIn (page shown) 11 (control to_audit) to_audit-shown)
      (clicks_tab (codes "Cluster Diff Auditor") false (set_active_tab diff_tab))

Input-Step_example :
    ((set_active_tab diff_tab shown ≡ shown) ⊎ Step shown (set_active_tab diff_tab shown))
    × Unit {0}
Input-Step_example = Input-Step shown (quiet (set_active_tab diff_tab shown)) audit-Input

-- The button that removes the rule of the selected node.
abbrev remove_rule : Bool → App → Effect
remove_rule = handle_delete_rule (codes "tcp") 80 (some (codes "a" ∷ []))

abbrev remove_button : Control
remove_button = confirm_button (codes "Remove") remove_rule

remove_button-shown : element_at (page shown) 23 ≡ some (control remove_button)
unfolding console page sidebar_elements group_elements node_element toolbar error_banner
    rules_tab_elements rules_heading selected_info rules_panel rules_of rules_elements rule_elements
    rule_row selected_node
remove_button-shown = refl

abbrev removal : DeleteRequest
removal = record {
  group = codes "edge";
  node_ids = some (codes "a" ∷ []);
  proto = codes "tcp";
  local_port = 80;
}

Input-IsAddressed_example : includes (groups shown.nodes) (codes "edge") ≡ true
unfolding console handle_delete_rule delete_request
Input-IsAddressed_example =
    Input-IsAddressed shown (remove_rule true shown) (delete removal) shown-Reachable refl
      (uses remove_button
        (element_at-IsIn (page shown) 23 (control remove_button) remove_button-shown)
        (answers (codes "Remove") remove_rule true))
      refl
