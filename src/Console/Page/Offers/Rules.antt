-- ===== src/Console/Page/Offers/Rules.antt =====
-- The controls of App.tsx's tab of the rules.
use xdp_nat_forward.Base.{
  ℕ, ◌≡◌, subst, refl, arith, Bool, true, false, List, [], ◌∷◌, map, Option, none, some, Bool-cases,
  inl, inr, All, append-All, All-if, some_injective, none_not_some,
}
use mathlib.Core.Option
use xdp_nat_forward.Console.Text.{codes, is_empty, parse_int, JsInteger}
use xdp_nat_forward.Console.Text.Laws.{text_eq_refl}
use xdp_nat_forward.Console.Sets.{includes}
use xdp_nat_forward.Console.State.{ConnectedNodeInfo, App, selected_node, nodes_in_group, node_ids}
use xdp_nat_forward.Console.View.{
  RuleRow, RulesPanel, no_node_selected, no_rules_on_node, rules_table, rules_panel, group_options,
  checklist,
}
use xdp_nat_forward.Console.Handlers.{add_request, add_payload}
use xdp_nat_forward.Console.Steps.{
  listed, chose_targets, changed_checkbox, chose_proto, typed_local_port, typed_forward_ip,
  typed_forward_port, submitted_rule,
}
use xdp_nat_forward.Console.Elements.{
  Request, add, text_input, selector, check_box, submit_button, confirm_button, control, types,
  chooses, checks, submits, answers, handle_add_rule, handle_delete_rule, message_or_null,
}
use xdp_nat_forward.Console.Page.Rules.{
  selected_info, rules_heading, rule_elements, row_elements, rules_elements, set_custom_targets,
  mode_elements, target_box, target_elements, proto_of, set_form_proto, set_form_local_port,
  set_form_forward_ip, set_form_forward_port, detail_elements, form_elements, rules_tab_elements,
  group_selector, add_button,
}
use xdp_nat_forward.Console.Page.Offers.{
  Names, Offers, quiet-IsEvent, message-Offers, delete-IsEvent, includes-IsIn, concat-Offers,
  group-Offers,
}

module _ (s : App) where
  row-Offers : (rs : List RuleRow) → All (Offers s) (row_elements rs)
  unfolding rule_elements
  row-Offers [] = tt
  row-Offers (r ∷ rs) =
      append-All (Offers s) (rule_elements r) (row_elements rs)
        (tt, (tt, (tt, (tt, (remove_lem, tt))))) (row-Offers rs)
    where
      remove_lem : Offers s (
          control (
            confirm_button
              (codes "Remove")
              (handle_delete_rule r.proto r.local_port (some r.delete_on))))
      remove_lem e (answers label f b) = delete-IsEvent s r.proto r.local_port (some r.delete_on) b

  rules-Offers : (p : RulesPanel) → All (Offers s) (rules_elements p)
  unfolding rules_elements
  rules-Offers no_node_selected = (tt, tt)
  rules-Offers no_rules_on_node = (tt, tt)
  rules-Offers (rules_table rows) = (tt, (tt, (tt, (tt, (tt, row-Offers rows)))))

  info-Offers : (n : Option ConnectedNodeInfo) → All (Offers s) (selected_info n)
  unfolding selected_info
  info-Offers none = tt
  info-Offers (some n) = (tt, tt)

  mode-Offers :
      (label : List ℕ) (checked b : Bool)
      → Offers s (control (check_box label checked (set_custom_targets b)))
  unfolding set_custom_targets
  mode-Offers label checked b e (checks l c f) = quiet-IsEvent s _ (chose_targets b)

  box-Offers : (r : List ℕ × Bool) → includes (listed s) r.0 ≡ true → Offers s (target_box r)
  unfolding target_box
  box-Offers r h e (checks l c f) = quiet-IsEvent s _ (changed_checkbox r.0 h)

  -- Each check box stands for a node of the target group.
  boxes-Offers :
      (rs : List (List ℕ × Bool))
      → All (λ r. includes (listed s) r.0 ≡ true) rs
      → All (Offers s) (map target_box rs)
  boxes-Offers [] h = tt
  boxes-Offers (r ∷ rs) h = (box-Offers r h.0, boxes-Offers rs h.1)

  boxes-listed :
      (ns : List ConnectedNodeInfo)
      → ((id : List ℕ) → includes (node_ids ns) id ≡ true → includes (listed s) id ≡ true)
      → All
          (λ (r : List ℕ × Bool). includes (listed s) r.0 ≡ true)
          (map (λ n. (n.node_id, includes s.selected_node_targets n.node_id)) ns)
  boxes-listed [] k = tt
  boxes-listed (n ∷ ns) k = (
    k n.node_id (ground (arith, text_eq_refl n.node_id)),
    boxes-listed ns (λ id i. k id (ground (arith, i))),
  )

  checklist-listed : All (λ (r : List ℕ × Bool). includes (listed s) r.0 ≡ true) (checklist s)
  unfolding checklist
  checklist-listed =
      All-if _ s.custom_targets _ []
        (λ e. boxes-listed (nodes_in_group s.nodes s.target_group) (λ id k. k)) (λ e. tt)

  targets-Offers : All (Offers s) (target_elements s)
  unfolding target_elements
  targets-Offers =
      All-if (Offers s) s.custom_targets _ []
        (λ e. (
          tt,
          All-if (Offers s) (is_empty (checklist s)) _ _ (λ k. (tt, tt))
              (λ k. boxes-Offers (checklist s) checklist-listed),
        ))
        (λ e. tt)

  proto-Offers :
      (label value : List ℕ) (options : List (List ℕ))
      → Offers s (control (selector label value options set_form_proto))
  unfolding set_form_proto
  proto-Offers label value options e (chooses l v os f o i) =
      quiet-IsEvent s _ (chose_proto (proto_of o))

  port-Offers :
      (label value : List ℕ) → Offers s (control (text_input label value set_form_local_port))
  unfolding set_form_local_port
  port-Offers label value e (types l v f t) = quiet-IsEvent s _ (typed_local_port t)

  ip-Offers :
      (label value : List ℕ) → Offers s (control (text_input label value set_form_forward_ip))
  unfolding set_form_forward_ip
  ip-Offers label value e (types l v f t) = quiet-IsEvent s _ (typed_forward_ip t)

  target_port-Offers :
      (label value : List ℕ) → Offers s (control (text_input label value set_form_forward_port))
  unfolding set_form_forward_port
  target_port-Offers label value e (types l v f t) = quiet-IsEvent s _ (typed_forward_port t)

  -- A request that the form sends names the target group.
  payload-Names :
      (m n : Option JsInteger) (q : Request)
      → Option.map add (add_payload s m n) ≡ some q
      → Names s q
  unfolding add_payload
  payload-Names none n q e = absurd (none_not_some e)
  payload-Names (some m) none q e = absurd (none_not_some e)
  payload-Names (some m) (some n) q e = elim (Bool-cases (is_empty s.form_forward_ip)) [
    | inl k ↦ absurd (none_not_some (rw k at e))
    | inr k ↦ subst (Names s) (some_injective (rw k at e)) refl
  ]

  add-Offers : (label : List ℕ) → Offers s (control (submit_button label false handle_add_rule))
  unfolding handle_add_rule add_request
  add-Offers label e (submits l d f h) = (
    inr submitted_rule,
    λ q k. payload-Names (parse_int s.form_local_port) (parse_int s.form_forward_port) q k,
  )

  group_selector-Offers : All (Offers s) (group_selector s)
  unfolding group_selector
  group_selector-Offers =
      (group-Offers s _ _ (group_options s) (includes-IsIn (group_options s)), tt)

  mode_elements-Offers : All (Offers s) (mode_elements s)
  unfolding mode_elements
  mode_elements-Offers = (tt, (mode-Offers _ _ false, (mode-Offers _ _ true, tt)))

  detail_elements-Offers : All (Offers s) (detail_elements s)
  unfolding detail_elements
  detail_elements-Offers =
      (proto-Offers _ _ _, (port-Offers _ _, (ip-Offers _ _, (target_port-Offers _ _, tt))))

  add_button-Offers : All (Offers s) add_button
  unfolding add_button
  add_button-Offers = (add-Offers _, tt)

  form-Offers : All (Offers s) (form_elements s)
  unfolding form_elements
  form-Offers = (
    tt,
    concat-Offers s
        (message_or_null s.form_error
          ∷ message_or_null s.form_success
          ∷ group_selector s
          ∷ mode_elements s
          ∷ target_elements s
          ∷ detail_elements s
          ∷ add_button
          ∷ [])
        (
          message-Offers s s.form_error,
          (
            message-Offers s s.form_success,
            (
              group_selector-Offers,
              (
                mode_elements-Offers,
                (targets-Offers, (detail_elements-Offers, (add_button-Offers, tt))),
              ),
            ),
          ),
        ),
  )

  heading-Offers : All (Offers s) (rules_heading s)
  unfolding rules_heading
  heading-Offers = (tt, info-Offers (selected_node s))

  pub rules_tab-Offers : All (Offers s) (rules_tab_elements s)
  unfolding rules_tab_elements
  rules_tab-Offers =
      concat-Offers s (rules_heading s ∷ rules_elements (rules_panel s) ∷ form_elements s ∷ [])
        (heading-Offers, (rules-Offers (rules_panel s), (form-Offers, tt)))
