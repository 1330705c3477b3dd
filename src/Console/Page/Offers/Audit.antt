-- ===== src/Console/Page/Offers/Audit.antt =====
-- The controls of App.tsx's tab of the audit.
use xdp_nat_forward.Base.{
  ℕ, ◌≡◌, subst, refl, Bool, true, List, [], ◌∷◌, map, none, Bool-cases, inl, inr, if◌then◌else◌,
  IsIn, All, append-All, map-All, some_injective,
}
use xdp_nat_forward.Console.Text.{codes, is_empty}
use xdp_nat_forward.Console.Sets.{includes}
use xdp_nat_forward.Console.State.{App, groups, nodes_in_group, node_ids}
use xdp_nat_forward.Console.Audit.{AuditRow, diff_audit_list}
use xdp_nat_forward.Console.View.{
  group_options, AuditAction, group_del, sync_cluster, audit_action, audit_line, AuditLine,
  audit_table, audit_panel,
}
use xdp_nat_forward.Console.Handlers.{AddRequest, sync_request}
use xdp_nat_forward.Console.Elements.{text, clicks, answers}
use xdp_nat_forward.Console.Page.Audit.{
  audit_heading, sync_row, action_element, cell_mark, line_elements, body_elements, audit_elements,
  diff_tab_elements,
}
use xdp_nat_forward.Console.Page.Offers.{Names, Offers, delete-IsEvent, includes-IsIn, group-Offers}

module _ (s : App) where
  marks-Offers : (cells : List Bool) → All (Offers s) (map cell_mark cells)
  marks-Offers cells = map-All (Offers s) cell_mark cells (λ b. tt)

  -- The button of a line, of either kind.
  IsOfRow : AuditAction → Type 0
  IsOfRow (group_del proto port) = Unit
  IsOfRow (sync_cluster q) = q.group ≡ s.target_group

  audit_action-IsOfRow : (r : AuditRow) → IsOfRow (audit_action s r)
  unfolding audit_action sync_request IsOfRow
  audit_action-IsOfRow r = elim (Bool-cases r.is_consistent) [ inl e ↦ rw e tt | inr e ↦ rw e refl ]

  del-Offers : (proto : List ℕ) (port : ℕ) → Offers s (action_element (group_del proto port))
  unfolding action_element
  del-Offers proto port e (answers l f b) = delete-IsEvent s proto port none b

  sync-Offers :
      (q : AddRequest) → q.group ≡ s.target_group → Offers s (action_element (sync_cluster q))
  unfolding action_element sync_row
  sync-Offers q h e (clicks l f) = (inl refl, λ r k. subst (Names s) (some_injective k) h)

  action-Offers : (a : AuditAction) → IsOfRow a → Offers s (action_element a)
  unfolding IsOfRow
  action-Offers (group_del proto port) h = del-Offers proto port
  action-Offers (sync_cluster q) h = sync-Offers q h

  line-Offers : (l : AuditLine) → IsOfRow l.action → All (Offers s) (line_elements l)
  unfolding line_elements
  line-Offers l h = (
    tt,
    (
      tt,
      (
        tt,
        append-All (Offers s) (map cell_mark l.cells)
            (text (if l.is_synced then codes "Synced" else codes "Mismatch")
              ∷ action_element l.action
              ∷ [])
            (marks-Offers l.cells) (tt, (action-Offers l.action h, tt)),
      ),
    ),
  )

  body-Offers : (rows : List AuditRow) → All (Offers s) (body_elements (map (audit_line s) rows))
  unfolding audit_line
  body-Offers [] = tt
  body-Offers (r ∷ rs) =
      append-All (Offers s) (line_elements (audit_line s r)) (body_elements (map (audit_line s) rs))
        (line-Offers (audit_line s r) (audit_action-IsOfRow r)) (body-Offers rs)

  table-Offers :
      (ids : List (List ℕ)) (rows : List AuditRow)
      → All (Offers s) (audit_elements (audit_table ids (map (audit_line s) rows)))
  unfolding audit_elements
  table-Offers ids rows = (
    tt,
    append-All (Offers s) (map text ids)
        (text (codes "Status") ∷ text (codes "Actions") ∷ body_elements (map (audit_line s) rows))
        (map-All (Offers s) text ids (λ id. tt)) (tt, (tt, body-Offers rows)),
  )

  audit-Offers : All (Offers s) (audit_elements (audit_panel s))
  unfolding audit_panel audit_elements
  audit-Offers = elim (Bool-cases (is_empty (nodes_in_group s.nodes s.target_group))) [
    | inl e ↦ rw e (tt, tt)
    | inr e ↦ elim (Bool-cases (is_empty (diff_audit_list s.nodes s.target_group))) [
      | inl k ↦ rw (e, k) (tt, tt)
      | inr k ↦
          rw (e, k)
            (table-Offers (node_ids (nodes_in_group s.nodes s.target_group))
              (diff_audit_list s.nodes s.target_group))
    ]
  ]

  groups-options : (g : List ℕ) → IsIn g (groups s.nodes) → includes (group_options s) g ≡ true
  unfolding group_options
  groups-options g i = elim (Bool-cases (is_empty (groups s.nodes))) [
    | inl e ↦ absurd (no_group (groups s.nodes) e i)
    | inr e ↦ rw e (includes-IsIn (groups s.nodes) g i)
  ]
    where
      no_group : (gs : List (List ℕ)) → is_empty gs ≡ true → ¬ (IsIn g gs)
      no_group [] k j = j
      no_group (h ∷ gs) k j = absurd (cc)

  audit_heading-Offers : All (Offers s) (audit_heading s)
  unfolding audit_heading
  audit_heading-Offers = (tt, (tt, (group-Offers s _ _ (groups s.nodes) groups-options, tt)))

  pub diff_tab-Offers : All (Offers s) (diff_tab_elements s)
  unfolding diff_tab_elements
  diff_tab-Offers =
      append-All (Offers s) (audit_heading s) (audit_elements (audit_panel s)) audit_heading-Offers
        audit-Offers
