-- ===== src/Console/Steps/Group.antt =====
-- The target group of the console and the nodes that are connected.
use xdp_nat_forward.Base.{
  ℕ, ◌≡◌, sym, subst, refl, true, false, List, [], ◌∷◌, none, Bool-cases, Option-cases, ◌⊎◌, inl,
  inr,
}
use xdp_nat_forward.Console.Text.{text_eq, is_empty}
use xdp_nat_forward.Console.Sets.{includes}
use xdp_nat_forward.Console.State.{
  ConnectedNodeInfo, App, SessionResults, groups, effects_of_nodes, pick_group, pick_node,
  init_targets, choose_group, handle_target_node_checkbox_change,
}
use xdp_nat_forward.Console.State.Laws.{groups-nonempty, effects_of_nodes_lem}
use xdp_nat_forward.Console.View.{group_options}
use xdp_nat_forward.Console.Handlers.{
  rejected, not_ok, ok, fetch_nodes, submit_query, settle_query, query_result, show_answer,
  submit_add, settle_add, settle_delete, settle_sync, add_request,
}
use xdp_nat_forward.Console.Handlers.Laws.{submit_query_lem}
use xdp_nat_forward.Console.Steps.{
  Step, fetched, clicked_node, clicked_tab, chose_group, chose_targets, changed_checkbox,
  chose_proto, typed_local_port, typed_forward_ip, typed_forward_port, submitted_rule, settled_rule,
  settled_delete, settled_sync, typed_src_ip, typed_dst_ip, submitted_query, settled_query,
  Reachable, start, after,
}

-- Some node belongs to the target group, if there is a node.
abbrev pub HasGroup : App → Type 0
HasGroup s = (s.nodes ≡ []) ⊎ (includes (groups s.nodes) s.target_group ≡ true)

nil_of_is_empty : (ns : List ConnectedNodeInfo) → is_empty ns ≡ true → ns ≡ []
nil_of_is_empty [] e = refl
nil_of_is_empty (n ∷ ns) e = absurd (cc)

fetched-HasGroup : (s : App) → HasGroup (effects_of_nodes s)
unfolding effects_of_nodes pick_group pick_node init_targets
fetched-HasGroup s = elim (Bool-cases (is_empty s.nodes)) [
  | inl e ↦ inl (nil_of_is_empty s.nodes e)
  | inr e ↦ inr (effects_of_nodes_lem s e).0
]

options-HasGroup :
    (ns : List ConnectedNodeInfo) (s : App)
    → s.nodes ≡ ns
    → (g : List ℕ) → includes (group_options s) g ≡ true
    → (s.nodes ≡ []) ⊎ (includes (groups s.nodes) g ≡ true)
unfolding group_options
options-HasGroup [] s e g k = inl e
options-HasGroup (n ∷ ns) s e g k =
    let some_group : is_empty (groups s.nodes) ≡ false = rw e (groups-nonempty n ns) in
    inr (rw some_group at k)

choose_group-HasGroup :
    (g : List ℕ) (s : App)
    → includes (group_options s) g ≡ true
    → HasGroup s
    → HasGroup (choose_group g s)
unfolding choose_group init_targets
choose_group-HasGroup g s k h = elim (Bool-cases (text_eq g s.target_group)) [
  | inl e ↦ rw (e, HasGroup) h
  | inr e ↦ rw (e, HasGroup) (options-HasGroup s.nodes s refl g k)
]

submit_query-HasGroup : (s : App) → HasGroup s → HasGroup (submit_query s)
submit_query-HasGroup s h = elim (submit_query_lem s) [
  | inl (p, (e, k)) ↦ subst HasGroup (sym k) h
  | inr (q, a, b, c, d, e, f, g, k) ↦ subst HasGroup (sym k) h
]

show_answer-HasGroup :
    (a : List ℕ ⊎ SessionResults) (s : App) → HasGroup s → HasGroup (show_answer a s)
unfolding show_answer
show_answer-HasGroup (inl message) s h = h
show_answer-HasGroup (inr body) s h = h

Step-HasGroup : (s t : App) → Step s t → HasGroup s → HasGroup t
unfolding fetch_nodes handle_target_node_checkbox_change submit_add settle_add settle_delete
    settle_sync settle_query
Step-HasGroup s t (fetched (rejected message)) h = h
Step-HasGroup s t (fetched (not_ok text)) h = h
Step-HasGroup s t (fetched (ok nodes)) h =
    fetched-HasGroup (record s { nodes = nodes; error = none })
Step-HasGroup s t (clicked_node id) h = h
Step-HasGroup s t (clicked_tab tab) h = h
Step-HasGroup s t (chose_group g k) h = choose_group-HasGroup g s k h
Step-HasGroup s t (chose_targets b) h = h
Step-HasGroup s t (changed_checkbox id k) h = h
Step-HasGroup s t (chose_proto p) h = h
Step-HasGroup s t (typed_local_port x) h = h
Step-HasGroup s t (typed_forward_ip x) h = h
Step-HasGroup s t (typed_forward_port x) h = h
Step-HasGroup s t submitted_rule h = elim (Option-cases (add_request s)) [
  | inl e ↦ rw (HasGroup, submit_add, e) h
  | inr (q, e) ↦ rw (HasGroup, submit_add, e) h
]
Step-HasGroup s t (settled_rule (rejected message)) h = h
Step-HasGroup s t (settled_rule (not_ok text)) h = h
Step-HasGroup s t (settled_rule (ok u)) h = h
Step-HasGroup s t (settled_delete (rejected message)) h = h
Step-HasGroup s t (settled_delete (not_ok text)) h = h
Step-HasGroup s t (settled_delete (ok u)) h = h
Step-HasGroup s t (settled_sync (rejected message)) h = h
Step-HasGroup s t (settled_sync (not_ok text)) h = h
Step-HasGroup s t (settled_sync (ok u)) h = h
Step-HasGroup s t (typed_src_ip x) h = h
Step-HasGroup s t (typed_dst_ip x) h = h
Step-HasGroup s t (submitted_query k) h = submit_query-HasGroup s h
Step-HasGroup s t (settled_query r k) h = show_answer-HasGroup (query_result r) s h

-- In every reachable state of the console, while the manager's last answer has nodes, the target group is that
-- of some of them, so a rule is never sent to a group that nobody is in.
pub Reachable-HasGroup : (s : App) → Reachable s → HasGroup s
Reachable-HasGroup s start = inl refl
Reachable-HasGroup s (after {s = r} w k) = Step-HasGroup r s k (Reachable-HasGroup r w)
