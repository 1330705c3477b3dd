-- ===== src/Console/Steps/Laws.antt =====
-- Invariants of the console under all events.
use xdp_nat_forward.Base.{
  ℕ, ◌≡◌, sym, subst, refl, arith, Bool, true, ◌&&◌, List, [], ◌∷◌, ◌++◌, Option, none, some,
  Bool-cases, Option-cases, ◌⊎◌, inl, inr,
}
use xdp_nat_forward.Console.Text.{text_eq, parse_int, JsInteger}
use xdp_nat_forward.Console.Text.Laws.{text_eq_refl}
use xdp_nat_forward.Console.Sets.{includes, filter}
use xdp_nat_forward.Console.State.{
  App, SessionResults, effects_of_nodes, pick_group, pick_node, init_targets, nodes_in_group,
  node_ids, toggle, choose_group, handle_target_node_checkbox_change,
}
use xdp_nat_forward.Console.Handlers.{
  rejected, not_ok, ok, fetch_nodes, submit_query, settle_query, query_result, show_answer,
  submit_add, settle_add, settle_delete, settle_sync, AddRequest, add_payload, add_request,
}
use xdp_nat_forward.Console.Handlers.Laws.{submit_query_lem}
use xdp_nat_forward.Console.Steps.{
  listed, Step, fetched, clicked_node, clicked_tab, chose_group, chose_targets, changed_checkbox,
  chose_proto, typed_local_port, typed_forward_ip, typed_forward_port, submitted_rule, settled_rule,
  settled_delete, settled_sync, typed_src_ip, typed_dst_ip, submitted_query, settled_query,
  Reachable, start, after,
}

-- All elements of the first list are in the second.
abbrev pub is_within : List (List ℕ) → List (List ℕ) → Bool
is_within [] ys = true
is_within (x ∷ xs) ys = includes ys x && is_within xs ys

is_within-cons :
    (xs ys : List (List ℕ)) (y : List ℕ) → is_within xs ys ≡ true → is_within xs (y ∷ ys) ≡ true
is_within-cons [] ys y h = refl
is_within-cons (x ∷ xs) ys y h = ground (arith, is_within-cons xs ys y, h)

is_within_refl : (xs : List (List ℕ)) → is_within xs xs ≡ true
is_within_refl [] = refl
is_within_refl (x ∷ xs) = ground (arith, text_eq_refl x, is_within-cons xs xs x (is_within_refl xs))

is_within-filter :
    (p : List ℕ → Bool) (xs ys : List (List ℕ))
    → is_within xs ys ≡ true
    → is_within (filter p xs) ys ≡ true
is_within-filter p [] ys h = refl
is_within-filter p (x ∷ xs) ys h = elim (Bool-cases (p x)) [
  | inl e ↦ ground (arith, e, h, is_within-filter p xs ys)
  | inr e ↦ ground (arith, e, h, is_within-filter p xs ys)
]

is_within-append :
    (xs ys : List (List ℕ)) (x : List ℕ)
    → is_within xs ys ≡ true
    → includes ys x ≡ true
    → is_within (xs ++ (x ∷ [])) ys ≡ true
is_within-append [] ys x h k = ground arith
is_within-append (z ∷ xs) ys x h k = ground (arith, is_within-append xs ys x, h, k)

is_within-toggle :
    (id : List ℕ) (xs ys : List (List ℕ))
    → is_within xs ys ≡ true
    → includes ys id ≡ true
    → is_within (toggle id xs) ys ≡ true
unfolding toggle
is_within-toggle id xs ys h k = elim (Bool-cases (includes xs id)) [
  | inl e ↦ rw e (is_within-filter _ xs ys h)
  | inr e ↦ rw e (is_within-append xs ys id h k)
]

-- The selected targets are nodes of the target group.
abbrev pub HasTargets : App → Type 0
HasTargets s = is_within s.selected_node_targets (listed s) ≡ true

choose_group-HasTargets : (g : List ℕ) (s : App) → HasTargets s → HasTargets (choose_group g s)
unfolding choose_group init_targets
choose_group-HasTargets g s h = elim (Bool-cases (text_eq g s.target_group)) [
  | inl e ↦ rw (e, HasTargets) h
  | inr e ↦ rw (e, HasTargets) (is_within_refl (node_ids (nodes_in_group s.nodes g)))
]

submit_query-HasTargets : (s : App) → HasTargets s → HasTargets (submit_query s)
submit_query-HasTargets s h = elim (submit_query_lem s) [
  | inl (p, (e, k)) ↦ subst HasTargets (sym k) h
  | inr (q, a, b, c, d, e, f, g, k) ↦ subst HasTargets (sym k) h
]

show_answer-HasTargets :
    (a : List ℕ ⊎ SessionResults) (s : App) → HasTargets s → HasTargets (show_answer a s)
unfolding show_answer
show_answer-HasTargets (inl message) s h = h
show_answer-HasTargets (inr body) s h = h

Step-HasTargets : (s t : App) → Step s t → HasTargets s → HasTargets t
unfolding fetch_nodes effects_of_nodes pick_group pick_node init_targets
    handle_target_node_checkbox_change submit_add settle_add settle_delete settle_sync settle_query
Step-HasTargets s t (fetched (rejected message)) h = h
Step-HasTargets s t (fetched (not_ok text)) h = h
Step-HasTargets s t (fetched (ok nodes)) h =
    is_within_refl (fetch_nodes (ok nodes) s).selected_node_targets
Step-HasTargets s t (clicked_node id) h = h
Step-HasTargets s t (clicked_tab tab) h = h
Step-HasTargets s t (chose_group g k) h = choose_group-HasTargets g s h
Step-HasTargets s t (chose_targets b) h = h
Step-HasTargets s t (changed_checkbox id k) h =
    is_within-toggle id s.selected_node_targets (listed s) h k
Step-HasTargets s t (chose_proto p) h = h
Step-HasTargets s t (typed_local_port x) h = h
Step-HasTargets s t (typed_forward_ip x) h = h
Step-HasTargets s t (typed_forward_port x) h = h
Step-HasTargets s t submitted_rule h = elim (Option-cases (add_request s)) [
  | inl e ↦ rw (HasTargets, submit_add, e) h
  | inr (q, e) ↦ rw (HasTargets, submit_add, e) h
]
Step-HasTargets s t (settled_rule (rejected message)) h = h
Step-HasTargets s t (settled_rule (not_ok text)) h = h
Step-HasTargets s t (settled_rule (ok u)) h = h
Step-HasTargets s t (settled_delete (rejected message)) h = h
Step-HasTargets s t (settled_delete (not_ok text)) h = h
Step-HasTargets s t (settled_delete (ok u)) h = h
Step-HasTargets s t (settled_sync (rejected message)) h = h
Step-HasTargets s t (settled_sync (not_ok text)) h = h
Step-HasTargets s t (settled_sync (ok u)) h = h
Step-HasTargets s t (typed_src_ip x) h = h
Step-HasTargets s t (typed_dst_ip x) h = h
Step-HasTargets s t (submitted_query k) h = submit_query-HasTargets s h
Step-HasTargets s t (settled_query r k) h = show_answer-HasTargets (query_result r) s h

-- In every reachable state the selected targets are nodes of the target group.
pub Reachable-HasTargets : (s : App) → Reachable s → HasTargets s
Reachable-HasTargets s start = refl
Reachable-HasTargets s (after {s = r} w k) = Step-HasTargets r s k (Reachable-HasTargets r w)

payload_targets :
    (s : App) (m n : Option JsInteger) (q : AddRequest) (ids : List (List ℕ))
    → add_payload s m n ≡ some q
    → q.node_ids ≡ some ids
    → (q.group ≡ s.target_group) × (ids ≡ s.selected_node_targets)
unfolding add_payload
payload_targets s none n q ids h k = absurd (cc)
payload_targets s (some m) none q ids h k = absurd (cc)
payload_targets s (some m) (some n) q ids h k = ground (arith, h, k)

-- A rule that the form sends to chosen nodes names only nodes of the group that it names.
pub Reachable-add_request :
    (s : App) (q : AddRequest) (ids : List (List ℕ))
    → Reachable s
    → add_request s ≡ some q
    → q.node_ids ≡ some ids
    → is_within ids (node_ids (nodes_in_group s.nodes q.group)) ≡ true
unfolding add_request
Reachable-add_request s q ids w h k = ground (
  arith,
  payload_targets s (parse_int s.form_local_port) (parse_int s.form_forward_port) q ids h k,
  Reachable-HasTargets s w,
)
