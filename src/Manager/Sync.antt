-- ===== src/Manager/Sync.antt =====
-- The console's audit and the manager's routing together: who receives the rule that the button
-- `Sync Cluster` sends.
use xdp_nat_forward.Base.{
  ℕ, subst, ◌≡◌, ◌∙◌, sym, ap, refl, arith, Bool, true, false, not, ◌&&◌, List, [], ◌∷◌, map,
  Option, none, some, Bool-cases, inl, inr, All,
}
use xdp_nat_forward.Console.Text.{text_eq}
use xdp_nat_forward.Console.Text.Laws.{text_eq_refl, text_eq_lem}
use xdp_nat_forward.Console.Sets.{includes, filter}
use xdp_nat_forward.Console.State.{ConnectedNodeInfo, App, nodes_in_group, node_ids}
use xdp_nat_forward.Console.Audit.{AuditEntry, is_present, audit_row}
use xdp_nat_forward.Console.Handlers.{AddRequest, sync_request}
use xdp_nat_forward.Manager.{
  ConnectedNode, TextMap, AppState, get_nodes, AddRulePayload, payload_of, decode_add, add_rule,
  node_info,
}
use xdp_nat_forward.Manager.Laws.{is_target, values, send_all_lem}

abbrev pub receiver_ids : List ConnectedNode → List (List ℕ)
receiver_ids = map (λ n. n.node_id)

payload_fields :
    (q : AddRequest) (m n : Option ℕ) (p : AddRulePayload)
    → payload_of q m n ≡ some p
    → (p.group ≡ q.group) × (p.node_ids ≡ q.node_ids)
unfolding payload_of
payload_fields q none n p h = absurd (cc)
payload_fields q (some m) none p h = absurd (cc)
payload_fields q (some m) (some n) p h = ground (arith, h)

-- The ids of the nodes that pass a test of ids are the ids that pass it.
includes-filtered :
    (p : List ℕ → Bool) (ns : List ConnectedNodeInfo) (id : List ℕ)
    → includes (node_ids (filter (λ n. p n.node_id) ns)) id ≡ includes (node_ids ns) id && p id
includes-filtered p [] id = refl
includes-filtered p (n ∷ ns) id = elim (Bool-cases (text_eq n.node_id id)) [
  | inl e ↦ ground (arith, e, includes-filtered p ns id, ap p (text_eq_lem n.node_id id e))
  | inr e ↦ ground (arith, e, includes-filtered p ns id)
]

-- The nodes of the table, as the console gets them, that are in the group.
abbrev pub members : TextMap ConnectedNode → List ℕ → List ConnectedNodeInfo
members m g = nodes_in_group (map (λ r. node_info r.1) m) g

-- A node of the group is among the given ids.
abbrev pub IsListed : List ℕ → List (List ℕ) → ConnectedNode → Type 0
IsListed g ids n = text_eq n.group g && includes ids n.node_id ≡ text_eq n.group g

All-cons_id :
    (g x : List ℕ) (ids : List (List ℕ)) (ns : List ConnectedNode)
    → All (IsListed g ids) ns
    → All (IsListed g (x ∷ ids)) ns
All-cons_id g x ids [] h = tt
All-cons_id g x ids (n ∷ ns) h = (ground (arith, h.0), All-cons_id g x ids ns h.1)

members-in :
    (k : List ℕ) (n : ConnectedNode) (m : TextMap ConnectedNode) (g : List ℕ)
    → text_eq n.group g ≡ true
    → members ((k, n) ∷ m) g ≡ node_info n ∷ members m g
unfolding nodes_in_group
members-in k n m g e = rw e refl

members-out :
    (k : List ℕ) (n : ConnectedNode) (m : TextMap ConnectedNode) (g : List ℕ)
    → text_eq n.group g ≡ false
    → members ((k, n) ∷ m) g ≡ members m g
unfolding nodes_in_group
members-out k n m g e = rw e refl

members-All :
    (m : TextMap ConnectedNode) (g : List ℕ) → All (IsListed g (node_ids (members m g))) (values m)
members-All [] g = tt
members-All ((k, n) ∷ m) g = elim (Bool-cases (text_eq n.group g)) [
  | inl e ↦
      subst (λ xs. All (IsListed g (node_ids xs)) (n ∷ values m)) (sym (members-in k n m g e))
        (
          ground (arith, text_eq_refl n.node_id),
          All-cons_id g n.node_id (node_ids (members m g)) (values m) (members-All m g),
        )
  | inr e ↦
      subst (λ xs. All (IsListed g (node_ids xs)) (n ∷ values m)) (sym (members-out k n m g e))
        (rw e refl, members-All m g)
]

same_test : (a b c : Bool) → a ≡ true → a && b ≡ a && c → b ≡ c
same_test true b c h k = k
same_test false b c h k = absurd (cc)

-- With ids that agree with a test on the group's nodes, a request reaches those that pass the test.
route_lem :
    (q : List ℕ → Bool) (g : List ℕ) (ids : List (List ℕ)) (m : TextMap ConnectedNode)
    → All
        (λ n. text_eq n.group g && includes ids n.node_id ≡ text_eq n.group g && q n.node_id)
        (values m)
    → receiver_ids (filter (is_target g (some ids)) (values m))
      ≡ node_ids (filter (λ n. q n.node_id) (members m g))
unfolding nodes_in_group
route_lem q g ids [] h = refl
route_lem q g ids ((k, n) ∷ m) h = elim (Bool-cases (text_eq n.group g)) [
  | inl e ↦ elim (Bool-cases (q n.node_id)) [
    | inl l ↦
        rw (e, l, same_test (text_eq n.group g) _ _ e h.0 ∙ l)
          (ap (λ xs. n.node_id ∷ xs) (route_lem q g ids m h.1))
    | inr l ↦ rw (e, l, same_test (text_eq n.group g) _ _ e h.0 ∙ l) (route_lem q g ids m h.1)
  ]
  | inr e ↦ rw e (route_lem q g ids m h.1)
]

both : (a b c : Bool) → a && b ≡ a → a && (b && c) ≡ a && c
both a b c h = ground (arith, h)

agreeing :
    (q : List ℕ → Bool) (g : List ℕ) (ns : List ConnectedNodeInfo) (ms : List ConnectedNode)
    → All (IsListed g (node_ids ns)) ms
    → All
        (λ n.
          text_eq n.group g && includes (node_ids (filter (λ i. q i.node_id) ns)) n.node_id
          ≡ text_eq n.group g && q n.node_id)
        ms
agreeing q g ns [] h = tt
agreeing q g ns (n ∷ ms) h = (
  rw (includes-filtered q ns n.node_id)
      (both (text_eq n.group g) (includes (node_ids ns) n.node_id) (q n.node_id) h.0),
  agreeing q g ns ms h.1,
)

-- The button `Sync Cluster`, pressed in a row of the audit of the nodes that the manager listed, makes
-- the manager send the rule exactly to the nodes that the row reports as missing, when its ports fit
-- the payload's widths.
pub add_rule-sync_request :
    (s : App) (e : AuditEntry) (m : AppState) (p : AddRulePayload)
    → s.nodes ≡ get_nodes m
    → decode_add (sync_request s (audit_row (nodes_in_group s.nodes s.target_group) e)) ≡ some p
    → receiver_ids (add_rule p m).receivers
      ≡ (audit_row (nodes_in_group s.nodes s.target_group) e).missing_node_ids
unfolding add_rule decode_add sync_request audit_row get_nodes
add_rule-sync_request s e m p h k =
    let f = payload_fields _ _ _ p k in
    ap receiver_ids (send_all_lem m.nodes p.group p.node_ids).0
    ∙ rw (f.0, f.1, h)
        (route_lem (λ id. not (is_present e id)) s.target_group _ m.nodes
          (agreeing (λ id. not (is_present e id)) s.target_group (members m.nodes s.target_group)
            (values m.nodes) (members-All m.nodes s.target_group)))
