-- ===== src/Console/View/Laws.antt =====
-- The sidebar lists each node once, and the audit's lines agree with their cells.
use xdp_nat_forward.Base.{
  ℕ, ◌+◌, ◌≡◌, ◌∙◌, refl, arith, Bool, true, false, not, ◌&&◌, List, [], ◌∷◌, map, if◌then◌else◌,
  Bool-cases, inl, inr, length, All,
}
use xdp_nat_forward.Console.Text.{text_eq, is_empty}
use xdp_nat_forward.Console.Text.Laws.{text_eq_refl}
use xdp_nat_forward.Console.Sets.{includes, filter, is_distinct, text_eq_comm, includes-at}
use xdp_nat_forward.Console.State.{ConnectedNodeInfo, App, groups, nodes_in_group}
use xdp_nat_forward.Console.State.Laws.{includes-groups}
use xdp_nat_forward.Console.Audit.{
  AuditEntry, is_present, audit_row, audit_nodes, audit_group, diff_audit_list, RulesMap,
}
use xdp_nat_forward.Console.View.{
  SidebarGroup, sidebar_node, sidebar_group, sidebar, AuditLine, audit_line,
}

-- The number of nodes that the sidebar shows.
abbrev pub shown : List SidebarGroup → ℕ
shown [] = 0
shown (g ∷ gs) = length g.members + shown gs

length-map : (s : App) (ns : List ConnectedNodeInfo) → length (map (sidebar_node s) ns) ≡ length ns
length-map s [] = refl
length-map s (n ∷ ns) = omega (arith, length-map s ns)

-- The nodes of the groups, one group after the other.
total : List (List ℕ) → List ConnectedNodeInfo → ℕ
total [] ns = 0
total (g ∷ gs) ns = length (nodes_in_group ns g) + total gs ns

occurrences : List (List ℕ) → List ℕ → ℕ
occurrences [] x = 0
occurrences (g ∷ gs) x = (if text_eq x g then 1 else 0) + occurrences gs x

occurrences-none : (gs : List (List ℕ)) (x : List ℕ) → includes gs x ≡ false → occurrences gs x ≡ 0
unfolding occurrences
occurrences-none [] x h = refl
occurrences-none (g ∷ gs) x h = ground (arith, h, occurrences-none gs x, text_eq_comm x g)

occurrences-one :
    (gs : List (List ℕ)) (x : List ℕ)
    → is_distinct gs ≡ true
    → includes gs x ≡ true
    → occurrences gs x ≡ 1
unfolding occurrences
occurrences-one [] x h k = absurd (cc)
occurrences-one (g ∷ gs) x h k = elim (Bool-cases (text_eq x g)) [
  | inl e ↦ ground (arith, e, h, occurrences-none gs x, includes-at gs x g e)
  | inr e ↦ ground (arith, e, h, k, occurrences-one gs x, text_eq_comm x g)
]

total-cons :
    (gs : List (List ℕ)) (n : ConnectedNodeInfo) (ns : List ConnectedNodeInfo)
    → total gs (n ∷ ns) ≡ occurrences gs n.group + total gs ns
unfolding total occurrences nodes_in_group
total-cons [] n ns = refl
total-cons (g ∷ gs) n ns = ground (arith, total-cons gs n ns)

total-nil : (gs : List (List ℕ)) → total gs [] ≡ 0
unfolding total nodes_in_group
total-nil [] = refl
total-nil (g ∷ gs) = omega (arith, total-nil gs)

total_lem :
    (gs : List (List ℕ)) (ns : List ConnectedNodeInfo)
    → is_distinct gs ≡ true
    → All (λ n. includes gs n.group ≡ true) ns
    → total gs ns ≡ length ns
total_lem gs [] h k = total-nil gs
total_lem gs (n ∷ ns) h k =
    omega (arith, total-cons gs n ns, occurrences-one gs n.group h k.0, total_lem gs ns h k.1)

shown-total : (s : App) (gs : List (List ℕ)) → shown (map (sidebar_group s) gs) ≡ total gs s.nodes
unfolding total sidebar_group
shown-total s [] = refl
shown-total s (g ∷ gs) = omega (arith, shown-total s gs, length-map s (nodes_in_group s.nodes g))

All-cons_group :
    (n : ConnectedNodeInfo) (ms : List (List ℕ)) (ns : List ConnectedNodeInfo)
    → All (λ m. includes ms m.group ≡ true) ns
    → All (λ m. includes (n.group ∷ ms) m.group ≡ true) ns
All-cons_group n ms [] h = tt
All-cons_group n ms (m ∷ ns) h = (ground (arith, h.0), All-cons_group n ms ns h.1)

own_groups :
    (ns : List ConnectedNodeInfo) → All (λ n. includes (map (λ m. m.group) ns) n.group ≡ true) ns
own_groups [] = tt
own_groups (n ∷ ns) = (
  ground (arith, text_eq_refl n.group),
  All-cons_group n (map (λ m. m.group) ns) ns (own_groups ns),
)

in_groups :
    (ms ns : List ConnectedNodeInfo)
    → All (λ n. includes (map (λ m. m.group) ms) n.group ≡ true) ns
    → All (λ n. includes (groups ms) n.group ≡ true) ns
in_groups ms [] h = tt
in_groups ms (n ∷ ns) h = ((includes-groups ms n.group).0 ∙ h.0, in_groups ms ns h.1)

-- The sidebar shows as many nodes as are connected: each under its group, none twice.
pub shown-sidebar : (s : App) → shown (sidebar s) ≡ length s.nodes
unfolding sidebar
shown-sidebar s =
    shown-total s (groups s.nodes)
    ∙ total_lem (groups s.nodes) s.nodes (includes-groups s.nodes []).1
        (in_groups s.nodes s.nodes (own_groups s.nodes))

abbrev pub all_true : List Bool → Bool
all_true [] = true
all_true (b ∷ bs) = b && all_true bs

cells_lem :
    (e : AuditEntry) (ns : List ConnectedNodeInfo)
    → is_empty (filter (λ n. not (is_present e n.node_id)) ns)
      ≡ all_true (map (λ n. is_present e n.node_id) ns)
cells_lem e [] = refl
cells_lem e (n ∷ ns) = elim (Bool-cases (is_present e n.node_id)) [
  | inl h ↦ ground (arith, h, cells_lem e ns)
  | inr h ↦ ground (arith, h)
]

-- The badge agrees with the cells.
pub IsAgreed : AuditLine → Type 0
IsAgreed l = l.is_synced ≡ all_true l.cells

-- In the audit of the target group every line is marked synced exactly when each of its cells is a
-- check mark.
pub audit_line-IsAgreed :
    (s : App) → All IsAgreed (map (audit_line s) (diff_audit_list s.nodes s.target_group))
unfolding diff_audit_list audit_group audit_line IsAgreed audit_row
audit_line-IsAgreed s = go (is_empty (nodes_in_group s.nodes s.target_group))
  where
    rows :
        (m : RulesMap)
        → All IsAgreed (
            map (audit_line s) (map (λ r. audit_row (nodes_in_group s.nodes s.target_group) r.1) m))
    rows [] = tt
    rows (r ∷ m) = (cells_lem r.1 (nodes_in_group s.nodes s.target_group), rows m)

    go :
        (b : Bool)
        → All IsAgreed (
            map (audit_line s) (
              if b
              then []
              else map
                  (λ r. audit_row (nodes_in_group s.nodes s.target_group) r.1)
                  (audit_nodes [] (nodes_in_group s.nodes s.target_group))))
    go true = tt
    go false = rows (audit_nodes [] (nodes_in_group s.nodes s.target_group))
