-- ===== src/Console/State/Laws.antt =====
-- The node check boxes, and what the effects leave behind.
use xdp_nat_forward.Base.{
  ℕ, ◌≡◌, ◌∙◌, ap, refl, arith, true, false, not, ◌&&◌, List, [], ◌∷◌, map, if◌then◌else◌,
  Bool-cases, inl, inr, ◌⊎◌,
}
use xdp_nat_forward.Console.Text.{text_eq, is_empty}
use xdp_nat_forward.Console.Text.Laws.{text_eq_refl, text_eq_lem}
use xdp_nat_forward.Console.Sets.{
  includes, filter, is_distinct, text_eq_comm, includes-append, includes-at, includes-add_all,
  add_all-distinct,
}
use xdp_nat_forward.Console.State.{
  ConnectedNodeInfo, App, groups, valid_group, effects_of_nodes, pick_group, pick_node,
  init_targets, nodes_in_group, node_ids, toggle,
}

includes-filter :
    (xs : List (List ℕ)) (x y : List ℕ)
    → includes (filter (λ id. not (text_eq id x)) xs) y ≡ includes xs y && not (text_eq y x)
includes-filter [] x y = refl
includes-filter (z ∷ xs) x y = elim (Bool-cases (text_eq z y)) [
  | inl e ↦ ground (arith, includes-filter xs x y, e, ap (λ w. text_eq w x) (text_eq_lem z y e))
  | inr e ↦ ground (arith, includes-filter xs x y, e)
]

-- Toggling an id changes whether that id is selected, and no other id.
pub includes-toggle :
    (id : List ℕ) (xs : List (List ℕ)) (y : List ℕ)
    → includes (toggle id xs) y ≡ (if text_eq y id then not (includes xs id) else includes xs y)
unfolding toggle
includes-toggle id xs y = elim (Bool-cases (text_eq y id)) [
  | inl e ↦ ground (
    arith,
    e,
    includes-filter xs id y,
    includes-append xs (id ∷ []) y,
    text_eq_comm y id,
    includes-at xs y id e,
  )
  | inr e ↦
      ground (arith, e, includes-filter xs id y, includes-append xs (id ∷ []) y, text_eq_comm y id)
]

-- The groups are those of the nodes, each listed once.
pub includes-groups :
    (ns : List ConnectedNodeInfo) (g : List ℕ)
    → (includes (groups ns) g ≡ includes (map (λ n. n.group) ns) g)
      × (is_distinct (groups ns) ≡ true)
unfolding groups
includes-groups ns g = (
  includes-add_all [] (map (λ n. n.group) ns) g,
  add_all-distinct [] (map (λ n. n.group) ns) refl,
)

valid_group-includes :
    (gs : List (List ℕ)) (g : List ℕ) → is_empty gs ≡ false → includes gs (valid_group gs g) ≡ true
unfolding valid_group
valid_group-includes [] g h = absurd (cc)
valid_group-includes (k ∷ gs) g h = ground (arith, text_eq_refl k)

nonempty_of_includes :
    (gs : List (List ℕ)) (g : List ℕ) → includes gs g ≡ true → is_empty gs ≡ false
nonempty_of_includes [] g h = absurd (cc)
nonempty_of_includes (k ∷ gs) g h = refl

pub groups-nonempty :
    (n : ConnectedNodeInfo) (ns : List ConnectedNodeInfo) → is_empty (groups (n ∷ ns)) ≡ false
groups-nonempty n ns =
    nonempty_of_includes (groups (n ∷ ns)) n.group
      ((includes-groups (n ∷ ns) n.group).0 ∙ ground (arith, text_eq_refl n.group))

valid_group-kept :
    (gs : List (List ℕ)) (g : List ℕ) → (valid_group gs g ≡ g) ⊎ (includes gs g ≡ false)
unfolding valid_group
valid_group-kept [] g = inl refl
valid_group-kept (k ∷ gs) g = elim (Bool-cases (includes (k ∷ gs) g)) [
  | inl e ↦ inl (rw e refl)
  | inr e ↦ inr e
]

-- With nodes connected, the target group after the effects is one of theirs, and it changes only when
-- it was none of theirs; the targets are all the nodes of that group, whatever was selected before.
pub effects_of_nodes_lem :
    (s : App)
    → is_empty s.nodes ≡ false
    → (includes (groups s.nodes) (effects_of_nodes s).target_group ≡ true)
      × (((effects_of_nodes s).target_group ≡ s.target_group)
          ⊎ (includes (groups s.nodes) s.target_group ≡ false))
      × ((effects_of_nodes s).selected_node_targets
          ≡ node_ids (nodes_in_group s.nodes (effects_of_nodes s).target_group))
unfolding effects_of_nodes pick_group pick_node init_targets
effects_of_nodes_lem s h = (
  valid_group-includes (groups s.nodes) s.target_group (nonempty_lem s.nodes h),
  valid_group-kept (groups s.nodes) s.target_group,
  refl,
)
  where
    nonempty_lem :
        (ns : List ConnectedNodeInfo) → is_empty ns ≡ false → is_empty (groups ns) ≡ false
    nonempty_lem [] k = absurd (cc)
    nonempty_lem (n ∷ ns) k = groups-nonempty n ns
