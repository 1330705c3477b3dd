-- ===== src/Manager/Removal.antt =====
-- The button `Remove` of the console and the manager's routing together.
use xdp_nat_forward.Base.{
  Option, ℕ, subst, ◌≡◌, ◌≢◌, ◌∙◌, sym, ap, refl, arith, Bool, true, false, List, [], ◌∷◌, map,
  some, Bool-cases, inl, inr, ltb, ◌^◌, All, All-All, All-IsIn, IsIn, IsIn-map, map-IsIn, Distinct,
  some_injective, none_not_some, if◌then◌else◌,
}
use xdp_nat_forward.Console.Text.{text_eq}
use xdp_nat_forward.Console.Text.Laws.{text_eq_refl, text_eq_lem}
use xdp_nat_forward.Console.Sets.{filter}
use xdp_nat_forward.Console.State.{
  ForwardRule, ConnectedNodeInfo, App, find, is_selected, selected_node,
}
use xdp_nat_forward.Console.Handlers.{DeleteRequest, delete_request}
use xdp_nat_forward.Console.View.{rule_row}
use xdp_nat_forward.Console.Elements.{delete, handle_delete_rule}
use xdp_nat_forward.Manager.{
  ConnectedNode, TextMap, get_nodes, DeleteRulePayload, decode_delete, delete_rule, node_info,
}
use xdp_nat_forward.Manager.Laws.{is_target, values, send_all_lem}
use xdp_nat_forward.Manager.Tables.{keys}
use xdp_nat_forward.Manager.Sync.{receiver_ids}
use xdp_nat_forward.Manager.Serving.{Server, Served}
use xdp_nat_forward.Manager.Serving.Laws.{Served-Linked}

find-IsIn : {A : Type 0} (p : A → Bool) (xs : List A) (a : A) → find p xs ≡ some a → IsIn a xs
find-IsIn p [] a e = absurd (cc)
find-IsIn p (x ∷ xs) a e = elim (Bool-cases (p x)) [
  | inl h ↦ inl (sym (some_injective (rw h at e)))
  | inr h ↦ inr (find-IsIn p xs a (rw h at e))
]

-- Each entry stands under its node's id.
abbrev IsKeyed : List ℕ × ConnectedNode → Type 0
IsKeyed r = r.1.node_id ≡ r.0

-- The nodes of a group that have one id.
abbrev named : List ℕ → List ℕ → TextMap ConnectedNode → List ConnectedNode
named g id m = filter (is_target g (some (id ∷ []))) (values m)

other_id :
    (j id g : List ℕ) (n : ConnectedNode)
    → n.node_id ≡ j
    → id ≢ j
    → is_target g (some (id ∷ [])) n ≡ false
other_id j id g n key differs = elim (Bool-cases (text_eq id n.node_id)) [
  | inl e ↦ absurd (differs (text_eq_lem id n.node_id e ∙ key))
  | inr e ↦ ground (arith, e)
]

named-none :
    (g id : List ℕ) (m : TextMap ConnectedNode)
    → All IsKeyed m
    → ¬ (IsIn id (keys m))
    → named g id m ≡ []
named-none g id [] h n = refl
named-none g id ((j, b) ∷ m) h n =
    rw (other_id j id g b h.0 (λ e. n (inl e))) (named-none g id m h.1 (λ i. n (inr i)))

own_id :
    (j g : List ℕ) (n : ConnectedNode)
    → n.node_id ≡ j
    → is_target g (some (j ∷ [])) n ≡ text_eq n.group g
own_id j g n key =
    let same : text_eq j n.node_id ≡ true = rw key (text_eq_refl j) in ground (arith, same)

named-head :
    (g j : List ℕ) (n : ConnectedNode) (m : TextMap ConnectedNode)
    → n.node_id ≡ j
    → named g j m ≡ []
    → receiver_ids (named g j ((j, n) ∷ m)) ≡ (if text_eq n.group g then j ∷ [] else [])
named-head g j n m key rest = elim (Bool-cases (text_eq n.group g)) [
  | inl e ↦ rw (own_id j g n key, e, rest, key) refl
  | inr e ↦ rw (own_id j g n key, e, rest) refl
]

named-one :
    (g : List ℕ) (id : List ℕ) (n : ConnectedNode) (m : TextMap ConnectedNode)
    → All IsKeyed m
    → Distinct (keys m)
    → IsIn (id, n) m
    → receiver_ids (named g id m) ≡ (if text_eq n.group g then id ∷ [] else [])
named-one g id n [] h d i = absurd i
named-one g id n ((j, b) ∷ m) h d i = elim i [
  | inl same ↦
      let key : id ≡ j = ap (λ r. r.0) same in
      let node : n ≡ b = ap (λ r. r.1) same in
      subst
        (λ x. receiver_ids (named g x ((j, b) ∷ m)) ≡ (if text_eq n.group g then x ∷ [] else []))
        (sym key) (rw node (named-head g j b m h.0 (named-none g j m h.1 d.0)))
  | inr w ↦
      let differs : id ≢ j =
        λ e. d.0 (rw e at (map-IsIn (λ (r : List ℕ × ConnectedNode). r.0) (id, n) m w)) in
      rw (other_id j id g b h.0 differs) (named-one g id n m h.1 d.1 w)
]

-- What the payload holds of a deletion that the user confirms.
pub delete-fields :
    (text : List ℕ) (port : ℕ) (ids : Option (List (List ℕ))) (s : App) (q : DeleteRequest)
    (p : DeleteRulePayload)
    → (handle_delete_rule text port ids true s).sent ≡ some (delete q)
    → decode_delete q ≡ some p
    → (p.group ≡ s.target_group) × (p.node_ids ≡ ids) × (p.proto ≡ text) × (p.local_port ≡ port)
unfolding handle_delete_rule delete_request decode_delete
delete-fields text port ids s q p e k = elim (Bool-cases (ltb q.local_port (2 ^ 32))) [
  | inl h ↦
      let read = some_injective (rw h at k) in let asked = some_injective e in (cc, cc, cc, cc)
  | inr h ↦ absurd (none_not_some (rw h at k))
]

-- The button `Remove` of a rule, confirmed by the user: when the console shows the nodes of the manager, the
-- deletion is written to the selected node alone if that node is in the target group, and to
-- nobody if it is in another group.
pub delete_rule-rule_row :
    (s : App) (m : Server) (n : ConnectedNodeInfo) (rule : ForwardRule) (q : DeleteRequest)
    (p : DeleteRulePayload)
    → Served m
    → s.nodes ≡ get_nodes m.app
    → selected_node s ≡ some n
    → (handle_delete_rule
        (rule_row n rule).proto
        (rule_row n rule).local_port
        (some (rule_row n rule).delete_on)
        true
        s).sent
      ≡ some (delete q)
    → decode_delete q ≡ some p
    → receiver_ids (delete_rule p m.app).receivers
      ≡ (if text_eq n.group s.target_group then n.node_id ∷ [] else [])
unfolding delete_rule get_nodes rule_row selected_node
delete_rule-rule_row s m n rule q p served shown selected sent decoded =
    let (to_group, to_ids, _, _) =
      delete-fields (rule_row n rule).proto (rule_row n rule).local_port
        (some (rule_row n rule).delete_on) s q p sent decoded in
    let linked = Served-Linked m served in
    let listed : IsIn n (map (λ r. node_info r.1) m.app.nodes) =
      rw shown at (find-IsIn (λ i. is_selected s.selected_node_id i.node_id) s.nodes n selected) in
    let (r, (i, same)) = IsIn-map (λ r. node_info r.1) n m.app.nodes listed in
    let keyed = All-All _ IsKeyed m.app.nodes (λ r w. w.0) linked.nodes_open in
    let key : r.1.node_id ≡ r.0 = All-IsIn IsKeyed m.app.nodes r keyed i in
    ap receiver_ids (send_all_lem m.app.nodes p.group p.node_ids).0
    ∙ rw (to_group, to_ids, same)
        (named-one s.target_group r.1.node_id r.1 m.app.nodes keyed linked.nodes_once (rw key i))
