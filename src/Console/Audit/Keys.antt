-- ===== src/Console/Audit/Keys.antt =====
-- The keys of `rulesMap` are the signatures of all rules, each once, in the order of their first
-- occurrence.
use xdp_nat_forward.Base.{
  ℕ, ◌≡◌, ◌∙◌, sym, ap, refl, List, [], ◌∷◌, ◌++◌, map, Bool-cases, inl, inr,
}
use xdp_nat_forward.Console.Sets.{includes, set_add, add_all}
use xdp_nat_forward.Console.State.{ForwardRule, ConnectedNodeInfo}
use xdp_nat_forward.Console.Audit.{
  RulesMap, rule_key, keys, ensure, mark, audit_rule, audit_rules, audit_nodes,
}

-- The signatures of all rules of the nodes.
abbrev pub all_keys : List ConnectedNodeInfo → List (List ℕ)
all_keys [] = []
all_keys (n ∷ ns) = map rule_key n.rules ++ all_keys ns

-- Each signature once.
abbrev pub signatures : List ConnectedNodeInfo → List (List ℕ)
signatures ns = add_all [] (all_keys ns)

add_all-append : (s xs ys : List (List ℕ)) → add_all s (xs ++ ys) ≡ add_all (add_all s xs) ys
unfolding add_all
add_all-append s [] ys = refl
add_all-append s (x ∷ xs) ys = add_all-append (set_add s x) xs ys

keys-append : (m n : RulesMap) → keys (m ++ n) ≡ keys m ++ keys n
keys-append [] n = refl
keys-append (r ∷ m) n = ap (λ ks. r.0 ∷ ks) (keys-append m n)

pub keys-mark : (m : RulesMap) (key node_id : List ℕ) → keys (mark m key node_id) ≡ keys m
unfolding mark
keys-mark [] key node_id = refl
keys-mark ((k, e) ∷ m) key node_id = ap (λ ks. k ∷ ks) (keys-mark m key node_id)

pub keys-ensure :
    (m : RulesMap) (rule : ForwardRule) → keys (ensure m rule) ≡ set_add (keys m) (rule_key rule)
unfolding ensure set_add
keys-ensure m rule = elim (Bool-cases (includes (keys m) (rule_key rule))) [
  | inl e ↦ rw e refl
  | inr e ↦ rw e (keys-append m _)
]

keys-audit_rules :
    (node_id : List ℕ) (m : RulesMap) (rs : List ForwardRule)
    → keys (audit_rules node_id m rs) ≡ add_all (keys m) (map rule_key rs)
unfolding audit_rules audit_rule add_all
keys-audit_rules node_id m [] = refl
keys-audit_rules node_id m (r ∷ rs) =
    keys-audit_rules node_id (mark (ensure m r) (rule_key r) node_id) rs
    ∙ ap (λ ks. add_all ks (map rule_key rs))
        (keys-mark (ensure m r) (rule_key r) node_id ∙ keys-ensure m r)

pub keys-audit_nodes :
    (m : RulesMap) (ns : List ConnectedNodeInfo)
    → keys (audit_nodes m ns) ≡ add_all (keys m) (all_keys ns)
unfolding audit_nodes add_all
keys-audit_nodes m [] = refl
keys-audit_nodes m (n ∷ ns) =
    keys-audit_nodes (audit_rules n.node_id m n.rules) ns
    ∙ (ap (λ ks. add_all ks (all_keys ns)) (keys-audit_rules n.node_id m n.rules)
        ∙ sym (add_all-append (keys m) (map rule_key n.rules) (all_keys ns)))
