-- ===== src/Console/Audit/Entries.antt =====
-- What the entries of `rulesMap` record: the rule of their key, and the ids of the nodes that have it.
use xdp_nat_forward.Base.{
  ℕ, ◌≡◌, ◌∙◌, sym, ap, refl, subst, arith, Bool, false, ◌&&◌, ◌||◌, List, [], ◌∷◌, ◌++◌, All,
  Bool-cases, inl, inr,
}
use xdp_nat_forward.Console.Text.{text_eq}
use xdp_nat_forward.Console.Text.Laws.{text_eq_lem}
use xdp_nat_forward.Console.Sets.{includes, includes-set_add, any, text_eq_comm}
use xdp_nat_forward.Console.State.{ForwardRule, ConnectedNodeInfo}
use xdp_nat_forward.Console.Audit.{
  RulesMap, AuditEntry, key_of, rule_key, keys, ensure, new_entry, mark, audit_rule, audit_rules,
  audit_nodes,
}
use xdp_nat_forward.Console.Audit.Keys.{keys-mark, keys-ensure}

abbrev pub entry_key : AuditEntry → List ℕ
entry_key e = key_of e.proto e.local_port e.forward_ip e.forward_port

-- A rule of the signature is among the rules.
abbrev pub has_key : List ForwardRule → List ℕ → Bool
has_key rs k = any (λ r. text_eq (rule_key r) k) rs

-- A node of the id has a rule of the signature.
abbrev pub held : List ConnectedNodeInfo → List ℕ → List ℕ → Bool
held ns k id = any (λ n. text_eq n.node_id id && has_key n.rules k) ns

abbrev pub IsMarked : (List ℕ → List ℕ → Bool) → List ℕ × AuditEntry → Type 0
IsMarked h r = (entry_key r.1 ≡ r.0) × ((id : List ℕ) → includes r.1.node_presence id ≡ h r.0 id)

-- The entries agree with a table of signatures and ids, which is false for other signatures.
pub record Marked (h : List ℕ → List ℕ → Bool) (m : RulesMap) : Type 0 where
  pub rows : All (IsMarked h) m
  pub absent : (k id : List ℕ) → includes (keys m) k ≡ false → h k id ≡ false

abbrev pub with_rule : (List ℕ → List ℕ → Bool) → List ℕ → ForwardRule → List ℕ → List ℕ → Bool
with_rule h node_id r k id = h k id || (text_eq node_id id && text_eq (rule_key r) k)

Marked-ext :
    (h g : List ℕ → List ℕ → Bool) (m : RulesMap)
    → ((k id : List ℕ) → h k id ≡ g k id)
    → Marked h m
    → Marked g m
Marked-ext h g m e = subst (λ f. Marked f m) (λ i k id. e k id i)

All-append :
    (h : List ℕ → List ℕ → Bool) (m n : RulesMap)
    → All (IsMarked h) m
    → All (IsMarked h) n
    → All (IsMarked h) (m ++ n)
All-append h [] n a b = b
All-append h (r ∷ m) n a b = (a.0, All-append h m n a.1 b)

ensure-Marked :
    (h : List ℕ → List ℕ → Bool) (m : RulesMap) (r : ForwardRule)
    → Marked h m
    → Marked h (ensure m r)
unfolding ensure
ensure-Marked h m r w = elim (Bool-cases (includes (keys m) (rule_key r))) [
  | inl e ↦ rw e w
  | inr e ↦ record {
    rows = rw e (
        All-append h m ((rule_key r, new_entry r) ∷ []) w.rows
          ((refl, λ id. sym (w.absent (rule_key r) id e)), tt));
    absent = λ k id a. w.absent k id (
        ground (
          arith,
          a,
          ap (λ ks. includes ks k) (keys-ensure m r),
          includes-set_add (keys m) (rule_key r) k,
        ));
  }
]

mark-rows :
    (h : List ℕ → List ℕ → Bool) (m : RulesMap) (node_id : List ℕ) (r : ForwardRule)
    → All (IsMarked h) m
    → All (IsMarked (with_rule h node_id r)) (mark m (rule_key r) node_id)
unfolding mark
mark-rows h [] node_id r w = tt
mark-rows h ((k, e) ∷ m) node_id r w = elim (Bool-cases (text_eq k (rule_key r))) [
  | inl p ↦ (
    rw p (w.0.0, λ id. ground (arith, w.0.1 id, sym (text_eq_lem k (rule_key r) p))),
    mark-rows h m node_id r w.1,
  )
  | inr p ↦ (
    rw p (w.0.0, λ id. ground (arith, w.0.1 id, p, text_eq_comm k (rule_key r))),
    mark-rows h m node_id r w.1,
  )
]

-- One rule of one node.
audit_rule-Marked :
    (h : List ℕ → List ℕ → Bool) (m : RulesMap) (node_id : List ℕ) (r : ForwardRule)
    → Marked h m
    → Marked (with_rule h node_id r) (audit_rule node_id m r)
unfolding audit_rule
audit_rule-Marked h m node_id r w = record {
  rows = mark-rows h (ensure m r) node_id r ensured.rows;
  absent = λ k id a. ground (
    arith,
    ensured.absent k id (sym (key_lem k) ∙ a),
    w.absent k id,
    a,
    key_lem k,
    ap (λ ks. includes ks k) (keys-ensure m r),
    includes-set_add (keys m) (rule_key r) k,
  );
}
  where
    ensured : Marked h (ensure m r)
    ensured = ensure-Marked h m r w

    key_lem :
        (k : List ℕ)
        → includes (keys (mark (ensure m r) (rule_key r) node_id)) k
          ≡ includes (keys (ensure m r)) k
    key_lem k = ap (λ ks. includes ks k) (keys-mark (ensure m r) (rule_key r) node_id)

audit_rules-Marked :
    (h : List ℕ → List ℕ → Bool) (m : RulesMap) (node_id : List ℕ) (rs : List ForwardRule)
    → Marked h m
    → Marked (λ k id. h k id || (text_eq node_id id && has_key rs k)) (audit_rules node_id m rs)
unfolding audit_rules
audit_rules-Marked h m node_id [] w = Marked-ext h _ m (λ k id. ground arith) w
audit_rules-Marked h m node_id (r ∷ rs) w =
    Marked-ext _ _ _ (λ k id. ground arith)
      (audit_rules-Marked (with_rule h node_id r) (audit_rule node_id m r) node_id rs
        (audit_rule-Marked h m node_id r w))

audit_nodes-Marked :
    (h : List ℕ → List ℕ → Bool) (m : RulesMap) (ns : List ConnectedNodeInfo)
    → Marked h m
    → Marked (λ k id. h k id || held ns k id) (audit_nodes m ns)
unfolding audit_nodes
audit_nodes-Marked h m [] w = Marked-ext h _ m (λ k id. ground arith) w
audit_nodes-Marked h m (n ∷ ns) w =
    Marked-ext _ _ _ (λ k id. ground arith)
      (audit_nodes-Marked (λ k id. h k id || (text_eq n.node_id id && has_key n.rules k))
        (audit_rules n.node_id m n.rules) ns (audit_rules-Marked h m n.node_id n.rules w))

pub audit-Marked : (ns : List ConnectedNodeInfo) → Marked (held ns) (audit_nodes [] ns)
audit-Marked ns =
    audit_nodes-Marked (λ k id. false) [] ns (record { rows = tt; absent = λ k id a. refl })
