-- ===== src/Daemon/Rules/Listing.antt =====
-- forward/src/rule.rs, `list_forward_rules` and the map that it walks.
use xdp_nat_forward.Base.{
  ◌≡◌, ap, sym, refl, Option, none, some, List, [], ◌∷◌, inl, inr, IsIn, some_injective,
  none_not_some,
}
use xdp_nat_forward.Datapath.Types.{ForwardKey, ForwardVal}
use xdp_nat_forward.Datapath.Maps.{HashMap}
use xdp_nat_forward.Datapath.Maps.Iteration.{Iteration}
use xdp_nat_forward.Daemon.Rules.{
  ForwardRule, RuleError, Result, ok, err, rule_of, add_item, list_items, list_forward_rules,
}

err_not_ok : {A : Type 0} {e : RuleError} {a : A} → err e ≡ ok a → ⊥
err_not_ok h = absurd (cc)

ok_injective : {A : Type 0} {a b : A} → ok a ≡ ok b → a ≡ b
ok_injective h = cc

-- The items of a listing that succeeds, one by one.
list_items_cons :
    (r : ForwardKey × ForwardVal) (items : List (Option (ForwardKey × ForwardVal)))
    (rules : List ForwardRule)
    → list_items (some r ∷ items) ≡ ok rules
    → (rest : List ForwardRule) × (list_items items ≡ ok rest) × (rules ≡ rule_of r.0 r.1 ∷ rest)
unfolding list_items
list_items_cons r items rules h = go (list_items items) refl h
  where
    go :
        (o : Result (List ForwardRule))
        → list_items items ≡ o
        → add_item (some r) o ≡ ok rules
        → (rest : List ForwardRule) × (list_items items ≡ ok rest)
          × (rules ≡ rule_of r.0 r.1 ∷ rest)
    go (err e) a b = absurd (err_not_ok b)
    go (ok rest) a b = (rest, a, sym (ok_injective b))

items_back :
    (items : List (Option (ForwardKey × ForwardVal))) (rules : List ForwardRule)
    (rule : ForwardRule)
    → list_items items ≡ ok rules
    → IsIn rule rules
    → (k : ForwardKey) × (v : ForwardVal) × IsIn (some (k, v)) items × (rule ≡ rule_of k v)
unfolding list_items
items_back [] rules rule h i = let e : [] ≡ rules = ok_injective h in absurd (rw (← e) at i)
items_back (none ∷ items) rules rule h i = absurd (err_not_ok h)
items_back (some r ∷ items) rules rule h i =
    let (rest, a, b) = list_items_cons r items rules h in
    elim (rw b at i) [
      | inl e ↦ (r.0, r.1, inl refl, e)
      | inr later ↦ let (k, v, w, e) = items_back items rest rule a later in (k, v, inr w, e)
    ]

items_forth :
    (items : List (Option (ForwardKey × ForwardVal))) (rules : List ForwardRule) (k : ForwardKey)
    (v : ForwardVal)
    → list_items items ≡ ok rules
    → IsIn (some (k, v)) items
    → IsIn (rule_of k v) rules
unfolding list_items
items_forth [] rules k v h i = absurd i
items_forth (none ∷ items) rules k v h i = absurd (err_not_ok h)
items_forth (some r ∷ items) rules k v h i =
    let (rest, a, b) = list_items_cons r items rules h in
    rw b (elim i [
      | inl e ↦ let same = some_injective e in inl (ap (λ x. rule_of x.0 x.1) same)
      | inr later ↦ inr (items_forth items rest k v a later)
    ])

none_listed :
    (items : List (Option (ForwardKey × ForwardVal))) (rules : List ForwardRule)
    → list_items items ≡ ok rules
    → ¬ (IsIn none items)
unfolding list_items
none_listed [] rules h i = i
none_listed (none ∷ items) rules h i = err_not_ok h
none_listed (some r ∷ items) rules h i =
    let (rest, a, b) = list_items_cons r items rules h in
    elim i [ inl e ↦ none_not_some e | inr later ↦ none_listed items rest a later ]

module _ (forward_map : HashMap ForwardKey ForwardVal) (iteration : Iteration forward_map) where
  open forward_map use {Map, get}

  -- A rule is listed only if the map has it.
  pub list_forward_rules_back :
      (m : Map) (rules : List ForwardRule) (rule : ForwardRule)
      → list_forward_rules forward_map iteration m ≡ ok rules
      → IsIn rule rules
      → (k : ForwardKey) × (v : ForwardVal) × (get m k ≡ some v) × (rule ≡ rule_of k v)
  unfolding list_forward_rules
  list_forward_rules_back m rules rule h i =
      let (k, v, w, e) = items_back (iteration.iter m) rules rule h i in
      (k, v, iteration.iter_sound m k v w, e)

  -- Every rule of the map is listed.
  pub list_forward_rules_forth :
      (m : Map) (rules : List ForwardRule) (k : ForwardKey) (v : ForwardVal)
      → list_forward_rules forward_map iteration m ≡ ok rules
      → get m k ≡ some v
      → IsIn (rule_of k v) rules
  unfolding list_forward_rules
  list_forward_rules_forth m rules k v h e = elim (iteration.iter_complete m k v e) [
    | inl i ↦ items_forth (iteration.iter m) rules k v h i
    | inr i ↦ absurd (none_listed (iteration.iter m) rules h i)
  ]
