-- ===== src/Daemon/Rules/Restore.antt =====
-- forward/src/rule.rs: what an addition and the loop of `load_and_restore_rules` do to well-formed
-- rules.
use xdp_nat_forward.Base.{
  ℕ, suc, ◌^◌, ◌<◌, ◌≡◌, ◌≢◌, ◌∙◌, ap, sym, refl, none, some, List, [], ◌∷◌, ◌⊎◌, inl, inr, IsIn,
  some_injective, none_not_some,
}
use xdp_nat_forward.Datapath.Packet.{swap16, swap32}
use xdp_nat_forward.Datapath.Types.{ForwardKey, ForwardVal, ForwardKey-discrete}
use xdp_nat_forward.Datapath.Maps.{HashMap}
use xdp_nat_forward.Datapath.Maps.Cases.{get-insert_back}
use xdp_nat_forward.Datapath.Session.Typed.{RuleFits}
use xdp_nat_forward.Daemon.Words.{show_ipv4}
use xdp_nat_forward.Daemon.Words.Addresses.{parse_ipv4-show_ipv4}
use xdp_nat_forward.Daemon.Host.{Network, resolve_ip_mac}
use xdp_nat_forward.Daemon.Host.Laws.{resolve_ip_mac-IsMac}
use xdp_nat_forward.Daemon.Rules.{
  ForwardRule, Result, rule_val, add_forward_rule, stored_proto, restore,
}
use xdp_nat_forward.Daemon.Rules.Words.{
  IsProto, parse_proto-IsProto, parse_proto-stored, parse_ipv4-lt, rule_val-RuleFits,
}
use xdp_nat_forward.Daemon.Rules.Table.{
  key_at, Addition, rejected, stored, add_forward_rule-Addition,
}

-- A rule as `add_forward_rule` writes them.
pub record IsRule (k : ForwardKey) (v : ForwardVal) : Type 0 where
  pub proto : IsProto k.proto
  pub fits : RuleFits v

-- The key of a rule, and where it forwards to.
abbrev pub key_of_rule : ForwardRule → ForwardKey
key_of_rule rule = key_at rule.proto rule.local_port

-- The value forwards to the address and port, whatever MAC address it has.
pub record Targets (ip port : ℕ) (v : ForwardVal) : Type 0 where
  pub forward_ip : v.forward_ip ≡ ip
  pub forward_port : v.forward_port ≡ port

module _ (forward_map : HashMap ForwardKey ForwardVal) where
  open forward_map use {Map, get, insert}

  -- Every rule of the map is as `add_forward_rule` writes them.
  abbrev pub HasRules : Map → Type 0
  HasRules m = (k : ForwardKey) (v : ForwardVal) → get m k ≡ some v → IsRule k v

  -- An addition keeps the rules well-formed, as the datapath needs them, for a port of 16 bits.
  pub add_forward_rule-HasRules :
      (net : Network) (proto_str : List ℕ) (port : ℕ) (ip_str : List ℕ) (forward_port : ℕ) (m : Map)
      → forward_port < 65536
      → HasRules m
      → HasRules (add_forward_rule forward_map net proto_str port ip_str forward_port m).1
  add_forward_rule-HasRules net proto_str port ip_str forward_port m h w =
      go _ (add_forward_rule-Addition forward_map net proto_str port ip_str forward_port m)
    where
      go :
          (r : Result (List ℕ) × Map)
          → Addition forward_map net proto_str port ip_str forward_port m r
          → HasRules r.1
      go r (rejected e why) = w
      go r (stored proto ip mac m' a b c d) = λ k v e.
          elim (get-insert_back forward_map ForwardKey-discrete m m' _ k _ v d e) [
            | inl (same, is) ↦
                rw (same, is)
                  (record {
                    proto = parse_proto-IsProto proto_str proto a;
                    fits =
                        rule_val-RuleFits ip forward_port mac (parse_ipv4-lt ip_str ip b) h
                          (resolve_ip_mac-IsMac net ip_str mac c);
                  })
            | inr (other, old) ↦ w k v old
          ]

  -- Each rule that is restored is one of a well-formed map.
  abbrev pub IsStored : ForwardRule → Type 0
  IsStored rule = IsProto rule.proto × (rule.forward_ip < 2 ^ 32)

  module _ (nets : ℕ → Network) where
    unfoldable pub restored : ℕ → ForwardRule → Map → Map
    restored i rule m =
        (add_forward_rule forward_map (nets i) (stored_proto forward_map rule) rule.local_port
          (show_ipv4 rule.forward_ip) rule.forward_port m).1

    -- The address of the rule is resolved in the network as it is then.
    abbrev pub IsResolved : ℕ → ForwardRule → Type 0
    IsResolved i rule = resolve_ip_mac (nets i) (show_ipv4 rule.forward_ip) ≢ none

    -- The map is not full: it takes an entry.
    abbrev pub HasPlace : Map → Type 0
    HasPlace m = (k : ForwardKey) (v : ForwardVal) → insert m k v ≢ none

    -- Each rule of the list is resolved and has a place in the map when its turn comes.
    unfoldable pub CanRestore : ℕ → List ForwardRule → Map → Type 0
    CanRestore i [] m = Unit
    CanRestore i (r ∷ rules) m =
        IsResolved i r × HasPlace m × CanRestore (suc i) rules (restored i r m)

    -- A stored rule is inserted under its key with the MAC address found now.
    restored_lem :
        (i : ℕ) (rule : ForwardRule) (m : Map)
        → IsStored rule
        → IsResolved i rule
        → HasPlace m
        → (mac : List ℕ) × (insert m
              (key_of_rule rule)
              (rule_val rule.forward_ip rule.forward_port mac)
            ≡ some (restored i rule m))
    unfolding restored
    restored_lem i rule m s found room = go _ (
        add_forward_rule-Addition forward_map (nets i) (stored_proto forward_map rule)
          rule.local_port (show_ipv4 rule.forward_ip) rule.forward_port m)
      where
        go :
            (r : Result (List ℕ) × Map)
            → Addition forward_map
                (nets i)
                (stored_proto forward_map rule)
                rule.local_port
                (show_ipv4 rule.forward_ip)
                rule.forward_port
                m
                r
            → (mac : List ℕ) × (insert m
                  (key_of_rule rule)
                  (rule_val rule.forward_ip rule.forward_port mac)
                ≡ some r.1)
        go r (rejected e (inl a)) =
            absurd (none_not_some (sym a ∙ parse_proto-stored rule.proto s.0))
        go r (rejected e (inr (inl b))) =
            absurd (none_not_some (sym b ∙ parse_ipv4-show_ipv4 rule.forward_ip s.1))
        go r (rejected e (inr (inr (inl c)))) = absurd (found c)
        go r (rejected e (inr (inr (inr (k, v, d))))) = absurd (room k v d)
        go r (stored proto ip mac m' a b c d) =
            let same_proto = some_injective (sym a ∙ parse_proto-stored rule.proto s.0) in
            let same_ip = some_injective (sym b ∙ parse_ipv4-show_ipv4 rule.forward_ip s.1) in
            (mac, rw (← same_proto, ← same_ip) d)

    -- The key forwards to the address and port.
    abbrev pub ForwardsTo : ForwardKey → ℕ → ℕ → Map → Type 0
    ForwardsTo k ip port m = (v : ForwardVal) × (get m k ≡ some v) × Targets ip port v

    -- Every rule of the list that has the key forwards to the address and port.
    abbrev pub Agree : ForwardKey → ℕ → ℕ → List ForwardRule → Type 0
    Agree k ip port rules =
        (rule : ForwardRule)
        → IsIn rule rules
        → key_of_rule rule ≡ k
        → (swap32 rule.forward_ip ≡ ip) × (swap16 rule.forward_port ≡ port)

    abbrev pub AllStored : List ForwardRule → Type 0
    AllStored rules = (rule : ForwardRule) → IsIn rule rules → IsStored rule

    restored-ForwardsTo :
        (i : ℕ) (rule : ForwardRule) (m : Map) (k : ForwardKey) (ip port : ℕ)
        → IsStored rule
        → IsResolved i rule
        → HasPlace m
        → (key_of_rule rule ≡ k → (swap32 rule.forward_ip ≡ ip) × (swap16 rule.forward_port ≡ port))
        → (key_of_rule rule ≡ k) ⊎ ForwardsTo k ip port m
        → ForwardsTo k ip port (restored i rule m)
    restored-ForwardsTo i rule m k ip port s found room agree h =
        let (mac, e) = restored_lem i rule m s found room in
        elim (ForwardKey-discrete k (key_of_rule rule)) [
          | yes same ↦
              let (a, b) = agree (sym same) in
              (
                rule_val rule.forward_ip rule.forward_port mac,
                rw same (forward_map.get-insert_self m (restored i rule m) _ _ e),
                record { forward_ip = a; forward_port = b },
              )
          | no other ↦ elim h [
            | inl same ↦ absurd (other (sym same))
            | inr (v, g, w) ↦
                (v, forward_map.get-insert_ne m (restored i rule m) _ k _ e other ∙ g, w)
          ]
        ]

    pub restore-ForwardsTo :
        (i : ℕ) (rules : List ForwardRule) (m : Map) (k : ForwardKey) (ip port : ℕ)
        → AllStored rules
        → CanRestore i rules m
        → Agree k ip port rules
        → ((rule : ForwardRule) × IsIn rule rules × (key_of_rule rule ≡ k)) ⊎ ForwardsTo k ip port m
        → ForwardsTo k ip port (restore forward_map nets i rules m)
    unfolding restore restored CanRestore
    restore-ForwardsTo i [] m k ip port s can agree (inl (rule, w, e)) = absurd w
    restore-ForwardsTo i [] m k ip port s can agree (inr h) = h
    restore-ForwardsTo i (r ∷ rules) m k ip port s can agree h =
        restore-ForwardsTo (suc i) rules (restored i r m) k ip port (λ q w. s q (inr w)) can.2
          (λ q w. agree q (inr w))
          (elim h [
            | inl (rule, inr w, e) ↦ inl (rule, w, e)
            | inl (rule, inl same, e) ↦ inr (
                restored-ForwardsTo i r m k ip port (s r (inl refl)) can.0 can.1
                  (agree r (inl refl)) (inl (ap key_of_rule (sym same) ∙ e)))
            | inr old ↦ inr (
                restored-ForwardsTo i r m k ip port (s r (inl refl)) can.0 can.1
                  (agree r (inl refl)) (inr old))
          ])

    -- A key without a rule in the list keeps what it has.
    pub restore_other :
        (i : ℕ) (rules : List ForwardRule) (m : Map) (k : ForwardKey)
        → AllStored rules
        → CanRestore i rules m
        → ((rule : ForwardRule) → IsIn rule rules → key_of_rule rule ≢ k)
        → get (restore forward_map nets i rules m) k ≡ get m k
    unfolding restore restored CanRestore
    restore_other i [] m k s can n = refl
    restore_other i (r ∷ rules) m k s can n =
        let (mac, e) = restored_lem i r m (s r (inl refl)) can.0 can.1 in
        restore_other (suc i) rules (restored i r m) k (λ q w. s q (inr w)) can.2
          (λ q w. n q (inr w))
        ∙ forward_map.get-insert_ne m (restored i r m) _ k _ e (λ same. n r (inl refl) (sym same))
