-- ===== src/Daemon/Rules/Saved.antt =====
-- forward/src/rule.rs, the start of the daemon after a save: `save_rules` and
-- `load_and_restore_rules` together.
use xdp_nat_forward.Base.{
  ℕ, ◌≡◌, ◌∙◌, ap, sym, refl, true, none, some, List, ◌⊎◌, inl, inr, IsIn, Option-cases,
  some_injective, none_not_some,
}
use xdp_nat_forward.Datapath.Packet.{swap16, swap32}
use xdp_nat_forward.Datapath.Packet.Laws.{swap32-lt, swap16-swap16}
use xdp_nat_forward.Datapath.Types.{ForwardKey, ForwardVal}
use xdp_nat_forward.Datapath.Maps.{HashMap}
use xdp_nat_forward.Datapath.Maps.Iteration.{Iteration}
use xdp_nat_forward.Daemon.Host.{Network}
use xdp_nat_forward.Daemon.Rules.{ForwardRule, ok, rule_of, restore, list_forward_rules, RulesFile}
use xdp_nat_forward.Daemon.Rules.Words.{swap32-swap32}
use xdp_nat_forward.Daemon.Rules.Listing.{list_forward_rules_back, list_forward_rules_forth}
use xdp_nat_forward.Daemon.Rules.Restore.{
  key_of_rule, HasRules, CanRestore, IsStored, restore-ForwardsTo, restore_other,
}

module _ (forward_map : HashMap ForwardKey ForwardVal) (nets : ℕ → Network)
    (iteration : Iteration forward_map) (file : RulesFile) where
  open forward_map use {Map, get}

  -- Well-formed rules that are listed and successfully saved come back in an empty map when the
  -- file is read and restored: the same keys forward to the same addresses and ports, if each
  -- of these rules is resolved and finds the map not full when its turn comes.
  pub restore-write :
      (f g : RulesFile.File file) (m u : Map) (rules : List ForwardRule)
      → HasRules forward_map m
      → list_forward_rules forward_map iteration m ≡ ok rules
      → RulesFile.write file f rules ≡ (true, g)
      → ((k : ForwardKey) → get u k ≡ none)
      → CanRestore forward_map nets 0 rules u
      → (again : List ForwardRule) × (RulesFile.read file g ≡ some again)
        × ((k : ForwardKey)
            → ((get m k ≡ none) × (get (restore forward_map nets 0 again u) k ≡ none))
              ⊎ ((v : ForwardVal) × (w : ForwardVal) × (get m k ≡ some v)
                  × (get (restore forward_map nets 0 again u) k ≡ some w)
                  × (w.forward_ip ≡ v.forward_ip)
                  × (w.forward_port ≡ v.forward_port)))
  restore-write f g m u rules h listed written empty can = (
    rules,
    file.read-write f g rules written,
    λ k. elim (Option-cases (get m k)) [
      | inl absent ↦ inl (
        absent,
        restore_other forward_map nets 0 rules u k saved can (λ rule w same.
              let (j, v, e, is) =
                list_forward_rules_back forward_map iteration m rules rule listed w in
              let one : j ≡ k = ap key_of_rule (sym is) ∙ same in
              none_not_some (sym absent ∙ (rw one at e)))
            ∙ empty k,
      )
      | inr (v, e) ↦
          let (w, got, to) =
            restore-ForwardsTo forward_map nets 0 rules u k v.forward_ip v.forward_port saved can
              (agree k v e)
              (inl (
                rule_of k v,
                list_forward_rules_forth forward_map iteration m rules k v listed e,
                refl,
              )) in
          inr (v, w, e, got, to.forward_ip, to.forward_port)
    ],
  )
    where
      saved : (rule : ForwardRule) → IsIn rule rules → IsStored forward_map rule
      saved rule w =
          let (k, v, e, is) = list_forward_rules_back forward_map iteration m rules rule listed w in
          rw is ((h k v e).proto, swap32-lt v.forward_ip (h k v e).fits.ip_lt)

      agree :
          (k : ForwardKey) (v : ForwardVal)
          → get m k ≡ some v
          → (rule : ForwardRule) → IsIn rule rules
          → key_of_rule rule ≡ k
          → (swap32 rule.forward_ip ≡ v.forward_ip) × (swap16 rule.forward_port ≡ v.forward_port)
      agree k v e rule w same =
          let (j, u, old, is) =
            list_forward_rules_back forward_map iteration m rules rule listed w in
          let one : j ≡ k = ap key_of_rule (sym is) ∙ same in
          let value : u ≡ v = some_injective (sym old ∙ (rw (← one) at e)) in
          rw (is, value)
            (
              swap32-swap32 v.forward_ip (h k v e).fits.ip_lt,
              swap16-swap16 v.forward_port (h k v e).fits.port_lt,
            )
