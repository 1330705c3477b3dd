-- ===== src/Daemon/Tests.antt =====
-- The theorems of forward/src/rule.rs and of the cleanup in main.rs at concrete tables.
use xdp_nat_forward.Base.{
  ℕ, ◌*◌, ◌≤◌, ◌≡◌, ◌↔◌, ◌⊎◌, inl, inr, refl, arith, true, false, none, some, List, [], ◌∷◌,
}
use xdp_nat_forward.Console.Text.{codes}
use xdp_nat_forward.Datapath.Types.{
  ForwardKey, ForwardVal, ForwardKey-discrete, SessionKey-discrete,
}
use xdp_nat_forward.Datapath.Maps.Listed.{cons_self, listed_maps, walk_readable}
use xdp_nat_forward.Datapath.Samples.{web_key, web_rule}
use xdp_nat_forward.Datapath.Session.Paired.{reverse_of}
use xdp_nat_forward.Daemon.Host.{Network, resolve_ip_mac}
use xdp_nat_forward.Daemon.Cleanup.{is_expired, cleanup, rounds}
use xdp_nat_forward.Daemon.Cleanup.Laws.{cleanup-exact, rounds-IsPast}
use xdp_nat_forward.Daemon.Rules.{
  ForwardRule, ok, rule_of, set_timeout, list_items, list_forward_rules, restore,
}
use xdp_nat_forward.Daemon.Rules.Table.{Op, add, delete, Changes, perform_all, perform_all-Changes}
use xdp_nat_forward.Daemon.Rules.Restore.{CanRestore}
use xdp_nat_forward.Daemon.Rules.Saved.{restore-write}
use xdp_nat_forward.Daemon.Service.Laws.{with_timeout, set_timeout_iff}
use xdp_nat_forward.Daemon.Samples.{
  sessions_iteration, daemon, short_timeouts, gateway_network, gateway_mac, memory_file, rules_map,
  rules_iteration, open_key, open_val, one_open, web_HasRules,
}

cleanup-exact_example :
    let u = cleanup listed_maps sessions_iteration short_timeouts 500 one_open in
    ((is_expired short_timeouts 500 open_key open_val ≡ true)
      × (listed_maps.session.get u.session_map open_key ≡ none)
      × (listed_maps.reverse.get u.reverse_session_map (reverse_of open_key open_val) ≡ none))
    ⊎ ((is_expired short_timeouts 500 open_key open_val ≡ false)
        × (listed_maps.session.get u.session_map open_key ≡ some open_val))
cleanup-exact_example =
    cleanup-exact listed_maps sessions_iteration short_timeouts 500 one_open open_key open_val
      (walk_readable SessionKey-discrete one_open.session_map one_open.session_map)
      (cons_self SessionKey-discrete [] open_key open_val)

rounds-IsPast_example :
    listed_maps.session.get
      (rounds listed_maps sessions_iteration short_timeouts (150 ∷ 500 ∷ []) one_open).session_map
      open_key
    ≡ none
rounds-IsPast_example =
    rounds-IsPast listed_maps sessions_iteration short_timeouts (150 ∷ 500 ∷ []) one_open open_key
      open_val (λ m. walk_readable SessionKey-discrete m m)
      (cons_self SessionKey-discrete [] open_key open_val) (inr (inl (inl (refl, omega arith))))

resolved : (ip_str : List ℕ) → resolve_ip_mac gateway_network ip_str ≡ some gateway_mac
unfolding daemon
resolved ip_str = refl

abbrev two_ops : List Op
two_ops =
    add gateway_network (codes "tcp") 8080 (codes "10.0.0.2") 80 ∷ delete (codes "tcp") 8080 ∷ []

perform_all-Changes_example :
    Changes (λ f. ⊥) (rules_map.get []) two_ops (rules_map.get (perform_all rules_map two_ops []))
perform_all-Changes_example = perform_all-Changes rules_map (λ f. ⊥) (λ m k v e. cc) two_ops []

web_listed :
    list_forward_rules rules_map rules_iteration ((web_key, web_rule) ∷ [])
    ≡ ok (rule_of web_key web_rule ∷ [])
unfolding list_forward_rules list_items
web_listed = rw (cons_self ForwardKey-discrete [] web_key web_rule) refl

set_timeout_iff_example :
    (set_timeout short_timeouts (codes "tcp") 600
      ≡ some (with_timeout short_timeouts 6 (600 * 1_000_000_000)))
    ↔ (600 ≤ 18_446_744_073)
unfolding daemon
set_timeout_iff_example = set_timeout_iff short_timeouts (codes "tcp") 6 600 refl

abbrev nets : ℕ → Network
nets i = gateway_network

restore-write_example :
    (again : List ForwardRule) × (memory_file.read (some (rule_of web_key web_rule ∷ []))
      ≡ some again)
    × ((k : ForwardKey)
        → ((rules_map.get ((web_key, web_rule) ∷ []) k ≡ none)
            × (rules_map.get (restore rules_map nets 0 again []) k ≡ none))
          ⊎ ((v : ForwardVal) × (w : ForwardVal) × (rules_map.get ((web_key, web_rule) ∷ []) k
                ≡ some v)
              × (rules_map.get (restore rules_map nets 0 again []) k ≡ some w)
              × (w.forward_ip ≡ v.forward_ip)
              × (w.forward_port ≡ v.forward_port)))
unfolding CanRestore
restore-write_example =
    restore-write rules_map nets rules_iteration memory_file none
      (some (rule_of web_key web_rule ∷ [])) ((web_key, web_rule) ∷ []) []
      (rule_of web_key web_rule ∷ []) web_HasRules web_listed refl (λ k. refl)
      ((λ e. cc (resolved _)), (λ k v e. cc), tt)
