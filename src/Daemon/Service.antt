-- ===== src/Daemon/Service.antt =====
-- forward/src, what the three interfaces of the daemon share: its state, and adding or deleting a rule
-- with the saving that follows.
pub mod Laws
use xdp_nat_forward.Base.{ℕ, Bool, true, false, Option, none, some, List, [], ◌∷◌, if◌then◌else◌}
use xdp_nat_forward.Datapath.Types.{ForwardKey, ForwardVal}
use xdp_nat_forward.Datapath.Maps.{HashMap}
use xdp_nat_forward.Datapath.Maps.Iteration.{Iteration}
use xdp_nat_forward.Daemon.Host.{Network}
use xdp_nat_forward.Daemon.Cleanup.{Timeouts}
use xdp_nat_forward.Daemon.Rules.{
  ForwardRule, Result, ok, err, RulesFile, add_forward_rule, delete_forward_rule,
  list_forward_rules, set_timeout,
}

module _ (forward_map : HashMap ForwardKey ForwardVal) (iteration : Iteration forward_map)
    (file : RulesFile) where
  -- FORWARD_MAP, the timeouts and the file at `rules_path`.
  pub record State : Type 0 where
    pub rules : HashMap.Map forward_map
    pub timeouts : Timeouts
    pub rules_file : RulesFile.File file

  abbrev pub write_rules : Result (List ForwardRule) → RulesFile.File file → RulesFile.File file
  write_rules (ok rules) f = (RulesFile.write file f rules).1
  write_rules (err e) f = f

  -- Saves the rules when there is a path; errors are ignored.
  unfoldable pub save : Bool → State → State
  save has_path s =
      if has_path
      then record s {
        rules_file = write_rules (list_forward_rules forward_map iteration s.rules) s.rules_file;
      }
      else s

  abbrev pub save_if_ok {ℓ} : {A : Type ℓ} → Bool → Result A → State → State
  save_if_ok has_path (ok a) s = save has_path s
  save_if_ok has_path (err e) s = s

  unfoldable pub add_and_save :
      Bool → Network → List ℕ → ℕ → List ℕ → ℕ → State → Result (List ℕ) × State
  add_and_save has_path net proto_str local_port forward_ip_str forward_port s =
      let r =
        add_forward_rule forward_map net proto_str local_port forward_ip_str forward_port s.rules in
      (r.0, save_if_ok has_path r.0 (record s { rules = r.1 }))

  unfoldable pub delete_and_save : Bool → List ℕ → ℕ → State → Result (Unit {0}) × State
  delete_and_save has_path proto_str local_port s =
      let r = delete_forward_rule forward_map proto_str local_port s.rules in
      (r.0, save_if_ok has_path r.0 (record s { rules = r.1 }))

  -- Whether the timeout was set.
  abbrev pub timeout_set : Option Timeouts → State → Bool × State
  timeout_set none s = (false, s)
  timeout_set (some t) s = (true, record s { timeouts = t })

  unfoldable pub update_timeout : List ℕ → ℕ → State → Bool × State
  update_timeout proto_str seconds s = timeout_set (set_timeout s.timeouts proto_str seconds) s
