-- ===== src/Daemon/Client/Sync.antt =====
-- The manager's command to add a rule, from its arrival at a node to the report.
use xdp_nat_forward.Base.{
  ℕ, ◌^◌, ◌<◌, ◌≡◌, ◌∙◌, ap, sym, refl, Bool, true, false, ◌&&◌, Option, none, some, List, [], ◌∷◌,
  map, if◌then◌else◌, inl, inr, IsIn, map-IsIn, Bool-cases, some_injective, or_right,
}
use xdp_nat_forward.Console.Text.{codes, text_eq}
use xdp_nat_forward.Console.Text.Laws.{text_eq_refl}
use xdp_nat_forward.Console.Sets.{any}
use xdp_nat_forward.Console.State.{ConnectedNodeInfo}
use xdp_nat_forward.Console.State as Console
use xdp_nat_forward.Console.Audit.{rule_key}
use xdp_nat_forward.Console.Audit.Entries.{has_key, held}
use xdp_nat_forward.Datapath.Packet.Laws.{swap16-swap16}
use xdp_nat_forward.Datapath.Types.{ForwardKey, ForwardVal}
use xdp_nat_forward.Datapath.Maps.{HashMap}
use xdp_nat_forward.Datapath.Maps.Iteration.{Iteration}
use xdp_nat_forward.Manager.{
  ConnectedNode, TextMap, AppState, get, modify, report, get_nodes, node_info,
}
use xdp_nat_forward.Daemon.Words.{parse_ipv4, show_ipv4}
use xdp_nat_forward.Daemon.Words.Addresses.{parse_ipv4-show_ipv4}
use xdp_nat_forward.Daemon.Host.{Network}
use xdp_nat_forward.Daemon.Rules.{
  ForwardRule, RuleError, Result, ok, err, RulesFile, parse_proto, rule_val, rule_of, mac_number,
  mac_bytes, add_forward_rule, list_forward_rules, list_items,
}
use xdp_nat_forward.Daemon.Rules.Words.{swap32-swap32}
use xdp_nat_forward.Daemon.Rules.Table.{
  key_at, Addition, rejected, stored, add_forward_rule-Addition,
}
use xdp_nat_forward.Daemon.Rules.Listing.{list_forward_rules_forth}
use xdp_nat_forward.Daemon.Service.{State, save, save_if_ok, add_and_save}
use xdp_nat_forward.Daemon.Client.{
  NodeCommand, add_rule, ManagerMessage, response, Identity, Surroundings, response_of, report_of,
  reports, handle_node_command, reported, receive, receive_all,
}

-- A test that the changed node passes.
any-modify :
    (p : ConnectedNodeInfo → Bool) (m : TextMap ConnectedNode) (k : List ℕ)
    (f : ConnectedNode → ConnectedNode) (n : ConnectedNode)
    → get m k ≡ some n
    → p (node_info (f n)) ≡ true
    → any p (map (λ r. node_info r.1) (modify m k f)) ≡ true
unfolding get modify
any-modify p [] k f n h w = absurd (cc)
any-modify p ((j, a) ∷ m) k f n h w = elim (Bool-cases (text_eq j k)) [
  | inl e ↦ rw e (rw (ap (λ x. p (node_info (f x))) (some_injective (rw (get, e) at h)), w) refl)
  | inr e ↦
      or_right (p (node_info (if text_eq j k then f a else a)))
        (any-modify p m k f n (rw (get, e) at h) w)
]

any-IsIn :
    {A : Type 0} (p : A → Bool) (x : A) (xs : List A) → IsIn x xs → p x ≡ true → any p xs ≡ true
any-IsIn p x [] i h = absurd i
any-IsIn p x (y ∷ ys) i h = elim i [
  | inl e ↦ rw (ap p (sym e), h) refl
  | inr j ↦ or_right (p y) (any-IsIn p x ys j h)
]

ok_injective : {A : Type 0} {a b : A} → ok a ≡ ok b → a ≡ b
ok_injective h = cc

-- Only a command that succeeded is answered with success.
pub answered-ok :
    {A : Type 0} (text : RuleError → List ℕ) (id : List ℕ) (self : Identity) (r : Result A)
    (listed : Result (List ForwardRule))
    → IsIn (response id (codes "success") none) (response_of text id r ∷ report_of self listed)
    → (a : A) × (r ≡ ok a)
answered-ok text id self (ok a) listed h = (a, refl)
answered-ok text id self (err e) (ok rules) h = elim h [
  | inl w ↦ absurd (cc)
  | inr (inl w) ↦ absurd (cc)
  | inr (inr w) ↦ absurd w
]
answered-ok text id self (err e) (err d) h = elim h [ inl w ↦ absurd (cc) | inr w ↦ absurd w ]

pub receive_all-report :
    {A : Type 0} (text : RuleError → List ℕ) (id : List ℕ) (self : Identity) (r : Result A)
    (rules : List ForwardRule) (a : AppState)
    → receive_all (response_of text id r ∷ report_of self (ok rules)) a
      ≡ report self.node_id self.group self.hostname (map reported rules) a
unfolding receive_all receive
receive_all-report text id self (ok x) rules a = refl
receive_all-report text id self (err e) rules a = refl

-- A report with a rule makes the node hold it.
report-held :
    (id group hostname : List ℕ) (rules : List Console.ForwardRule) (rule : Console.ForwardRule)
    (a : AppState) (n : ConnectedNode)
    → get a.nodes id ≡ some n
    → n.node_id ≡ id
    → IsIn rule rules
    → held (get_nodes (report id group hostname rules a)) (rule_key rule) id ≡ true
unfolding get_nodes report
report-held id group hostname rules rule a n h e i =
    any-modify (λ x. text_eq x.node_id id && has_key x.rules (rule_key rule)) a.nodes id _ n h
      (rw
        (
          e,
          text_eq_refl id,
          any-IsIn (λ r. text_eq (rule_key r) (rule_key rule)) rule rules i
              (text_eq_refl (rule_key rule)),
        )
        refl)

-- The rule that the manager and the console are told of.
abbrev pub told : ℕ → ℕ → ℕ → ℕ → List ℕ → Console.ForwardRule
told proto local_port ip forward_port mac = record {
  proto = proto;
  local_port = local_port;
  forward_ip = show_ipv4 ip;
  forward_port = forward_port;
  forward_mac = mac;
}

told_lem :
    (proto local_port ip forward_port : ℕ) (mac : List ℕ)
    → ip < 2 ^ 32
    → forward_port < 2 ^ 16
    → reported (rule_of (key_at proto local_port) (rule_val ip forward_port mac))
      ≡ told proto local_port ip forward_port (mac_bytes 6 (mac_number mac))
told_lem proto local_port ip forward_port mac h k =
    rw (swap32-swap32 ip h, swap16-swap16 forward_port k) refl

module _ (forward_map : HashMap ForwardKey ForwardVal) (iteration : Iteration forward_map)
    (file : RulesFile) where
  pub save_if_ok-rules :
      {A : Type 0} (has_path : Bool) (r : Result A) (s : State forward_map iteration file)
      → (save_if_ok forward_map iteration file has_path r s).rules ≡ s.rules
  unfolding save
  save_if_ok-rules true (ok a) s = refl
  save_if_ok-rules false (ok a) s = refl
  save_if_ok-rules has_path (err e) s = refl

  Addition-get :
      (net : Network) (proto_str : List ℕ) (port : ℕ) (ip_str : List ℕ) (forward_port proto ip : ℕ)
      (m : HashMap.Map forward_map) (mac : List ℕ) (r : Result (List ℕ) × HashMap.Map forward_map)
      → Addition forward_map net proto_str port ip_str forward_port m r
      → r.0 ≡ ok mac
      → parse_proto proto_str ≡ some proto
      → parse_ipv4 ip_str ≡ some ip
      → forward_map.get r.1 (key_at proto port) ≡ some (rule_val ip forward_port mac)
  Addition-get net proto_str port ip_str forward_port proto ip m mac r (rejected e why) h p i =
      absurd (cc)
  Addition-get net proto_str port ip_str forward_port proto ip m mac r
        (stored p' i' mac' m' a b c d) h p i =
      ap (λ q. forward_map.get m' (key_at q port)) (sym (some_injective (sym a ∙ p)))
      ∙ forward_map.get-insert_self m m' _ _ d
      ∙ ap (λ x. some (rule_val x forward_port mac')) (some_injective (sym b ∙ i))
      ∙ ap (λ x. some (rule_val ip forward_port x)) (ok_injective h)

  add_and_save-get :
      (has_path : Bool) (net : Network) (proto_str : List ℕ) (port : ℕ) (ip_str : List ℕ)
      (forward_port proto ip : ℕ) (mac : List ℕ) (s : State forward_map iteration file)
      → let r =
          add_and_save forward_map iteration file has_path net proto_str port ip_str forward_port
            s in
        r.0 ≡ ok mac
        → parse_proto proto_str ≡ some proto
        → parse_ipv4 ip_str ≡ some ip
        → forward_map.get r.1.rules (key_at proto port) ≡ some (rule_val ip forward_port mac)
  unfolding add_and_save
  add_and_save-get has_path net proto_str port ip_str forward_port proto ip mac s h p i =
      let r = add_forward_rule forward_map net proto_str port ip_str forward_port s.rules in
      ap (λ m. forward_map.get m (key_at proto port))
        (save_if_ok-rules has_path r.0 (record s { rules = r.1 }))
      ∙ Addition-get net proto_str port ip_str forward_port proto ip s.rules mac r
          (add_forward_rule-Addition forward_map net proto_str port ip_str forward_port s.rules) h p
          i

  pub list_items-ok :
      (items : List (Option (ForwardKey × ForwardVal)))
      → (IsIn none items → ⊥)
      → (rules : List ForwardRule) × (list_items items ≡ ok rules)
  unfolding list_items
  list_items-ok [] h = ([], refl)
  list_items-ok (none ∷ items) h = absurd (h (inl refl))
  list_items-ok (some r ∷ items) h =
      let (rules, e) = list_items-ok items (λ i. h (inr i)) in (rule_of r.0 r.1 ∷ rules, rw e refl)

  -- The messages that a command makes the daemon send.
  abbrev pub answers :
      Identity → Surroundings → NodeCommand → State forward_map iteration file → List ManagerMessage
  answers self around command s =
      (handle_node_command forward_map iteration file self around command s).0

  -- When a connected node answers the manager's command to add a rule for a printed address with success, and
  -- the walk over its rules fails nowhere, its answers make the manager's list of nodes, as the console's
  -- audit reads it, hold the rule of the command at that node: same protocol, ports and address.
  pub add_rule-held :
      (self : Identity) (around : Surroundings) (command_id proto_str : List ℕ)
      (local_port ip forward_port proto : ℕ) (s : State forward_map iteration file) (a : AppState)
      (n : ConnectedNode)
      → ip < 2 ^ 32
      → forward_port < 2 ^ 16
      → parse_proto proto_str ≡ some proto
      → get a.nodes self.node_id ≡ some n
      → n.node_id ≡ self.node_id
      → ((m : HashMap.Map forward_map) → IsIn none (iteration.iter m) → ⊥)
      → IsIn (response command_id (codes "success") none) (
          answers self around
            (add_rule command_id proto_str local_port (show_ipv4 ip) forward_port)
            s)
      → held
          (get_nodes (
            receive_all
              (answers self around
                (add_rule command_id proto_str local_port (show_ipv4 ip) forward_port)
                s)
              a))
          (rule_key (told proto local_port ip forward_port []))
          self.node_id
        ≡ true
  unfolding handle_node_command reports list_forward_rules
  add_rule-held self around command_id proto_str local_port ip forward_port proto s a n hip hport hp
        hn hid whole h =
      let r =
        add_and_save forward_map iteration file self.has_path around.network proto_str local_port
          (show_ipv4 ip) forward_port s in
      let (mac, e) =
        answered-ok around.error_text command_id self r.0
          (list_forward_rules forward_map iteration r.1.rules) h in
      let (rules, listed) = list_items-ok (iteration.iter r.1.rules) (whole r.1.rules) in
      let i =
        list_forward_rules_forth forward_map iteration r.1.rules rules (key_at proto local_port)
          (rule_val ip forward_port mac) listed
          (add_and_save-get self.has_path around.network proto_str local_port (show_ipv4 ip)
            forward_port proto ip mac s e hp (parse_ipv4-show_ipv4 ip hip)) in
      rw (listed, receive_all-report around.error_text command_id self r.0 rules a)
        (report-held self.node_id self.group self.hostname (map reported rules)
          (told proto local_port ip forward_port (mac_bytes 6 (mac_number mac))) a n hn hid
          (rw (sym (told_lem proto local_port ip forward_port mac hip hport))
            (map-IsIn reported _ rules i)))
