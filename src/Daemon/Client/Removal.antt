-- ===== src/Daemon/Client/Removal.antt =====
-- The manager's command to delete a rule, from its arrival at a node to the report.
use xdp_nat_forward.Base.{
  ℕ, ◌≡◌, ◌≢◌, ◌∙◌, sym, ap, refl, arith, Bool, true, false, ◌==◌, Option, none, some, List, [],
  ◌∷◌, map, if◌then◌else◌, inl, inr, IsIn, IsIn-map, All, Bool-cases, none_not_some,
}
use xdp_nat_forward.Console.Text.{codes, text_eq}
use xdp_nat_forward.Console.Text.Laws.{text_eq_lem}
use xdp_nat_forward.Console.Sets.{any}
use xdp_nat_forward.Console.State.{ConnectedNodeInfo, App}
use xdp_nat_forward.Console.Handlers.{DeleteRequest}
use xdp_nat_forward.Console.Elements.{delete, handle_delete_rule}
use xdp_nat_forward.Manager.Removal.{delete-fields}
use xdp_nat_forward.Console.State as Console
use xdp_nat_forward.Console.Audit.{rule_key, proto_str}
use xdp_nat_forward.Console.Audit.Entries.{has_key, held}
use xdp_nat_forward.Console.Audit.Signature.{rule_key_injective}
use xdp_nat_forward.Datapath.Types.{ForwardKey, ForwardVal, ForwardKey-discrete}
use xdp_nat_forward.Datapath.Maps.{HashMap}
use xdp_nat_forward.Datapath.Maps.Iteration.{Iteration}
use xdp_nat_forward.Manager.{
  ConnectedNode, TextMap, get_nodes, modify, report, node_info, DeleteRulePayload, decode_delete,
}
use xdp_nat_forward.Manager.Serving.{Server, Served}
use xdp_nat_forward.Manager.Serving.Laws.{IsOpen, Served-Linked}
use xdp_nat_forward.Daemon.Rules.{
  ForwardRule, ok, RulesFile, parse_proto, rule_of, removed, delete_values, delete_forward_rule,
  list_forward_rules,
}
use xdp_nat_forward.Daemon.Rules.Words.{IsProto, parse_proto-stored}
use xdp_nat_forward.Daemon.Rules.Table.{key_at}
use xdp_nat_forward.Daemon.Rules.Restore.{HasRules}
use xdp_nat_forward.Daemon.Rules.Listing.{list_forward_rules_back}
use xdp_nat_forward.Daemon.Service.{State, delete_and_save}
use xdp_nat_forward.Daemon.Client.{
  delete_rule, delete_command_of, response, Identity, Surroundings, reports, handle_node_command,
  reported, receive_all,
}
use xdp_nat_forward.Daemon.Client.Sync.{
  answers, answered-ok, receive_all-report, save_if_ok-rules, list_items-ok,
}

any-none :
    {A : Type 0} (p : A → Bool) (xs : List A)
    → ((x : A) → IsIn x xs → p x ≡ false)
    → any p xs ≡ false
any-none p [] h = refl
any-none p (x ∷ xs) h = rw (h x (inl refl)) (any-none p xs (λ y i. h y (inr i)))

true_ne_false : true ≢ false
true_ne_false e = cc

tcp_ne_udp : codes "tcp" ≢ codes "udp"
tcp_ne_udp e = true_ne_false (ap (λ t. text_eq t (codes "tcp")) e)

-- The tag tells the protocols of rules apart.
same_proto :
    (p q : ℕ)
    → IsProto p
    → IsProto q
    → (if p == 6 then codes "tcp" else codes "udp") ≡ (if q == 6 then codes "tcp" else codes "udp")
    → p ≡ q
same_proto p q (inl e) (inl k) h = e ∙ sym k
same_proto p q (inl e) (inr k) h = absurd (tcp_ne_udp (rw (e, k) at h))
same_proto p q (inr e) (inl k) h = absurd (tcp_ne_udp (sym (rw (e, k) at h)))
same_proto p q (inr e) (inr k) h = e ∙ sym k

-- A report without a rule makes the node not hold it.
report-unheld :
    (id group hostname : List ℕ) (rules : List Console.ForwardRule) (key : List ℕ)
    (m : TextMap ConnectedNode) (open_at ending : List (ℕ × List ℕ))
    → All (IsOpen open_at ending) m
    → has_key rules key ≡ false
    → held
        (map
          (λ r. node_info r.1)
          (modify m id (λ node. record node { rules = rules; group = group; hostname = hostname })))
        key
        id
      ≡ false
unfolding modify
report-unheld id group hostname rules key [] o c h k = refl
report-unheld id group hostname rules key ((j, n) ∷ m) o c h k = elim (Bool-cases (text_eq j id)) [
  | inl e ↦ ground (arith, e, k, report-unheld id group hostname rules key m o c h.1 k)
  | inr e ↦
      let other : text_eq n.node_id id ≡ false = rw (h.0.0) e in
      ground (arith, e, other, report-unheld id group hostname rules key m o c h.1 k)
]

module _ (forward_map : HashMap ForwardKey ForwardVal) (iteration : Iteration forward_map)
    (file : RulesFile) where
  open forward_map use {Map, get, remove}

  -- A deletion that succeeds removes the key of its rule.
  deleted :
      (proto_str : List ℕ) (port proto : ℕ) (m : Map) (u : Unit {0})
      → parse_proto proto_str ≡ some proto
      → (delete_forward_rule forward_map proto_str port m).0 ≡ ok u
      → remove m (key_at proto port) ≡ some (delete_forward_rule forward_map proto_str port m).1
  unfolding delete_forward_rule delete_values
  deleted proto_str port proto m u p h =
      let step : (removed forward_map m (remove m (key_at proto port))).0 ≡ ok u = rw p at h in
      rw p (go (remove m (key_at proto port)) step)
    where
      go :
          (o : Option Map)
          → (removed forward_map m o).0 ≡ ok u
          → o ≡ some (removed forward_map m o).1
      go none e = absurd (cc)
      go (some m') e = refl

  -- With the key gone, no rule that is listed has the signature.
  unlisted :
      (m : Map) (rules : List ForwardRule) (rule : Console.ForwardRule)
      → HasRules forward_map m
      → IsProto rule.proto
      → list_forward_rules forward_map iteration m ≡ ok rules
      → get m (key_at rule.proto rule.local_port) ≡ none
      → has_key (map reported rules) (rule_key rule) ≡ false
  unlisted m rules rule h p listed gone =
      any-none (λ r. text_eq (rule_key r) (rule_key rule)) (map reported rules)
        (λ r i. elim (Bool-cases (text_eq (rule_key r) (rule_key rule))) [
          | inr e ↦ e
          | inl e ↦ absurd (present r i (text_eq_lem (rule_key r) (rule_key rule) e))
        ])
    where
      present : (r : Console.ForwardRule) → IsIn r (map reported rules) → rule_key r ≢ rule_key rule
      present r i e =
          let (x, (w, a)) = IsIn-map reported r rules i in
          let (k, v, found, b) = list_forward_rules_back forward_map iteration m rules x listed w in
          let same = rule_key_injective r rule e in
          let read : r ≡ reported (rule_of k v) = a ∙ ap reported b in
          let proto : k.proto ≡ rule.proto =
            same_proto k.proto rule.proto (h k v found).proto p
              (ap proto_str (sym read) ∙ same.0) in
          let port : k.local_port ≡ rule.local_port = ap (λ y. y.local_port) (sym read) ∙ same.1 in
          let key : k ≡ key_at rule.proto rule.local_port = cc in
          none_not_some (sym gone ∙ rw key at found)

  -- What a successful deletion leaves is well-formed and lacks the rule.
  delete_and_save-gone :
      (has_path : Bool) (text : List ℕ) (port proto : ℕ) (s : State forward_map iteration file)
      (u : Unit {0})
      → HasRules forward_map s.rules
      → parse_proto text ≡ some proto
      → (delete_and_save forward_map iteration file has_path text port s).0 ≡ ok u
      → let m = (delete_and_save forward_map iteration file has_path text port s).1.rules in
        HasRules forward_map m × (get m (key_at proto port) ≡ none)
  unfolding delete_and_save
  delete_and_save-gone has_path text port proto s u h p e =
      let r = delete_forward_rule forward_map text port s.rules in
      let step = deleted text port proto s.rules u p e in
      rw (save_if_ok-rules forward_map iteration file has_path r.0 (record s { rules = r.1 })) (
        λ k v found. elim (ForwardKey-discrete k (key_at proto port)) [
          | yes same ↦ absurd (
              none_not_some
                (sym (forward_map.get-remove_self s.rules r.1 _ step) ∙ rw same at found))
          | no other ↦ h k v (sym (forward_map.get-remove_ne s.rules r.1 _ k step other) ∙ found)
        ],
        forward_map.get-remove_self s.rules r.1 _ step,
      )

  delete_rule-unheld :
      (self : Identity) (around : Surroundings) (command_id : List ℕ) (rule : Console.ForwardRule)
      (s : State forward_map iteration file) (server : Server)
      → HasRules forward_map s.rules
      → IsProto rule.proto
      → Served server
      → ((m : Map) → IsIn none (iteration.iter m) → ⊥)
      → IsIn (response command_id (codes "success") none) (
          answers forward_map iteration file self around
            (delete_rule command_id (proto_str rule) rule.local_port)
            s)
      → held
          (get_nodes (
            receive_all
              (answers forward_map iteration file self around
                (delete_rule command_id (proto_str rule) rule.local_port)
                s)
              server.app))
          (rule_key rule)
          self.node_id
        ≡ false
  unfolding handle_node_command reports list_forward_rules get_nodes report
  delete_rule-unheld self around command_id rule s server h p served whole answered =
      let r =
        delete_and_save forward_map iteration file self.has_path (proto_str rule) rule.local_port
          s in
      let (u, e) =
        answered-ok around.error_text command_id self r.0
          (list_forward_rules forward_map iteration r.1.rules) answered in
      let (rules, listed) =
        list_items-ok forward_map iteration file (iteration.iter r.1.rules) (whole r.1.rules) in
      let (fine, gone) =
        delete_and_save-gone self.has_path (proto_str rule) rule.local_port rule.proto s u h
          (parse_proto-stored rule.proto p) e in
      rw (listed, receive_all-report around.error_text command_id self r.0 rules server.app)
        (report-unheld self.node_id self.group self.hostname (map reported rules) (rule_key rule)
          server.app.nodes server.connections server.ending (Served-Linked server served).nodes_open
          (unlisted r.1.rules rules rule fine p listed gone))

  -- The buttons `Remove` and `Group Del`, confirmed for a TCP or UDP rule: when a node of well-formed rules
  -- carries out the command that the manager makes of the request and answers with success, and walks
  -- over its rules fail nowhere, the list of nodes of a manager at work, as the console's audit
  -- reads it, holds no rule of that signature at that node.
  pub handle_delete_rule-unheld :
      (self : Identity) (around : Surroundings) (command_id : List ℕ) (rule : Console.ForwardRule)
      (ids : Option (List (List ℕ))) (console : App) (q : DeleteRequest)
      (payload : DeleteRulePayload) (s : State forward_map iteration file) (server : Server)
      → HasRules forward_map s.rules
      → IsProto rule.proto
      → Served server
      → ((m : Map) → IsIn none (iteration.iter m) → ⊥)
      → (handle_delete_rule (proto_str rule) rule.local_port ids true console).sent
        ≡ some (delete q)
      → decode_delete q ≡ some payload
      → IsIn
          (response command_id (codes "success") none)
          (answers forward_map iteration file self around (delete_command_of command_id payload) s)
      → held
          (get_nodes (
            receive_all
              (answers forward_map iteration file self around
                (delete_command_of command_id payload)
                s)
              server.app))
          (rule_key rule)
          self.node_id
        ≡ false
  handle_delete_rule-unheld self around command_id rule ids console q payload s server h p served
        whole sent decoded answered =
      let (_, _, text, port) =
        delete-fields (proto_str rule) rule.local_port ids console q payload sent decoded in
      rw (text, port)
        (delete_rule-unheld self around command_id rule s server h p served whole
          (rw (text, port) at answered))
