-- ===== src/Daemon/Client/Repair.antt =====
-- The button `Sync Cluster` from the console through the manager to a node, and back.
use xdp_nat_forward.Base.{
  ℕ, ◌^◌, ◌<◌, ◌≡◌, sym, refl, true, Option, none, some, List, IsIn, Bool-cases, inl, inr, ltb,
  ltb→lt, some_injective, none_not_some,
}
use xdp_nat_forward.Console.Text.{codes}
use xdp_nat_forward.Console.State.{App, nodes_in_group}
use xdp_nat_forward.Console.Audit.{AuditEntry, new_entry, audit_row, proto_str, rule_key}
use xdp_nat_forward.Console.Audit.Entries.{held}
use xdp_nat_forward.Console.Handlers.{AddRequest, js_integer, sync_request}
use xdp_nat_forward.Datapath.Types.{ForwardKey, ForwardVal}
use xdp_nat_forward.Datapath.Maps.{HashMap}
use xdp_nat_forward.Datapath.Maps.Iteration.{Iteration}
use xdp_nat_forward.Manager.{
  ConnectedNode, AppState, get, get_nodes, AddRulePayload, as_unsigned, payload_of, decode_add,
}
use xdp_nat_forward.Daemon.Rules.{ForwardRule, RulesFile}
use xdp_nat_forward.Daemon.Rules.Words.{IsProto, parse_proto-stored}
use xdp_nat_forward.Daemon.Service.{State}
use xdp_nat_forward.Daemon.Client.{
  add_rule, command_of, response, Identity, Surroundings, reported, receive_all,
}
use xdp_nat_forward.Daemon.Client.Sync.{answers, add_rule-held}

-- What a payload holds of its request.
payload_of-some :
    (q : AddRequest) (m n : Option ℕ) (p : AddRulePayload)
    → payload_of q m n ≡ some p
    → (p.proto ≡ q.proto)
      × (p.forward_ip ≡ q.forward_ip)
      × (m ≡ some p.local_port)
      × (n ≡ some p.forward_port)
unfolding payload_of
payload_of-some q none n p h = absurd (cc)
payload_of-some q (some m) none p h = absurd (cc)
payload_of-some q (some m) (some n) p h = (cc, cc, cc, cc)

as_unsigned-js_integer :
    (width n v : ℕ) → as_unsigned width (js_integer n) ≡ some v → (v ≡ n) × (n < 2 ^ width)
unfolding as_unsigned
as_unsigned-js_integer width n v h = elim (Bool-cases (ltb n (2 ^ width))) [
  | inl e ↦ (sym (some_injective (rw (as_unsigned, e) at h)), ltb→lt n (2 ^ width) e)
  | inr e ↦ absurd (none_not_some (rw (as_unsigned, e) at h))
]

-- The command that the request of a row makes the manager send.
sync_request-command :
    (s : App) (e : AuditEntry) (p : AddRulePayload) (command_id : List ℕ)
    → decode_add (sync_request s (audit_row (nodes_in_group s.nodes s.target_group) e)) ≡ some p
    → (command_of command_id p
        ≡ add_rule command_id e.proto e.local_port e.forward_ip e.forward_port)
      × (e.forward_port < 2 ^ 16)
unfolding decode_add sync_request audit_row
sync_request-command s e p command_id h =
    let (a, b, c, d) = payload_of-some _ _ _ p h in
    let (l, _) = as_unsigned-js_integer 32 e.local_port p.local_port c in
    let (f, fits) = as_unsigned-js_integer 16 e.forward_port p.forward_port d in
    (rw (a, b, l, f) refl, fits)

-- The row's entry of a rule that nodes report, with the ids of those that have it.
abbrev pub entry_of : ForwardRule → List (List ℕ) → AuditEntry
entry_of rule ids = record (new_entry (reported rule)) { node_presence = ids }

module _ (forward_map : HashMap ForwardKey ForwardVal) (iteration : Iteration forward_map)
    (file : RulesFile) where
  -- The button `Sync Cluster`, in the row of a TCP or UDP rule with an address of 32 bits: when the request
  -- decodes, and a connected node carries out the command that the manager makes of it and answers with
  -- success, and walks over the node's rules fail nowhere, then the manager's list of nodes, as the
  -- console's audit reads it, holds the rule of the row at that node.
  pub sync_request-held :
      (console : App) (rule : ForwardRule) (ids : List (List ℕ)) (payload : AddRulePayload)
      (self : Identity) (around : Surroundings) (command_id : List ℕ)
      (s : State forward_map iteration file) (a : AppState) (n : ConnectedNode)
      → IsProto rule.proto
      → rule.forward_ip < 2 ^ 32
      → decode_add (
          sync_request console
            (audit_row (nodes_in_group console.nodes console.target_group) (entry_of rule ids)))
        ≡ some payload
      → get a.nodes self.node_id ≡ some n
      → n.node_id ≡ self.node_id
      → ((m : HashMap.Map forward_map) → IsIn none (iteration.iter m) → ⊥)
      → IsIn
          (response command_id (codes "success") none)
          (answers forward_map iteration file self around (command_of command_id payload) s)
      → held
          (get_nodes (
            receive_all
              (answers forward_map iteration file self around (command_of command_id payload) s)
              a))
          (rule_key (reported rule))
          self.node_id
        ≡ true
  sync_request-held console rule ids payload self around command_id s a n hp hip decoded hn hid
        whole h =
      let (same, fits) =
        sync_request-command console (entry_of rule ids) payload command_id decoded in
      rw same (
        add_rule-held forward_map iteration file self around command_id (proto_str (reported rule))
          rule.local_port rule.forward_ip rule.forward_port rule.proto s a n hip fits
          (parse_proto-stored rule.proto hp) hn hid whole (rw same at h))
