-- ===== src/Daemon/Client.antt =====
-- forward/src/manager_client.rs, the daemon's connection to the manager: the URL, the commands that
-- arrive, and the messages that are sent. With what forward-manager/src/handlers.rs does with them.
pub mod Sync
pub mod Repair
pub mod Queries
pub mod Removal
use xdp_nat_forward.Base.{
  ℕ, ◌==◌, Bool, true, false, ◌&&◌, ◌||◌, Option, none, some, List, [], ◌∷◌, ◌++◌, map,
  if◌then◌else◌,
}
use xdp_nat_forward.Console.Text.{codes, text_eq, show}
use xdp_nat_forward.Console.State as Console
use xdp_nat_forward.Datapath.Types.{ForwardKey, ForwardVal, SessionKey, SessionVal}
use xdp_nat_forward.Datapath.Maps.{HashMap}
use xdp_nat_forward.Datapath.Maps.Iteration.{Iteration}
use xdp_nat_forward.Manager.{AddRulePayload, DeleteRulePayload, AppState, report, query_response}
use xdp_nat_forward.Daemon.Words.{parse_ipv4, show_ipv4}
use xdp_nat_forward.Daemon.Host.{Network}
use xdp_nat_forward.Daemon.Rules.{
  ForwardRule, RuleError, Result, ok, err, RulesFile, list_forward_rules,
}
use xdp_nat_forward.Daemon.Service.{State, add_and_save, delete_and_save}
use xdp_nat_forward.Daemon.Sessions.{SessionInfo, query_sessions}

abbrev pub ends_with : List ℕ → List ℕ → Bool
ends_with [] suffix = text_eq [] suffix
ends_with (c ∷ s) suffix = text_eq (c ∷ s) suffix || ends_with s suffix

-- `normalized_url`
unfoldable pub normalized_url : List ℕ → List ℕ
normalized_url manager_url =
    if ends_with manager_url (codes "/ws")
    then manager_url
    else if ends_with manager_url (codes "/")
    then manager_url ++ codes "ws"
    else manager_url ++ codes "/ws"

pub data NodeCommand : Type 0 where
  add_rule : List ℕ → List ℕ → ℕ → List ℕ → ℕ → NodeCommand
  delete_rule : List ℕ → List ℕ → ℕ → NodeCommand
  query_session : List ℕ → List ℕ → List ℕ → NodeCommand

-- The command that the manager's `add_rule` writes to its nodes.
abbrev pub command_of : List ℕ → AddRulePayload → NodeCommand
command_of command_id payload =
    add_rule command_id payload.proto payload.local_port payload.forward_ip payload.forward_port

-- The command that the manager's `delete_rule` writes to its nodes.
abbrev pub delete_command_of : List ℕ → DeleteRulePayload → NodeCommand
delete_command_of command_id payload = delete_rule command_id payload.proto payload.local_port

pub data ManagerMessage : Type 0 where
  report_message : List ℕ → List ℕ → List ℕ → List ForwardRule → ManagerMessage
  response : List ℕ → List ℕ → Option (List ℕ) → ManagerMessage
  query_reply : List ℕ → List ℕ → List SessionInfo → Option (List ℕ) → ManagerMessage

-- The arguments of `spawn_manager_client` and the host's name.
pub record Identity : Type 0 where
  pub node_id : List ℕ
  pub group : List ℕ
  pub hostname : List ℕ
  pub has_path : Bool

-- Which address of a query is none.
pub data QueryError : Type 0 where
  invalid_src_ip : QueryError
  invalid_dst_ip : QueryError

-- What the daemon meets while it carries a command out: the network, what a walk over SESSION_MAP
-- reads, and the texts `{e:#}` of the errors.
pub record Surroundings : Type 0 where
  pub network : Network
  pub session_items : List (Option (SessionKey × SessionVal))
  pub error_text : RuleError → List ℕ
  pub query_error_text : QueryError → List ℕ

-- The response to a rule's addition or deletion.
abbrev pub response_of {ℓ} :
    {A : Type ℓ} → (RuleError → List ℕ) → List ℕ → Result A → ManagerMessage
response_of text command_id (ok a) = response command_id (codes "success") none
response_of text command_id (err e) = response command_id (codes "error") (some (text e))

-- A report of the rules, when they can be listed.
abbrev pub report_of : Identity → Result (List ForwardRule) → List ManagerMessage
report_of self (ok rules) = report_message self.node_id self.group self.hostname rules ∷ []
report_of self (err e) = []

abbrev pub failed_query : (QueryError → List ℕ) → List ℕ → QueryError → ManagerMessage
failed_query text command_id e = query_reply command_id (codes "error") [] (some (text e))

-- `query_bpf_sessions` and the response made of its result.
abbrev pub query_answer : Surroundings → List ℕ → Option ℕ → Option ℕ → ManagerMessage
query_answer around command_id none dst_ip =
    failed_query around.query_error_text command_id invalid_src_ip
query_answer around command_id (some src_ip) none =
    failed_query around.query_error_text command_id invalid_dst_ip
query_answer around command_id (some src_ip) (some dst_ip) =
    query_reply command_id (codes "success") (query_sessions src_ip dst_ip around.session_items)
      none

module _ (forward_map : HashMap ForwardKey ForwardVal) (iteration : Iteration forward_map)
    (file : RulesFile) where
  -- The report that is sent on a connection first, and after each change.
  unfoldable pub reports : Identity → State forward_map iteration file → List ManagerMessage
  reports self s = report_of self (list_forward_rules forward_map iteration s.rules)

  -- One command: the messages it sends, and the state after it.
  unfoldable pub handle_node_command :
      Identity
      → Surroundings
      → NodeCommand
      → State forward_map iteration file
      → List ManagerMessage × State forward_map iteration file
  handle_node_command self around (add_rule command_id proto local_port forward_ip forward_port) s =
      let r =
        add_and_save forward_map iteration file self.has_path around.network proto local_port
          forward_ip forward_port s in
      (response_of around.error_text command_id r.0 ∷ reports self r.1, r.1)
  handle_node_command self around (delete_rule command_id proto local_port) s =
      let r = delete_and_save forward_map iteration file self.has_path proto local_port s in
      (response_of around.error_text command_id r.0 ∷ reports self r.1, r.1)
  handle_node_command self around (query_session command_id src_ip dst_ip) s =
      (query_answer around command_id (parse_ipv4 src_ip) (parse_ipv4 dst_ip) ∷ [], s)

-- A rule as the manager and the console read it, its address a text.
abbrev pub reported : ForwardRule → Console.ForwardRule
reported rule = record {
  proto = rule.proto;
  local_port = rule.local_port;
  forward_ip = show_ipv4 rule.forward_ip;
  forward_port = rule.forward_port;
  forward_mac = rule.forward_mac;
}

-- The manager's handling of a message; the answer of a query goes to the request that waits, which
-- `query_response` names.
unfoldable pub receive : ManagerMessage → AppState → AppState
receive (report_message node_id group hostname rules) a =
    report node_id group hostname (map reported rules) a
receive (response command_id status error_message) a = a
receive (query_reply command_id status sessions error_message) a = (query_response command_id a).1

unfoldable pub receive_all : List ManagerMessage → AppState → AppState
receive_all [] a = a
receive_all (m ∷ ms) a = receive_all ms (receive m a)
