-- ===== src/Daemon/Command.antt =====
-- forward/src/cmd.rs: the lines that the command-line client sends to the daemon's socket, and what
-- the daemon does with them. Command is the one of main.rs.
pub mod Replies
pub mod Laws
pub mod Served
use xdp_nat_forward.Base.{
  ℕ, ◌+◌, ◌==◌, Bool, true, false, not, ◌&&◌, ◌||◌, Option, none, some, List, [], ◌∷◌, ◌++◌, map,
  length, if◌then◌else◌, ◌⊎◌, inl, inr,
}
use xdp_nat_forward.Console.Text.{codes, text_eq, is_empty, show}
use xdp_nat_forward.Datapath.Packet.{swap32}
use xdp_nat_forward.Datapath.Types.{ForwardKey, ForwardVal, SessionKey, SessionVal}
use xdp_nat_forward.Datapath.Maps.{HashMap}
use xdp_nat_forward.Datapath.Maps.Iteration.{Iteration}
use xdp_nat_forward.Daemon.Words.{
  to_lowercase, to_uppercase, split_whitespace, join, parse_u16, parse_u32, parse_u64, parse_ipv4,
  show_ipv4, show_mac,
}
use xdp_nat_forward.Daemon.Host.{Network}
use xdp_nat_forward.Daemon.Rules.{
  ForwardRule, RuleError, invalid_protocol, Result, ok, err, RulesFile, list_forward_rules,
}
use xdp_nat_forward.Daemon.Service.{State, add_and_save, delete_and_save, update_timeout}
use xdp_nat_forward.Daemon.Sessions.{SessionInfo, found, session_info, query_sessions}

-- The client's arguments.
pub data Command : Type 0 where
  add : List ℕ → ℕ → List ℕ → ℕ → Command
  del : List ℕ → ℕ → Command
  list : Command
  timeout : List ℕ → ℕ → Command
  query_session : List ℕ → List ℕ → Command

abbrev pub words_of : Command → List (List ℕ)
words_of (add proto local_port forward_ip forward_port) =
    codes "ADD" ∷ proto ∷ show local_port ∷ forward_ip ∷ show forward_port ∷ []
words_of (del proto local_port) = codes "DEL" ∷ proto ∷ show local_port ∷ []
words_of list = codes "LIST" ∷ []
words_of (timeout proto seconds) = codes "TIMEOUT" ∷ proto ∷ show seconds ∷ []
words_of (query_session src_ip dst_ip) = codes "QUERY-SESSION" ∷ src_ip ∷ dst_ip ∷ []

-- `cmd_str` of `run_client`.
unfoldable pub cmd_str : Command → List ℕ
cmd_str command = join b' ' (words_of command) ++ (b'\n' ∷ [])

unfoldable pub until_newline : List ℕ → List ℕ
until_newline [] = []
until_newline (c ∷ s) = let rest = until_newline s in if c == b'\n' then [] else c ∷ rest

abbrev pub has_newline : List ℕ → Bool
has_newline [] = false
has_newline (c ∷ s) = (c == b'\n') || has_newline s

abbrev pub drop_return : List ℕ → List ℕ
drop_return [] = []
drop_return (c ∷ []) = if c == b'\r' then [] else c ∷ []
drop_return (c ∷ d ∷ s) = c ∷ drop_return (d ∷ s)

-- `next_line` on the bytes of a connection; `none` when there are none.
unfoldable pub next_line : List ℕ → Option (List ℕ)
next_line [] = none
next_line (c ∷ s) =
    some (if has_newline (c ∷ s) then drop_return (until_newline (c ∷ s)) else c ∷ s)

-- What a line asks for, its numbers and addresses read.
pub data Action : Type 0 where
  do_add : List ℕ → ℕ → List ℕ → ℕ → Action
  do_del : List ℕ → ℕ → Action
  do_list : Action
  do_timeout : List ℕ → ℕ → Action
  do_query : ℕ → ℕ → Action

abbrev pub add_action : List ℕ → List ℕ → Option ℕ → Option ℕ → List ℕ ⊎ Action
add_action proto ip none forward_port = inl (codes "ERR: invalid local_port\n")
add_action proto ip (some local_port) none = inl (codes "ERR: invalid forward_port\n")
add_action proto ip (some local_port) (some forward_port) =
    inr (do_add proto local_port ip forward_port)

unfoldable pub parse_add : List (List ℕ) → List ℕ ⊎ Action
parse_add (proto ∷ local_port ∷ ip ∷ forward_port ∷ []) =
    add_action proto ip (parse_u32 local_port) (parse_u16 forward_port)
parse_add _ =
    inl (codes "ERR: ADD requires 4 arguments: proto, local_port, forward_ip, forward_port\n")

abbrev pub del_action : List ℕ → Option ℕ → List ℕ ⊎ Action
del_action proto none = inl (codes "ERR: invalid local_port\n")
del_action proto (some local_port) = inr (do_del proto local_port)

unfoldable pub parse_del : List (List ℕ) → List ℕ ⊎ Action
parse_del (proto ∷ local_port ∷ []) = del_action proto (parse_u32 local_port)
parse_del _ = inl (codes "ERR: DEL requires 2 arguments: proto, local_port\n")

abbrev pub timeout_action : List ℕ → Option ℕ → List ℕ ⊎ Action
timeout_action proto none = inl (codes "ERR: invalid seconds\n")
timeout_action proto (some seconds) = inr (do_timeout proto seconds)

unfoldable pub parse_timeout : List (List ℕ) → List ℕ ⊎ Action
parse_timeout (proto ∷ seconds ∷ []) = timeout_action proto (parse_u64 seconds)
parse_timeout _ = inl (codes "ERR: TIMEOUT requires 2 arguments: proto, seconds\n")

abbrev pub query_action : Option ℕ → Option ℕ → List ℕ ⊎ Action
query_action none dst_ip = inl (codes "ERR: invalid src_ip\n")
query_action (some src_ip) none = inl (codes "ERR: invalid dst_ip\n")
query_action (some src_ip) (some dst_ip) = inr (do_query src_ip dst_ip)

unfoldable pub parse_query : List (List ℕ) → List ℕ ⊎ Action
parse_query (src_ip ∷ dst_ip ∷ []) = query_action (parse_ipv4 src_ip) (parse_ipv4 dst_ip)
parse_query _ = inl (codes "ERR: QUERY-SESSION requires 2 arguments: src_ip, dst_ip\n")

-- The match on the first word, whatever its case.
unfoldable pub parse_command : List ℕ → List (List ℕ) → List ℕ ⊎ Action
parse_command word args =
    if text_eq (to_uppercase word) (codes "ADD")
    then parse_add args
    else if text_eq (to_uppercase word) (codes "DEL")
    then parse_del args
    else if text_eq (to_uppercase word) (codes "LIST")
    then inr do_list
    else if text_eq (to_uppercase word) (codes "TIMEOUT")
    then parse_timeout args
    else if text_eq (to_uppercase word) (codes "QUERY-SESSION")
    then parse_query args
    else inl (codes "ERR: unknown command " ++ (word ++ (b'\n' ∷ [])))

abbrev pub parse_parts : List (List ℕ) → List ℕ ⊎ Action
parse_parts [] = inl (codes "ERR: empty command\n")
parse_parts (word ∷ args) = parse_command word args

unfoldable pub parse_line : List ℕ → List ℕ ⊎ Action
parse_line line = parse_parts (split_whitespace line)
