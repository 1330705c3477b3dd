-- ===== src/Daemon/Command/Served.antt =====
-- forward/src/cmd.rs: what the daemon does on a connection of the client.
use xdp_nat_forward.Base.{ℕ, ◌≡◌, refl, Bool, Option, some, List}
use xdp_nat_forward.Datapath.Types.{ForwardKey, ForwardVal}
use xdp_nat_forward.Datapath.Maps.{HashMap}
use xdp_nat_forward.Datapath.Maps.Iteration.{Iteration}
use xdp_nat_forward.Daemon.Rules.{RulesFile}
use xdp_nat_forward.Daemon.Service.{State}
use xdp_nat_forward.Daemon.Command.{Command, Action, cmd_str}
use xdp_nat_forward.Daemon.Command.Replies.{Surroundings, carry_out, handle_command, serve}
use xdp_nat_forward.Daemon.Command.Laws.{Means, next_line-cmd_str, parse_line-words}

abbrev pub answered {ℓ} : {S : Type ℓ} → List ℕ × S → Option (List ℕ) × S
answered r = (some r.0, r.1)

module _ (forward_map : HashMap ForwardKey ForwardVal) (iteration : Iteration forward_map)
    (file : RulesFile) where
  -- The line that the command-line client writes for a command, whose texts are words without white space,
  -- whose numbers are in the range of the client's arguments, and whose two addresses, if it is a query
  -- for sessions, are IPv4 addresses, makes the daemon do what the command asks for, with the same protocol, ports, address and seconds, and it answers with that operation's text.
  pub serve-cmd_str :
      (c : Command) (a : Action) (has_path : Bool) (around : Surroundings)
      (s : State forward_map iteration file)
      → Means c a
      → serve forward_map iteration file has_path around (cmd_str c) s
        ≡ answered (carry_out forward_map iteration file has_path around a s)
  unfolding serve handle_command
  serve-cmd_str c a has_path around s m = rw (next_line-cmd_str c a m, parse_line-words c a m) refl
