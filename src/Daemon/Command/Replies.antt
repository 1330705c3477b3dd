-- ===== src/Daemon/Command/Replies.antt =====
-- forward/src/cmd.rs: what the daemon does with a line of its socket, and the text it answers.
use xdp_nat_forward.Base.{
  ℕ, ◌==◌, Bool, true, false, Option, none, some, List, [], ◌∷◌, ◌++◌, length, if◌then◌else◌, ◌⊎◌,
  inl, inr,
}
use xdp_nat_forward.Console.Text.{codes, show}
use xdp_nat_forward.Datapath.Types.{ForwardKey, ForwardVal, SessionKey, SessionVal}
use xdp_nat_forward.Datapath.Maps.{HashMap}
use xdp_nat_forward.Datapath.Maps.Iteration.{Iteration}
use xdp_nat_forward.Daemon.Words.{to_lowercase, join, show_ipv4, show_mac}
use xdp_nat_forward.Daemon.Host.{Network}
use xdp_nat_forward.Daemon.Rules.{
  ForwardRule, RuleError, invalid_protocol, Result, ok, err, RulesFile, list_forward_rules,
}
use xdp_nat_forward.Daemon.Service.{State, add_and_save, delete_and_save, update_timeout}
use xdp_nat_forward.Daemon.Sessions.{SessionInfo, query_sessions}
use xdp_nat_forward.Daemon.Command.{
  Action, do_add, do_del, do_list, do_timeout, do_query, next_line, parse_line,
}

-- What the daemon meets while it carries a line out: the network, what a walk over SESSION_MAP reads,
-- and the text of an error, `{e:#}`.
pub record Surroundings : Type 0 where
  pub network : Network
  pub session_items : List (Option (SessionKey × SessionVal))
  pub error_text : RuleError → List ℕ

abbrev pub err_line : List ℕ → List ℕ
err_line message = codes "ERR: " ++ (message ++ (b'\n' ∷ []))

-- Columns with tabs between them.
abbrev pub row : List (List ℕ) → List ℕ
row columns = join b'\t' columns ++ (b'\n' ∷ [])

abbrev pub rule_row : ForwardRule → List ℕ
rule_row rule = row (
    (if rule.proto == 6 then codes "tcp" else codes "udp")
    ∷ show rule.local_port
    ∷ show_ipv4 rule.forward_ip
    ∷ show rule.forward_port
    ∷ show_mac rule.forward_mac
    ∷ [])

abbrev pub rows {ℓ} : {A : Type ℓ} → (A → List ℕ) → List A → List ℕ
rows f [] = []
rows f (x ∷ xs) = f x ++ rows f xs

unfoldable pub added_line :
    (RuleError → List ℕ) → List ℕ → ℕ → List ℕ → ℕ → Result (List ℕ) → List ℕ
added_line text proto local_port ip forward_port (ok mac) =
    codes "OK: mapped "
    ++ (to_lowercase proto
        ++ (b':'
            ∷ (show local_port
                ++ (codes " -> "
                    ++ (ip
                        ++ (b':'
                            ∷ (show forward_port
                                ++ (codes " (" ++ (show_mac mac ++ codes ")\n")))))))))
added_line text proto local_port ip forward_port (err e) = err_line (text e)

unfoldable pub deleted_line : (RuleError → List ℕ) → List ℕ → ℕ → Result (Unit {0}) → List ℕ
deleted_line text proto local_port (ok u) =
    codes "OK: deleted forwarding mapping for "
    ++ (to_lowercase proto ++ (codes " port " ++ (show local_port ++ (b'\n' ∷ []))))
deleted_line text proto local_port (err e) = err_line (text e)

unfoldable pub listed_lines : (RuleError → List ℕ) → Result (List ForwardRule) → List ℕ
listed_lines text (ok rules) =
    row (
      codes "PROTO"
      ∷ codes "LOCAL_PORT"
      ∷ codes "FORWARD_IP"
      ∷ codes "FORWARD_PORT"
      ∷ codes "FORWARD_MAC"
      ∷ [])
    ++ rows rule_row rules
listed_lines text (err e) = codes "ERR: failed to list rules: " ++ (text e ++ (b'\n' ∷ []))

unfoldable pub timeout_line : (RuleError → List ℕ) → List ℕ → ℕ → Bool → List ℕ
timeout_line text proto seconds true =
    codes "OK: set "
    ++ (to_lowercase proto ++ (codes " timeout to " ++ (show seconds ++ codes " seconds\n")))
timeout_line text proto seconds false = err_line (text invalid_protocol)

abbrev pub session_row : SessionInfo → List ℕ
session_row r = row (r.proto ∷ show r.src_port ∷ show r.dst_port ∷ show r.nat_port ∷ [])

unfoldable pub found_lines : List SessionInfo → List ℕ
found_lines [] = codes "NOT_FOUND: No active session matches\n"
found_lines (r ∷ rs) =
    (codes "FOUND: " ++ (show (length (r ∷ rs)) ++ codes " sessions\n"))
    ++ (row (codes "PROTO" ∷ codes "SRC_PORT" ∷ codes "DST_PORT" ∷ codes "NAT_PORT" ∷ [])
        ++ rows session_row (r ∷ rs))

module _ (forward_map : HashMap ForwardKey ForwardVal) (iteration : Iteration forward_map)
    (file : RulesFile) where
  unfoldable pub carry_out :
      Bool
      → Surroundings
      → Action
      → State forward_map iteration file
      → List ℕ × State forward_map iteration file
  carry_out has_path around (do_add proto local_port ip forward_port) s =
      let r =
        add_and_save forward_map iteration file has_path around.network proto local_port ip
          forward_port s in
      (added_line around.error_text proto local_port ip forward_port r.0, r.1)
  carry_out has_path around (do_del proto local_port) s =
      let r = delete_and_save forward_map iteration file has_path proto local_port s in
      (deleted_line around.error_text proto local_port r.0, r.1)
  carry_out has_path around do_list s =
      (listed_lines around.error_text (list_forward_rules forward_map iteration s.rules), s)
  carry_out has_path around (do_timeout proto seconds) s =
      let r = update_timeout forward_map iteration file proto seconds s in
      (timeout_line around.error_text proto seconds r.0, r.1)
  carry_out has_path around (do_query src_ip dst_ip) s =
      (found_lines (query_sessions src_ip dst_ip around.session_items), s)

  abbrev pub answer :
      Bool
      → Surroundings
      → List ℕ ⊎ Action
      → State forward_map iteration file
      → List ℕ × State forward_map iteration file
  answer has_path around (inl message) s = (message, s)
  answer has_path around (inr action) s = carry_out has_path around action s

  unfoldable pub handle_command :
      Bool
      → Surroundings
      → List ℕ
      → State forward_map iteration file
      → List ℕ × State forward_map iteration file
  handle_command has_path around line s = answer has_path around (parse_line line) s

  abbrev pub serve_line :
      Bool
      → Surroundings
      → Option (List ℕ)
      → State forward_map iteration file
      → Option (List ℕ) × State forward_map iteration file
  serve_line has_path around none s = (none, s)
  serve_line has_path around (some line) s =
      let r = handle_command has_path around line s in (some r.0, r.1)

  -- One connection: the bytes received, and the response if one is written.
  unfoldable pub serve :
      Bool
      → Surroundings
      → List ℕ
      → State forward_map iteration file
      → Option (List ℕ) × State forward_map iteration file
  serve has_path around bytes s = serve_line has_path around (next_line bytes) s
