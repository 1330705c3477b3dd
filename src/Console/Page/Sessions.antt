-- ===== src/Console/Page/Sessions.antt =====
-- App.tsx, the tab of the session query: its form, its error and the sessions found.
use xdp_nat_forward.Base.{ℕ, List, [], ◌∷◌, ◌++◌, if◌then◌else◌}
use xdp_nat_forward.Console.Text.{codes, show}
use xdp_nat_forward.Console.State.{SessionInfo, App}
use xdp_nat_forward.Console.View.{
  SessionsPanel, nothing_queried, no_sessions, sessions_table, sessions_panel,
}
use xdp_nat_forward.Console.Elements.{
  Element, text, control, text_input, submit_button, handle_query_sessions, message_or_null,
  id_or_none_selected, concat,
}

unfoldable pub set_query_src_ip : List ℕ → App → App
set_query_src_ip t s = record s { query_src_ip = t }

unfoldable pub set_query_dst_ip : List ℕ → App → App
set_query_dst_ip t s = record s { query_dst_ip = t }

unfoldable pub query_elements : App → List Element
query_elements s =
    text (codes "Query Active NAT Sessions on " ++ id_or_none_selected s.selected_node_id)
    ∷ text (
        codes
          "Enter source and destination IP addresses to inspect matching connection tracking entries in BPF maps in real-time.")
    ∷ control (text_input (codes "Source IP (Client IP)") s.query_src_ip set_query_src_ip)
    ∷ control (text_input (codes "Target IP (Destination IP)") s.query_dst_ip set_query_dst_ip)
    ∷ control (
        submit_button
          (if s.query_loading then codes "Querying Node..." else codes "Search Sessions")
          s.query_loading handle_query_sessions)
    ∷ []

unfoldable pub session_elements : SessionInfo → List Element
session_elements i =
    text i.proto ∷ text (show i.src_port) ∷ text (show i.dst_port) ∷ text (show i.nat_port) ∷ []

abbrev pub found_elements : List SessionInfo → List Element
found_elements [] = []
found_elements (i ∷ is) = session_elements i ++ found_elements is

abbrev pub number_found : ℕ → Element
number_found n = text (codes "Active Sessions Found (" ++ show n ++ codes ")")

unfoldable pub results_elements : SessionsPanel → List Element
results_elements nothing_queried = []
results_elements no_sessions =
    number_found 0 ∷ text (codes "No active tracked sessions match the query on this node.") ∷ []
results_elements (sessions_table n sessions) =
    number_found n
    ∷ text (codes "Protocol")
    ∷ text (codes "Source Port")
    ∷ text (codes "Target Port")
    ∷ text (codes "Translated NAT Port")
    ∷ found_elements sessions

unfoldable pub sessions_tab_elements : App → List Element
sessions_tab_elements s =
    concat
      (query_elements s ∷ message_or_null s.query_error ∷ results_elements (sessions_panel s) ∷ [])
