-- ===== src/Console/Page/Sidebar.antt =====
-- App.tsx, around the panels: the sidebar of nodes, the toolbar with the tabs, and the error banner.
use xdp_nat_forward.Base.{
  ℕ, Bool, true, false, List, [], ◌∷◌, ◌++◌, map, some, if◌then◌else◌, length,
}
use xdp_nat_forward.Console.Text.{codes, is_empty, show}
use xdp_nat_forward.Console.State.{App, Tab, rules_tab, diff_tab, sessions_tab}
use xdp_nat_forward.Console.View.{SidebarNode, SidebarGroup, sidebar}
use xdp_nat_forward.Console.Elements.{
  Element, text, control, tab_button, node_entry, message_or_null, concat,
}

unfoldable pub select_node : List ℕ → App → App
select_node id s = record s { selected_node_id = some id }

unfoldable pub node_element : SidebarNode → Element
node_element n = control (node_entry n.node_id n.hostname n.is_highlighted (select_node n.node_id))

unfoldable pub group_elements : SidebarGroup → List Element
group_elements g = text (codes "Group: " ++ g.group) ∷ map node_element g.members

unfoldable pub sidebar_elements : App → List Element
sidebar_elements s =
    text (codes "XDP NAT Manager")
    ∷ text (codes "Daemons Hub")
    ∷ text (codes "Connected Agents (" ++ show (length s.nodes) ++ codes ")")
    ∷ ((if is_empty s.nodes
          then text (codes "No active nodes connected.")
            ∷ text (codes "Start daemons with")
            ∷ text (codes "--manager-url ws://...")
            ∷ []
          else concat (map group_elements (sidebar s)))
        ++ (text (codes "Manager daemon status: Active") ∷ []))

-- `activeTab === tab`
abbrev pub is_tab : Tab → Tab → Bool
is_tab rules_tab rules_tab = true
is_tab rules_tab diff_tab = false
is_tab rules_tab sessions_tab = false
is_tab diff_tab rules_tab = false
is_tab diff_tab diff_tab = true
is_tab diff_tab sessions_tab = false
is_tab sessions_tab rules_tab = false
is_tab sessions_tab diff_tab = false
is_tab sessions_tab sessions_tab = true

unfoldable pub set_active_tab : Tab → App → App
set_active_tab t s = record s { active_tab = t }

unfoldable pub toolbar : App → List Element
toolbar s =
    text (codes "NAT Rules Orchestrator Panel")
    ∷ text (codes "Manage driver-level NAT rules across multiple connected nodes")
    ∷ control (
        tab_button (codes "Rules Dashboard") (is_tab s.active_tab rules_tab)
          (set_active_tab rules_tab))
    ∷ control (
        tab_button (codes "Session Query") (is_tab s.active_tab sessions_tab)
          (set_active_tab sessions_tab))
    ∷ control (
        tab_button (codes "Cluster Diff Auditor") (is_tab s.active_tab diff_tab)
          (set_active_tab diff_tab))
    ∷ []

-- The banner has a label in front of its message.
abbrev pub with_label : List Element → List Element
with_label [] = []
with_label (e ∷ es) = text (codes "Error connecting:") ∷ (e ∷ es)

unfoldable pub error_banner : App → List Element
error_banner s = with_label (message_or_null s.error)
