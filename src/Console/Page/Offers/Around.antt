-- ===== src/Console/Page/Offers/Around.antt =====
-- The controls around the tabs of App.tsx's page: the sidebar and the toolbar.
use xdp_nat_forward.Base.{ℕ, Bool, List, [], ◌∷◌, map, All, append-All, map-All, All-if}
use xdp_nat_forward.Console.Text.{is_empty}
use xdp_nat_forward.Console.State.{App, Tab, rules_tab, diff_tab, sessions_tab}
use xdp_nat_forward.Console.View.{SidebarNode, SidebarGroup, sidebar}
use xdp_nat_forward.Console.Steps.{clicked_node, clicked_tab}
use xdp_nat_forward.Console.Elements.{tab_button, control, clicks_tab, clicks_node, concat}
use xdp_nat_forward.Console.Page.Sidebar.{
  select_node, node_element, group_elements, sidebar_elements, set_active_tab, toolbar,
}
use xdp_nat_forward.Console.Page.Offers.{Offers, quiet-IsEvent}

module _ (s : App) where
  node-Offers : (n : SidebarNode) → Offers s (node_element n)
  unfolding node_element select_node
  node-Offers n e (clicks_node id host active f) = quiet-IsEvent s _ (clicked_node n.node_id)

  groups-Offers : (gs : List SidebarGroup) → All (Offers s) (concat (map group_elements gs))
  unfolding group_elements
  groups-Offers [] = tt
  groups-Offers (g ∷ gs) =
      append-All (Offers s) (group_elements g) (concat (map group_elements gs))
        (tt, map-All (Offers s) node_element g.members node-Offers) (groups-Offers gs)

  pub sidebar-Offers : All (Offers s) (sidebar_elements s)
  unfolding sidebar_elements
  sidebar-Offers = (
    tt,
    (
      tt,
      (
        tt,
        append-All (Offers s) _ _
            (All-if (Offers s) (is_empty s.nodes) _ _ (λ e. (tt, (tt, (tt, tt))))
              (λ e. groups-Offers (sidebar s)))
            (tt, tt),
      ),
    ),
  )

  tab-Offers :
      (label : List ℕ) (active : Bool) (t : Tab)
      → Offers s (control (tab_button label active (set_active_tab t)))
  unfolding set_active_tab
  tab-Offers label active t e (clicks_tab l a f) = quiet-IsEvent s _ (clicked_tab t)

  pub toolbar-Offers : All (Offers s) (toolbar s)
  unfolding toolbar
  toolbar-Offers = (
    tt,
    (tt, (tab-Offers _ _ rules_tab, (tab-Offers _ _ sessions_tab, (tab-Offers _ _ diff_tab, tt)))),
  )
