-- ===== src/Console/Page.antt =====
-- App.tsx, the whole page, and what the user can do with it.
pub mod Sidebar
pub mod Rules
pub mod Audit
pub mod Sessions
pub mod Offers
pub mod Inputs
use xdp_nat_forward.Base.{Bool, true, false, List, [], ◌∷◌, IsIn, if◌then◌else◌}
use xdp_nat_forward.Console.State.{App, rules_tab, diff_tab, sessions_tab}
use xdp_nat_forward.Console.Elements.{Element, Control, control, Effect, Fires, concat}
use xdp_nat_forward.Console.Page.Sidebar.{is_tab, sidebar_elements, toolbar, error_banner}
use xdp_nat_forward.Console.Page.Rules.{rules_tab_elements}
use xdp_nat_forward.Console.Page.Audit.{diff_tab_elements}
use xdp_nat_forward.Console.Page.Sessions.{sessions_tab_elements}

unfoldable pub page : App → List Element
page s = concat (
    sidebar_elements s
    ∷ toolbar s
    ∷ error_banner s
    ∷ (if is_tab s.active_tab rules_tab then rules_tab_elements s else [])
    ∷ (if is_tab s.active_tab diff_tab then diff_tab_elements s else [])
    ∷ (if is_tab s.active_tab sessions_tab then sessions_tab_elements s else [])
    ∷ [])

-- The user uses a control of the page.
pub data Input (s : App) (e : Effect) : Type 0 where
  uses : (c : Control) → IsIn (control c) (page s) → Fires s c e → Input s e
