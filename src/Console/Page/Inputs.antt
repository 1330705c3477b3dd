-- ===== src/Console/Page/Inputs.antt =====
-- What the user can do with the controls that App.tsx's page shows.
use xdp_nat_forward.Base.{
  ◌≡◌, sym, subst, refl, true, false, List, [], ◌∷◌, Option, none, some, ◌⊎◌, inl, inr,
  if◌then◌else◌, All, All-if, All-IsIn,
}
use xdp_nat_forward.Console.Text.{is_empty}
use xdp_nat_forward.Console.Sets.{includes}
use xdp_nat_forward.Console.State.{App, Tab, rules_tab, diff_tab, sessions_tab, groups}
use xdp_nat_forward.Console.Steps.Group.{Reachable-HasGroup}
use xdp_nat_forward.Console.Steps.{Reachable, after, Step}
use xdp_nat_forward.Console.Elements.{
  message_or_null, Request, add, delete, query, Effect, Element, control,
}
use xdp_nat_forward.Console.Page.Sidebar.{
  with_label, sidebar_elements, is_tab, toolbar, error_banner,
}
use xdp_nat_forward.Console.Page.Rules.{rules_tab_elements}
use xdp_nat_forward.Console.Page.Audit.{diff_tab_elements}
use xdp_nat_forward.Console.Page.Sessions.{sessions_tab_elements}
use xdp_nat_forward.Console.Page.{page, Input, uses}
use xdp_nat_forward.Console.Page.Offers.{Names, IsEvent, Offers, message-Offers, concat-Offers}
use xdp_nat_forward.Console.Page.Offers.Around.{sidebar-Offers, toolbar-Offers}
use xdp_nat_forward.Console.Page.Offers.Rules.{rules_tab-Offers}
use xdp_nat_forward.Console.Page.Offers.Audit.{diff_tab-Offers}
use xdp_nat_forward.Console.Page.Offers.Sessions.{sessions_tab-Offers}

module _ (s : App) where
  with_label-Offers : (es : List Element) → All (Offers s) es → All (Offers s) (with_label es)
  with_label-Offers [] h = tt
  with_label-Offers (e ∷ es) h = (tt, h)

  error_banner-Offers : All (Offers s) (error_banner s)
  unfolding error_banner
  error_banner-Offers = with_label-Offers (message_or_null s.error) (message-Offers s s.error)

  tab_elements-Offers :
      (t : Tab) (es : List Element)
      → All (Offers s) es
      → All (Offers s) (if is_tab s.active_tab t then es else [])
  tab_elements-Offers t es h = All-if (Offers s) (is_tab s.active_tab t) es [] (λ e. h) (λ e. tt)

  page-Offers : All (Offers s) (page s)
  unfolding page
  page-Offers =
      concat-Offers s
        (sidebar_elements s
          ∷ toolbar s
          ∷ error_banner s
          ∷ (if is_tab s.active_tab rules_tab then rules_tab_elements s else [])
          ∷ (if is_tab s.active_tab diff_tab then diff_tab_elements s else [])
          ∷ (if is_tab s.active_tab sessions_tab then sessions_tab_elements s else [])
          ∷ [])
        (
          sidebar-Offers s,
          (
            toolbar-Offers s,
            (
              error_banner-Offers,
              (
                tab_elements-Offers rules_tab (rules_tab_elements s) (rules_tab-Offers s),
                (
                  tab_elements-Offers diff_tab (diff_tab_elements s) (diff_tab-Offers s),
                  (
                    tab_elements-Offers sessions_tab (sessions_tab_elements s)
                        (sessions_tab-Offers s),
                    tt,
                  ),
                ),
              ),
            ),
          ),
        )

-- What is said of a request holds of the one that is sent, if any.
abbrev pub NamesSent : App → Option Request → Type 0
NamesSent s none = Unit
NamesSent s (some q) = Names s q

sent-NamesSent :
    (s : App) (o : Option Request) → ((q : Request) → o ≡ some q → Names s q) → NamesSent s o
sent-NamesSent s none h = tt
sent-NamesSent s (some q) h = h q refl

Input-IsEvent : (s : App) (e : Effect) → Input s e → IsEvent s e
Input-IsEvent s e (uses c i f) = All-IsIn (Offers s) (page s) (control c) (page-Offers s) i e f

-- Whatever the user does with a control that the page shows leaves the state as it is or is an event of the
-- state machine, whose guards the page keeps; and a request that it sends names the target group,
-- or for a query the selected node.
pub Input-Step :
    (s : App) (e : Effect) → Input s e → ((e.state ≡ s) ⊎ Step s e.state) × NamesSent s e.sent
Input-Step s e i = let event = Input-IsEvent s e i in (event.0, sent-NamesSent s e.sent event.1)

pub Input-Reachable : (s : App) (e : Effect) → Reachable s → Input s e → Reachable e.state
Input-Reachable s e r i = elim (Input-Step s e i).0 [
  | inl same ↦ subst Reachable (sym same) r
  | inr st ↦ after r st
]

-- The request is for a group that some connected node is in, or for the selected node.
abbrev pub IsAddressed : App → Request → Type 0
IsAddressed s (add q) = includes (groups s.nodes) q.group ≡ true
IsAddressed s (delete q) = includes (groups s.nodes) q.group ≡ true
IsAddressed s (query q) = s.selected_node_id ≡ some q.node_id

target_group-groups :
    (s : App)
    → Reachable s
    → is_empty s.nodes ≡ false
    → includes (groups s.nodes) s.target_group ≡ true
target_group-groups s r h = elim (Reachable-HasGroup s r) [ inl e ↦ absurd (cc) | inr k ↦ k ]

Names-IsAddressed :
    (s : App) (q : Request)
    → includes (groups s.nodes) s.target_group ≡ true
    → Names s q
    → IsAddressed s q
Names-IsAddressed s (add q) h e = rw e h
Names-IsAddressed s (delete q) h e = rw e h
Names-IsAddressed s (query q) h e = e

-- In every reachable state of the console with nodes, a rule that any control of the page sends or deletes
-- is for a group that some of these nodes is in, and a query is for the selected node.
pub Input-IsAddressed :
    (s : App) (e : Effect) (q : Request)
    → Reachable s
    → is_empty s.nodes ≡ false
    → Input s e
    → e.sent ≡ some q
    → IsAddressed s q
Input-IsAddressed s e q r h i k =
    Names-IsAddressed s q (target_group-groups s r h) ((Input-IsEvent s e i).1 q k)
