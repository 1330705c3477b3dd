-- ===== src/Console/Page/Offers/Sessions.antt =====
-- The controls of App.tsx's tab of the session query.
use xdp_nat_forward.Base.{
  ℕ, ◌≡◌, subst, List, [], ◌∷◌, some, inl, inr, All, some_injective, none_not_some,
}
use mathlib.Core.Option
use xdp_nat_forward.Console.State.{App, SessionInfo}
use xdp_nat_forward.Console.View.{
  SessionsPanel, nothing_queried, no_sessions, sessions_table, sessions_panel,
}
use xdp_nat_forward.Console.Handlers.{query_request}
use xdp_nat_forward.Console.Handlers.Laws.{submit_query_lem}
use xdp_nat_forward.Console.Steps.{typed_src_ip, typed_dst_ip, submitted_query}
use xdp_nat_forward.Console.Elements.{
  Request, query, text_input, submit_button, control, types, submits, handle_query_sessions,
  message_or_null,
}
use xdp_nat_forward.Console.Page.Sessions.{
  set_query_src_ip, set_query_dst_ip, query_elements, session_elements, found_elements,
  results_elements, sessions_tab_elements,
}
use xdp_nat_forward.Console.Page.Offers.{
  Names, Offers, quiet-IsEvent, message-Offers, concat-Offers,
}

module _ (s : App) where
  query-Names : (q : Request) → Option.map query (query_request s) ≡ some q → Names s q
  query-Names q e = elim (submit_query_lem s) [
    | inl (k, rest) ↦ absurd (none_not_some (rw k at e))
    | inr (r, k, selected, _, _, _, _, _, _) ↦ subst (Names s) (some_injective (rw k at e)) selected
  ]

  query-Offers :
      (label : List ℕ)
      → Offers s (control (submit_button label s.query_loading handle_query_sessions))
  unfolding handle_query_sessions
  query-Offers label e (submits l d f h) = (inr (submitted_query h), query-Names)

  found-Offers : (is : List SessionInfo) → All (Offers s) (found_elements is)
  unfolding session_elements
  found-Offers [] = tt
  found-Offers (i ∷ is) = (tt, (tt, (tt, (tt, found-Offers is))))

  results-Offers : (p : SessionsPanel) → All (Offers s) (results_elements p)
  unfolding results_elements
  results-Offers nothing_queried = tt
  results-Offers no_sessions = (tt, (tt, tt))
  results-Offers (sessions_table n is) = (tt, (tt, (tt, (tt, (tt, found-Offers is)))))

  src-Offers : (label value : List ℕ) → Offers s (control (text_input label value set_query_src_ip))
  unfolding set_query_src_ip
  src-Offers label value e (types l v f t) = quiet-IsEvent s _ (typed_src_ip t)

  dst-Offers : (label value : List ℕ) → Offers s (control (text_input label value set_query_dst_ip))
  unfolding set_query_dst_ip
  dst-Offers label value e (types l v f t) = quiet-IsEvent s _ (typed_dst_ip t)

  query_elements-Offers : All (Offers s) (query_elements s)
  unfolding query_elements
  query_elements-Offers = (tt, (tt, (src-Offers _ _, (dst-Offers _ _, (query-Offers _, tt)))))

  pub sessions_tab-Offers : All (Offers s) (sessions_tab_elements s)
  unfolding sessions_tab_elements
  sessions_tab-Offers =
      concat-Offers s
        (query_elements s
          ∷ message_or_null s.query_error
          ∷ results_elements (sessions_panel s)
          ∷ [])
        (
          query_elements-Offers,
          (message-Offers s s.query_error, (results-Offers (sessions_panel s), tt)),
        )
