-- ===== src/Manager/Serving/Laws.antt =====
-- What the two tables of the manager hold at any time.
use xdp_nat_forward.Base.{
  ℕ, ◌≡◌, sym, ap, subst, refl, Bool, List, [], ◌∷◌, ◌++◌, Bool-cases, Option-cases, ◌⊎◌, inl, inr,
  All, All-All, IsIn, Distinct,
}
use xdp_nat_forward.Console.Text.Laws.{text_eq_refl}
use xdp_nat_forward.Manager.{
  ConnectedNode, TextMap, remove, insert, get, AppState, connect, report, disconnect, QueryStart,
  not_connected, send_failed, waiting, start_query, query_response, query_timeout,
}
use xdp_nat_forward.Manager.Tables.{
  keys, IsIn-get, remove-All, modify-All, remove-Distinct, insert-Distinct, keys-modify,
}
use xdp_nat_forward.Manager.Serving.Calls.{
  IsAmong, moved-IsAmong, left_first, left_second, more-IsAmong,
}
use xdp_nat_forward.Manager.Serving.{
  Server, on_connect, with_request, on_query, Event, connected, reported, closed, removed, queried,
  unwanted, answered, given_up, expired, too_late, dropped, timed_out, Served, start, after_event,
}

-- The entry of a node stands under the node's id, and its sender writes to a connection of that id, which is
-- open or whose call has not yet removed its node.
abbrev pub IsOpen : List (ℕ × List ℕ) → List (ℕ × List ℕ) → List ℕ × ConnectedNode → Type 0
IsOpen connections ending r = (r.1.node_id ≡ r.0) × IsAmong (r.1.ws_sender, r.0) connections ending

-- The request of a pending query still waits for it, or was dropped or timed out while it waited.
abbrev pub Waits : List (ℕ × List ℕ) → List (ℕ × List ℕ) → List ℕ × ℕ → Type 0
Waits requests abandoned r = IsAmong (r.1, r.0) requests abandoned

pub record Linked (s : Server) : Type 0 where
  pub nodes_open : All (IsOpen s.connections s.ending) s.app.nodes
  pub nodes_once : Distinct (keys s.app.nodes)
  pub queries_wait : All (Waits s.requests s.abandoned) s.app.pending_queries
  pub queries_once : Distinct (keys s.app.pending_queries)

-- What is left of the queries when a key is removed with the request that was handled under it.
left-Waits :
    (m : TextMap ℕ) (k : ℕ) (id : List ℕ) (before after ys : List (ℕ × List ℕ))
    → All (Waits (before ++ ((k, id) ∷ after)) ys) m
    → All (Waits (before ++ after) ys) (remove m id)
left-Waits m k id before after ys h =
    All-All _ _ (remove m id)
      (λ r w. left_first _ (k, id) before after ys (λ e. w.1 (ap (λ x. x.1) e)) w.0)
      (remove-All (Waits (before ++ ((k, id) ∷ after)) ys) m id h)

-- The table does not have the entry of what is no longer handled.
kept-Waits :
    (m : TextMap ℕ) (k : ℕ) (id : List ℕ) (before after ys : List (ℕ × List ℕ))
    → ¬ (IsIn (id, k) m)
    → All (Waits (before ++ ((k, id) ∷ after)) ys) m
    → All (Waits (before ++ after) ys) m
kept-Waits [] k id before after ys n h = tt
kept-Waits (r ∷ m) k id before after ys n h = (
  left_first _ (k, id) before after ys (λ e. n (inl (cc))) h.0,
  kept-Waits m k id before after ys (λ i. n (inr i)) h.1,
)

waiting-Linked :
    (s : Server) (request : ℕ) (id : List ℕ)
    → Linked s
    → Linked (record s {
      app = record s.app { pending_queries = insert s.app.pending_queries id request };
      requests = (request, id) ∷ s.requests;
    })
unfolding insert
waiting-Linked s request id h = record {
  nodes_open = h.nodes_open;
  nodes_once = h.nodes_once;
  queries_wait = (
    inl (inl refl),
    All-All _ _ (remove s.app.pending_queries id)
        (λ r w. more-IsAmong _ (request, id) s.requests s.abandoned w.0)
        (remove-All (Waits s.requests s.abandoned) s.app.pending_queries id h.queries_wait),
  );
  queries_once = insert-Distinct s.app.pending_queries id request h.queries_once;
}

-- The sender of a query that could not be written is taken out again.
failed-Linked :
    (s : Server) (request : ℕ) (id : List ℕ)
    → Linked s
    → Linked (record s {
      app = record s.app { pending_queries = remove (insert s.app.pending_queries id request) id };
    })
unfolding insert remove
failed-Linked s request id h = record {
  nodes_open = h.nodes_open;
  nodes_once = h.nodes_once;
  queries_wait =
      rw (text_eq_refl id) (
        all_left (remove s.app.pending_queries id) (all_left s.app.pending_queries h.queries_wait));
  queries_once =
      remove-Distinct (insert s.app.pending_queries id request) id
        (insert-Distinct s.app.pending_queries id request h.queries_once);
}
  where
    all_left :
        (m : TextMap ℕ)
        → All (Waits s.requests s.abandoned) m
        → All (Waits s.requests s.abandoned) (remove m id)
    all_left m k =
        All-All _ _ (remove m id) (λ r w. w.0) (remove-All (Waits s.requests s.abandoned) m id k)

start_query-cases :
    (node_id id : List ℕ) (request : ℕ) (sent : Bool) (a : AppState)
    → (start_query node_id id request sent a ≡ (not_connected, a))
      ⊎ ((start_query node_id id request sent a ≡ (
        send_failed,
        record a { pending_queries = remove (insert a.pending_queries id request) id },
      ))
          ⊎ (start_query node_id id request sent a
              ≡ (waiting, record a { pending_queries = insert a.pending_queries id request })))
unfolding start_query
start_query-cases node_id id request sent a = elim (Option-cases (get a.nodes node_id)) [
  | inl e ↦ inl (rw (start_query, e) refl)
  | inr (node, e) ↦ elim (Bool-cases sent) [
    | inl k ↦ inr (inr (rw (start_query, e, k) refl))
    | inr k ↦ inr (inl (rw (start_query, e, k) refl))
  ]
]

on_query-Linked :
    (node_id id : List ℕ) (request : ℕ) (sent : Bool) (s : Server)
    → Linked s
    → Linked (on_query node_id id request sent s)
unfolding on_query
on_query-Linked node_id id request sent s h =
    let by : (o : QueryStart × AppState)
        → start_query node_id id request sent s.app ≡ o
        → Linked (with_request request id o s)
        → Linked (with_request request id (start_query node_id id request sent s.app) s) =
      λ o e. subst (λ p. Linked (with_request request id p s)) (sym e) in
    elim (start_query-cases node_id id request sent s.app) [
      | inl e ↦ by _ e h
      | inr (inl e) ↦ by _ e (failed-Linked s request id h)
      | inr (inr e) ↦ by _ e (waiting-Linked s request id h)
    ]

Event-Linked : (s t : Server) → Event s t → Linked s → Linked t
unfolding on_connect connect report disconnect query_response query_timeout insert
Event-Linked s t (connected socket params) h = record {
  nodes_open = (
    (refl, inl (inl refl)),
    All-All _ _ (remove s.app.nodes params.node_id)
        (λ r w. (w.0.0, more-IsAmong _ (socket, params.node_id) s.connections s.ending w.0.1))
        (remove-All (IsOpen s.connections s.ending) s.app.nodes params.node_id h.nodes_open),
  );
  nodes_once =
      insert-Distinct s.app.nodes params.node_id
        (record {
          node_id = params.node_id;
          group = params.group;
          hostname = params.hostname;
          rules = [];
          ws_sender = socket;
        })
        h.nodes_once;
  queries_wait = h.queries_wait;
  queries_once = h.queries_once;
}
Event-Linked s t (reported node_id group hostname rules) h = record {
  nodes_open =
      modify-All (IsOpen s.connections s.ending) s.app.nodes node_id _ (λ j a w. w) h.nodes_open;
  nodes_once =
      rw
        (keys-modify s.app.nodes node_id
          (λ node. record node { rules = rules; group = group; hostname = hostname }))
        h.nodes_once;
  queries_wait = h.queries_wait;
  queries_once = h.queries_once;
}
Event-Linked s t (closed socket id before after e) h = record {
  nodes_open =
      All-All _ _ s.app.nodes (λ r w. (w.0, moved-IsAmong _ (socket, id) before after s.ending w.1))
        (rw e at h.nodes_open);
  nodes_once = h.nodes_once;
  queries_wait = h.queries_wait;
  queries_once = h.queries_once;
}
Event-Linked s t (removed socket id before after e) h = record {
  nodes_open =
      All-All _ _ (remove s.app.nodes id)
        (λ r w. (
          w.0.0,
          left_second _ (socket, id) before after s.connections (λ e. w.1 (ap (λ x. x.1) e)) w.0.1,
        ))
        (remove-All (IsOpen s.connections (before ++ ((socket, id) ∷ after))) s.app.nodes id
          (rw e at h.nodes_open));
  nodes_once = remove-Distinct s.app.nodes id h.nodes_once;
  queries_wait = h.queries_wait;
  queries_once = h.queries_once;
}
Event-Linked s t (queried node_id id request sent) h = on_query-Linked node_id id request sent s h
Event-Linked s t (unwanted id e) h = record {
  nodes_open = h.nodes_open;
  nodes_once = h.nodes_once;
  queries_wait =
      All-All _ _ (remove s.app.pending_queries id) (λ r w. w.0)
        (remove-All (Waits s.requests s.abandoned) s.app.pending_queries id h.queries_wait);
  queries_once = remove-Distinct s.app.pending_queries id h.queries_once;
}
Event-Linked s t (answered id request before after e split) h = record {
  nodes_open = h.nodes_open;
  nodes_once = h.nodes_once;
  queries_wait =
      left-Waits s.app.pending_queries request id before after s.abandoned
        (rw split at h.queries_wait);
  queries_once = remove-Distinct s.app.pending_queries id h.queries_once;
}
Event-Linked s t (given_up id request before after split) h = record {
  nodes_open = h.nodes_open;
  nodes_once = h.nodes_once;
  queries_wait =
      All-All _ _ s.app.pending_queries
        (λ r w. moved-IsAmong _ (request, id) before after s.abandoned w)
        (rw split at h.queries_wait);
  queries_once = h.queries_once;
}
Event-Linked s t (expired id request before after split) h = record {
  nodes_open = h.nodes_open;
  nodes_once = h.nodes_once;
  queries_wait =
      All-All _ _ s.app.pending_queries
        (λ r w. moved-IsAmong _ (request, id) before after s.abandoned w)
        (rw split at h.queries_wait);
  queries_once = h.queries_once;
}
Event-Linked s t (too_late id request before after e split) h = record {
  nodes_open = h.nodes_open;
  nodes_once = h.nodes_once;
  queries_wait =
      All-All _ _ (remove s.app.pending_queries id)
        (λ r w.
          left_second _ (request, id) before after s.requests (λ e. w.1 (ap (λ x. x.1) e)) w.0)
        (remove-All (Waits s.requests (before ++ ((request, id) ∷ after))) s.app.pending_queries id
          (rw split at h.queries_wait));
  queries_once = remove-Distinct s.app.pending_queries id h.queries_once;
}
Event-Linked s t (dropped id request before after n split) h = record {
  nodes_open = h.nodes_open;
  nodes_once = h.nodes_once;
  queries_wait =
      kept-Waits s.app.pending_queries request id before after s.abandoned
        (λ i. n (IsIn-get s.app.pending_queries id request h.queries_once i))
        (rw split at h.queries_wait);
  queries_once = h.queries_once;
}
Event-Linked s t (timed_out id request before after split) h = record {
  nodes_open = h.nodes_open;
  nodes_once = h.nodes_once;
  queries_wait =
      All-All _ _ (remove s.app.pending_queries id) (λ r w. w.0)
        (remove-All (Waits s.requests s.abandoned) s.app.pending_queries id h.queries_wait);
  queries_once = remove-Distinct s.app.pending_queries id h.queries_once;
}

-- At any time, whatever connects, reports, fails, is asked, answers, is given up or takes too long: the
-- manager lists each node once, under its id and with a sender to a connection of that id, which is
-- open or whose handler has left its loop and not yet removed the node; and each pending query belongs
-- to a request that still waits for an answer under its command id, or that was dropped or timed out
-- while it waited.
pub Served-Linked : (s : Server) → Served s → Linked s
Served-Linked s start = record {
  nodes_open = tt;
  nodes_once = tt;
  queries_wait = tt;
  queries_once = tt;
}
Served-Linked s (after_event r t w e) = Event-Linked r s e (Served-Linked r w)
