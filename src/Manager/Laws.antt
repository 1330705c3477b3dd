-- ===== src/Manager/Laws.antt =====
-- The tables of the manager: who is connected, who receives a command, which query gets an answer.
use xdp_nat_forward.Base.{
  ℕ, suc, ◌≡◌, ◌∙◌, ap, refl, arith, Bool, false, ◌&&◌, List, [], ◌∷◌, map, Option, none, some,
  if◌then◌else◌, Bool-cases, inl, inr, length, Option-cases,
}
use xdp_nat_forward.Console.Text.{text_eq}
use xdp_nat_forward.Console.Text.Laws.{text_eq_refl, text_eq_lem}
use xdp_nat_forward.Console.Sets.{filter, text_eq_comm}
use xdp_nat_forward.Manager.{
  ConnectedNode, WsParams, TextMap, remove, insert, get, AppState, connect, disconnect,
  matches_node_filter, send_all, not_connected, send_failed, waiting, start_query, query_response,
  query_timeout,
}

pub get-remove :
    {A : Type 0} (m : TextMap A) (k j : List ℕ)
    → get (remove m k) j ≡ (if text_eq k j then none else get m j)
unfolding get remove
get-remove [] k j = elim (Bool-cases (text_eq k j)) [ inl e ↦ rw e refl | inr e ↦ rw e refl ]
get-remove ((i, a) ∷ m) k j = elim (Bool-cases (text_eq i k)) [
  | inl e ↦ ground (arith, e, get-remove m k j, ap (λ x. text_eq x j) (text_eq_lem i k e))
  | inr e ↦ elim (Bool-cases (text_eq k j)) [
    | inl h ↦
        ground (arith, e, h, get-remove m k j, text_eq_comm i k, ap (text_eq i) (text_eq_lem k j h))
    | inr h ↦ ground (arith, e, h, get-remove m k j)
  ]
]

pub get-insert :
    {A : Type 0} (m : TextMap A) (k j : List ℕ) (a : A)
    → get (insert m k a) j ≡ (if text_eq k j then some a else get m j)
unfolding insert get
get-insert m k j a = ground (arith, get-remove m k j)

-- When a node connects again before its first connection is seen to end, the node is listed with its
-- second connection; the end of the first then removes the node although its second connection is
-- open, and every other node is as it was before.
pub disconnect-connect_again :
    (first second : ℕ) (p q : WsParams) (other : List ℕ) (s : AppState)
    → p.node_id ≡ q.node_id
    → text_eq q.node_id other ≡ false
    → let both = connect second q (connect first p s) in
      (get both.nodes q.node_id
        ≡ some (record {
          node_id = q.node_id;
          group = q.group;
          hostname = q.hostname;
          rules = [];
          ws_sender = second;
        }))
      × (get (disconnect p.node_id both).nodes q.node_id ≡ none)
      × (get (disconnect p.node_id both).nodes other ≡ get s.nodes other)
unfolding disconnect connect
disconnect-connect_again first second p q other s h differ =
    let both = connect second q (connect first p s) in
    (
      get-insert (connect first p s).nodes q.node_id q.node_id _ ∙ rw (text_eq_refl q.node_id) refl,
      get-remove both.nodes p.node_id q.node_id ∙ rw (h, text_eq_refl q.node_id) refl,
      rw (get-remove, get-insert, get-insert, h, differ) refl,
    )

-- The nodes of the group that the request names, or all of the group.
abbrev pub is_target : List ℕ → Option (List (List ℕ)) → ConnectedNode → Bool
is_target group node_ids node =
    text_eq node.group group && matches_node_filter node_ids node.node_id

abbrev pub values : {A : Type 0} → TextMap A → List A
values m = map (λ r. r.1) m

pub send_all_lem :
    (m : TextMap ConnectedNode) (group : List ℕ) (node_ids : Option (List (List ℕ)))
    → ((send_all m group node_ids).receivers ≡ filter (is_target group node_ids) (values m))
      × ((send_all m group node_ids).targets_sent
          ≡ length (filter (is_target group node_ids) (values m)))
unfolding send_all
send_all_lem [] group node_ids = (refl, refl)
send_all_lem ((k, node) ∷ m) group node_ids = elim (Bool-cases (text_eq node.group group)) [
  | inl e ↦ elim (Bool-cases (matches_node_filter node_ids node.node_id)) [
    | inl h ↦ (
      rw (e, h) (ap (λ xs. node ∷ xs) (send_all_lem m group node_ids).0),
      rw (e, h) (ap suc (send_all_lem m group node_ids).1),
    )
    | inr h ↦ rw (e, h) (send_all_lem m group node_ids)
  ]
  | inr e ↦ rw e (send_all_lem m group node_ids)
]

start_query-waiting :
    (node_id command_id : List ℕ) (request : ℕ) (sent : Bool) (s : AppState)
    → (start_query node_id command_id request sent s).0 ≡ waiting
    → (start_query node_id command_id request sent s).1.pending_queries
      ≡ insert s.pending_queries command_id request
unfolding start_query
start_query-waiting node_id command_id request sent s h =
    elim (Option-cases (get s.nodes node_id)) [
      | inl e ↦ absurd (refused (rw (start_query, e) at h))
      | inr (node, e) ↦ elim (Bool-cases sent) [
        | inl k ↦ rw (start_query, e, k) refl
        | inr k ↦ absurd (failed (rw (start_query, e, k) at h))
      ]
    ]
  where
    refused : not_connected ≡ waiting → ⊥
    refused e = absurd (cc)

    failed : send_failed ≡ waiting → ⊥
    failed e = absurd (cc)

insert_own : (m : TextMap ℕ) (k : List ℕ) (request : ℕ) → get (insert m k request) k ≡ some request
insert_own m k request = get-insert m k k request ∙ rw (text_eq_refl k) refl

remove_own : (m : TextMap ℕ) (k : List ℕ) → get (remove m k) k ≡ none
remove_own m k = get-remove m k k ∙ rw (text_eq_refl k) refl

-- A query that waits gets the answer that comes under its id; then nobody waits under the id, as after
-- a timeout, and every other query waits as it did before.
pub start_query-answered :
    (node_id command_id other : List ℕ) (request : ℕ) (sent : Bool) (s : AppState)
    → (start_query node_id command_id request sent s).0 ≡ waiting
    → text_eq command_id other ≡ false
    → let t = (start_query node_id command_id request sent s).1 in
      ((query_response command_id t).0 ≡ some request)
      × (get (query_response command_id t).1.pending_queries command_id ≡ none)
      × (get (query_timeout command_id t).pending_queries command_id ≡ none)
      × (get (query_response command_id t).1.pending_queries other ≡ get s.pending_queries other)
unfolding query_response query_timeout
start_query-answered node_id command_id other request sent s h k =
    rw (start_query-waiting node_id command_id request sent s h) (
      insert_own s.pending_queries command_id request,
      remove_own (insert s.pending_queries command_id request) command_id,
      remove_own (insert s.pending_queries command_id request) command_id,
      get-remove (insert s.pending_queries command_id request) command_id other
          ∙ rw k (get-insert s.pending_queries command_id other request ∙ rw k refl),
    )

-- When two queries that wait have one command id, the first answer under the id, whichever node sends
-- it, goes to the request of the second query, and the next answer goes to nobody.
pub start_query-shared_id :
    (first_node second_node command_id : List ℕ) (first second : ℕ) (sent_first sent_second : Bool)
    (s : AppState)
    → (start_query first_node command_id first sent_first s).0 ≡ waiting
    → (start_query second_node command_id second sent_second
        (start_query first_node command_id first sent_first s).1).0
      ≡ waiting
    → let t =
        (start_query second_node command_id second sent_second
          (start_query first_node command_id first sent_first s).1).1 in
      ((query_response command_id t).0 ≡ some second)
      × ((query_response command_id (query_response command_id t).1).0 ≡ none)
unfolding query_response
start_query-shared_id first_node second_node command_id first second sent_first sent_second s h k =
    let u = (start_query first_node command_id first sent_first s).1 in
    rw (start_query-waiting second_node command_id second sent_second u k) (
      insert_own u.pending_queries command_id second,
      remove_own (insert u.pending_queries command_id second) command_id,
    )
