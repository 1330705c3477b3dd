-- ===== src/Console/Handlers/Laws.antt =====
-- What the handlers send and what a reply leaves, on every branch.
use xdp_nat_forward.Base.{
  ℕ, ◌≡◌, sym, subst, refl, arith, true, false, ◌||◌, List, [], ◌∷◌, none, some, if◌then◌else◌,
  Bool-cases, Option-cases, ◌⊎◌, inl, inr,
}
use xdp_nat_forward.Console.Text.{codes, show, is_empty}
use xdp_nat_forward.Console.Text.Laws.{parse_int-show}
use xdp_nat_forward.Console.State.{App, SessionResults, is_falsy}
use xdp_nat_forward.Console.Handlers.{
  Reply, rejected, not_ok, QueryRequest, query_request, submit_query, query_result, settle_query,
  proto_text, add_payload, add_request, settle_add, js_integer, query_of, show_answer,
}

-- The state in which a query is under way.
abbrev pub querying : App → App
querying s = record s { query_loading = true; query_error = none; session_results = none }

abbrev no_node : List ℕ
no_node = codes "Please select an agent node from the sidebar first."

abbrev no_address : List ℕ
no_address = codes "Please enter both source IP and target IP."

-- A query without a request changes only the error shown; one with a request names the selected node
-- and the two addresses, none of them empty, and starts loading with no result and no error shown.
pub submit_query_lem :
    (s : App)
    → ((query_request s ≡ none)
        × ((e : List ℕ) × (submit_query s ≡ record s { query_error = some e })))
      ⊎ ((q : QueryRequest) × (query_request s ≡ some q)
          × (s.selected_node_id ≡ some q.node_id)
          × (is_empty q.node_id ≡ false)
          × (q.src_ip ≡ s.query_src_ip)
          × (is_empty q.src_ip ≡ false)
          × (q.dst_ip ≡ s.query_dst_ip)
          × (is_empty q.dst_ip ≡ false)
          × (submit_query s ≡ querying s))
unfolding query_request submit_query
submit_query_lem s = elim (Option-cases s.selected_node_id) [
  | inl e ↦ inl (rw (e, is_falsy) refl, (no_node, rw (e, is_falsy) refl))
  | inr (id, e) ↦ elim (Bool-cases (is_empty id)) [
    | inl a ↦ inl (rw (e, is_falsy, a) refl, (no_node, rw (e, is_falsy, a) refl))
    | inr a ↦ elim (Bool-cases (is_empty s.query_src_ip || is_empty s.query_dst_ip)) [
      | inl b ↦ inl (rw (e, is_falsy, a) (rw b refl), (no_address, rw (e, is_falsy, a) (rw b refl)))
      | inr b ↦ inr (
        query_of s id,
        rw (e, is_falsy, a) (rw b refl),
        e,
        a,
        refl,
        ground arith,
        refl,
        ground arith,
        rw (e, is_falsy, a) (rw b refl),
      )
    ]
  ]
]

-- Loading has stopped, and either the sessions are shown or an error with a text that is not empty,
-- never both or neither.
pub IsAnswered : App → Type 0
IsAnswered s =
    (s.query_loading ≡ false)
    × (((body : SessionResults) × (s.session_results ≡ some body) × (s.query_error ≡ none))
        ⊎ ((e : List ℕ) × (s.session_results ≡ none)
            × (s.query_error ≡ some e)
            × (is_empty e ≡ false)))

-- However a query under way ends, loading stops, and either the sessions are shown or an error with a
-- text that is not empty, never both and never neither.
pub settle_query-IsAnswered :
    (r : Reply SessionResults) (s : App) → IsAnswered (settle_query r (querying s))
unfolding settle_query IsAnswered show_answer
settle_query-IsAnswered r s = go (query_result r) refl
  where
    go :
        (o : List ℕ ⊎ SessionResults)
        → query_result r ≡ o
        → IsAnswered (settle_query r (querying s))
    go (inl []) h =
        subst (λ o. IsAnswered (show_answer o (querying s))) (sym h)
          (refl, inr (_, refl, refl, refl))
    go (inl (c ∷ message)) h =
        subst (λ o. IsAnswered (show_answer o (querying s))) (sym h)
          (refl, inr (_, refl, refl, refl))
    go (inr body) h =
        subst (λ o. IsAnswered (show_answer o (querying s))) (sym h) (refl, inl (body, refl, refl))

-- A form with two printed numbers as ports and a target address sends exactly these, for the whole
-- group or for the selected nodes.
pub add_request-show :
    (s : App) (p q : ℕ)
    → s.form_local_port ≡ show p
    → s.form_forward_port ≡ show q
    → is_empty s.form_forward_ip ≡ false
    → add_request s
      ≡ some (record {
        group = s.target_group;
        node_ids = if s.custom_targets then some s.selected_node_targets else none;
        proto = proto_text s.form_proto;
        local_port = js_integer p;
        forward_ip = s.form_forward_ip;
        forward_port = js_integer q;
      })
unfolding add_request add_payload
add_request-show s p q h k l = rw (h, k, parse_int-show p, parse_int-show q, add_payload, l) refl

-- The reply is an error: the request was not answered with an ok status.
pub data IsFailure : Reply Unit → Type 0 where
  rejected_failure : (message : List ℕ) → IsFailure (rejected message)
  status_failure : (text : List ℕ) → IsFailure (not_ok text)

-- After a failure an error is shown, and a second submission sends the same request again.
pub settle_add-IsFailure :
    (r : Reply Unit) (s : App)
    → IsFailure r
    → (add_request (settle_add r s).state ≡ add_request s)
      × ((e : List ℕ) × ((settle_add r s).state.form_error ≡ some e))
unfolding settle_add add_request add_payload
settle_add-IsFailure r s (rejected_failure message) = (refl, (_, refl))
settle_add-IsFailure r s (status_failure text) = (refl, (_, refl))
