-- ===== src/Manager/Serving.antt =====
-- handlers.rs as it runs: the connections and requests that are being handled, with the two tables that they
-- share. Each event holds the lock of a table as long as the source does.
pub mod Calls
pub mod Laws
use xdp_nat_forward.Base.{ℕ, ◌≡◌, ◌≢◌, Bool, List, [], ◌∷◌, ◌++◌, Option, none, some}
use xdp_nat_forward.Console.State.{ForwardRule}
use xdp_nat_forward.Manager.{
  WsParams, get, AppState, connect, report, disconnect, QueryStart, not_connected, send_failed,
  waiting, start_query, query_response, query_timeout,
}

pub record Server : Type 0 where
  pub app : AppState
  -- The calls of `handle_socket` in their loop: the socket and the id of its parameters.
  pub connections : List (ℕ × List ℕ)
  -- The calls of `handle_socket` that have left their loop and have not yet removed their node.
  pub ending : List (ℕ × List ℕ)
  -- The calls of `query_sessions` that wait: the request and its command id.
  pub requests : List (ℕ × List ℕ)
  -- The calls of `query_sessions` that no longer listen: dropped while they waited, when the console
  -- closed its connection, or timed out.
  pub abandoned : List (ℕ × List ℕ)
  -- The calls that timed out and have not yet removed the sender under their id.
  pub expiring : List (ℕ × List ℕ)

-- `AppState` in `main`.
abbrev pub started : Server
started = record {
  app = record { nodes = []; pending_queries = [] };
  connections = [];
  ending = [];
  requests = [];
  abandoned = [];
  expiring = [];
}

unfoldable pub on_connect : ℕ → WsParams → Server → Server
on_connect socket params s = record s {
  app = connect socket params s.app;
  connections = (socket, params.node_id) ∷ s.connections;
}

-- The request waits if it was neither refused nor failed.
abbrev pub with_request : ℕ → List ℕ → QueryStart × AppState → Server → Server
with_request request command_id (not_connected, a) s = record s { app = a }
with_request request command_id (send_failed, a) s = record s { app = a }
with_request request command_id (waiting, a) s = record s {
  app = a;
  requests = (request, command_id) ∷ s.requests;
}

unfoldable pub on_query : List ℕ → List ℕ → ℕ → Bool → Server → Server
on_query node_id command_id request sent s =
    with_request request command_id (start_query node_id command_id request sent s.app) s

pub data Event (s : Server) : Server → Type 0 where
  connected : (socket : ℕ) (params : WsParams) → Event s (on_connect socket params s)
  reported :
      (node_id group hostname : List ℕ) (rules : List ForwardRule)
      → Event s (record s { app = report node_id group hostname rules s.app })
  -- A connection closes or fails, and its loop ends.
  closed :
      (socket : ℕ) (node_id : List ℕ) (before after : List (ℕ × List ℕ))
      → s.connections ≡ before ++ ((socket, node_id) ∷ after)
      → Event s (record s { connections = before ++ after; ending = (socket, node_id) ∷ s.ending })
  -- Behind its loop a call gets the lock of the table and removes its node.
  removed :
      (socket : ℕ) (node_id : List ℕ) (before after : List (ℕ × List ℕ))
      → s.ending ≡ before ++ ((socket, node_id) ∷ after)
      → Event s (record s { app = disconnect node_id s.app; ending = before ++ after })
  queried :
      (node_id command_id : List ℕ) (request : ℕ) (sent : Bool)
      → Event s (on_query node_id command_id request sent s)
  -- An answer for which nobody waits.
  unwanted :
      (command_id : List ℕ)
      → (query_response command_id s.app).0 ≡ none
      → Event s (record s { app = (query_response command_id s.app).1 })
  -- An answer that a request is waiting for, which then returns it.
  answered :
      (command_id : List ℕ) (request : ℕ) (before after : List (ℕ × List ℕ))
      → (query_response command_id s.app).0 ≡ some request
      → s.requests ≡ before ++ ((request, command_id) ∷ after)
      → Event s (record s { app = (query_response command_id s.app).1; requests = before ++ after })
  -- A request that waits is dropped; its sender stays in the table.
  given_up :
      (command_id : List ℕ) (request : ℕ) (before after : List (ℕ × List ℕ))
      → s.requests ≡ before ++ ((request, command_id) ∷ after)
      → Event s
          (record s { requests = before ++ after; abandoned = (request, command_id) ∷ s.abandoned })
  -- An answer for a request that no longer listens: the sender is taken out, and nobody reads the answer.
  too_late :
      (command_id : List ℕ) (request : ℕ) (before after : List (ℕ × List ℕ))
      → (query_response command_id s.app).0 ≡ some request
      → s.abandoned ≡ before ++ ((request, command_id) ∷ after)
      → Event s
          (record s { app = (query_response command_id s.app).1; abandoned = before ++ after })
  -- The sender of a request is gone from the table, and the request returns an error.
  dropped :
      (command_id : List ℕ) (request : ℕ) (before after : List (ℕ × List ℕ))
      → get s.app.pending_queries command_id ≢ some request
      → s.requests ≡ before ++ ((request, command_id) ∷ after)
      → Event s (record s { requests = before ++ after })
  -- The timer of a request runs out. A message to the node that fails after other events had their turn
  -- is the same to the tables.
  expired :
      (command_id : List ℕ) (request : ℕ) (before after : List (ℕ × List ℕ))
      → s.requests ≡ before ++ ((request, command_id) ∷ after)
      → Event s (record s {
        requests = before ++ after;
        abandoned = (request, command_id) ∷ s.abandoned;
        expiring = (request, command_id) ∷ s.expiring;
      })
  -- It gets the lock of the table and removes what stands under its id, its sender or another.
  timed_out :
      (command_id : List ℕ) (request : ℕ) (before after : List (ℕ × List ℕ))
      → s.expiring ≡ before ++ ((request, command_id) ∷ after)
      → Event s (record s { app = query_timeout command_id s.app; expiring = before ++ after })

pub data Served : Server → Type 0 where
  start : Served started
  after_event : (s t : Server) → Served s → Event s t → Served t
