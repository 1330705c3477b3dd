-- ===== src/Daemon/Cleanup.antt =====
-- forward/src/main.rs, `spawn_session_cleanup_task`: what one round of its loop does to the maps.
pub mod Gone
pub mod Laws
use xdp_nat_forward.Base.{
  ℕ, ◌-◌, ◌==◌, ltb, Bool, true, false, Option, none, some, List, [], ◌∷◌, map, if◌then◌else◌,
}
use xdp_nat_forward.Datapath.Types.{SessionKey, SessionVal, RevSessionKey}
use xdp_nat_forward.Datapath.Maps.{HashMap, Bpf, Tables}
use xdp_nat_forward.Datapath.Maps.Iteration.{Iteration}
use xdp_nat_forward.Datapath.Session.{or_keep, rev_key}

-- The two timeouts in nanoseconds, `TimeoutsState`.
pub record Timeouts : Type 0 where
  pub tcp_ns : ℕ
  pub udp_ns : ℕ

abbrev pub timeout_of : Timeouts → SessionKey → ℕ
timeout_of t key = if key.proto == 6 then t.tcp_ns else t.udp_ns

-- `saturating_sub` stops at 0, as subtraction on ℕ.
abbrev pub is_expired : Timeouts → ℕ → SessionKey → SessionVal → Bool
is_expired t now key val = ltb (timeout_of t key) (now - val.last_seen)

-- The items that are read and whose session has expired: `to_delete`.
unfoldable pub expired :
    Timeouts → ℕ → List (Option (SessionKey × SessionVal)) → List (SessionKey × SessionVal)
expired t now [] = []
expired t now (none ∷ items) = expired t now items
expired t now (some r ∷ items) =
    let rest = expired t now items in if is_expired t now r.0 r.1 then r ∷ rest else rest

-- Removes each key; an error is ignored.
unfoldable pub remove_all :
    {K V : Type 0} (h : HashMap K V) → HashMap.Map h → List K → HashMap.Map h
remove_all h m [] = m
remove_all h m (k ∷ ks) = remove_all h (or_keep (h.remove m k) m) ks

abbrev pub session_key : SessionKey × SessionVal → SessionKey
session_key r = r.0

abbrev pub reverse_key : SessionKey × SessionVal → RevSessionKey
reverse_key r = rev_key r.0.target_ip r.1.nat_port r.0.target_port r.0.proto

module _ (bpf : Bpf) where
  open bpf use {session, reverse}

  unfoldable pub delete_sessions : List (SessionKey × SessionVal) → Tables bpf → Tables bpf
  delete_sessions rs t = record t {
    session_map = remove_all session t.session_map (map session_key rs);
    reverse_session_map = remove_all reverse t.reverse_session_map (map reverse_key rs);
  }

  module _ (iteration : Iteration session) where
    unfoldable pub to_delete : Timeouts → ℕ → Tables bpf → List (SessionKey × SessionVal)
    to_delete timeouts now t = expired timeouts now (Iteration.iter iteration t.session_map)

    -- One round at the clock's reading `now`, with no packet between the walk and the removals; the
    -- steps of a round with packets between them are in System. With nothing to delete the maps are not
    -- touched.
    unfoldable pub cleanup : Timeouts → ℕ → Tables bpf → Tables bpf
    cleanup timeouts now t = delete_sessions (to_delete timeouts now t) t

    -- Rounds at the given readings, with no packet between them.
    unfoldable pub rounds : Timeouts → List ℕ → Tables bpf → Tables bpf
    rounds timeouts [] t = t
    rounds timeouts (now ∷ later) t = rounds timeouts later (cleanup timeouts now t)
