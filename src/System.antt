-- ===== src/System.antt =====
-- The program at work: packets through forward-ebpf/src/main.rs, rule changes of forward/src/rule.rs, and
-- the cleanup task of forward/src/main.rs, interleaved. The task's lock keeps other tasks of the
-- daemon away from the maps, and keeps no packet away: each read and each removal is a step.
pub mod Removal
pub mod Reach
pub mod Fits
pub mod Ending
pub mod Lasting
pub mod Replies
mod Tests
use xdp_nat_forward.Base.{
  ℕ, ◌<◌, ◌≡◌, Bool, true, false, none, some, List, [], ◌∷◌, ◌++◌, IsIn, Distinct,
}
use xdp_nat_forward.Datapath.Packet.{Packet}
use xdp_nat_forward.Datapath.Packet.Laws.{IsBytes}
use xdp_nat_forward.Datapath.Types.{ForwardKey, ForwardVal, SessionKey, SessionVal, RevSessionKey}
use xdp_nat_forward.Datapath.Maps.{HashMap, Bpf, Tables}
use xdp_nat_forward.Datapath.Session.{or_keep}
use xdp_nat_forward.Datapath.Session.Paired.{HasRoom}
use xdp_nat_forward.Datapath.Program as Program
use xdp_nat_forward.Datapath.Program.{World}
use xdp_nat_forward.Datapath.Session.Typed.{RuleFits}
use xdp_nat_forward.Daemon.Cleanup.{Timeouts, is_expired, session_key, reverse_key}
use xdp_nat_forward.Daemon.Rules.Table.{Op, add, delete, perform}

-- Where the cleanup task stands: in its walk, in the loop over SESSION_MAP, or in that over
-- REVERSE_SESSION_MAP.
pub data Phase : Type 0 where
  walking removing_sessions removing_reverses : Phase

-- The target's port of an addition is a u16.
abbrev pub OpFits : Op → Type 0
OpFits (add net proto_str port ip_str forward_port) = forward_port < 65536
OpFits (delete proto_str port) = Unit

module _ (bpf : Bpf) where
  open bpf use {forward, session, reverse}

  -- `doomed` are the keys of `to_delete` that are still to be removed from SESSION_MAP, and `pending` the
  -- reverse keys still to be removed from REVERSE_SESSION_MAP.
  pub record System : Type 0 where
    pub tables : Tables bpf
    pub phase : Phase
    pub doomed : List SessionKey
    pub pending : List RevSessionKey

  unfoldable pub after_packet : Packet → ℕ → System → System
  after_packet p now s = record s {
    tables = (Program.forward bpf (record { packet = p; tables = s.tables }) now).1.tables;
  }

  unfoldable pub after_op : Op → System → System
  after_op op s = record s {
    tables = record s.tables { forward_map = perform bpf.forward op s.tables.forward_map };
  }

  -- The walk reads a session that has expired.
  unfoldable pub collect : SessionKey × SessionVal → System → System
  collect r s = record s {
    doomed = s.doomed ++ (session_key r ∷ []);
    pending = s.pending ++ (reverse_key r ∷ []);
  }

  unfoldable pub remove_session : SessionKey → List SessionKey → System → System
  remove_session k ks s = record s {
    tables = record s.tables {
      session_map = or_keep (session.remove s.tables.session_map k) s.tables.session_map;
    };
    doomed = ks;
  }

  unfoldable pub remove_reverse : RevSessionKey → List RevSessionKey → System → System
  remove_reverse j js s = record s {
    tables = record s.tables {
      reverse_session_map =
          or_keep (reverse.remove s.tables.reverse_session_map j) s.tables.reverse_session_map;
    };
    pending = js;
  }

  -- A step of the cleanup task. The walk reads no key twice.
  pub data Task (s : System) : System → Type 0 where
    collect_step :
        (timeouts : Timeouts) (now : ℕ) (k : SessionKey) (v : SessionVal)
        → s.phase ≡ walking
        → session.get s.tables.session_map k ≡ some v
        → is_expired timeouts now k v ≡ true
        → ¬ (IsIn k s.doomed)
        → Task s (collect (k, v) s)
    walk_ends : s.phase ≡ walking → Task s (record s { phase = removing_sessions })
    session_step :
        (k : SessionKey) (ks : List SessionKey)
        → s.phase ≡ removing_sessions
        → s.doomed ≡ k ∷ ks
        → Task s (remove_session k ks s)
    sessions_end :
        s.phase ≡ removing_sessions
        → s.doomed ≡ []
        → Task s (record s { phase = removing_reverses })
    reverse_step :
        (j : RevSessionKey) (js : List RevSessionKey)
        → s.phase ≡ removing_reverses
        → s.pending ≡ j ∷ js
        → Task s (remove_reverse j js s)
    reverses_end :
        s.phase ≡ removing_reverses → s.pending ≡ [] → Task s (record s { phase = walking })

  -- A step of the others. A packet of bytes needs room in the session maps, and a rule's target has a port of
  -- 16 bits.
  pub data Other (s : System) : System → Type 0 where
    packet_step :
        (p : Packet) (now : ℕ)
        → IsBytes p.mem
        → HasRoom bpf s.tables
        → Other s (after_packet p now s)
    op_step : (op : Op) → OpFits op → Other s (after_op op s)

  -- The daemon starts with no session and no cleanup under way. Its rules are those of an earlier run, if
  -- the map is not new.
  pub record IsStart (s : System) : Type 0 where
    pub no_session : (k : SessionKey) → session.get s.tables.session_map k ≡ none
    pub no_reverse : (j : RevSessionKey) → reverse.get s.tables.reverse_session_map j ≡ none
    pub phase_is : s.phase ≡ walking
    pub none_doomed : s.doomed ≡ []
    pub none_pending : s.pending ≡ []
    pub rules_fit :
        (k : ForwardKey) (v : ForwardVal) → forward.get s.tables.forward_map k ≡ some v → RuleFits v

  pub data Reachable : System → Type 0 where
    start : (s : System) → IsStart s → Reachable s
    by_task : (s t : System) → Reachable s → Task s t → Reachable t
    by_other : (s t : System) → Reachable s → Other s t → Reachable t
