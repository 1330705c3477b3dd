-- ===== src/System/Reach.antt =====
-- What holds in every state that packets, rule changes and the cleanup can reach.
use xdp_nat_forward.Base.{◌≡◌, ◌∙◌, sym, some, List, [], none_not_some}
use xdp_nat_forward.Datapath.Types.{SessionKey, SessionVal, RevSessionKey}
use xdp_nat_forward.Datapath.Maps.{HashMap, Bpf, Tables}
use xdp_nat_forward.Datapath.Session.Paired.{Paired, reverse_of-injective}
use xdp_nat_forward.Datapath.Session.Balanced.{Balanced, Balanced-Paired}
use xdp_nat_forward.Datapath.Program.Sessions.{forward-Balanced}
use xdp_nat_forward.System.{
  System, Task, Other, packet_step, op_step, collect_step, walk_ends, session_step, sessions_end,
  reverse_step, reverses_end, IsStart, Reachable, start, by_task, by_other, Phase,
  removing_reverses, after_packet, after_op, collect, remove_session, remove_reverse,
}
use xdp_nat_forward.System.Removal.{
  collect-Balanced, remove_session-Balanced, remove_reverse-Balanced,
}

module _ (bpf : Bpf) where
  open bpf use {session, reverse}

  -- In the last phase no session waits to be removed.
  abbrev pub IsOrdered : Phase → List SessionKey → Type 0
  IsOrdered removing_reverses ks = ks ≡ []
  IsOrdered _ ks = Unit

  pub record Invariant (s : System bpf) : Type 0 where
    pub balanced : Balanced bpf s.tables s.doomed s.pending
    pub ordered : IsOrdered s.phase s.doomed

  -- The rules are not looked at.
  with_rules :
      (t : Tables bpf) (doomed : List SessionKey) (pending : List RevSessionKey)
      (m : HashMap.Map bpf.forward)
      → Balanced bpf t doomed pending
      → Balanced bpf (record t { forward_map = m }) doomed pending
  with_rules t doomed pending m b = record {
    padded = b.padded;
    rev_padded = b.rev_padded;
    forth = b.forth;
    back = b.back;
    doomed_live = b.doomed_live;
    pending_live = b.pending_live;
    owned = b.owned;
    doomed_once = b.doomed_once;
    pending_once = b.pending_once;
  }

  Task-Invariant : (s t : System bpf) → Task bpf s t → Invariant s → Invariant t
  unfolding after_packet after_op collect remove_session remove_reverse
  Task-Invariant s t (collect_step timeouts now k v ph e ex fresh) i = record {
    balanced = collect-Balanced bpf s.tables s.doomed s.pending k v e fresh i.balanced;
    ordered = rw ph tt;
  }
  Task-Invariant s t (walk_ends ph) i = record { balanced = i.balanced; ordered = tt }
  Task-Invariant s t (session_step k ks ph d) i = record {
    balanced = remove_session-Balanced bpf s.tables k ks s.pending (rw d at i.balanced);
    ordered = rw ph tt;
  }
  Task-Invariant s t (sessions_end ph d) i = record { balanced = i.balanced; ordered = d }
  Task-Invariant s t (reverse_step j js ph d) i =
      let none_doomed : s.doomed ≡ [] = rw ph at i.ordered in
      record {
        balanced =
            rw none_doomed
              (remove_reverse-Balanced bpf s.tables j js (rw (none_doomed, d) at i.balanced));
        ordered = rw ph none_doomed;
      }
  Task-Invariant s t (reverses_end ph d) i = record { balanced = i.balanced; ordered = tt }

  Other-Invariant : (s t : System bpf) → Other bpf s t → Invariant s → Invariant t
  unfolding after_packet after_op collect remove_session remove_reverse
  Other-Invariant s t (packet_step p now bytes room) i = record {
    balanced = forward-Balanced bpf s.doomed s.pending _ now i.balanced room;
    ordered = i.ordered;
  }
  Other-Invariant s t (op_step op fits) i = record {
    balanced = with_rules s.tables s.doomed s.pending _ i.balanced;
    ordered = i.ordered;
  }

  start-Invariant : (s : System bpf) → IsStart bpf s → Invariant s
  start-Invariant s h = record {
    balanced =
        rw (h.none_doomed, h.none_pending)
          (record {
            padded = λ k v e. absurd (none_not_some (sym (h.no_session k) ∙ e));
            rev_padded = λ j r e. absurd (none_not_some (sym (h.no_reverse j) ∙ e));
            forth = λ k v e. absurd (none_not_some (sym (h.no_session k) ∙ e));
            back = λ j r e. absurd (none_not_some (sym (h.no_reverse j) ∙ e));
            doomed_live = λ k i. absurd i;
            pending_live = λ j i. absurd i;
            owned = λ k v e i. absurd i;
            doomed_once = tt;
            pending_once = tt;
          });
    ordered = rw h.phase_is tt;
  }

  Reachable-Invariant : {s : System bpf} → Reachable bpf s → Invariant s
  Reachable-Invariant (start s h) = start-Invariant s h
  Reachable-Invariant (by_task s t r st) = Task-Invariant s t st (Reachable-Invariant r)
  Reachable-Invariant (by_other s t r st) = Other-Invariant s t st (Reachable-Invariant r)

  -- In every state that packets, rule changes and the single reads and removals of the cleanup reach, in any
  -- order and while the session maps have room, each session has the reverse entry of its client,
  -- and each reverse entry has its session or is about to be removed by the cleanup.
  pub Reachable-Balanced :
      (s : System bpf) → Reachable bpf s → Balanced bpf s.tables s.doomed s.pending
  Reachable-Balanced s r = (Reachable-Invariant r).balanced

  -- Between two rounds of the cleanup sessions and reverse entries are in one-to-one correspondence,
  -- whatever packets came while the earlier rounds ran.
  pub Reachable-Paired :
      (s : System bpf) → Reachable bpf s → s.doomed ≡ [] → s.pending ≡ [] → Paired bpf s.tables
  Reachable-Paired s r d p = Balanced-Paired bpf s.tables (rw (d, p) at (Reachable-Balanced s r))

  -- In every state that packets, rule changes and the cleanup's steps reach, two sessions of the same target and
  -- protocol with the same NAT port are one session: no reply can be taken for that of another client.
  pub Reachable-injective :
      (s : System bpf) (j k : SessionKey) (v w : SessionVal)
      → Reachable bpf s
      → session.get s.tables.session_map j ≡ some v
      → session.get s.tables.session_map k ≡ some w
      → j.target_ip ≡ k.target_ip
      → j.target_port ≡ k.target_port
      → j.proto ≡ k.proto
      → v.nat_port ≡ w.nat_port
      → j ≡ k
  Reachable-injective s j k v w r ej ek ip port proto nat =
      let b = Reachable-Balanced s r in
      reverse_of-injective bpf s.tables b.padded b.forth j k v w ej ek (cc)
