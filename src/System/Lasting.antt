-- ===== src/System/Lasting.antt =====
-- A reverse entry while the cleanup has not collected its session.
use xdp_nat_forward.Base.{ℕ, ◌≡◌, ◌≢◌, ◌∙◌, some, IsIn, inl, inr}
use xdp_nat_forward.Datapath.Packet.{swap16, load}
use xdp_nat_forward.Datapath.Types.{
  ForwardVal, RevSessionKey, RevSessionVal, RevSessionKey-discrete,
}
use xdp_nat_forward.Datapath.Maps.{Bpf, Tables}
use xdp_nat_forward.Datapath.Session.{
  Flow, rev_key, client_key, reply_key, replied_key, rev_val, touch_reverse, open_session,
  track_client, track_target,
}
use xdp_nat_forward.Datapath.Session.Allocate.{allocate_nat_port-fresh}
use xdp_nat_forward.Datapath.Session.Tracked.{track_client-cases}
use xdp_nat_forward.Datapath.Session.Touch.{touch_session-reverse, touch_reverse_forth}
use xdp_nat_forward.Datapath.Session.Paired.{HasRoom, some_of_ne_none}
use xdp_nat_forward.Datapath.Program.{World, Outcome, try_forward, forward}
use xdp_nat_forward.Datapath.Program.Verdict.{
  flow_of, Verdict, kept, sent_to_target, sent_to_client, try_forward-Verdict,
}
use xdp_nat_forward.Daemon.Cleanup.Gone.{get-remove_ne}
use xdp_nat_forward.System.{
  System, Task, Other, packet_step, op_step, collect_step, walk_ends, session_step, sessions_end,
  reverse_step, reverses_end, Reachable, by_task, by_other, after_packet, after_op, collect,
  remove_session, remove_reverse,
}

module _ (bpf : Bpf) where
  open bpf use {session, reverse}

  -- The entry is there, and names the same client as the value given.
  abbrev pub HasEntry : Tables bpf → RevSessionKey → RevSessionVal → Type 0
  HasEntry t j v =
      (r : RevSessionVal) × (reverse.get t.reverse_session_map j ≡ some r)
      × (r.client_ip ≡ v.client_ip)
      × (r.client_port ≡ v.client_port)

  touched :
      (t : Tables bpf) (k j : RevSessionKey) (v : RevSessionVal) (now : ℕ)
      → HasEntry t j v
      → HasEntry (touch_reverse bpf t k now) j v
  touched t k j v now (r, e, ip, port) =
      let (s, es, same) = touch_reverse_forth bpf t now k j r e in
      (s, es, same.client_ip ∙ ip, same.client_port ∙ port)

  track_client-HasEntry :
      (t t' : Tables bpf) (fl : Flow) (rule : ForwardVal) (mac now nat_port : ℕ) (j : RevSessionKey)
      (v : RevSessionVal)
      → HasRoom bpf t
      → track_client bpf t fl rule mac now ≡ some (nat_port, t')
      → HasEntry t j v
      → HasEntry t' j v
  unfolding open_session
  track_client-HasEntry t t' fl rule mac now nat_port j v room e (r, er, ip, port) =
      elim (track_client-cases bpf t t' fl rule mac now nat_port e) [
        | inl f ↦
            let unchanged = (touch_session-reverse bpf t now (client_key fl rule)).0 in
            rw f.tables_are (touched _ _ j v now (r, rw unchanged er, ip, port))
        | inr o ↦
            let (m, em) = some_of_ne_none (
              room.reverse_room (rev_key rule.forward_ip (swap16 o.port) rule.forward_port fl.proto)
                (rev_val fl mac now)) in
            let fresh = allocate_nat_port-fresh bpf t _ _ _ _ _ o.port o.allocated in
            rw (o.tables_are, em)
              (r, reverse.get-insert_ne _ m _ _ _ em (λ same. cc) ∙ er, ip, port)
      ]

  Verdict-HasEntry :
      (w : World bpf) (now : ℕ) (o : Outcome bpf) (j : RevSessionKey) (v : RevSessionVal)
      → HasRoom bpf w.tables
      → Verdict bpf w now o
      → HasEntry w.tables j v
      → HasEntry o.1.tables j v
  unfolding track_target
  Verdict-HasEntry w now o j v room (kept a h) x = x
  Verdict-HasEntry w now o j v room (sent_to_target q rule nat_port t ok is_rule tracked) x =
      track_client-HasEntry w.tables t (flow_of q w.packet.mem) rule (load 6 6 w.packet.mem) now
        nat_port j v room tracked x
  Verdict-HasEntry w now o j v room (sent_to_client q u ok no_rule found) x =
      let (r, er, ip, port) = touched w.tables (reply_key (flow_of q w.packet.mem)) j v now x in
      (
        r,
        rw (touch_session-reverse bpf _ now (replied_key (flow_of q w.packet.mem) u)).0 er,
        ip,
        port,
      )

  -- The states that are reached while the cleanup has not collected the session of the key.
  pub data Meanwhile (j : RevSessionKey) (s : System bpf) : System bpf → Type 0 where
    at_once : Meanwhile j s s
    other_comes : (t u : System bpf) → Meanwhile j s t → Other bpf t u → Meanwhile j s u
    task_goes :
        (t u : System bpf) → Meanwhile j s t → ¬ (IsIn j t.pending) → Task bpf t u → Meanwhile j s u

  Task-HasEntry :
      (s t : System bpf) (j : RevSessionKey) (v : RevSessionVal)
      → Task bpf s t
      → ¬ (IsIn j s.pending)
      → HasEntry s.tables j v
      → HasEntry t.tables j v
  unfolding collect remove_session remove_reverse
  Task-HasEntry s t j v (collect_step timeouts now k u ph e ex fresh) n x = x
  Task-HasEntry s t j v (walk_ends ph) n x = x
  Task-HasEntry s t j v (session_step k ks ph d) n x = x
  Task-HasEntry s t j v (sessions_end ph d) n x = x
  Task-HasEntry s t j v (reverse_step i is ph d) n (r, er, ip, port) =
      let other : j ≢ i = λ same. n (rw d (inl same)) in
      (
        r,
        get-remove_ne reverse RevSessionKey-discrete s.tables.reverse_session_map i j other ∙ er,
        ip,
        port,
      )
  Task-HasEntry s t j v (reverses_end ph d) n x = x

  Other-HasEntry :
      (s t : System bpf) (j : RevSessionKey) (v : RevSessionVal)
      → Other bpf s t
      → HasEntry s.tables j v
      → HasEntry t.tables j v
  unfolding after_packet after_op forward
  Other-HasEntry s t j v (packet_step p now bytes room) x =
      Verdict-HasEntry _ now (try_forward bpf (record { packet = p; tables = s.tables }) now) j v
        room (try_forward-Verdict bpf (record { packet = p; tables = s.tables }) now) x
  Other-HasEntry s t j v (op_step op fits) x = x

  pub Meanwhile-HasEntry :
      (j : RevSessionKey) (v : RevSessionVal) {s t : System bpf}
      → Meanwhile j s t
      → HasEntry s.tables j v
      → HasEntry t.tables j v
  Meanwhile-HasEntry j v at_once x = x
  Meanwhile-HasEntry j v (other_comes t u m o) x =
      Other-HasEntry t u j v o (Meanwhile-HasEntry j v m x)
  Meanwhile-HasEntry j v (task_goes t u m n k) x =
      Task-HasEntry t u j v k n (Meanwhile-HasEntry j v m x)

  pub Meanwhile-Reachable :
      (j : RevSessionKey) {s t : System bpf} → Meanwhile j s t → Reachable bpf s → Reachable bpf t
  Meanwhile-Reachable j at_once r = r
  Meanwhile-Reachable j (other_comes t u m o) r = by_other t u (Meanwhile-Reachable j m r) o
  Meanwhile-Reachable j (task_goes t u m n k) r = by_task t u (Meanwhile-Reachable j m r) k
