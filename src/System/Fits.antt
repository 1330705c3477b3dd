-- ===== src/System/Fits.antt =====
-- The widths of all values in every reachable state.
use xdp_nat_forward.Base.{ℕ, ◌^◌, ◌<◌, ◌≡◌, ◌∙◌, sym, some, some_injective, none_not_some}
use xdp_nat_forward.Datapath.Packet.{Packet}
use xdp_nat_forward.Datapath.Packet.Laws.{IsBytes}
use xdp_nat_forward.Datapath.Types.{
  ForwardKey, ForwardVal, ForwardKey-discrete, SessionKey-discrete, RevSessionKey-discrete,
}
use xdp_nat_forward.Datapath.Maps.{Bpf}
use xdp_nat_forward.Datapath.Session.Typed.{RuleFits, Typed}
use xdp_nat_forward.Datapath.Session.Clock.{Clocked}
use xdp_nat_forward.Datapath.Program.Integrity.{IsValid, forward-IsValid}
use xdp_nat_forward.Datapath.Program.Widths.{forward-Clocked, IsTyped}
use xdp_nat_forward.Daemon.Host.Laws.{resolve_ip_mac-IsMac}
use xdp_nat_forward.Daemon.Rules.{rule_val}
use xdp_nat_forward.Daemon.Rules.Words.{parse_ipv4-lt, rule_val-RuleFits}
use xdp_nat_forward.Daemon.Rules.Table.{
  key_at, Op, Rules, Change, refused_add, set_rule, unknown_proto, no_rule, unset_rule, perform,
  perform-Change,
}
use xdp_nat_forward.System.{
  System, Task, Other, packet_step, op_step, collect_step, walk_ends, session_step, sessions_end,
  reverse_step, reverses_end, Reachable, start, by_task, by_other, OpFits, after_packet, after_op,
  collect, remove_session, remove_reverse,
}
use xdp_nat_forward.System.Removal.{get-remove_back}

abbrev AllFit : Rules → Type 0
AllFit f = (k : ForwardKey) (v : ForwardVal) → f k ≡ some v → RuleFits v

Change-AllFit :
    (f g : Rules) (op : Op) → Change (λ r. Unit) f op g → OpFits op → AllFit f → AllFit g
Change-AllFit f g op (refused_add net proto_str port ip_str forward_port why) fits h = h
Change-AllFit f g op
      (set_rule net proto_str port ip_str forward_port proto ip mac _ a b c own other) fits h =
    λ k v e. elim (ForwardKey-discrete k (key_at proto port)) [
      | yes same ↦
          let here : g k ≡ some (rule_val ip forward_port mac) = rw same own in
          rw (some_injective (sym e ∙ here)) (
            rule_val-RuleFits ip forward_port mac (parse_ipv4-lt ip_str ip b) fits
              (resolve_ip_mac-IsMac net ip_str mac c))
      | no differs ↦ h k v (sym (other k differs) ∙ e)
    ]
Change-AllFit f g op (unknown_proto proto_str port a) fits h = h
Change-AllFit f g op (no_rule proto_str port proto a b) fits h = h
Change-AllFit f g op (unset_rule proto_str port proto _ a own other) fits h = λ k v e.
    elim (ForwardKey-discrete k (key_at proto port)) [
      | yes same ↦ absurd (none_not_some (sym own ∙ rw same at e))
      | no differs ↦ h k v (sym (other k differs) ∙ e)
    ]

module _ (bpf : Bpf) where
  open bpf use {forward, session, reverse}

  perform-AllFit :
      (op : Op) (m : forward.Map)
      → OpFits op
      → AllFit (forward.get m)
      → AllFit (forward.get (perform forward op m))
  perform-AllFit op m =
      Change-AllFit _ _ op (perform-Change forward (λ r. Unit) (λ m k v e. tt) op m)

  Task-Typed : (s t : System bpf) → Task bpf s t → Typed bpf s.tables → Typed bpf t.tables
  unfolding after_packet after_op collect remove_session remove_reverse
  Task-Typed s t (collect_step timeouts now k v ph e ex fresh) h = h
  Task-Typed s t (walk_ends ph) h = h
  Task-Typed s t (session_step k ks ph d) h = record {
    rules = h.rules;
    sessions = λ j v e. h.sessions j v (get-remove_back session SessionKey-discrete _ k j v e).1;
    reverses = h.reverses;
  }
  Task-Typed s t (sessions_end ph d) h = h
  Task-Typed s t (reverse_step j js ph d) h = record {
    rules = h.rules;
    sessions = h.sessions;
    reverses = λ i r e. h.reverses i r (get-remove_back reverse RevSessionKey-discrete _ j i r e).1;
  }
  Task-Typed s t (reverses_end ph d) h = h

  Other-Typed : (s t : System bpf) → Other bpf s t → Typed bpf s.tables → Typed bpf t.tables
  unfolding after_packet after_op collect remove_session remove_reverse
  Other-Typed s t (packet_step p now bytes room) h =
      (forward-IsValid bpf _ now (record { bytes = bytes; typed = h })).typed
  Other-Typed s t (op_step op fits) h = record {
    rules = perform-AllFit op s.tables.forward_map fits h.rules;
    sessions = h.sessions;
    reverses = h.reverses;
  }

  Reachable-Typed : {s : System bpf} → Reachable bpf s → Typed bpf s.tables
  Reachable-Typed (start s h) = record {
    rules = h.rules_fit;
    sessions = λ k v e. absurd (none_not_some (sym (h.no_session k) ∙ e));
    reverses = λ j r e. absurd (none_not_some (sym (h.no_reverse j) ∙ e));
  }
  Reachable-Typed (by_task s t r st) = Task-Typed s t st (Reachable-Typed r)
  Reachable-Typed (by_other s t r st) = Other-Typed s t st (Reachable-Typed r)

  -- Every packet so far came below the limit of the clock.
  unfoldable pub InTime : (limit : ℕ) {s : System bpf} → Reachable bpf s → Type 0
  InTime limit (start s h) = Unit
  InTime limit (by_task s t r st) = InTime limit r
  InTime limit (by_other s t r (packet_step p now bytes room)) = (now < limit) × InTime limit r
  InTime limit (by_other s t r (op_step op fits)) = InTime limit r

  Task-Clocked :
      (limit : ℕ) (s t : System bpf)
      → Task bpf s t
      → Clocked bpf limit s.tables
      → Clocked bpf limit t.tables
  unfolding collect remove_session remove_reverse
  Task-Clocked limit s t (collect_step timeouts now k v ph e ex fresh) h = h
  Task-Clocked limit s t (walk_ends ph) h = h
  Task-Clocked limit s t (session_step k ks ph d) h = record {
    sessions = λ j v e. h.sessions j v (get-remove_back session SessionKey-discrete _ k j v e).1;
    reverses = h.reverses;
  }
  Task-Clocked limit s t (sessions_end ph d) h = h
  Task-Clocked limit s t (reverse_step j js ph d) h = record {
    sessions = h.sessions;
    reverses = λ i r e. h.reverses i r (get-remove_back reverse RevSessionKey-discrete _ j i r e).1;
  }
  Task-Clocked limit s t (reverses_end ph d) h = h

  Reachable-Clocked :
      (limit : ℕ) {s : System bpf} (r : Reachable bpf s)
      → InTime limit r
      → Clocked bpf limit s.tables
  unfolding InTime after_packet after_op
  Reachable-Clocked limit (start s h) i = record {
    sessions = λ k v e. absurd (none_not_some (sym (h.no_session k) ∙ e));
    reverses = λ j r e. absurd (none_not_some (sym (h.no_reverse j) ∙ e));
  }
  Reachable-Clocked limit (by_task s t r st) i =
      Task-Clocked limit s t st (Reachable-Clocked limit r i)
  Reachable-Clocked limit (by_other s t r (packet_step p now bytes room)) i =
      forward-Clocked bpf limit _ now i.0 (Reachable-Clocked limit r i.1)
  Reachable-Clocked limit (by_other s t r (op_step op fits)) i =
      let c = Reachable-Clocked limit r i in record { sessions = c.sessions; reverses = c.reverses }

  -- The program meets any packet of bytes under the condition of the theorems on a single packet.
  pub Reachable-IsValid :
      (s : System bpf) (p : Packet)
      → Reachable bpf s
      → IsBytes p.mem
      → IsValid bpf (record { packet = p; tables = s.tables })
  Reachable-IsValid s p r bytes = record { bytes = bytes; typed = Reachable-Typed r }

  -- In every state that packets, rule changes and the cleanup reach while the session maps have room and the
  -- clock is below 2 ^ 64 nanoseconds, the addresses, ports, MAC addresses and times of all values in
  -- the maps fit their fields, so the program meets any packet of bytes under the condition of the
  -- theorems on a single packet.
  pub Reachable-IsTyped :
      (s : System bpf) (p : Packet) (r : Reachable bpf s)
      → InTime (2 ^ 64) r
      → IsBytes p.mem
      → IsTyped bpf (record { packet = p; tables = s.tables })
  Reachable-IsTyped s p r i bytes = record {
    valid = Reachable-IsValid s p r bytes;
    clocked = Reachable-Clocked (2 ^ 64) r i;
  }
