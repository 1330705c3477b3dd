-- ===== src/Datapath/Program/Integrity.antt =====
-- What the program keeps of every packet and of the maps.
use xdp_nat_forward.Base.{ℕ, ◌+◌, ◌≤◌, ◌<◌, ◌≡◌, ◌⊎◌, inl, inr, refl, arith}
use xdp_nat_forward.Datapath.Packet.{Mem, load}
use xdp_nat_forward.Datapath.Packet.Laws.{IsBytes, load-lt}
use xdp_nat_forward.Datapath.Types.{ForwardVal, RevSessionVal}
use xdp_nat_forward.Datapath.Maps.{Bpf}
use xdp_nat_forward.Datapath.Session.{Flow}
use xdp_nat_forward.Datapath.Session.Typed.{
  RuleFits, RevFits, FlowFits, Typed, track_client-Typed, track_target-Typed,
}
use xdp_nat_forward.Datapath.Rewrite.{Target, read_flow}
use xdp_nat_forward.Datapath.Rewrite.Fields.{Fits}
use xdp_nat_forward.Datapath.Rewrite.Kept.{tcp_rewrite-IsBytes, udp_rewrite-IsBytes}
use xdp_nat_forward.Datapath.Program.{to_target, to_client, World, Outcome, try_forward, forward}
use xdp_nat_forward.Datapath.Program.Verdict.{
  Proto, tcp, udp, number, rewrite_of, l4_offset, flow_of, IsTranslatable, Verdict, kept,
  sent_to_target, sent_to_client, try_forward-Verdict,
}

pub flow-FlowFits : (m : Mem) (l4 proto : ℕ) → IsBytes m → FlowFits (read_flow m l4 proto)
flow-FlowFits m l4 proto b = record {
  src_ip_lt = load-lt 4 26 m b;
  dst_ip_lt = load-lt 4 30 m b;
  src_port_lt = load-lt 2 l4 m b;
  dst_port_lt = load-lt 2 (l4 + 2) m b;
}

pub to_target-Fits :
    (fl : Flow) (rule : ForwardVal) (nat_port : ℕ)
    → FlowFits fl
    → RuleFits rule
    → nat_port < 65536
    → Fits (to_target fl rule nat_port)
to_target-Fits fl rule nat_port f r p = record {
  src_ip_lt = f.dst_ip_lt;
  dst_ip_lt = r.ip_lt;
  src_port_lt = p;
  dst_port_lt = r.port_lt;
  mac_lt = r.mac_lt;
}

pub to_client-Fits :
    (fl : Flow) (v : RevSessionVal) → FlowFits fl → RevFits v → Fits (to_client fl v)
to_client-Fits fl v f r = record {
  src_ip_lt = f.dst_ip_lt;
  dst_ip_lt = r.ip_lt;
  src_port_lt = r.local_lt;
  dst_port_lt = r.port_lt;
  mac_lt = r.mac_lt;
}

module _ (bpf : Bpf) where
  -- The packet is made of bytes and the maps' values fit their fields.
  pub record IsValid (w : World bpf) : Type 0 where
    pub bytes : IsBytes w.packet.mem
    pub typed : Typed bpf w.tables

  -- Every packet that goes out is a rewriting of the packet that came in.
  pub record Rewritten (w : World bpf) (p : Proto) (w' : World bpf) : Type 0 where
    pub translatable : IsTranslatable bpf w p
    pub new : Target
    pub fits : Fits new
    pub mem_is :
        w'.packet.mem
        ≡ rewrite_of p (l4_offset w.packet.mem) (flow_of p w.packet.mem) new w.packet.mem
    pub size_is : w'.packet.size ≡ w.packet.size
    pub typed : Typed bpf w'.tables

  pub Verdict-Rewritten :
      (w : World bpf) (now : ℕ) (r : Outcome bpf)
      → IsValid w
      → Verdict bpf w now r
      → (r.1 ≡ w) ⊎ ((p : Proto) × Rewritten w p r.1)
  Verdict-Rewritten w now r v (kept a h) = inl refl
  Verdict-Rewritten w now r v (sent_to_target p rule nat_port t ok is_rule tracked) =
      let f = flow-FlowFits w.packet.mem (l4_offset w.packet.mem) (number p) v.bytes in
      let (typed, port_lt) =
        track_client-Typed bpf w.tables t (flow_of p w.packet.mem) rule (load 6 6 w.packet.mem) now
          nat_port v.typed f (load-lt 6 6 w.packet.mem v.bytes) tracked in
      inr (
        p,
        record {
          translatable = ok;
          new = to_target (flow_of p w.packet.mem) rule nat_port;
          fits = to_target-Fits _ rule nat_port f (v.typed.rules _ rule is_rule) port_lt;
          mem_is = refl;
          size_is = refl;
          typed = typed;
        },
      )
  Verdict-Rewritten w now r v (sent_to_client p q ok no_rule found) =
      let f = flow-FlowFits w.packet.mem (l4_offset w.packet.mem) (number p) v.bytes in
      inr (
        p,
        record {
          translatable = ok;
          new = to_client (flow_of p w.packet.mem) q;
          fits = to_client-Fits _ q f (v.typed.reverses _ q found);
          mem_is = refl;
          size_is = refl;
          typed = track_target-Typed bpf w.tables (flow_of p w.packet.mem) q now v.typed;
        },
      )

  pub forward-Rewritten :
      (w : World bpf) (now : ℕ)
      → IsValid w
      → ((forward bpf w now).1 ≡ w) ⊎ ((p : Proto) × Rewritten w p (forward bpf w now).1)
  unfolding forward
  forward-Rewritten w now v =
      Verdict-Rewritten w now (try_forward bpf w now) v (try_forward-Verdict bpf w now)

  rewrite_of-IsBytes :
      (p : Proto) (l4 proto : ℕ) (new : Target) (m : Mem)
      → 34 ≤ l4
      → IsBytes m
      → Fits new
      → IsBytes (rewrite_of p l4 (read_flow m l4 proto) new m)
  rewrite_of-IsBytes tcp l4 proto new m room b f = tcp_rewrite-IsBytes l4 proto new m room b f
  rewrite_of-IsBytes udp l4 proto new m room b f = udp_rewrite-IsBytes l4 proto new m room b f

  -- The program keeps the world valid, whatever packet arrives.
  pub forward-IsValid : (w : World bpf) (now : ℕ) → IsValid w → IsValid (forward bpf w now).1
  forward-IsValid w now v = elim (forward-Rewritten w now v) [
    | inl same ↦ rw same v
    | inr (p, r) ↦ record {
      bytes = rw r.mem_is (
          rewrite_of-IsBytes p _ (number p) r.new w.packet.mem (omega (arith, r.translatable.ihl))
            v.bytes r.fits);
      typed = r.typed;
    }
  ]
