-- ===== src/Datapath/Program/RoundTrip/Sent.antt =====
-- A client's packet and a target's reply on their own: where `forward` sends each.
use xdp_nat_forward.Base.{ℕ, ◌^◌, ◌≤◌, ◌<◌, ◌≡◌, inl, inr, refl, arith, none, some, Option-cases}
use xdp_nat_forward.Datapath.Packet.{Mem, Packet, load}
use xdp_nat_forward.Datapath.Packet.Laws.{load-lt}
use xdp_nat_forward.Datapath.Types.{ForwardVal, RevSessionVal}
use xdp_nat_forward.Datapath.Maps.{HashMap, Bpf, Tables}
use xdp_nat_forward.Datapath.Session.{Flow, rev_key, reply_key, track_client}
use xdp_nat_forward.Datapath.Rewrite.{Target}
use xdp_nat_forward.Datapath.Rewrite.Fields.{
  Fits, Carries, load-rewrite_ip, load-rewrite_tcp_check, load-rewrite_udp_check,
  tcp_rewrite-Carries, udp_rewrite-Carries,
}
use xdp_nat_forward.Datapath.Rewrite.{tcp_rewrite, udp_rewrite}
use xdp_nat_forward.Datapath.Program.{
  xdp_tx, forward_key, to_target, to_client, World, send, translate, client_to_target,
  target_to_client, forward,
}
use xdp_nat_forward.Datapath.Program.Verdict.{
  Proto, tcp, udp, number, rewrite_of, l4_offset, flow_of, IsTranslatable,
}
use xdp_nat_forward.Datapath.Program.Integrity.{
  IsValid, flow-FlowFits, to_target-Fits, to_client-Fits,
}
use xdp_nat_forward.Datapath.Program.Reply.{try_forward-translate, Answers}

rewrite_of-Carries :
    (p : Proto) (l4 : ℕ) (old : Flow) (new : Target) (m : Mem)
    → 34 ≤ l4
    → Fits new
    → load 6 0 m < 2 ^ 48
    → Carries new (load 6 0 m) l4 (rewrite_of p l4 old new m)
rewrite_of-Carries tcp l4 old new m room f b = tcp_rewrite-Carries l4 old new m room f b
rewrite_of-Carries udp l4 old new m room f b = udp_rewrite-Carries l4 old new m room f b

-- The IP header's length stays.
rewrite_of-l4_offset :
    (p : Proto) (l4 : ℕ) (old : Flow) (new : Target) (m : Mem)
    → 34 ≤ l4
    → l4_offset (rewrite_of p l4 old new m) ≡ l4_offset m
unfolding tcp_rewrite udp_rewrite
rewrite_of-l4_offset tcp l4 old new m room = omega (
  arith,
  load-rewrite_tcp_check 1 14 l4 old new _ (inl (omega arith)),
  load-rewrite_ip l4 old new m room 1 14 (inr (omega arith)) (inl (omega arith))
      (inl (omega arith)),
)
rewrite_of-l4_offset udp l4 old new m room = omega (
  arith,
  load-rewrite_udp_check 1 14 l4 old new _ (inl (omega arith)),
  load-rewrite_ip l4 old new m room 1 14 (inr (omega arith)) (inl (omega arith))
      (inl (omega arith)),
)

module _ (bpf : Bpf) where
  -- A client's packet that goes out under a rule.
  pub sent_out :
      (w : World bpf) (now : ℕ) (p : Proto) (rule : ForwardVal)
      → IsTranslatable bpf w p
      → HashMap.get bpf.forward w.tables.forward_map (forward_key (flow_of p w.packet.mem))
        ≡ some rule
      → (forward bpf w now).0 ≡ xdp_tx
      → (nat_port : ℕ) × (t : Tables bpf) × (track_client bpf w.tables
            (flow_of p w.packet.mem)
            rule
            (load 6 6 w.packet.mem)
            now
          ≡ some (nat_port, t))
        × ((forward bpf w now).1
            ≡ (send bpf
                (rewrite_of p
                  (l4_offset w.packet.mem)
                  (flow_of p w.packet.mem)
                  (to_target (flow_of p w.packet.mem) rule nat_port))
                w
                t).1)
  unfolding forward translate client_to_target
  sent_out w now p rule ok is_rule sent =
      let fl = flow_of p w.packet.mem in
      let step = try_forward-translate bpf w now p ok in
      elim (Option-cases (track_client bpf w.tables fl rule (load 6 6 w.packet.mem) now)) [
        | inl full ↦
            let aborted = rw (step, is_rule, translate, full, client_to_target) at sent in cc
        | inr ((nat_port, t), tracked) ↦
            (nat_port, t, tracked, rw (step, is_rule, translate, tracked, client_to_target))
      ]

  -- A target's packet that has a reverse entry and no rule.
  sent_back :
      (w : World bpf) (now : ℕ) (p : Proto) (r : RevSessionVal)
      → IsTranslatable bpf w p
      → HashMap.get bpf.forward w.tables.forward_map (forward_key (flow_of p w.packet.mem)) ≡ none
      → HashMap.get bpf.reverse w.tables.reverse_session_map (reply_key (flow_of p w.packet.mem))
        ≡ some r
      → ((forward bpf w now).0 ≡ xdp_tx)
        × ((forward bpf w now).1.packet.mem
            ≡ rewrite_of p
                (l4_offset w.packet.mem)
                (flow_of p w.packet.mem)
                (to_client (flow_of p w.packet.mem) r)
                w.packet.mem)
  unfolding forward translate target_to_client
  sent_back w now p r ok no_rule found =
      rw (try_forward-translate bpf w now p ok, translate, no_rule, found) (refl, refl)

  module _ (w w1 : World bpf) (p : Proto) (rule : ForwardVal) (nat_port now later : ℕ)
      (t : Tables bpf) (reply : Packet) (valid : IsValid bpf w) (valid1 : IsValid bpf w1)
      (ok : IsTranslatable bpf w p)
      (is_rule : HashMap.get bpf.forward w.tables.forward_map (forward_key (flow_of p w.packet.mem))
        ≡ some rule)
      (port_lt : nat_port < 65536)
      (w1_is : w1
        ≡ (send bpf
            (rewrite_of p
              (l4_offset w.packet.mem)
              (flow_of p w.packet.mem)
              (to_target (flow_of p w.packet.mem) rule nat_port))
            w
            t).1) where
    -- The packet that the target receives.
    pub received :
        Carries
          (to_target (flow_of p w.packet.mem) rule nat_port)
          (load 6 0 w.packet.mem)
          (l4_offset w1.packet.mem)
          w1.packet.mem
    received =
        let m = w.packet.mem in
        let new = to_target (flow_of p m) rule nat_port in
        let room : 34 ≤ l4_offset m = omega (arith, ok.ihl) in
        let f =
          to_target-Fits (flow_of p m) rule nat_port
            (flow-FlowFits m (l4_offset m) (number p) valid.bytes)
            (valid.typed.rules _ rule is_rule) port_lt in
        rw (w1_is, rewrite_of-l4_offset p (l4_offset m) (flow_of p m) new m room)
          (rewrite_of-Carries p (l4_offset m) (flow_of p m) new m room f
            (load-lt 6 0 m valid.bytes))

    -- The reverse key of its reply.
    pub reply_key_is :
        Answers w1.packet.mem reply.mem
        → reply_key (flow_of p reply.mem)
          ≡ rev_key rule.forward_ip nat_port rule.forward_port (number p)
    reply_key_is a =
        cc (a.src_ip, a.src_port, a.dst_port, received.dst_ip, received.src_port, received.dst_port)

  -- The reply, with the reverse entry that it finds.
  pub replied :
      (w1 w2 : World bpf) (p : Proto) (r : RevSessionVal) (later : ℕ)
      → IsValid bpf w2
      → IsTranslatable bpf w2 p
      → HashMap.get bpf.forward w2.tables.forward_map (forward_key (flow_of p w2.packet.mem)) ≡ none
      → HashMap.get bpf.reverse w2.tables.reverse_session_map (reply_key (flow_of p w2.packet.mem))
        ≡ some r
      → let back = (forward bpf w2 later).1.packet.mem in
        ((forward bpf w2 later).0 ≡ xdp_tx)
        × Carries
            (to_client (flow_of p w2.packet.mem) r)
            (load 6 0 w2.packet.mem)
            (l4_offset back)
            back
  replied w1 w2 p r later valid ok no_rule found =
      let m = w2.packet.mem in
      let new = to_client (flow_of p m) r in
      let room : 34 ≤ l4_offset m = omega (arith, ok.ihl) in
      let (sent, back_is) = sent_back w2 later p r ok no_rule found in
      let f =
        to_client-Fits (flow_of p m) r (flow-FlowFits m (l4_offset m) (number p) valid.bytes)
          (valid.typed.reverses _ r found) in
      (
        sent,
        rw (back_is, rewrite_of-l4_offset p (l4_offset m) (flow_of p m) new m room)
            (rewrite_of-Carries p (l4_offset m) (flow_of p m) new m room f
              (load-lt 6 0 m valid.bytes)),
      )
