-- ===== src/Datapath/Program/RoundTrip.antt =====
-- The reply of a target finds its way back to the client.
pub mod Sent
use xdp_nat_forward.Base.{
  ℕ, ◌+◌, ◌^◌, ◌≤◌, ◌<◌, ◌≡◌, ◌∙◌, ap, inl, inr, refl, arith, none, some, Option-cases,
}
use xdp_nat_forward.Datapath.Packet.{Mem, Packet, load}
use xdp_nat_forward.Datapath.Packet.Laws.{IsBytes, load-lt}
use xdp_nat_forward.Datapath.Types.{ForwardVal, RevSessionVal}
use xdp_nat_forward.Datapath.Maps.{HashMap, Bpf, Tables}
use xdp_nat_forward.Datapath.Session.{Flow, rev_val, rev_key, client_key, reply_key, track_client}
use xdp_nat_forward.Datapath.Session.Paired.{HasRoom}
use xdp_nat_forward.Datapath.Session.Balanced.{HasReverses}
use xdp_nat_forward.Datapath.Session.Typed.{track_client-Typed}
use xdp_nat_forward.Datapath.Rewrite.{Target}
use xdp_nat_forward.Datapath.Rewrite.Fields.{
  Fits, Carries, load-rewrite_ip, load-rewrite_tcp_check, load-rewrite_udp_check,
  tcp_rewrite-Carries, udp_rewrite-Carries,
}
use xdp_nat_forward.Datapath.Rewrite.{tcp_rewrite, udp_rewrite}
use xdp_nat_forward.Datapath.Program.{
  xdp_tx, forward_key, to_target, to_client, World, send, translate, client_to_target,
  target_to_client, forward,
}
use xdp_nat_forward.Datapath.Program.Verdict.{
  Proto, tcp, udp, number, rewrite_of, l4_offset, flow_of, IsTranslatable,
}
use xdp_nat_forward.Datapath.Program.Integrity.{
  IsValid, flow-FlowFits, to_target-Fits, to_client-Fits, forward-IsValid,
}
use xdp_nat_forward.Datapath.Program.Reply.{
  try_forward-translate, track_client-reverse, Answers, ReachesClient,
}
use xdp_nat_forward.Datapath.Program.RoundTrip.Sent.{sent_out, received, reply_key_is, replied}

module _ (bpf : Bpf) where
  -- The world after a packet, and then with another packet at hand.
  abbrev pub after : World bpf → ℕ → World bpf
  after w now = (forward bpf w now).1

  abbrev pub then_reply : World bpf → ℕ → Packet → World bpf
  then_reply w now reply = record { packet = reply; tables = (after w now).tables }

  -- A client's packet that a rule matches was sent out from a valid world whose sessions have
  -- their reverse entries, with room for more, and the target answers the packet it received, at a NAT port that no rule
  -- matches.
  pub record Exchange (w : World bpf) (p : Proto) (rule : ForwardVal) (now : ℕ) (reply : Packet)
      : Type 0 where
    pub valid : IsValid bpf w
    pub reversed : HasReverses bpf w.tables
    pub room : HasRoom bpf w.tables
    pub ok : IsTranslatable bpf w p
    pub is_rule :
        HashMap.get bpf.forward w.tables.forward_map (forward_key (flow_of p w.packet.mem))
        ≡ some rule
    pub sent : (forward bpf w now).0 ≡ xdp_tx
    pub reply_bytes : IsBytes reply.mem
    pub reply_ok : IsTranslatable bpf (then_reply w now reply) p
    pub answers : Answers (after w now).packet.mem reply.mem
    pub no_rule :
        HashMap.get bpf.forward (after w now).tables.forward_map (forward_key (flow_of p reply.mem))
        ≡ none

  -- The reverse entry that the answer to a packet finds, after the packet was sent out.
  pub sent_reverse :
      (w : World bpf) (p : Proto) (rule : ForwardVal) (now : ℕ) (reply : Packet)
      → IsValid bpf w
      → HasReverses bpf w.tables
      → HasRoom bpf w.tables
      → IsTranslatable bpf w p
      → HashMap.get bpf.forward w.tables.forward_map (forward_key (flow_of p w.packet.mem))
        ≡ some rule
      → (forward bpf w now).0 ≡ xdp_tx
      → Answers (after w now).packet.mem reply.mem
      → let m = w.packet.mem in
        (r : RevSessionVal) × (HashMap.get bpf.reverse
            (after w now).tables.reverse_session_map
            (reply_key (flow_of p reply.mem))
          ≡ some r)
        × (r.client_ip ≡ (flow_of p m).src_ip)
        × (r.client_port ≡ (flow_of p m).src_port)
        × (HashMap.get bpf.session w.tables.session_map (client_key (flow_of p m) rule) ≡ none
            → r ≡ rev_val (flow_of p m) (load 6 6 m) now)
        × (load 4 26 (after w now).packet.mem ≡ load 4 30 m)
  sent_reverse w p rule now reply valid reversed room ok is_rule sent a =
      let m = w.packet.mem in
      let w1 = after w now in
      let (nat_port, t, tracked, w1_is) = sent_out bpf w now p rule ok is_rule sent in
      let mac = load 6 6 m in
      let valid1 = forward-IsValid bpf w now valid in
      let (_, port_lt) =
        track_client-Typed bpf w.tables t (flow_of p m) rule mac now nat_port valid.typed
          (flow-FlowFits m (l4_offset m) (number p) valid.bytes) (load-lt 6 6 m valid.bytes)
          tracked in
      let (r, er, ip, port, new) =
        track_client-reverse bpf w.tables t (flow_of p m) rule mac now nat_port reversed room
          tracked in
      let key =
        reply_key_is bpf w w1 p rule nat_port now now t reply valid valid1 ok is_rule port_lt w1_is
          a in
      let got =
        received bpf w w1 p rule nat_port now now t reply valid valid1 ok is_rule port_lt w1_is in
      (
        r,
        ap (HashMap.get bpf.reverse w1.tables.reverse_session_map) key
            ∙ ap
                (λ (x : World bpf).
                  HashMap.get bpf.reverse x.tables.reverse_session_map
                    (rev_key rule.forward_ip nat_port rule.forward_port (number p)))
                w1_is
            ∙ er,
        ip,
        port,
        new,
        got.src_ip,
      )

  exchange_lem :
      (w : World bpf) (p : Proto) (rule : ForwardVal) (now later : ℕ) (reply : Packet)
      → Exchange w p rule now reply
      → let m = w.packet.mem in
        let back = (after (then_reply w now reply) later).packet.mem in
        ((forward bpf (then_reply w now reply) later).0 ≡ xdp_tx)
        × ReachesClient m back
        × (HashMap.get bpf.session w.tables.session_map (client_key (flow_of p m) rule) ≡ none
            → (load 2 (l4_offset back) back ≡ load 2 (l4_offset m + 2) m)
              × (load 6 0 back ≡ load 6 6 m))
  exchange_lem w p rule now later reply x =
      let a = x.answers in
      let valid1 = forward-IsValid bpf w now x.valid in
      let (r, found, ip, port, new, src) =
        sent_reverse w p rule now reply x.valid x.reversed x.room x.ok x.is_rule x.sent a in
      let (sent2, c) =
        replied bpf (after w now) (then_reply w now reply) p r later
          (record { bytes = x.reply_bytes; typed = valid1.typed }) x.reply_ok x.no_rule found in
      (
        sent2,
        record {
          src_ip = c.src_ip ∙ a.dst_ip ∙ src;
          dst_ip = c.dst_ip ∙ ip;
          dst_port = c.dst_port ∙ port;
        },
        λ absent. (
          c.src_port ∙ ap (λ x. x.local_port) (new absent),
          c.dst_mac ∙ ap (λ x. x.client_mac) (new absent),
        ),
      )

  -- On a valid world whose session maps have room and whose sessions have their reverse entries: when a
  -- TCP or UDP packet that a rule matches is sent out, and the target answers it directly, while no rule
  -- matches the NAT port that the answer is sent to, the answer is sent out, from the address that the
  -- client wrote to, to the client's address and port.
  pub reply-ReachesClient :
      (w : World bpf) (p : Proto) (rule : ForwardVal) (now later : ℕ) (reply : Packet)
      → Exchange w p rule now reply
      → ((forward bpf (then_reply w now reply) later).0 ≡ xdp_tx)
        × ReachesClient w.packet.mem (after (then_reply w now reply) later).packet.mem
  reply-ReachesClient w p rule now later reply x =
      let (sent, reaches, _) = exchange_lem w p rule now later reply x in (sent, reaches)

  -- On a valid world whose session maps have room and whose sessions have their reverse entries: when a
  -- TCP or UDP packet that a rule matches is sent out, and the target answers it directly, while no rule
  -- matches the NAT port that the answer is sent to, and the client's packet opened the session, the
  -- answer comes from the port that the client wrote to and goes to the MAC that the client's packet
  -- came from.
  pub reply_from_local_port :
      (w : World bpf) (p : Proto) (rule : ForwardVal) (now later : ℕ) (reply : Packet)
      → Exchange w p rule now reply
      → HashMap.get bpf.session w.tables.session_map (client_key (flow_of p w.packet.mem) rule)
        ≡ none
      → let back = (after (then_reply w now reply) later).packet.mem in
        (load 2 (l4_offset back) back ≡ load 2 (l4_offset w.packet.mem + 2) w.packet.mem)
        × (load 6 0 back ≡ load 6 6 w.packet.mem)
  reply_from_local_port w p rule now later reply x absent =
      (exchange_lem w p rule now later reply x).2 absent

  -- On a valid world: a TCP or UDP packet that a rule matches, if it is sent out, has the rule's MAC,
  -- address and port as its destination, and the MAC and the address that it was sent to as its source,
  -- with some port. A reverse session for the same packet makes no difference.
  pub forward_to_target :
      (w : World bpf) (p : Proto) (rule : ForwardVal) (now : ℕ)
      → IsValid bpf w
      → IsTranslatable bpf w p
      → HashMap.get bpf.forward w.tables.forward_map (forward_key (flow_of p w.packet.mem))
        ≡ some rule
      → (forward bpf w now).0 ≡ xdp_tx
      → let m = w.packet.mem in
        let out = (forward bpf w now).1.packet.mem in
        (nat_port : ℕ) × (load 6 0 out ≡ rule.forward_mac)
        × (load 6 6 out ≡ load 6 0 m)
        × (load 4 26 out ≡ load 4 30 m)
        × (load 4 30 out ≡ rule.forward_ip)
        × (load 2 (l4_offset out) out ≡ nat_port)
        × (nat_port < 2 ^ 16)
        × (load 2 (l4_offset out + 2) out ≡ rule.forward_port)
  forward_to_target w p rule now valid ok is_rule sent =
      let m = w.packet.mem in
      let (nat_port, t, tracked, w1_is) = sent_out bpf w now p rule ok is_rule sent in
      let (_, port_lt) =
        track_client-Typed bpf w.tables t (flow_of p m) rule (load 6 6 m) now nat_port valid.typed
          (flow-FlowFits m (l4_offset m) (number p) valid.bytes) (load-lt 6 6 m valid.bytes)
          tracked in
      let c =
        received bpf w (forward bpf w now).1 p rule nat_port now now t w.packet valid
          (forward-IsValid bpf w now valid) ok is_rule port_lt w1_is in
      (nat_port, c.dst_mac, c.src_mac, c.src_ip, c.dst_ip, c.src_port, port_lt, c.dst_port)
