-- ===== src/System/Replies.antt =====
-- A client's packet and the reply of the target, in whatever state the daemon's host is.
use xdp_nat_forward.Base.{ℕ, ◌≡◌, ◌∙◌, refl, none, some}
use xdp_nat_forward.Datapath.Packet.{Packet}
use xdp_nat_forward.Datapath.Packet.Laws.{IsBytes}
use xdp_nat_forward.Datapath.Types.{ForwardVal}
use xdp_nat_forward.Datapath.Maps.{HashMap, Bpf}
use xdp_nat_forward.Datapath.Session.Paired.{HasRoom}
use xdp_nat_forward.Datapath.Program.{xdp_tx, forward_key, World, forward}
use xdp_nat_forward.Datapath.Program.Verdict.{Proto, flow_of, IsTranslatable}
use xdp_nat_forward.Datapath.Program.Reply.{Answers, ReachesClient}
use xdp_nat_forward.Datapath.Program.RoundTrip.{sent_reverse}
use xdp_nat_forward.Datapath.Program.RoundTrip.Sent.{replied}
use xdp_nat_forward.Datapath.Session.{reply_key}
use xdp_nat_forward.System.Lasting.{Meanwhile, Meanwhile-HasEntry, Meanwhile-Reachable}
use xdp_nat_forward.System.{System, after_packet, packet_step, Reachable, by_other}
use xdp_nat_forward.System.Fits.{Reachable-IsValid}
use xdp_nat_forward.System.Reach.{Reachable-Balanced}

module _ (bpf : Bpf) where
  -- The system with a packet at hand.
  abbrev pub meets : Packet → System bpf → World bpf
  meets p s = record { packet = p; tables = s.tables }

  -- The session maps have room, a client's packet that a rule matches is sent out, and the target answers the
  -- packet that it receives, at a NAT port that no rule matches in the state in which the reply
  -- arrives; until then the cleanup has not collected the session.
  pub record Answered (s t : System bpf) (p : Packet) (proto : Proto) (rule : ForwardVal) (now : ℕ)
      (reply : Packet) : Type 0 where
    pub bytes : IsBytes p.mem
    pub room : HasRoom bpf s.tables
    pub ok : IsTranslatable bpf (meets p s) proto
    pub is_rule :
        HashMap.get bpf.forward s.tables.forward_map (forward_key (flow_of proto p.mem)) ≡ some rule
    pub sent : (forward bpf (meets p s) now).0 ≡ xdp_tx
    pub answers : Answers (forward bpf (meets p s) now).1.packet.mem reply.mem
    pub meanwhile : Meanwhile bpf (reply_key (flow_of proto reply.mem)) (after_packet bpf p now s) t
    pub reply_bytes : IsBytes reply.mem
    pub reply_ok : IsTranslatable bpf (meets reply t) proto
    pub no_rule :
        HashMap.get bpf.forward t.tables.forward_map (forward_key (flow_of proto reply.mem)) ≡ none

  -- Whatever packets, rule changes and steps of the cleanup went before a client's packet that is sent to a
  -- target, also in the middle of a round of the cleanup, and whatever comes between the packet and the
  -- target's reply while the cleanup does not collect the session: the program sends the reply to the
  -- client's address and port, from the address that the client wrote to.
  pub Reachable-ReachesClient :
      (s t : System bpf) (p : Packet) (proto : Proto) (rule : ForwardVal) (now later : ℕ)
      (reply : Packet)
      → Reachable bpf s
      → Answered s t p proto rule now reply
      → ((forward bpf (meets reply t) later).0 ≡ xdp_tx)
        × ReachesClient p.mem (forward bpf (meets reply t) later).1.packet.mem
  unfolding after_packet
  Reachable-ReachesClient s t p proto rule now later reply reachable a =
      let j = reply_key (flow_of proto reply.mem) in
      let (r, er, ip, port, _, src) =
        sent_reverse bpf (meets p s) proto rule now reply
          (Reachable-IsValid bpf s p reachable a.bytes) (Reachable-Balanced bpf s reachable).forth
          a.room a.ok a.is_rule a.sent a.answers in
      let (v, found, same_ip, same_port) =
        Meanwhile-HasEntry bpf j r a.meanwhile (r, er, refl, refl) in
      let there =
        Meanwhile-Reachable bpf j a.meanwhile
          (by_other s _ reachable (packet_step p now a.bytes a.room)) in
      let (sent, c) =
        replied bpf (meets p s) (meets reply t) proto v later
          (Reachable-IsValid bpf t reply there a.reply_bytes) a.reply_ok a.no_rule found in
      (
        sent,
        record {
          src_ip = c.src_ip ∙ a.answers.dst_ip ∙ src;
          dst_ip = c.dst_ip ∙ same_ip ∙ ip;
          dst_port = c.dst_port ∙ same_port ∙ port;
        },
      )
