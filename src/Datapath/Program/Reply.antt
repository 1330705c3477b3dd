-- ===== src/Datapath/Program/Reply.antt =====
-- A packet to a target and the target's reply.
use xdp_nat_forward.Base.{ℕ, ◌+◌, ◌≡◌, ◌∙◌, inl, inr, refl, arith, none, some}
use xdp_nat_forward.Datapath.Packet.{Mem, load, swap16}
use xdp_nat_forward.Datapath.Types.{ForwardVal, RevSessionVal}
use xdp_nat_forward.Datapath.Maps.{HashMap, Bpf, Tables}
use xdp_nat_forward.Datapath.Session.{
  Flow, touch_session, rev_key, client_key, rev_val, track_client, open_session,
}
use xdp_nat_forward.Datapath.Session.Paired.{HasRoom, some_of_ne_none}
use xdp_nat_forward.Datapath.Session.Balanced.{HasReverses}
use xdp_nat_forward.Datapath.Session.Touch.{touch_session-reverse, touch_reverse_forth}
use xdp_nat_forward.Datapath.Session.Tracked.{track_client-cases}
use xdp_nat_forward.Datapath.Program.{World, translate, try_tcp, try_udp, try_ip, try_forward}
use xdp_nat_forward.Datapath.Program.Verdict.{
  Proto, tcp, udp, rewrite_of, l4_offset, flow_of, IsTranslatable,
}

module _ (bpf : Bpf) where
  -- A packet of the protocol with both headers in bounds reaches the translation.
  pub try_forward-translate :
      (w : World bpf) (now : ℕ) (p : Proto)
      → IsTranslatable bpf w p
      → try_forward bpf w now
        ≡ translate bpf (rewrite_of p (l4_offset w.packet.mem)) w (flow_of p w.packet.mem) now
  unfolding try_forward try_ip try_tcp try_udp
  try_forward-translate w now tcp ok = ground arith
  try_forward-translate w now udp ok = ground arith

  -- After a client's packet, the reverse key of its NAT port names the client. For a new session
  -- the entry is the one just made.
  pub track_client-reverse :
      (t t' : Tables bpf) (fl : Flow) (rule : ForwardVal) (mac now nat_port : ℕ)
      → HasReverses bpf t
      → HasRoom bpf t
      → track_client bpf t fl rule mac now ≡ some (nat_port, t')
      → (r : RevSessionVal) × (HashMap.get bpf.reverse t'.reverse_session_map
            (rev_key rule.forward_ip nat_port rule.forward_port fl.proto)
          ≡ some r)
        × (r.client_ip ≡ fl.src_ip)
        × (r.client_port ≡ fl.src_port)
        × (HashMap.get bpf.session t.session_map (client_key fl rule) ≡ none
            → r ≡ rev_val fl mac now)
  unfolding open_session
  track_client-reverse t t' fl rule mac now nat_port p room e =
      elim (track_client-cases bpf t t' fl rule mac now nat_port e) [
        | inl f ↦
            let (r, er, n) = p (client_key fl rule) f.val f.found in
            let key = rev_key rule.forward_ip f.val.nat_port rule.forward_port fl.proto in
            let unchanged = (touch_session-reverse bpf t now (client_key fl rule)).0 in
            let (s, es, same) =
              touch_reverse_forth bpf (touch_session bpf t (client_key fl rule) now) now key key r
                (rw unchanged er) in
            (
              s,
              rw (f.tables_are, f.port_is) es,
              same.client_ip ∙ n.client_ip,
              same.client_port ∙ n.client_port,
              λ absent. cc (f.found),
            )
        | inr o ↦
            let (r, er) = some_of_ne_none (
              room.reverse_room (rev_key rule.forward_ip (swap16 o.port) rule.forward_port fl.proto)
                (rev_val fl mac now)) in
            (
              rev_val fl mac now,
              rw (o.tables_are, o.port_is, er) (bpf.reverse.get-insert_self _ r _ _ er),
              refl,
              refl,
              λ absent. refl,
            )
      ]

-- The reply of whoever received a packet: its source is the other's destination, and its
-- destination the other's source.
pub record Answers (out reply : Mem) : Type 0 where
  pub src_ip : load 4 26 reply ≡ load 4 30 out
  pub dst_ip : load 4 30 reply ≡ load 4 26 out
  pub src_port : load 2 (l4_offset reply) reply ≡ load 2 (l4_offset out + 2) out
  pub dst_port : load 2 (l4_offset reply + 2) reply ≡ load 2 (l4_offset out) out

-- A packet goes back to the client of `m`: from the address that the client wrote to, to the client's
-- address and port.
pub record ReachesClient (m back : Mem) : Type 0 where
  pub src_ip : load 4 26 back ≡ load 4 30 m
  pub dst_ip : load 4 30 back ≡ load 4 26 m
  pub dst_port : load 2 (l4_offset back + 2) back ≡ load 2 (l4_offset m) m
