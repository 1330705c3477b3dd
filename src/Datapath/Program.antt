-- ===== src/Datapath/Program.antt =====
-- forward-ebpf/src/main.rs, `try_forward` and `forward`: one packet, with the maps and the
-- reading of the clock. `none` is `Err(())`.
pub mod Verdict
pub mod Integrity
pub mod Widths
pub mod Sums
pub mod Sessions
pub mod Reply
pub mod RoundTrip
use mathlib.Core.Option
use xdp_nat_forward.Base.{
  ℕ, ◌+◌, ◌*◌, ◌%◌, ◌==◌, ltb, if◌then◌else◌, Bool, true, false, ◌||◌, not, Option, none, some,
}
use xdp_nat_forward.Datapath.Packet.{Mem, Packet, ptr_at_mut, load, swap16}
use xdp_nat_forward.Datapath.Types.{ForwardKey, ForwardVal, RevSessionVal}
use xdp_nat_forward.Datapath.Maps.{HashMap, Bpf, Tables}
use xdp_nat_forward.Datapath.Session.{Flow, reply_key, track_client, track_target}
use xdp_nat_forward.Datapath.Rewrite.{Target, read_flow, tcp_rewrite, udp_rewrite}

-- The `xdp_action`s that the program returns.
pub data Action : Type 0 where
  xdp_aborted xdp_pass xdp_tx : Action

abbrev pub forward_key : Flow → ForwardKey
forward_key fl = record { proto = fl.proto; local_port = swap16 fl.dst_port }

-- Client -> target: from the NAT address, to the rule's target.
abbrev pub to_target : Flow → ForwardVal → ℕ → Target
to_target fl rule nat_port = record {
  src_ip = fl.dst_ip;
  dst_ip = rule.forward_ip;
  src_port = nat_port;
  dst_port = rule.forward_port;
  mac = rule.forward_mac;
}

-- Target -> client: from the NAT address and the local port, to the client.
abbrev pub to_client : Flow → RevSessionVal → Target
to_client fl v = record {
  src_ip = fl.dst_ip;
  dst_ip = v.client_ip;
  src_port = v.local_port;
  dst_port = v.client_port;
  mac = v.client_mac;
}

-- The IP header's length in bytes.
abbrev pub ip_len : Mem → ℕ
ip_len m = load 1 14 m % 16 * 4

pub record World (bpf : Bpf) : Type 0 where
  pub packet : Packet
  pub tables : Tables bpf

module _ (bpf : Bpf) where
  abbrev pub Outcome : Type 0
  Outcome = Option Action × World bpf

  -- What a branch does with a packet once its direction is known: `rewrite` is the branch's.
  abbrev pub send : (Mem → Mem) → World bpf → Tables bpf → Outcome
  send rewrite w t = (
    some xdp_tx,
    record { packet = record { size = w.packet.size; mem = rewrite w.packet.mem }; tables = t },
  )

  unfoldable pub client_to_target :
      (Flow → Target → Mem → Mem) → World bpf → Flow → ForwardVal → ℕ → Outcome
  client_to_target rewrite w fl rule now =
      elim (track_client bpf w.tables fl rule (load 6 6 w.packet.mem) now) [
        | none ↦ (some xdp_aborted, w)
        | some (nat_port, t) ↦ send (rewrite fl (to_target fl rule nat_port)) w t
      ]

  unfoldable pub target_to_client :
      (Flow → Target → Mem → Mem) → World bpf → Flow → RevSessionVal → ℕ → Outcome
  target_to_client rewrite w fl v now =
      send (rewrite fl (to_client fl v)) w (track_target bpf w.tables fl v now)

  -- The forward map first, then the reverse sessions, then XDP_PASS.
  unfoldable pub translate : (Flow → Target → Mem → Mem) → World bpf → Flow → ℕ → Outcome
  translate rewrite w fl now =
      elim (HashMap.get bpf.forward w.tables.forward_map (forward_key fl)) [
        | some rule ↦ client_to_target rewrite w fl rule now
        | none ↦ elim (HashMap.get bpf.reverse w.tables.reverse_session_map (reply_key fl)) [
          | some v ↦ target_to_client rewrite w fl v now
          | none ↦ (some xdp_pass, w)
        ]
      ]

  unfoldable pub try_tcp : World bpf → ℕ → ℕ → Outcome
  try_tcp w l4 now =
      if ptr_at_mut w.packet l4 20
      then translate (tcp_rewrite l4) w (read_flow w.packet.mem l4 6) now
      else (none, w)

  unfoldable pub try_udp : World bpf → ℕ → ℕ → Outcome
  try_udp w l4 now =
      if ptr_at_mut w.packet l4 8
      then translate (udp_rewrite l4) w (read_flow w.packet.mem l4 17) now
      else (none, w)

  unfoldable pub try_ip : World bpf → ℕ → Outcome
  try_ip w now =
      let m = w.packet.mem in
      let proto = load 1 23 m in
      if ltb (ip_len m) 20 || ltb 60 (ip_len m)
      then (some xdp_pass, w)
      else if proto == 6
      then try_tcp w (14 + ip_len m) now
      else if proto == 17
      then try_udp w (14 + ip_len m) now
      else (some xdp_pass, w)

  unfoldable pub try_forward : World bpf → ℕ → Outcome
  try_forward w now =
      if not (ptr_at_mut w.packet 0 14)
      then (none, w)
      else if not (swap16 (load 2 12 w.packet.mem) == 0x0800)
      then (some xdp_pass, w)
      else if not (ptr_at_mut w.packet 14 20)
      then (none, w)
      else try_ip w now

  -- The program's entry: an error is XDP_ABORTED.
  unfoldable pub forward : World bpf → ℕ → Action × World bpf
  forward w now = let (action, w') = try_forward w now in (Option.get_or action xdp_aborted, w')
