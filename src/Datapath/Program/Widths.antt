-- ===== src/Datapath/Program/Widths.antt =====
-- The widths of all values, times included, before and after a packet.
use xdp_nat_forward.Base.{ℕ, ◌^◌, ◌<◌}
use xdp_nat_forward.Datapath.Packet.{load}
use xdp_nat_forward.Datapath.Maps.{Bpf}
use xdp_nat_forward.Datapath.Session.Clock.{Clocked, track_client-Clocked, track_target-Clocked}
use xdp_nat_forward.Datapath.Program.{World, Outcome, try_forward, forward}
use xdp_nat_forward.Datapath.Program.Verdict.{
  flow_of, Verdict, kept, sent_to_target, sent_to_client, try_forward-Verdict,
}
use xdp_nat_forward.Datapath.Program.Integrity.{IsValid, forward-IsValid}

module _ (bpf : Bpf) where
  Verdict-Clocked :
      (limit : ℕ) (w : World bpf) (now : ℕ) (r : Outcome bpf)
      → now < limit
      → Clocked bpf limit w.tables
      → Verdict bpf w now r
      → Clocked bpf limit r.1.tables
  Verdict-Clocked limit w now r in_time c (kept a h) = c
  Verdict-Clocked limit w now r in_time c (sent_to_target p rule nat_port t ok is_rule tracked) =
      track_client-Clocked bpf limit now in_time w.tables t (flow_of p w.packet.mem) rule
        (load 6 6 w.packet.mem) nat_port c tracked
  Verdict-Clocked limit w now r in_time c (sent_to_client p q ok no_rule found) =
      track_target-Clocked bpf limit now in_time w.tables (flow_of p w.packet.mem) q c

  pub forward-Clocked :
      (limit : ℕ) (w : World bpf) (now : ℕ)
      → now < limit
      → Clocked bpf limit w.tables
      → Clocked bpf limit (forward bpf w now).1.tables
  unfolding forward
  forward-Clocked limit w now in_time c =
      Verdict-Clocked limit w now (try_forward bpf w now) in_time c (try_forward-Verdict bpf w now)

  -- The packet is made of bytes, and every field of every value in the maps is below the limit of its width.
  pub record IsTyped (w : World bpf) : Type 0 where
    pub valid : IsValid bpf w
    pub clocked : Clocked bpf (2 ^ 64) w.tables

  -- When the clock is below 2 ^ 64 nanoseconds, whatever packet arrives, the program leaves bytes in the packet,
  -- and in the maps values whose addresses, ports, MAC addresses and times fit their fields, if they
  -- did so before.
  pub forward-IsTyped :
      (w : World bpf) (now : ℕ) → now < 2 ^ 64 → IsTyped w → IsTyped (forward bpf w now).1
  forward-IsTyped w now in_time h = record {
    valid = forward-IsValid bpf w now h.valid;
    clocked = forward-Clocked (2 ^ 64) w now in_time h.clocked;
  }
