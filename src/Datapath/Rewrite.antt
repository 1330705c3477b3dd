-- ===== src/Datapath/Rewrite.antt =====
-- forward-ebpf/src/main.rs, the rewriting of a packet in `try_forward`. Offsets are those of the
-- packed structs `EthHdr` (0), `IpHdr` (14), `TcpHdr` and `UdpHdr` (`l4`).
pub mod Fields
pub mod Sums
pub mod Segment
pub mod Kept
use xdp_nat_forward.Base.{ℕ, ◌+◌, ◌==◌, if◌then◌else◌}
use xdp_nat_forward.Datapath.Checksum.{update_csum_16, update_csum_32}
use xdp_nat_forward.Datapath.Packet.{Mem, load, store, swap16, swap32}
use xdp_nat_forward.Datapath.Session.{Flow}

-- What the packet is given: `new_src_ip`, `new_dst_ip`, `new_src_port`, `new_dst_port` and the
-- destination MAC.
pub record Target : Type 0 where
  pub src_ip : ℕ
  pub dst_ip : ℕ
  pub src_port : ℕ
  pub dst_port : ℕ
  pub mac : ℕ

-- The flow of a packet whose TCP or UDP header is at `l4`.
abbrev pub read_flow : Mem → ℕ → ℕ → Flow
read_flow m l4 proto = record {
  src_ip = load 4 26 m;
  dst_ip = load 4 30 m;
  src_port = load 2 l4 m;
  dst_port = load 2 (l4 + 2) m;
  proto = proto;
}

-- The stores to the Ethernet addresses and the IP addresses.
unfoldable pub rewrite_addresses : Target → Mem → Mem
rewrite_addresses new m =
    store 4 30 new.dst_ip (store 4 26 new.src_ip (store 6 0 new.mac (store 6 6 (load 6 0 m) m)))

-- The update of a checksum for the two addresses.
abbrev pub addresses_csum : Flow → Target → ℕ → ℕ
addresses_csum old new csum =
    update_csum_32 (update_csum_32 csum (swap32 old.src_ip) (swap32 new.src_ip)) (swap32 old.dst_ip)
      (swap32 new.dst_ip)

-- The update of a checksum for the two addresses and the two ports.
abbrev pub flow_csum : Flow → Target → ℕ → ℕ
flow_csum old new csum =
    update_csum_16
      (update_csum_16 (addresses_csum old new csum) (swap16 old.src_port) (swap16 new.src_port))
      (swap16 old.dst_port) (swap16 new.dst_port)

unfoldable pub rewrite_ip_check : Flow → Target → Mem → Mem
rewrite_ip_check old new m = store 2 24 (swap16 (addresses_csum old new (swap16 (load 2 24 m)))) m

unfoldable pub rewrite_ports : ℕ → Target → Mem → Mem
rewrite_ports l4 new m = store 2 (l4 + 2) new.dst_port (store 2 l4 new.src_port m)

-- `TcpHdr.check` is at 16.
unfoldable pub rewrite_tcp_check : ℕ → Flow → Target → Mem → Mem
rewrite_tcp_check l4 old new m =
    store 2 (l4 + 16) (swap16 (flow_csum old new (swap16 (load 2 (l4 + 16) m)))) m

abbrev pub nonzero_csum : ℕ → ℕ
nonzero_csum csum = if csum == 0 then 0xffff else csum

-- `UdpHdr.check` is at 6; 0 means that there is none.
unfoldable pub rewrite_udp_check : ℕ → Flow → Target → Mem → Mem
rewrite_udp_check l4 old new m =
    if swap16 (load 2 (l4 + 6) m) == 0
    then m
    else store 2 (l4 + 6) (swap16 (nonzero_csum (flow_csum old new (swap16 (load 2 (l4 + 6) m))))) m

unfoldable pub rewrite_ip : ℕ → Flow → Target → Mem → Mem
rewrite_ip l4 old new m = rewrite_ports l4 new (rewrite_ip_check old new (rewrite_addresses new m))

unfoldable pub tcp_rewrite : ℕ → Flow → Target → Mem → Mem
tcp_rewrite l4 old new m = rewrite_tcp_check l4 old new (rewrite_ip l4 old new m)

unfoldable pub udp_rewrite : ℕ → Flow → Target → Mem → Mem
udp_rewrite l4 old new m = rewrite_udp_check l4 old new (rewrite_ip l4 old new m)
