-- ===== src/Datapath/Program/Sums.antt =====
-- The checksums of the packets that the program sends on.
use xdp_nat_forward.Base.{ℕ, ◌+◌, ◌*◌, ◌/◌, ◌%◌, ◌≤◌, ◌≡◌, ◌≢◌, inl, inr, refl, arith}
use xdp_nat_forward.Datapath.Packet.{Mem, load}
use xdp_nat_forward.Datapath.Packet.Laws.{IsBytes}
use xdp_nat_forward.Datapath.Maps.{Bpf}
use xdp_nat_forward.Datapath.Rewrite.{Target, read_flow}
use xdp_nat_forward.Datapath.Rewrite.Fields.{Fits}
use xdp_nat_forward.Datapath.Rewrite.Sums.{word, word_sum}
use xdp_nat_forward.Datapath.Rewrite.Kept.{
  tcp_header_sum, udp_header_sum, tcp_segment_sum, udp_unchecked, udp_segment_sum,
}
use xdp_nat_forward.Datapath.Program.{ip_len, World, forward}
use xdp_nat_forward.Datapath.Program.Verdict.{Proto, tcp, udp, number, rewrite_of, l4_offset}
use xdp_nat_forward.Datapath.Program.Integrity.{IsValid, forward-Rewritten}

header_sum_of :
    (p : Proto) (l4 proto : ℕ) (new : Target) (m : Mem)
    → 34 ≤ l4
    → IsBytes m
    → Fits new
    → (n : ℕ) → 10 ≤ n
    → 14 + 2 * n ≤ l4
    → word_sum n 14 (rewrite_of p l4 (read_flow m l4 proto) new m) % 65535 ≡ word_sum n 14 m % 65535
header_sum_of tcp l4 proto new m room b f = tcp_header_sum l4 proto new m room b f
header_sum_of udp l4 proto new m room b f = udp_header_sum l4 proto new m room b f

-- The sum of the pseudo header's addresses and of `n` words from the TCP or UDP header on.
abbrev pub segment_sum_of : ℕ → ℕ → Mem → ℕ
segment_sum_of n l4 m = word_sum 4 26 m + word_sum n l4 m

module _ (bpf : Bpf) (w : World bpf) (now : ℕ) (v : IsValid bpf w) where
  -- On a valid world, the one's complement sum of the IP header, options included, is the same
  -- modulo 65535 after the program as before: a correct IP checksum stays correct.
  pub forward-header_sum :
      let m = w.packet.mem in
      word_sum (ip_len m / 2) 14 (forward bpf w now).1.packet.mem % 65535
      ≡ word_sum (ip_len m / 2) 14 m % 65535
  forward-header_sum = elim (forward-Rewritten bpf w now v) [
    | inl same ↦ rw same
    | inr (p, r) ↦
        let ihl = r.translatable.ihl in
        rw r.mem_is (
          header_sum_of p _ (number p) r.new w.packet.mem (omega arith) v.bytes r.fits _
            (omega arith) (omega arith))
  ]

  -- On a valid world, for a TCP packet and any number of words from 9 on (so also the whole segment
  -- without an odd last byte), the one's complement sum of the segment and the
  -- pseudo header's addresses is the same modulo 65535 after the program as before.
  pub forward-tcp_sum :
      (n : ℕ)
      → 9 ≤ n
      → load 1 23 w.packet.mem ≡ 6
      → let l4 = l4_offset w.packet.mem in
        segment_sum_of n l4 (forward bpf w now).1.packet.mem % 65535
        ≡ segment_sum_of n l4 w.packet.mem % 65535
  forward-tcp_sum n enough is_tcp = elim (forward-Rewritten bpf w now v) [
    | inl same ↦ rw same
    | inr (tcp, r) ↦ rw r.mem_is (
        tcp_segment_sum _ 6 r.new w.packet.mem (omega (arith, r.translatable.ihl)) v.bytes r.fits n
          enough)
    | inr (udp, r) ↦ absurd (omega (arith, r.translatable.is_proto))
  ]

  -- On a valid world, a UDP packet without a checksum (0) is still without one after the program.
  pub forward-udp_unchecked :
      load 1 23 w.packet.mem ≡ 17
      → word (l4_offset w.packet.mem + 6) w.packet.mem ≡ 0
      → word (l4_offset w.packet.mem + 6) (forward bpf w now).1.packet.mem ≡ 0
  forward-udp_unchecked is_udp unchecked = elim (forward-Rewritten bpf w now v) [
    | inl same ↦ rw same unchecked
    | inr (udp, r) ↦ rw r.mem_is (
        udp_unchecked _ 17 r.new w.packet.mem (omega (arith, r.translatable.ihl)) v.bytes r.fits
          unchecked)
    | inr (tcp, r) ↦ absurd (omega (arith, r.translatable.is_proto))
  ]

  -- On a valid world, a UDP packet with a checksum still has one after the program, and for any number
  -- of words from 4 on, the one's complement sum of the segment and the pseudo header's addresses is
  -- the same modulo 65535 as before.
  pub forward-udp_sum :
      (n : ℕ)
      → 4 ≤ n
      → load 1 23 w.packet.mem ≡ 17
      → word (l4_offset w.packet.mem + 6) w.packet.mem ≢ 0
      → (segment_sum_of n (l4_offset w.packet.mem) (forward bpf w now).1.packet.mem % 65535
          ≡ segment_sum_of n (l4_offset w.packet.mem) w.packet.mem % 65535)
        × (word (l4_offset w.packet.mem + 6) (forward bpf w now).1.packet.mem ≢ 0)
  forward-udp_sum n enough is_udp checked = elim (forward-Rewritten bpf w now v) [
    | inl same ↦ rw same (refl, checked)
    | inr (udp, r) ↦ rw r.mem_is (
        udp_segment_sum _ 17 r.new w.packet.mem (omega (arith, r.translatable.ihl)) v.bytes r.fits n
          enough checked)
    | inr (tcp, r) ↦ absurd (omega (arith, r.translatable.is_proto))
  ]
