-- ===== src/Datapath/Rewrite/Kept.antt =====
-- What the TCP and UDP rewriting keep: the IP header's sum, the segment's sum, other fields.
use xdp_nat_forward.Base.{
  ℕ, ◌+◌, ◌-◌, ◌*◌, ◌%◌, ◌≤◌, ◌<◌, ◌≡◌, ◌≢◌, ◌∙◌, inl, inr, arith, ap, subst, Bool-cases, ◌==◌,
  ==_iff, false,
}
use xdp_nat_forward.Datapath.Packet.{Mem, load, store, swap16}
use xdp_nat_forward.Datapath.Packet.Laws.{
  IsBytes, load-lt, load-store_ne, load-store_self, store-IsBytes, swap16-lt, swap16-swap16,
}
use xdp_nat_forward.Datapath.Rewrite.{
  Target, read_flow, flow_csum, nonzero_csum, rewrite_tcp_check, rewrite_udp_check, rewrite_ip,
  tcp_rewrite, udp_rewrite,
}
use xdp_nat_forward.Datapath.Rewrite.Fields.{
  Fits, Carries, load-rewrite_ip, load-rewrite_tcp_check, load-rewrite_udp_check,
  tcp_rewrite-Carries, udp_rewrite-Carries,
}
use xdp_nat_forward.Datapath.Rewrite.Sums.{word, word_sum, word_sum_cong, flow_csum_lem}
use xdp_nat_forward.Datapath.Rewrite.Segment.{rewrite_ip-IsBytes, header_sum, segment_sum}

module _ (l4 proto : ℕ) (new : Target) (m : Mem) (room : 34 ≤ l4) (b : IsBytes m)
    (f : Fits new) where
  flow_bound : (csum : ℕ) → csum < 65536 → flow_csum (read_flow m l4 proto) new csum < 65536
  flow_bound csum h =
      (flow_csum_lem (read_flow m l4 proto) new csum h (load-lt 4 26 m b) (load-lt 4 30 m b)
        (load-lt 2 l4 m b) (load-lt 2 (l4 + 2) m b) f).0

  pub tcp_rewrite-IsBytes : IsBytes (tcp_rewrite l4 (read_flow m l4 proto) new m)
  unfolding tcp_rewrite rewrite_tcp_check
  tcp_rewrite-IsBytes =
      store-IsBytes 2 (l4 + 16) _ _ (rewrite_ip-IsBytes l4 (read_flow m l4 proto) new m b)

  pub udp_rewrite-IsBytes : IsBytes (udp_rewrite l4 (read_flow m l4 proto) new m)
  unfolding udp_rewrite rewrite_udp_check
  udp_rewrite-IsBytes =
      let old = read_flow m l4 proto in
      let m1 = rewrite_ip l4 old new m in
      elim (Bool-cases (swap16 (load 2 (l4 + 6) m1) == 0)) [
        | inl e ↦ rw e (rewrite_ip-IsBytes l4 old new m b)
        | inr e ↦ rw e (store-IsBytes 2 (l4 + 6) _ _ (rewrite_ip-IsBytes l4 old new m b))
      ]

  -- The IP header's sum.
  pub tcp_header_sum :
      (n : ℕ)
      → 10 ≤ n
      → 14 + 2 * n ≤ l4
      → word_sum n 14 (tcp_rewrite l4 (read_flow m l4 proto) new m) % 65535
        ≡ word_sum n 14 m % 65535
  unfolding tcp_rewrite
  tcp_header_sum n enough fits =
      ap (λ s. s % 65535)
        (word_sum_cong n 14 _ _
          (λ i lo hi. load-rewrite_tcp_check 2 i l4 _ new _ (inl (omega arith))))
      ∙ header_sum l4 proto new m room b f n enough fits

  pub udp_header_sum :
      (n : ℕ)
      → 10 ≤ n
      → 14 + 2 * n ≤ l4
      → word_sum n 14 (udp_rewrite l4 (read_flow m l4 proto) new m) % 65535
        ≡ word_sum n 14 m % 65535
  unfolding udp_rewrite
  udp_header_sum n enough fits =
      ap (λ s. s % 65535)
        (word_sum_cong n 14 _ _
          (λ i lo hi. load-rewrite_udp_check 2 i l4 _ new _ (inl (omega arith))))
      ∙ header_sum l4 proto new m room b f n enough fits

  -- A word behind the ports goes through `rewrite_ip`.
  word-rewrite_ip :
      (i : ℕ) → l4 + 4 ≤ i → load 2 i (rewrite_ip l4 (read_flow m l4 proto) new m) ≡ load 2 i m
  word-rewrite_ip i h =
      load-rewrite_ip l4 (read_flow m l4 proto) new m room 2 i (inr (omega arith))
        (inr (omega arith)) (inr (omega arith))

  -- The TCP segment's sum with the pseudo header's addresses.
  pub tcp_segment_sum :
      (n : ℕ)
      → 9 ≤ n
      → let m' = tcp_rewrite l4 (read_flow m l4 proto) new m in
        (word_sum 4 26 m' + word_sum n l4 m') % 65535 ≡ (word_sum 4 26 m + word_sum n l4 m) % 65535
  unfolding tcp_rewrite rewrite_tcp_check
  tcp_segment_sum n enough =
      let old = read_flow m l4 proto in
      let m1 = rewrite_ip l4 old new m in
      let csum = flow_csum old new (word (l4 + 16) m1) in
      let same : word (l4 + 16) m1 ≡ word (l4 + 16) m =
        ap swap16 (word-rewrite_ip (l4 + 16) (omega arith)) in
      let bound : csum < 65536 =
        flow_bound _ (swap16-lt _ (load-lt 2 _ m1 (rewrite_ip-IsBytes l4 old new m b))) in
      let parts : n ≡ 2 + (6 + (1 + (n - 9))) = omega arith in
      let at : l4 + 4 + 2 * 6 ≡ l4 + 16 = omega arith in
      rw parts (
        segment_sum l4 6 (n - 9) proto new m _ (load 6 0 m) b
          (unfold tcp_rewrite rewrite_tcp_check in tcp_rewrite-IsBytes) f
          (unfold tcp_rewrite rewrite_tcp_check in
            tcp_rewrite-Carries l4 old new m room f (load-lt 6 0 m b))
          (λ i lo apart. load-store_ne 2 i 2 (l4 + 16) _ _ (ground arith) ∙ word-rewrite_ip i lo)
          (rw at (
            ap (λ v. swap16 v % 65535) (load-store_self 2 (l4 + 16) _ _ (swap16-lt csum bound))
            ∙ ap (λ v. v % 65535) (swap16-swap16 csum bound)
            ∙ ap (λ v. flow_csum old new v % 65535) same)))

  -- A UDP packet without a checksum stays without one.
  pub udp_unchecked :
      word (l4 + 6) m ≡ 0 → word (l4 + 6) (udp_rewrite l4 (read_flow m l4 proto) new m) ≡ 0
  unfolding udp_rewrite rewrite_udp_check
  udp_unchecked h =
      let m1 = rewrite_ip l4 (read_flow m l4 proto) new m in
      let zero_left : word (l4 + 6) m1 ≡ 0 =
        ap swap16 (word-rewrite_ip (l4 + 6) (omega arith)) ∙ h in
      rw ((==_iff (word (l4 + 6) m1) 0).1 zero_left) zero_left

  -- With a checksum it keeps a checksum, and the segment's sum with the pseudo header's addresses.
  pub udp_segment_sum :
      (n : ℕ)
      → 4 ≤ n
      → word (l4 + 6) m ≢ 0
      → let m' = udp_rewrite l4 (read_flow m l4 proto) new m in
        ((word_sum 4 26 m' + word_sum n l4 m') % 65535
          ≡ (word_sum 4 26 m + word_sum n l4 m) % 65535)
        × (word (l4 + 6) m' ≢ 0)
  unfolding udp_rewrite rewrite_udp_check
  udp_segment_sum n enough checked =
      let old = read_flow m l4 proto in
      let m1 = rewrite_ip l4 old new m in
      let csum = flow_csum old new (word (l4 + 6) m1) in
      let same : word (l4 + 6) m1 ≡ word (l4 + 6) m =
        ap swap16 (word-rewrite_ip (l4 + 6) (omega arith)) in
      let bound : csum < 65536 =
        flow_bound _ (swap16-lt _ (load-lt 2 _ m1 (rewrite_ip-IsBytes l4 old new m b))) in
      let bound' : nonzero_csum csum < 65536 = ground arith in
      let parts : n ≡ 2 + (1 + (1 + (n - 4))) = omega arith in
      let at : l4 + 4 + 2 * 1 ≡ l4 + 6 = omega arith in
      let test : (word (l4 + 6) m1 == 0) ≡ false = ground arith in
      let m' = store 2 (l4 + 6) (swap16 (nonzero_csum csum)) m1 in
      let made : udp_rewrite l4 old new m ≡ m' = rw test in
      let written : word (l4 + 6) m' ≡ nonzero_csum csum =
        ap swap16 (load-store_self 2 (l4 + 6) _ m1 (swap16-lt _ bound')) ∙ swap16-swap16 _ bound' in
      rw made (
        rw parts (
            segment_sum l4 1 (n - 4) proto new m m' (load 6 0 m) b
              (subst IsBytes made udp_rewrite-IsBytes) f
              (subst (Carries new (load 6 0 m) l4) made
                (udp_rewrite-Carries l4 old new m room f (load-lt 6 0 m b)))
              (λ i lo apart. load-store_ne 2 i 2 (l4 + 6) _ _ (ground arith) ∙ word-rewrite_ip i lo)
              (rw at (
                ap (λ v. v % 65535) written
                ∙ ground arith
                ∙ ap (λ v. flow_csum old new v % 65535) same))),
        λ z. ground (arith, written),
      )
