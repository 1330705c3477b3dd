-- ===== src/Datapath/Rewrite/Segment.antt =====
-- The IP header and the TCP or UDP segment of a rewritten packet keep their checksum's sum.
use xdp_nat_forward.Base.{ℕ, ◌+◌, ◌-◌, ◌*◌, ◌/◌, ◌%◌, ◌≤◌, ◌<◌, ◌≡◌, ◌∙◌, inl, inr, arith, refl, ap}
use xdp_nat_forward.Datapath.Packet.{Mem, load, swap16, swap32}
use xdp_nat_forward.Datapath.Packet.Laws.{
  IsBytes, Apart, load-lt, load-store_self, store-IsBytes, swap16-lt, swap16-swap16,
}
use xdp_nat_forward.Datapath.Session.{Flow}
use xdp_nat_forward.Datapath.Rewrite.{
  Target, read_flow, addresses_csum, flow_csum, rewrite_addresses, rewrite_ip_check, rewrite_ports,
  rewrite_ip,
}
use xdp_nat_forward.Datapath.Rewrite.Fields.{
  Fits, Carries, load-rewrite_addresses, load-rewrite_ports, load-rewrite_ip, rewrite_ip-Carries,
}
use xdp_nat_forward.Datapath.Rewrite.Sums.{
  word, word_sum, word_sum_cong, word_sum-add, address_halves, addresses_csum_lem, flow_csum_lem,
}

pub rewrite_ip-IsBytes :
    (l4 : ℕ) (old : Flow) (new : Target) (m : Mem) → IsBytes m → IsBytes (rewrite_ip l4 old new m)
unfolding rewrite_ip rewrite_ports rewrite_ip_check rewrite_addresses
rewrite_ip-IsBytes l4 old new m h = store-IsBytes 2 (l4 + 2) _ _ (
    store-IsBytes 2 l4 _ _ (
      store-IsBytes 2 24 _ _ (
        store-IsBytes 4 30 _ _
          (store-IsBytes 4 26 _ _ (store-IsBytes 6 0 _ _ (store-IsBytes 6 6 _ _ h))))))

-- The four words of the addresses.
address_words :
    (m : Mem)
    → IsBytes m
    → word_sum 4 26 m
      ≡ swap32 (load 4 26 m) / 65536
        + swap32 (load 4 26 m) % 65536
        + swap32 (load 4 30 m) / 65536
        + swap32 (load 4 30 m) % 65536
unfolding word_sum
address_words m h = omega (
  arith,
  (address_halves 26 m h).0,
  (address_halves 26 m h).1,
  (address_halves 30 m h).0,
  (address_halves 30 m h).1,
)

word-lt : (o : ℕ) (m : Mem) → IsBytes m → word o m < 65536
word-lt o m h = swap16-lt _ (load-lt 2 o m h)

-- The new addresses and the written checksum keep the sum of the checksum's five words.
five_words :
    (old : Flow) (new : Target) (m m' : Mem) (l4 mac : ℕ)
    → IsBytes m
    → IsBytes m'
    → old.src_ip ≡ load 4 26 m
    → old.dst_ip ≡ load 4 30 m
    → Fits new
    → Carries new mac l4 m'
    → word 24 m' ≡ addresses_csum old new (word 24 m)
    → word_sum 5 24 m' % 65535 ≡ word_sum 5 24 m % 65535
unfolding word_sum
five_words old new m m' l4 mac b b' s d f c check =
    let sums =
      addresses_csum_lem old new (word 24 m) (word-lt 24 m b) (rw s (load-lt 4 26 m b))
        (rw d (load-lt 4 30 m b)) f in
    let halves = λ (ip : ℕ). swap32 ip / 65536 + swap32 ip % 65536 in
    omega (
      arith,
      check,
      sums.1,
      ap halves s,
      ap halves d,
      ap halves c.src_ip,
      ap halves c.dst_ip,
      address_words m b,
      address_words m' b',
    )

module _ (l4 proto : ℕ) (new : Target) (m : Mem) (room : 34 ≤ l4) (b : IsBytes m)
    (f : Fits new) where
  carries : Carries new (load 6 0 m) l4 (rewrite_ip l4 (read_flow m l4 proto) new m)
  carries = rewrite_ip-Carries l4 (read_flow m l4 proto) new m room f (load-lt 6 0 m b)

  -- The IP checksum that is written.
  ip_check :
      word 24 (rewrite_ip l4 (read_flow m l4 proto) new m)
      ≡ addresses_csum (read_flow m l4 proto) new (word 24 m)
  unfolding rewrite_ip rewrite_ip_check
  ip_check =
      let csum = addresses_csum (read_flow m l4 proto) new (word 24 (rewrite_addresses new m)) in
      let same : word 24 (rewrite_addresses new m) ≡ word 24 m =
        ap swap16 (load-rewrite_addresses 2 24 new m (inr (omega arith)) (inl (omega arith))) in
      let bound =
        (addresses_csum_lem (read_flow m l4 proto) new (word 24 (rewrite_addresses new m))
          (swap16-lt _ (
            rw (load-rewrite_addresses 2 24 new m (inr (omega arith)) (inl (omega arith)))
              (load-lt 2 24 m b)))
          (load-lt 4 26 m b) (load-lt 4 30 m b) f).0 in
      ap swap16 (
        load-rewrite_ports 2 24 l4 new _ (inl (omega arith))
        ∙ load-store_self 2 24 (swap16 csum) _ (swap16-lt csum bound))
      ∙ swap16-swap16 csum bound
      ∙ ap (addresses_csum (read_flow m l4 proto) new) same

  -- The IP header's sum, over any number of words that ends before the TCP or UDP header.
  pub header_sum :
      (n : ℕ)
      → 10 ≤ n
      → 14 + 2 * n ≤ l4
      → word_sum n 14 (rewrite_ip l4 (read_flow m l4 proto) new m) % 65535 ≡ word_sum n 14 m % 65535
  header_sum n enough fits =
      let old = read_flow m l4 proto in
      let m' = rewrite_ip l4 old new m in
      let k = n - 10 in
      let parts : n ≡ 5 + (5 + k) = omega arith in
      let front : word_sum 5 14 m' ≡ word_sum 5 14 m = word_sum_cong 5 14 m' m (λ i lo hi.
        load-rewrite_ip l4 old new m room 2 i (inr (omega arith)) (inl (omega arith))
          (inl (omega arith))) in
      let back : word_sum k 34 m' ≡ word_sum k 34 m = word_sum_cong k 34 m' m (λ i lo hi.
        load-rewrite_ip l4 old new m room 2 i (inr (omega arith)) (inr (omega arith))
          (inl (omega arith))) in
      let middle =
        five_words old new m m' l4 (load 6 0 m) b (rewrite_ip-IsBytes l4 old new m b) refl refl f
          carries ip_check in
      rw parts (
        omega (
          arith,
          front,
          back,
          middle,
          word_sum-add 5 (5 + k) 14 m,
          word_sum-add 5 k 24 m,
          word_sum-add 5 (5 + k) 14 m',
          word_sum-add 5 k 24 m',
        ))

-- The segment's sum with the addresses of the pseudo header, for a checksum that stands `j` words
-- after the ports.
pub segment_sum :
    (l4 j k proto : ℕ) (new : Target) (m m' : Mem) (mac : ℕ)
    → IsBytes m
    → IsBytes m'
    → Fits new
    → Carries new mac l4 m'
    → ((i : ℕ) → l4 + 4 ≤ i → Apart 2 i 2 (l4 + 4 + 2 * j) → load 2 i m' ≡ load 2 i m)
    → word (l4 + 4 + 2 * j) m' % 65535
      ≡ flow_csum (read_flow m l4 proto) new (word (l4 + 4 + 2 * j) m) % 65535
    → (word_sum 4 26 m' + word_sum (2 + (j + (1 + k))) l4 m') % 65535
      ≡ (word_sum 4 26 m + word_sum (2 + (j + (1 + k))) l4 m) % 65535
unfolding word_sum
segment_sum l4 j k proto new m m' mac b b' f c keeps check =
    let old = read_flow m l4 proto in
    let at = l4 + 4 + 2 * j in
    let sums =
      flow_csum_lem old new (word at m) (word-lt at m b) (load-lt 4 26 m b) (load-lt 4 30 m b)
        (load-lt 2 l4 m b) (load-lt 2 (l4 + 2) m b) f in
    let halves = λ (ip : ℕ). swap32 ip / 65536 + swap32 ip % 65536 in
    let between : word_sum j (l4 + 4) m' ≡ word_sum j (l4 + 4) m =
      word_sum_cong j (l4 + 4) m' m (λ i lo hi. keeps i lo (inl (omega arith))) in
    let behind : word_sum k (at + 2) m' ≡ word_sum k (at + 2) m =
      word_sum_cong k (at + 2) m' m (λ i lo hi. keeps i (omega arith) (inr (omega arith))) in
    omega (
      arith,
      between,
      behind,
      check,
      sums.1,
      ap halves c.src_ip,
      ap halves c.dst_ip,
      ap swap16 c.src_port,
      ap swap16 c.dst_port,
      address_words m b,
      address_words m' b',
      word_sum-add 2 (j + (1 + k)) l4 m,
      word_sum-add j (1 + k) (l4 + 4) m,
      word_sum-add 1 k at m,
      word_sum-add 2 (j + (1 + k)) l4 m',
      word_sum-add j (1 + k) (l4 + 4) m',
      word_sum-add 1 k at m',
    )
