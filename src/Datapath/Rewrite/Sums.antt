-- ===== src/Datapath/Rewrite/Sums.antt =====
-- One's complement sums of a packet's 16-bit words, before and after the rewriting.
use xdp_nat_forward.Base.{ℕ, zero, suc, ◌+◌, ◌*◌, ◌/◌, ◌%◌, ◌^◌, ◌≤◌, ◌<◌, ◌≡◌, arith, refl, ap}
use xdp_nat_forward.Datapath.Packet.{Mem, load, swap16, swap32}
use xdp_nat_forward.Datapath.Packet.Laws.{IsBytes, swap16-lt, swap32-lt}
use xdp_nat_forward.Datapath.Session.{Flow}
use xdp_nat_forward.Datapath.Checksum.{update_csum_16, update_csum_32}
use xdp_nat_forward.Datapath.Checksum.Laws.{update_csum_16_lem, update_csum_32_lem}
use xdp_nat_forward.Datapath.Rewrite.{Target, addresses_csum, flow_csum}
use xdp_nat_forward.Datapath.Rewrite.Fields.{Fits}

-- The word at an offset, as a number in host byte order.
abbrev pub word : ℕ → Mem → ℕ
word o m = swap16 (load 2 o m)

-- The sum of `n` words from an offset on.
unfoldable pub word_sum : ℕ → ℕ → Mem → ℕ
word_sum zero o m = 0
word_sum (suc n) o m = word o m + word_sum n (o + 2) m

pub word_sum_cong :
    (n o : ℕ) (m m' : Mem)
    → ((i : ℕ) → o ≤ i → i + 2 ≤ o + 2 * n → load 2 i m ≡ load 2 i m')
    → word_sum n o m ≡ word_sum n o m'
unfolding word_sum
word_sum_cong zero o m m' h = refl
word_sum_cong (suc n) o m m' h = omega (
  arith,
  ap swap16 (h o (omega arith) (omega arith)),
  word_sum_cong n (o + 2) m m' (λ i a b. h i (omega arith) (omega arith)),
)

pub word_sum-add :
    (k n o : ℕ) (m : Mem) → word_sum (k + n) o m ≡ word_sum k o m + word_sum n (o + 2 * k) m
unfolding word_sum
word_sum-add zero n o m =
    let none_left : 0 + n ≡ n = omega arith in
    let here : o + 2 * 0 ≡ o = omega arith in rw (none_left, here) (omega arith)
word_sum-add (suc k) n o m =
    let one_left : suc k + n ≡ suc (k + n) = omega arith in
    let next : o + 2 * suc k ≡ o + 2 + 2 * k = omega arith in
    rw (one_left, next) (omega (arith, word_sum-add k n (o + 2) m))

-- The halves of an address in host byte order are its two words.
pub address_halves :
    (o : ℕ) (m : Mem)
    → IsBytes m
    → (swap32 (load 4 o m) / 65536 ≡ word o m) × (swap32 (load 4 o m) % 65536 ≡ word (o + 2) m)
unfolding swap32 swap16 load
address_halves o m h =
    let low : o + 2 ≡ suc (suc o) = omega arith in
    rw low (omega (arith, h o, h (suc o), h (suc (suc o)), h (suc (suc (suc o)))))

-- Where the checksum at an offset covers the addresses, the update keeps the sum.
pub addresses_csum_lem :
    (old : Flow) (new : Target) (csum : ℕ)
    → csum < 65536
    → old.src_ip < 2 ^ 32
    → old.dst_ip < 2 ^ 32
    → Fits new
    → let halves = λ (ip : ℕ). swap32 ip / 65536 + swap32 ip % 65536 in
      (addresses_csum old new csum < 65536)
      × ((addresses_csum old new csum + halves new.src_ip + halves new.dst_ip) % 65535
          ≡ (csum + halves old.src_ip + halves old.dst_ip) % 65535)
addresses_csum_lem old new csum bound s d f =
    let first =
      update_csum_32_lem csum (swap32 old.src_ip) (swap32 new.src_ip) bound (swap32-lt _ s)
        (swap32-lt _ f.src_ip_lt) in
    let second =
      update_csum_32_lem (update_csum_32 csum (swap32 old.src_ip) (swap32 new.src_ip))
        (swap32 old.dst_ip) (swap32 new.dst_ip) (first.0) (swap32-lt _ d)
        (swap32-lt _ f.dst_ip_lt) in
    (second.0, omega (arith, first.1, second.1))

pub flow_csum_lem :
    (old : Flow) (new : Target) (csum : ℕ)
    → csum < 65536
    → old.src_ip < 2 ^ 32
    → old.dst_ip < 2 ^ 32
    → old.src_port < 65536
    → old.dst_port < 65536
    → Fits new
    → let halves = λ (ip : ℕ). swap32 ip / 65536 + swap32 ip % 65536 in
      (flow_csum old new csum < 65536)
      × ((flow_csum old new csum
              + halves new.src_ip
              + halves new.dst_ip
              + swap16 new.src_port
              + swap16 new.dst_port)
            % 65535
          ≡ (csum
              + halves old.src_ip
              + halves old.dst_ip
              + swap16 old.src_port
              + swap16 old.dst_port)
            % 65535)
flow_csum_lem old new csum bound s d p q f =
    let first = addresses_csum_lem old new csum bound s d f in
    let second =
      update_csum_16_lem (addresses_csum old new csum) (swap16 old.src_port) (swap16 new.src_port)
        (first.0) (swap16-lt _ p) (swap16-lt _ f.src_port_lt) in
    let third =
      update_csum_16_lem
        (update_csum_16 (addresses_csum old new csum) (swap16 old.src_port) (swap16 new.src_port))
        (swap16 old.dst_port) (swap16 new.dst_port) (second.0) (swap16-lt _ q)
        (swap16-lt _ f.dst_port_lt) in
    (third.0, omega (arith, first.1, second.1, third.1))
