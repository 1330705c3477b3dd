-- ===== src/Datapath/Checksum/Laws.antt =====
-- The incremental update keeps a one's complement sum.
use xdp_nat_forward.Base.{ℕ, ◌+◌, ◌*◌, ◌/◌, ◌%◌, ◌^◌, ◌<◌, ◌≡◌, arith}
use xdp_nat_forward.Datapath.Checksum.{
  not16, add32, fold_rounds, csum_fold, update_csum_16, update_csum_32,
}

-- One round keeps the sum modulo 65535.
round_mod : (s : ℕ) → s < 2 * 65536 * 65536 → add32 (s % 65536) (s / 65536) % 65535 ≡ s % 65535
round_mod s h = omega arith

fold_rounds_lem :
    (s : ℕ) → s < 3 * 65536 → (fold_rounds 4 s < 65536) × (fold_rounds 4 s % 65535 ≡ s % 65535)
unfolding fold_rounds
fold_rounds_lem s h = ground arith

csum_fold_lem : (s : ℕ) → s < 3 * 65536 → (csum_fold s < 65536) × ((csum_fold s + s) % 65535 ≡ 0)
unfolding csum_fold
csum_fold_lem s h = omega (arith, (fold_rounds_lem s h).0, (fold_rounds_lem s h).1)

-- The update is a u16, and it keeps the one's complement sum of the checksum and the value
-- that it covers, for any u16 checksum, old value and new value.
pub update_csum_16_lem :
    (c m n : ℕ)
    → c < 65536
    → m < 65536
    → n < 65536
    → (update_csum_16 c m n < 65536) × ((update_csum_16 c m n + n) % 65535 ≡ (c + m) % 65535)
unfolding update_csum_16
update_csum_16_lem c m n hc hm hn =
    let s = add32 (add32 (not16 c) (not16 m)) n in
    omega (arith, (csum_fold_lem s (omega arith)).0, (csum_fold_lem s (omega arith)).1)

-- So does the update for a u32, which is covered as its two halves.
pub update_csum_32_lem :
    (c m n : ℕ)
    → c < 65536
    → m < 2 ^ 32
    → n < 2 ^ 32
    → (update_csum_32 c m n < 65536)
      × ((update_csum_32 c m n + n / 65536 + n % 65536) % 65535
          ≡ (c + m / 65536 + m % 65536) % 65535)
unfolding update_csum_32
update_csum_32_lem c m n hc hm hn =
    let (small, high) =
      update_csum_16_lem c (m / 65536) (n / 65536) hc (omega arith) (omega arith) in
    let (lt, low) =
      update_csum_16_lem (update_csum_16 c (m / 65536) (n / 65536)) (m % 65536) (n % 65536) small
        (omega arith) (omega arith) in
    (lt, omega arith)
