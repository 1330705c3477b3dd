-- ===== src/Datapath/Checksum.antt =====
-- forward-ebpf/src/main.rs, the incremental checksum: `csum_fold`, `update_csum_16`,
-- `update_csum_32`. A u16 or u32 is a number; `!x` of a u16 is 65535 - x, `x >> 16` is
-- x / 65536 and `x & 0xffff` is x % 65536.
pub mod Laws
use xdp_nat_forward.Base.{ℕ, zero, suc, ◌+◌, ◌-◌, ◌/◌, ◌%◌, ◌^◌, ◌==◌, if◌then◌else◌}

abbrev pub not16 : ℕ → ℕ
not16 x = 65535 - x

-- u32 addition; a release build wraps.
abbrev pub add32 : ℕ → ℕ → ℕ
add32 a b = (a + b) % 2 ^ 32

-- The `for _ in 0..4` loop, with the rounds left.
unfoldable pub fold_rounds : ℕ → ℕ → ℕ
fold_rounds zero sum = sum
fold_rounds (suc n) sum =
    let next = fold_rounds n (add32 (sum % 65536) (sum / 65536)) in
    if sum / 65536 == 0 then sum else next

unfoldable pub csum_fold : ℕ → ℕ
csum_fold sum = not16 (fold_rounds 4 sum % 65536)

unfoldable pub update_csum_16 : ℕ → ℕ → ℕ → ℕ
update_csum_16 old_csum old_val new_val =
    csum_fold (add32 (add32 (not16 old_csum) (not16 old_val)) new_val)

unfoldable pub update_csum_32 : ℕ → ℕ → ℕ → ℕ
update_csum_32 old_csum old_val new_val =
    update_csum_16 (update_csum_16 old_csum (old_val / 65536) (new_val / 65536)) (old_val % 65536)
      (new_val % 65536)
