-- ===== src/Daemon/Words/Addresses.antt =====
-- The printed forms of IPv4 addresses and of the bytes of MAC addresses.
use xdp_nat_forward.Base.{
  ℕ, ◌/◌, ◌%◌, ◌^◌, ◌<◌, ◌≡◌, ap, refl, arith, true, some, List, [], ◌∷◌, All, ◌==◌, all_below,
  all_below_lem, holds, holds_lem,
}
use xdp_nat_forward.Console.Text.{show, show_digits, digit_value}
use xdp_nat_forward.Console.Text.Laws.{IsDigit, show-All}
use xdp_nat_forward.Daemon.Words.{
  read_all, from_str_radix, parse_octet, parse_ipv4, show_ipv4, show_hex2,
}
use xdp_nat_forward.Daemon.Words.Pieces.{IsPlain, split-join}

octet_table : all_below 256 (λ n. holds (parse_octet (show n)) n) ≡ true
unfolding all_below parse_octet show show_digits read_all digit_value
octet_table = refl

pub parse_octet-show : (n : ℕ) → n < 256 → parse_octet (show n) ≡ some n
parse_octet-show n h =
    holds_lem (parse_octet (show n)) n
      (all_below_lem 256 (λ x. holds (parse_octet (show x)) x) n octet_table h)

digits-IsPlain : (s : List ℕ) → All IsDigit s → IsPlain (λ c. c == b'.') s
digits-IsPlain [] h = tt
digits-IsPlain (c ∷ s) h = (ground (arith, h.0.0), digits-IsPlain s h.1)

-- An IPv4 address is read back from its printed form.
pub parse_ipv4-show_ipv4 : (ip : ℕ) → ip < 2 ^ 32 → parse_ipv4 (show_ipv4 ip) ≡ some ip
unfolding parse_ipv4 show_ipv4
parse_ipv4-show_ipv4 ip h =
    rw
      (
        split-join (λ c. c == b'.') b'.' (show (ip / 2 ^ 24))
            (show (ip / 2 ^ 16 % 256) ∷ show (ip / 2 ^ 8 % 256) ∷ show (ip % 256) ∷ []) refl
            (
              digits-IsPlain _ (show-All (ip / 2 ^ 24)),
              (
                digits-IsPlain _ (show-All (ip / 2 ^ 16 % 256)),
                (
                  digits-IsPlain _ (show-All (ip / 2 ^ 8 % 256)),
                  (digits-IsPlain _ (show-All (ip % 256)), tt),
                ),
              ),
            ),
        parse_octet-show (ip / 2 ^ 24) (omega arith),
        parse_octet-show (ip / 2 ^ 16 % 256) (omega arith),
        parse_octet-show (ip / 2 ^ 8 % 256) (omega arith),
        parse_octet-show (ip % 256) (omega arith),
      )
      (ap (λ x. some x) (omega arith))

hex_table : all_below 256 (λ b. holds (from_str_radix 256 16 (show_hex2 b)) b) ≡ true
unfolding all_below from_str_radix show_hex2 read_all digit_value
hex_table = refl

pub from_str_radix-show_hex2 : (b : ℕ) → b < 256 → from_str_radix 256 16 (show_hex2 b) ≡ some b
from_str_radix-show_hex2 b h =
    holds_lem (from_str_radix 256 16 (show_hex2 b)) b
      (all_below_lem 256 (λ x. holds (from_str_radix 256 16 (show_hex2 x)) x) b hex_table h)

pub hex2-IsPlain : (b : ℕ) → b < 256 → IsPlain (λ c. c == b':') (show_hex2 b)
unfolding show_hex2
hex2-IsPlain b h = (ground arith, (ground arith, tt))
