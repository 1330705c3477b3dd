-- ===== src/Daemon/Words/Numbers.antt =====
-- The printed forms of numbers.
use xdp_nat_forward.Base.{ℕ, ◌+◌, ◌-◌, ◌*◌, ◌<◌, ◌≡◌, refl, arith, some, List, [], ◌∷◌, All, lt→ltb}
use xdp_nat_forward.Console.Text.{show, read_digits}
use xdp_nat_forward.Console.Text.Laws.{
  IsDigit, show-All, show-nonempty, digit_value-IsDigit, read_digits-IsDigit, read_digits-show,
}
use xdp_nat_forward.Daemon.Words.{read_all, without_plus, from_str_radix}

read_all-digits : (n : ℕ) (s : List ℕ) → All IsDigit s → read_all 10 n s ≡ some (read_digits 10 n s)
unfolding read_all read_digits
read_all-digits n [] h = refl
read_all-digits n (c ∷ s) h =
    rw (read_all, digit_value-IsDigit c h.0, read_digits-IsDigit n c s h.0)
      (read_all-digits (n * 10 + (c - 48)) s h.1)

without_plus-digits : (s : List ℕ) → All IsDigit s → without_plus s ≡ s
without_plus-digits [] h = refl
without_plus-digits (c ∷ []) h = refl
without_plus-digits (c ∷ d ∷ s) h = ground (arith, h.0.0, h.0.1)

pub from_str_radix-show : (limit n : ℕ) → n < limit → from_str_radix limit 10 (show n) ≡ some n
unfolding from_str_radix
from_str_radix-show limit n h =
    rw
      (
        show-nonempty n,
        without_plus-digits (show n) (show-All n),
        read_all-digits 0 (show n) (show-All n),
        read_digits-show n,
        lt→ltb n limit h,
      )
      refl
