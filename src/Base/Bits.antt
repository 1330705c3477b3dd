-- ===== src/Base/Bits.antt =====
-- When an exclusive or, and an or, of two numbers is 0.
use Prim.Native.Nat.{
  ℕ, zero, suc, ◌/◌, ◌%◌, ◌≤◌, max, bit_xor, bit_or, digits, differ, bit_xor-bitwise,
  bit_or-bitwise,
}
use mathlib.Core.Path.{◌≡◌, refl, sym, ◌∙◌}
use native.Mathlib.Omega.{arith}

abbrev xor_digits : ℕ → ℕ → ℕ → ℕ
xor_digits n a b = digits (λ b. b) differ n a b

differ_zero : (x y : ℕ) → differ x y ≡ 0 → x ≡ y
differ_zero zero y h = sym h
differ_zero (suc x) zero h = h
differ_zero (suc x) (suc y) h = omega (arith, differ_zero x y h)

differ_self : (x : ℕ) → differ x x ≡ 0
differ_self zero = refl
differ_self (suc x) = differ_self x

xor_digits_zero : (n a b : ℕ) → a ≤ n → xor_digits n a b ≡ 0 → a ≡ b
xor_digits_zero zero zero b h e = sym e
xor_digits_zero zero (suc a) b h e = absurd (omega (arith, h))
xor_digits_zero (suc n) zero b h e = sym e
xor_digits_zero (suc n) (suc a) b h e = omega (
  arith,
  xor_digits_zero n (suc a / 2) (b / 2) (omega (arith, h)) (omega (arith, e)),
  differ_zero (suc a % 2) (b % 2) (omega (arith, e)),
)

xor_digits_self : (n a : ℕ) → a ≤ n → xor_digits n a a ≡ 0
xor_digits_self zero zero h = refl
xor_digits_self zero (suc a) h = absurd (omega (arith, h))
xor_digits_self (suc n) zero h = refl
xor_digits_self (suc n) (suc a) h =
    omega (arith, xor_digits_self n (suc a / 2) (omega (arith, h)), differ_self (suc a % 2))

pub bit_xor-zero : (a b : ℕ) → bit_xor a b ≡ 0 → a ≡ b
bit_xor-zero a b h = xor_digits_zero a a b (omega arith) (sym (λ i. bit_xor-bitwise a b i) ∙ h)

pub bit_xor_self : (a : ℕ) → bit_xor a a ≡ 0
bit_xor_self a = (λ i. bit_xor-bitwise a a i) ∙ xor_digits_self a a (omega arith)

or_digits_zero : (n a b : ℕ) → a ≤ n → digits (λ b. b) max n a b ≡ 0 → (a ≡ 0) × (b ≡ 0)
or_digits_zero zero zero b h e = (refl, e)
or_digits_zero zero (suc a) b h e = absurd (omega (arith, h))
or_digits_zero (suc n) zero b h e = (refl, e)
or_digits_zero (suc n) (suc a) b h e =
    let (p, q) = or_digits_zero n (suc a / 2) (b / 2) (omega (arith, h)) (omega (arith, e)) in
    (omega (arith, p, e), omega (arith, p, q, e))

pub bit_or-zero : (a b : ℕ) → bit_or a b ≡ 0 → (a ≡ 0) × (b ≡ 0)
bit_or-zero a b h = or_digits_zero a a b (omega arith) (sym (λ i. bit_or-bitwise a b i) ∙ h)
