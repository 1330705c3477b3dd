-- ===== src/Console/Text/Laws.antt =====
-- Strings compare as their code units do, a printed number is read back.
use xdp_nat_forward.Base.{
  ℕ, zero, suc, ◌+◌, ◌-◌, ◌*◌, ◌/◌, ◌%◌, ◌≤◌, ◌<◌, ◌≡◌, ◌∙◌, sym, ap, refl, arith, List, [], ◌∷◌,
  some, true, false, inl, inr, Bool-cases, ltb, All, ◌==◌, ==_iff,
}
use xdp_nat_forward.Console.Text.{
  text_eq, show_digits, show, is_space, trim_start, digit_value, read_digits, read_number,
  read_unsigned, JsInteger, with_sign, read_signed, parse_int, is_empty,
}

pub text_eq_refl : (s : List ℕ) → text_eq s s ≡ true
text_eq_refl [] = refl
text_eq_refl (c ∷ s) = ground (arith, text_eq_refl s)

pub text_eq_lem : (s t : List ℕ) → text_eq s t ≡ true → s ≡ t
text_eq_lem [] [] h = refl
text_eq_lem [] (d ∷ t) h = absurd (cc)
text_eq_lem (c ∷ s) [] h = absurd (cc)
text_eq_lem (c ∷ s) (d ∷ t) h = elim (Bool-cases (c == d)) [
  | inl e ↦ cong2 ((==_iff c d).0 e) (text_eq_lem s t (ground arith))
  | inr e ↦ ground arith
]
  where
    cong2 : {c d : ℕ} {s t : List ℕ} → c ≡ d → s ≡ t → c ∷ s ≡ d ∷ t
    cong2 p q = cc

abbrev pub IsDigit : ℕ → Type 0
IsDigit c = (48 ≤ c) × (c ≤ 57)

pub show_digits-All :
    (fuel n : ℕ) (rest : List ℕ) → All IsDigit rest → All IsDigit (show_digits fuel n rest)
unfolding show_digits
show_digits-All zero n rest h = h
show_digits-All (suc fuel) n rest h = elim (Bool-cases (ltb n 10)) [
  | inl e ↦ rw (e, All) ((ground arith, ground arith), h)
  | inr e ↦
      rw (e, All)
        (show_digits-All fuel (n / 10) ((48 + n % 10) ∷ rest) ((omega arith, omega arith), h))
]

pub show-All : (n : ℕ) → All IsDigit (show n)
unfolding show
show-All n = show_digits-All (suc n) n [] tt

-- A digit of radix ten.
pub digit_value-IsDigit : (c : ℕ) → IsDigit c → digit_value 10 c ≡ some (c - 48)
unfolding digit_value
digit_value-IsDigit c h = ground (arith, h.0, h.1)

pub read_digits-IsDigit :
    (m c : ℕ) (s : List ℕ)
    → IsDigit c
    → read_digits 10 m (c ∷ s) ≡ read_digits 10 (m * 10 + (c - 48)) s
unfolding read_digits
read_digits-IsDigit m c s h = rw (read_digits, digit_value-IsDigit c h) refl

-- Printed digits in front of a text of digits are read as the number.
read_digits-show_digits :
    (fuel n : ℕ) (rest : List ℕ)
    → n < fuel
    → read_digits 10 0 (show_digits fuel n rest) ≡ read_digits 10 n rest
unfolding show_digits
read_digits-show_digits zero n rest h = omega arith
read_digits-show_digits (suc fuel) n rest h = elim (Bool-cases (ltb n 10)) [
  | inl e ↦
      rw (show_digits, e)
        (read_digits-IsDigit 0 (48 + n) rest (ground arith, ground arith)
          ∙ ap (λ x. read_digits 10 x rest) (omega arith))
  | inr e ↦
      rw (show_digits, e)
        (read_digits-show_digits fuel (n / 10) ((48 + n % 10) ∷ rest) (ground arith)
          ∙ (read_digits-IsDigit (n / 10) (48 + n % 10) rest (omega arith, omega arith)
              ∙ ap (λ x. read_digits 10 x rest) (omega arith)))
]

pub read_digits-show : (n : ℕ) → read_digits 10 0 (show n) ≡ n
unfolding show read_digits
read_digits-show n = read_digits-show_digits (suc n) n [] (omega arith)

-- Two numbers that print alike are one.
pub show_injective : (m n : ℕ) → show m ≡ show n → m ≡ n
show_injective m n h = sym (read_digits-show m) ∙ (ap (read_digits 10 0) h ∙ read_digits-show n)

show_digits-after :
    (fuel n c : ℕ) (rest : List ℕ) → is_empty (show_digits fuel n (c ∷ rest)) ≡ false
unfolding show_digits
show_digits-after zero n c rest = refl
show_digits-after (suc fuel) n c rest = elim (Bool-cases (ltb n 10)) [
  | inl e ↦ rw (e, is_empty) refl
  | inr e ↦ rw (e, is_empty) (show_digits-after fuel (n / 10) (48 + n % 10) (c ∷ rest))
]

pub show-nonempty : (n : ℕ) → is_empty (show n) ≡ false
unfolding show show_digits
show-nonempty n = elim (Bool-cases (ltb n 10)) [
  | inl e ↦ rw (e, is_empty) refl
  | inr e ↦ rw (e, is_empty) (show_digits-after n (n / 10) (48 + n % 10) [])
]

digit-not_space : (c : ℕ) → IsDigit c → is_space c ≡ false
digit-not_space c h = ground (arith, h.0, h.1)

read_unsigned-digits :
    (c : ℕ) (s : List ℕ)
    → IsDigit c
    → All IsDigit s
    → read_unsigned (c ∷ s) ≡ read_number 10 (c ∷ s)
unfolding read_unsigned
read_unsigned-digits c [] h k = refl
read_unsigned-digits c (d ∷ s) h k = ground (arith, k.0.0, k.0.1)

read_signed-digits :
    (c : ℕ) (s : List ℕ)
    → IsDigit c
    → All IsDigit s
    → read_signed (c ∷ s) ≡ with_sign false (read_number 10 (c ∷ s))
unfolding read_signed
read_signed-digits c s h k = rw (sym (read_unsigned-digits c s h k)) (ground (arith, h.0, h.1))

parse_int-digits :
    (s : List ℕ)
    → All IsDigit s
    → is_empty s ≡ false
    → parse_int s ≡ some (record { is_negative = false; magnitude = read_digits 10 0 s })
unfolding parse_int trim_start read_number with_sign
parse_int-digits [] h k = absurd (cc)
parse_int-digits (c ∷ s) h k =
    rw
      (
        digit-not_space c h.0,
        read_signed-digits c s h.0 h.1,
        read_number,
        digit_value-IsDigit c h.0,
        read_digits-IsDigit 0 c s h.0,
      )
      (ap (λ x. with_sign false (some (read_digits 10 x s))) (omega arith))

-- `parseInt` reads back every number that the console prints.
pub parse_int-show :
    (n : ℕ) → parse_int (show n) ≡ some (record { is_negative = false; magnitude = n })
parse_int-show n =
    parse_int-digits (show n) (show-All n) (show-nonempty n)
    ∙ ap (λ m. some (integer m)) (read_digits-show n)
  where
    integer : ℕ → JsInteger
    integer m = record { is_negative = false; magnitude = m }
