-- ===== src/Console/Text.antt =====
-- The texts and numbers of App.tsx: `===` on strings, `${n}` of an integer, `parseInt`. A string is
-- the list of its UTF-16 code units.
pub mod Laws
use Prim.Native.String.{String}
use Prim.Native.Char.{code}
use xdp_nat_forward.Base.{
  ℕ, zero, suc, ◌+◌, ◌-◌, ◌*◌, ◌/◌, ◌%◌, Bool, true, false, not, ◌&&◌, ◌||◌, List, [], ◌∷◌, ◌++◌,
  Option, none, some, ltb, leb, ◌==◌, if◌then◌else◌,
}

-- A literal of the source, which is ASCII.
abbrev pub codes : String → List ℕ
codes String.[] = []
codes (String.◌∷◌ c s) = code c ∷ codes s

abbrev pub text_eq : List ℕ → List ℕ → Bool
text_eq [] [] = true
text_eq [] (d ∷ t) = false
text_eq (c ∷ s) [] = false
text_eq (c ∷ s) (d ∷ t) = (c == d) && text_eq s t

-- A string is falsy when it is empty.
abbrev pub is_empty {ℓ} : {A : Type ℓ} → List A → Bool
is_empty [] = true
is_empty (c ∷ s) = false

-- `s || default`
abbrev pub or_default : List ℕ → List ℕ → List ℕ
or_default [] d = d
or_default (c ∷ s) d = c ∷ s

-- The digits of `n` in front of `rest`. Each round divides by ten, so a fuel above `n` is enough.
unfoldable pub show_digits : ℕ → ℕ → List ℕ → List ℕ
show_digits zero n rest = rest
show_digits (suc fuel) n rest = elim (ltb n 10) [
  | true ↦ (48 + n) ∷ rest
  | false ↦ show_digits fuel (n / 10) ((48 + n % 10) ∷ rest)
]

-- `${n}` of an integer below 10 ^ 21, which the language writes without an exponent.
unfoldable pub show : ℕ → List ℕ
show n = show_digits (suc n) n []

-- The white space that `parseInt` skips: white space and line ends of ECMAScript.
abbrev pub is_space : ℕ → Bool
is_space c =
    (leb 9 c && leb c 13)
    || (c == 32)
    || (c == 160)
    || (c == 5760)
    || (leb 8192 c && leb c 8202)
    || (c == 8232)
    || (c == 8233)
    || (c == 8239)
    || (c == 8287)
    || (c == 12288)
    || (c == 65279)

unfoldable pub trim_start : List ℕ → List ℕ
trim_start [] = []
trim_start (c ∷ s) = let rest = trim_start s in if is_space c then rest else c ∷ s

-- The value of a digit in the radix, if it is one.
unfoldable pub digit_value : ℕ → ℕ → Option ℕ
digit_value radix c =
    if leb 48 c && leb c 57
    then some (c - 48)
    else if (radix == 16) && leb 97 c && leb c 102
    then some (c - 87)
    else if (radix == 16) && leb 65 c && leb c 70
    then some (c - 55)
    else none

-- The longest prefix of digits, read after a number `n`.
unfoldable pub read_digits : ℕ → ℕ → List ℕ → ℕ
read_digits radix n [] = n
read_digits radix n (c ∷ s) = elim (digit_value radix c) [
  | none ↦ n
  | some d ↦ read_digits radix (n * radix + d) s
]

-- At least one digit, else NaN.
unfoldable pub read_number : ℕ → List ℕ → Option ℕ
read_number radix [] = none
read_number radix (c ∷ s) = elim (digit_value radix c) [
  | none ↦ none
  | some d ↦ some (read_digits radix d s)
]

unfoldable pub read_unsigned : List ℕ → Option ℕ
read_unsigned [] = none
read_unsigned (c ∷ []) = read_number 10 (c ∷ [])
read_unsigned (c ∷ d ∷ s) =
    if (c == 48) && ((d == 120) || (d == 88)) then read_number 16 s else read_number 10 (c ∷ d ∷ s)

-- An integer of the language: it has a negative zero.
pub record JsInteger : Type 0 where
  pub is_negative : Bool
  pub magnitude : ℕ

unfoldable pub with_sign : Bool → Option ℕ → Option JsInteger
with_sign b none = none
with_sign b (some n) = some (record { is_negative = b; magnitude = n })

-- A sign in front, or none.
unfoldable pub read_signed : List ℕ → Option JsInteger
read_signed [] = none
read_signed (c ∷ s) =
    if c == 45
    then with_sign true (read_unsigned s)
    else if c == 43
    then with_sign false (read_unsigned s)
    else with_sign false (read_unsigned (c ∷ s))

-- `parseInt(s)`, with `none` for NaN.
unfoldable pub parse_int : List ℕ → Option JsInteger
parse_int s = read_signed (trim_start s)
