-- ===== src/Daemon/Words.antt =====
-- The texts of forward/src, with what the code calls of the standard library: `to_lowercase`,
-- `split_whitespace`, `split`, `parse::<u32>`, `u8::from_str_radix`, `parse::<Ipv4Addr>`, and the
-- formats `{}` and `{:02x}`. A text is the list of its characters.
pub mod Numbers
pub mod Pieces
pub mod Addresses
use xdp_nat_forward.Base.{
  ℕ, ◌+◌, ◌-◌, ◌*◌, ◌/◌, ◌%◌, ◌^◌, ◌==◌, ltb, leb, Bool, true, false, not, ◌&&◌, ◌||◌, Option, none,
  some, List, [], ◌∷◌, ◌++◌, map, length, if◌then◌else◌,
}
use xdp_nat_forward.Console.Text.{is_empty, show, digit_value}
use xdp_nat_forward.Console.Sets.{filter}

-- `to_lowercase` of a character; one outside the ASCII range never becomes a letter of "tcp" or
-- "udp", and is kept.
abbrev pub lower : ℕ → ℕ
lower c = if leb b'A' c && leb c b'Z' then c + 32 else c

-- `to_uppercase` of a character. Those outside the ASCII range that become ASCII letters of a command
-- are the dotless i, the long s, the sharp s and the two ligatures of s and t.
unfoldable pub upper : ℕ → List ℕ
upper c =
    if leb b'a' c && leb c b'z'
    then (c - 32) ∷ []
    else if c == 0x131
    then b'I' ∷ []
    else if c == 0x17F
    then b'S' ∷ []
    else if c == 0xDF
    then b'S' ∷ b'S' ∷ []
    else if (c == 0xFB05) || (c == 0xFB06)
    then b'S' ∷ b'T' ∷ []
    else c ∷ []

unfoldable pub to_lowercase : List ℕ → List ℕ
to_lowercase s = map lower s

unfoldable pub to_uppercase : List ℕ → List ℕ
to_uppercase [] = []
to_uppercase (c ∷ s) = upper c ++ to_uppercase s

-- `char::is_whitespace`
unfoldable pub is_whitespace : ℕ → Bool
is_whitespace c =
    (leb 9 c && leb c 13)
    || (c == 32)
    || (c == 0x85)
    || (c == 0xA0)
    || (c == 0x1680)
    || (leb 0x2000 c && leb c 0x200A)
    || (c == 0x2028)
    || (c == 0x2029)
    || (c == 0x202F)
    || (c == 0x205F)
    || (c == 0x3000)

abbrev pub cons_first : ℕ → List (List ℕ) → List (List ℕ)
cons_first c [] = (c ∷ []) ∷ []
cons_first c (x ∷ xs) = (c ∷ x) ∷ xs

-- `s.split(p)`: the pieces between the characters that pass the test.
unfoldable pub split : (ℕ → Bool) → List ℕ → List (List ℕ)
split p [] = [] ∷ []
split p (c ∷ s) = let rest = split p s in if p c then [] ∷ rest else cons_first c rest

unfoldable pub split_whitespace : List ℕ → List (List ℕ)
split_whitespace s = filter (λ x. not (is_empty x)) (split is_whitespace s)

-- The pieces with a character between them.
unfoldable pub join : ℕ → List (List ℕ) → List ℕ
join c [] = []
join c (x ∷ []) = x
join c (x ∷ y ∷ xs) = x ++ (c ∷ join c (y ∷ xs))

-- The value of a text of digits, read after a number; `none` where a character is no digit.
unfoldable pub read_all : ℕ → ℕ → List ℕ → Option ℕ
read_all radix n [] = some n
read_all radix n (c ∷ s) = elim (digit_value radix c) [
  | none ↦ none
  | some d ↦ read_all radix (n * radix + d) s
]

-- A value that the type can hold.
abbrev pub below : ℕ → Option ℕ → Option ℕ
below limit none = none
below limit (some n) = if ltb n limit then some n else none

abbrev pub without_plus : List ℕ → List ℕ
without_plus [] = []
without_plus (c ∷ []) = c ∷ []
without_plus (c ∷ d ∷ s) = if c == b'+' then d ∷ s else c ∷ d ∷ s

-- `from_str_radix` of an unsigned type with `limit` values; `parse` is radix ten.
unfoldable pub from_str_radix : ℕ → ℕ → List ℕ → Option ℕ
from_str_radix limit radix s =
    if is_empty s then none else below limit (read_all radix 0 (without_plus s))

unfoldable pub parse_u16 : List ℕ → Option ℕ
parse_u16 s = from_str_radix (2 ^ 16) 10 s

unfoldable pub parse_u32 : List ℕ → Option ℕ
parse_u32 s = from_str_radix (2 ^ 32) 10 s

unfoldable pub parse_u64 : List ℕ → Option ℕ
parse_u64 s = from_str_radix (2 ^ 64) 10 s

abbrev pub starts_with_zero : List ℕ → Bool
starts_with_zero [] = false
starts_with_zero (c ∷ s) = c == b'0'

-- One number of an address: one to three digits, no zero in front of others, below 256.
unfoldable pub parse_octet : List ℕ → Option ℕ
parse_octet s =
    if is_empty s || ltb 3 (length s) || (starts_with_zero s && ltb 1 (length s))
    then none
    else below 256 (read_all 10 0 s)

abbrev pub ip_of_octets : Option ℕ → Option ℕ → Option ℕ → Option ℕ → Option ℕ
ip_of_octets (some a) (some b) (some c) (some d) = some (((a * 256 + b) * 256 + c) * 256 + d)
ip_of_octets _ _ _ _ = none

abbrev pub ip_of_pieces : List (List ℕ) → Option ℕ
ip_of_pieces (a ∷ b ∷ c ∷ d ∷ []) =
    ip_of_octets (parse_octet a) (parse_octet b) (parse_octet c) (parse_octet d)
ip_of_pieces _ = none

-- `parse::<Ipv4Addr>`; the address is the u32 that `u32::from` makes of it.
unfoldable pub parse_ipv4 : List ℕ → Option ℕ
parse_ipv4 s = ip_of_pieces (split (λ c. c == b'.') s)

unfoldable pub show_ipv4 : ℕ → List ℕ
show_ipv4 ip =
    join b'.' (
      show (ip / 2 ^ 24)
      ∷ show (ip / 2 ^ 16 % 256)
      ∷ show (ip / 2 ^ 8 % 256)
      ∷ show (ip % 256)
      ∷ [])

abbrev pub hex_char : ℕ → ℕ
hex_char d = if ltb d 10 then 48 + d else 87 + d

-- `{:02x}` of a u8.
unfoldable pub show_hex2 : ℕ → List ℕ
show_hex2 b = hex_char (b / 16) ∷ hex_char (b % 16) ∷ []

-- The six bytes with colons between them.
unfoldable pub show_mac : List ℕ → List ℕ
show_mac mac = join b':' (map show_hex2 mac)
