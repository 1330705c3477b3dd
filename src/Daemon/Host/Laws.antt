-- ===== src/Daemon/Host/Laws.antt =====
-- forward/src/utils.rs: MAC addresses as texts and as bytes.
use xdp_nat_forward.Base.{
  ℕ, ◌<◌, ◌≡◌, ◌∙◌, refl, arith, not, ◌&&◌, Option, none, some, List, [], ◌∷◌, map, All, length,
  Option-cases, Bool-cases, inl, inr, ◌==◌, ==_iff, ap, some_injective, none_not_some,
}
use xdp_nat_forward.Console.Text.{codes, text_eq, is_empty}
use xdp_nat_forward.Daemon.Words.{
  split, split_whitespace, from_str_radix, show_hex2, show_mac, below, read_all, without_plus,
}
use xdp_nat_forward.Daemon.Words.Pieces.{IsPlain, split-join}
use xdp_nat_forward.Daemon.Words.Addresses.{from_str_radix-show_hex2, hex2-IsPlain}
use xdp_nat_forward.Daemon.Host.{
  all_some, bytes_of, parse_mac, File, skip_first, Found, next_line, result, arp_parts, search,
  find_in_file, find_mac_in_arp, get_gateway_ip, Network, or_else, resolve_gateway, resolve_ip_mac,
}

-- A MAC address: six bytes.
pub record IsMac (mac : List ℕ) : Type 0 where
  pub six : length mac ≡ 6
  pub bytes : All (λ b. b < 256) mac

length-map : (f : ℕ → List ℕ) (xs : List ℕ) → length (map f xs) ≡ length xs
length-map f [] = refl
length-map f (x ∷ xs) = omega (arith, length-map f xs)

hexes-IsPlain :
    (mac : List ℕ) → All (λ b. b < 256) mac → All (IsPlain (λ c. c == b':')) (map show_hex2 mac)
hexes-IsPlain [] h = tt
hexes-IsPlain (b ∷ mac) h = (hex2-IsPlain b h.0, hexes-IsPlain mac h.1)

all_some-hexes :
    (mac : List ℕ)
    → All (λ b. b < 256) mac
    → all_some (map (from_str_radix 256 16) (map show_hex2 mac)) ≡ some mac
unfolding all_some
all_some-hexes [] h = refl
all_some-hexes (b ∷ mac) h =
    rw (from_str_radix-show_hex2 b h.0, all_some, all_some-hexes mac h.1) refl

-- A MAC address is read back from its printed form.
pub parse_mac-show_mac : (mac : List ℕ) → IsMac mac → parse_mac (show_mac mac) ≡ some mac
unfolding parse_mac show_mac bytes_of
parse_mac-show_mac [] h = absurd (omega (arith, h.six))
parse_mac-show_mac (b ∷ mac) h =
    rw
      (split-join (λ x. x == b':') b':' (show_hex2 b) (map show_hex2 mac) refl
        (hexes-IsPlain (b ∷ mac) h.bytes))
      (rw (length-map show_hex2 (b ∷ mac), h.six) (all_some-hexes (b ∷ mac) h.bytes))

below-lt : (limit n : ℕ) (o : Option ℕ) → below limit o ≡ some n → n < limit
below-lt limit n none h = absurd (cc)
below-lt limit n (some m) h = ground (arith, h)

pub from_str_radix-lt :
    (limit radix n : ℕ) (s : List ℕ) → from_str_radix limit radix s ≡ some n → n < limit
unfolding from_str_radix
from_str_radix-lt limit radix n s h = elim (Bool-cases (is_empty s)) [
  | inl e ↦ absurd (none_not_some (rw e at h))
  | inr e ↦ below-lt limit n (read_all radix 0 (without_plus s)) (rw e at h)
]

all_some-bytes :
    (parts : List (List ℕ)) (mac : List ℕ)
    → all_some (map (from_str_radix 256 16) parts) ≡ some mac
    → (length mac ≡ length parts) × All (λ b. b < 256) mac
unfolding all_some
all_some-bytes [] mac h = let e : [] ≡ mac = some_injective h in rw (← e) (refl, tt)
all_some-bytes (x ∷ parts) mac h = elim (Option-cases (from_str_radix 256 16 x)) [
  | inl e ↦ absurd (none_not_some (rw (e, all_some) at h))
  | inr (b, e) ↦ elim (Option-cases (all_some (map (from_str_radix 256 16) parts))) [
    | inl k ↦ absurd (none_not_some (rw (e, all_some, k) at h))
    | inr (rest, k) ↦
        let whole : b ∷ rest ≡ mac = some_injective (rw (e, all_some, k) at h) in
        let (n, small) = all_some-bytes parts rest k in
        rw (← whole) (omega (arith, n), (from_str_radix-lt 256 16 b x e, small))
  ]
]

pub parse_mac-IsMac : (s mac : List ℕ) → parse_mac s ≡ some mac → IsMac mac
unfolding parse_mac bytes_of
parse_mac-IsMac s mac h = elim (Bool-cases (length (split (λ c. c == b':') s) == 6)) [
  | inl e ↦
      let (n, small) = all_some-bytes (split (λ c. c == b':') s) mac (rw e at h) in
      record { six = n ∙ (==_iff _ 6).0 e; bytes = small }
  | inr e ↦ absurd (none_not_some (rw e at h))
]

-- What is found is what some line contributes.
module _ {A L : Type 0} (P : A → Type 0) (look : L → Found A)
    (good : (line : L) (a : A) → look line ≡ result (some a) → P a) where
  search_lem : (lines : List (Option L)) (a : A) → search look lines ≡ some a → P a
  unfolding search
  search_lem [] a h = absurd (none_not_some h)
  search_lem (none ∷ lines) a h = absurd (none_not_some h)
  search_lem (some line ∷ lines) a h = go (search_lem lines a) (look line) refl
    where
      go : (search look lines ≡ some a → P a) → (r : Found A) → look line ≡ r → P a
      go later next_line e = later (rw (e, search) at h)
      go later (result o) e = good line a (e ∙ ap (λ x. result x) (rw (e, search) at h))

nothing_found : {A : Type 0} {o : Option A} → next_line ≡ result o → ⊥
nothing_found h = absurd (cc)

result_injective : {A : Type 0} {o p : Option A} → result o ≡ result p → o ≡ p
result_injective h = cc

arp_parts-IsMac :
    (ip_str : List ℕ) (parts : List (List ℕ)) (mac : List ℕ)
    → arp_parts ip_str parts ≡ result (some mac)
    → IsMac mac
unfolding arp_parts
arp_parts-IsMac ip_str [] mac h = absurd (nothing_found h)
arp_parts-IsMac ip_str (a ∷ []) mac h = absurd (nothing_found h)
arp_parts-IsMac ip_str (a ∷ b ∷ []) mac h = absurd (nothing_found h)
arp_parts-IsMac ip_str (a ∷ b ∷ c ∷ []) mac h = absurd (nothing_found h)
arp_parts-IsMac ip_str (a ∷ b ∷ c ∷ d ∷ rest) mac h =
    elim (Bool-cases (text_eq a ip_str && not (text_eq d (codes "00:00:00:00:00:00")))) [
      | inl e ↦ parse_mac-IsMac d mac (result_injective (rw e at h))
      | inr e ↦ absurd (nothing_found (rw e at h))
    ]

find_mac_in_arp-IsMac :
    (ip_str mac : List ℕ) (file : File) → find_mac_in_arp ip_str file ≡ some mac → IsMac mac
unfolding find_mac_in_arp find_in_file
find_mac_in_arp-IsMac ip_str mac none h = absurd (none_not_some h)
find_mac_in_arp-IsMac ip_str mac (some lines) h =
    search_lem IsMac (λ line. arp_parts ip_str (split_whitespace line))
      (λ line. arp_parts-IsMac ip_str (split_whitespace line)) (skip_first lines) mac h

or_else-IsMac :
    (o p : Option (List ℕ)) (mac : List ℕ)
    → ((m : List ℕ) → o ≡ some m → IsMac m)
    → ((m : List ℕ) → p ≡ some m → IsMac m)
    → or_else o p ≡ some mac
    → IsMac mac
or_else-IsMac none p mac a b h = b mac h
or_else-IsMac (some m) p mac a b h = a mac h

-- A resolved MAC address is six bytes.
pub resolve_ip_mac-IsMac :
    (net : Network) (ip_str mac : List ℕ) → resolve_ip_mac net ip_str ≡ some mac → IsMac mac
unfolding resolve_ip_mac resolve_gateway
resolve_ip_mac-IsMac net ip_str mac =
    or_else-IsMac _ _ mac (λ m. find_mac_in_arp-IsMac ip_str m net.arp)
      (λ m.
        or_else-IsMac _ _ m (λ n. find_mac_in_arp-IsMac ip_str n net.arp_triggered)
          (λ n. gateway_lem (get_gateway_ip net.route) n))
  where
    gateway_lem : (gw : Option (List ℕ)) (m : List ℕ) → resolve_gateway net gw ≡ some m → IsMac m
    gateway_lem none m h = absurd (none_not_some h)
    gateway_lem (some ip) m h =
        or_else-IsMac _ _ m (λ n. find_mac_in_arp-IsMac ip n net.arp_gateway)
          (λ n. find_mac_in_arp-IsMac ip n net.arp_gateway_triggered) h
