-- ===== src/Daemon/Host.antt =====
-- forward/src/utils.rs: the search for a target's MAC address. What the kernel's files hold is an
-- argument: each reading of /proc/net/arp may find another table. The target is little-endian.
pub mod Laws
use mathlib.Core.Option
use xdp_nat_forward.Base.{
  ℕ, ◌/◌, ◌%◌, ◌^◌, ◌==◌, ltb, leb, Bool, true, false, not, ◌&&◌, ◌||◌, Option, none, some, List,
  [], ◌∷◌, ◌++◌, map, length, if◌then◌else◌,
}
use xdp_nat_forward.Console.Text.{codes, text_eq, show}
use xdp_nat_forward.Daemon.Words.{split, split_whitespace, join, from_str_radix}

-- All values, when none is missing.
unfoldable pub all_some : List (Option ℕ) → Option (List ℕ)
all_some [] = some []
all_some (none ∷ os) = none
all_some (some a ∷ os) = Option.map (λ rest. a ∷ rest) (all_some os)

unfoldable pub bytes_of : List (List ℕ) → Option (List ℕ)
bytes_of parts = if length parts == 6 then all_some (map (from_str_radix 256 16) parts) else none

unfoldable pub parse_mac : List ℕ → Option (List ℕ)
parse_mac mac_str = bytes_of (split (λ c. c == b':') mac_str)

-- A line of the file, or `none` where reading it fails. The file may also fail to open.
abbrev pub File : Type 0
File = Option (List (Option (List ℕ)))

abbrev pub skip_first {ℓ} : {A : Type ℓ} → List A → List A
skip_first [] = []
skip_first (x ∷ xs) = xs

-- What a line contributes: nothing, or the function's result.
pub data Found (A : Type 0) : Type 0 where
  next_line : Found A
  result : Option A → Found A

unfoldable pub arp_parts : List ℕ → List (List ℕ) → Found (List ℕ)
arp_parts ip_str (ip ∷ hw ∷ flags ∷ mac_str ∷ rest) =
    if text_eq ip ip_str && not (text_eq mac_str (codes "00:00:00:00:00:00"))
    then result (parse_mac mac_str)
    else next_line
arp_parts ip_str _ = next_line

unfoldable pub search {ℓ} : {A : Type 0} {L : Type ℓ} → (L → Found A) → List (Option L) → Option A
search look [] = none
search look (none ∷ lines) = none
search look (some line ∷ lines) = elim (look line) [ next_line ↦ search look lines | result r ↦ r ]

unfoldable pub find_in_file : {A : Type 0} → (List ℕ → Found A) → File → Option A
find_in_file look none = none
find_in_file look (some lines) = search look (skip_first lines)

unfoldable pub find_mac_in_arp : List ℕ → File → Option (List ℕ)
find_mac_in_arp ip_str file = find_in_file (λ line. arp_parts ip_str (split_whitespace line)) file

-- `to_ne_bytes` of a u32, printed.
unfoldable pub gateway_text : ℕ → List ℕ
gateway_text gw =
    join b'.' (
      show (gw % 256)
      ∷ show (gw / 2 ^ 8 % 256)
      ∷ show (gw / 2 ^ 16 % 256)
      ∷ show (gw / 2 ^ 24)
      ∷ [])

abbrev pub gateway_of : Option ℕ → Found (List ℕ)
gateway_of none = next_line
gateway_of (some gw) = if gw == 0 then next_line else result (some (gateway_text gw))

unfoldable pub route_parts : List (List ℕ) → Found (List ℕ)
route_parts (iface ∷ destination ∷ gw_hex ∷ rest) =
    if text_eq destination (codes "00000000")
    then gateway_of (from_str_radix (2 ^ 32) 16 gw_hex)
    else next_line
route_parts _ = next_line

unfoldable pub get_gateway_ip : File → Option (List ℕ)
get_gateway_ip file = find_in_file (λ line. route_parts (split_whitespace line)) file

-- The kernel's files during one call of `resolve_ip_mac`: /proc/net/arp as its four readings find it,
-- the second and the fourth after a datagram to the address looked for, and /proc/net/route.
pub record Network : Type 0 where
  pub arp : File
  pub arp_triggered : File
  pub route : File
  pub arp_gateway : File
  pub arp_gateway_triggered : File

abbrev pub or_else {ℓ} : {A : Type ℓ} → Option A → Option A → Option A
or_else none o = o
or_else (some a) o = some a

unfoldable pub resolve_gateway : Network → Option (List ℕ) → Option (List ℕ)
resolve_gateway net none = none
resolve_gateway net (some gw_ip) =
    or_else (find_mac_in_arp gw_ip net.arp_gateway)
      (find_mac_in_arp gw_ip net.arp_gateway_triggered)

unfoldable pub resolve_ip_mac : Network → List ℕ → Option (List ℕ)
resolve_ip_mac net ip_str = or_else (find_mac_in_arp ip_str net.arp) (
    or_else (find_mac_in_arp ip_str net.arp_triggered)
      (resolve_gateway net (get_gateway_ip net.route)))
