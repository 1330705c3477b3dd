-- ===== src/Daemon/Rules/Words.antt =====
-- Protocols, addresses and MAC addresses between their texts and the fields of the map.
use xdp_nat_forward.Base.{
  ℕ, zero, suc, ◌^◌, ◌<◌, ◌≡◌, ◌∙◌, ap, sym, refl, ltb, ◌||◌, ◌&&◌, arith, Option, none, some, List,
  [], ◌∷◌, All, length, ◌⊎◌, inl, inr, ◌==◌, if◌then◌else◌, Bool-cases, some_injective,
  none_not_some,
}
use xdp_nat_forward.Console.Text.{codes, text_eq, is_empty}
use xdp_nat_forward.Datapath.Packet.{swap16, swap32}
use xdp_nat_forward.Datapath.Packet.Laws.{swap16-lt, swap32-lt}
use xdp_nat_forward.Datapath.Session.Typed.{RuleFits}
use xdp_nat_forward.Daemon.Words.{
  to_lowercase, parse_ipv4, split, ip_of_pieces, ip_of_octets, parse_octet, below, read_all,
  starts_with_zero,
}
use xdp_nat_forward.Daemon.Host.Laws.{IsMac}
use xdp_nat_forward.Daemon.Rules.{parse_proto, mac_number, mac_bytes, rule_val}

-- A protocol of a rule: TCP or UDP.
abbrev pub IsProto : ℕ → Type 0
IsProto p = (p ≡ 6) ⊎ (p ≡ 17)

pub parse_proto-IsProto : (s : List ℕ) (p : ℕ) → parse_proto s ≡ some p → IsProto p
unfolding parse_proto
parse_proto-IsProto s p h = elim (Bool-cases (text_eq (to_lowercase s) (codes "tcp"))) [
  | inl e ↦ inl (sym (some_injective (rw e at h)))
  | inr e ↦ elim (Bool-cases (text_eq (to_lowercase s) (codes "udp"))) [
    | inl k ↦ inr (sym (some_injective (rw (e, k) at h)))
    | inr k ↦ absurd (none_not_some (rw (e, k) at h))
  ]
]

parse_tcp : parse_proto (codes "tcp") ≡ some 6
unfolding parse_proto to_lowercase
parse_tcp = refl

parse_udp : parse_proto (codes "udp") ≡ some 17
unfolding parse_proto to_lowercase
parse_udp = refl

-- The text of a stored rule's protocol is read as the protocol.
pub parse_proto-stored :
    (p : ℕ) → IsProto p → parse_proto (if p == 6 then codes "tcp" else codes "udp") ≡ some p
parse_proto-stored p (inl e) = rw e parse_tcp
parse_proto-stored p (inr e) = rw e parse_udp

pub swap32-swap32 : (v : ℕ) → v < 2 ^ 32 → swap32 (swap32 v) ≡ v
unfolding swap32 swap16
swap32-swap32 v h = omega arith

pub mac_bytes-mac_number :
    (mac : List ℕ) (n : ℕ)
    → length mac ≡ n
    → All (λ b. b < 256) mac
    → mac_bytes n (mac_number mac) ≡ mac
unfolding mac_bytes mac_number
mac_bytes-mac_number [] zero e h = refl
mac_bytes-mac_number [] (suc n) e h = absurd (omega (arith, e))
mac_bytes-mac_number (b ∷ bs) zero e h = absurd (omega (arith, e))
mac_bytes-mac_number (b ∷ bs) (suc n) e h =
    cons_lem (omega (arith, h.0))
      (ap (mac_bytes n) (omega (arith, h.0)) ∙ mac_bytes-mac_number bs n (omega (arith, e)) h.1)
  where
    cons_lem : {x y : ℕ} {xs ys : List ℕ} → x ≡ y → xs ≡ ys → x ∷ xs ≡ y ∷ ys
    cons_lem p q = cc

mac_number-lt : (mac : List ℕ) → All (λ b. b < 256) mac → mac_number mac < 256 ^ length mac
unfolding mac_number
mac_number-lt [] h = omega arith
mac_number-lt (b ∷ bs) h = grind (arith, h.0, mac_number-lt bs h.1)

octet-lt : (limit n : ℕ) (o : Option ℕ) → below limit o ≡ some n → n < limit
octet-lt limit n none h = absurd (none_not_some h)
octet-lt limit n (some m) h = ground (arith, h)

pub parse_octet-lt : (s : List ℕ) (n : ℕ) → parse_octet s ≡ some n → n < 256
unfolding parse_octet
parse_octet-lt s n h =
    elim (Bool-cases (is_empty s || ltb 3 (length s) || (starts_with_zero s && ltb 1 (length s)))) [
      | inl e ↦ absurd (none_not_some (rw e at h))
      | inr e ↦ octet-lt 256 n (read_all 10 0 s) (rw e at h)
    ]

octets-lt :
    (a b c d : Option ℕ) (ip : ℕ)
    → ((n : ℕ) → a ≡ some n → n < 256)
    → ((n : ℕ) → b ≡ some n → n < 256)
    → ((n : ℕ) → c ≡ some n → n < 256)
    → ((n : ℕ) → d ≡ some n → n < 256)
    → ip_of_octets a b c d ≡ some ip
    → ip < 2 ^ 32
octets-lt none b c d ip ha hb hc hd h = absurd (none_not_some h)
octets-lt (some a) none c d ip ha hb hc hd h = absurd (none_not_some h)
octets-lt (some a) (some b) none d ip ha hb hc hd h = absurd (none_not_some h)
octets-lt (some a) (some b) (some c) none ip ha hb hc hd h = absurd (none_not_some h)
octets-lt (some a) (some b) (some c) (some d) ip ha hb hc hd h =
    omega (arith, ha a refl, hb b refl, hc c refl, hd d refl, some_injective h)

pieces-lt : (xs : List (List ℕ)) (ip : ℕ) → ip_of_pieces xs ≡ some ip → ip < 2 ^ 32
pieces-lt [] ip h = absurd (none_not_some h)
pieces-lt (a ∷ []) ip h = absurd (none_not_some h)
pieces-lt (a ∷ b ∷ []) ip h = absurd (none_not_some h)
pieces-lt (a ∷ b ∷ c ∷ []) ip h = absurd (none_not_some h)
pieces-lt (a ∷ b ∷ c ∷ d ∷ []) ip h =
    octets-lt _ _ _ _ ip (parse_octet-lt a) (parse_octet-lt b) (parse_octet-lt c) (parse_octet-lt d)
      h
pieces-lt (a ∷ b ∷ c ∷ d ∷ e ∷ xs) ip h = absurd (none_not_some h)

pub parse_ipv4-lt : (s : List ℕ) (ip : ℕ) → parse_ipv4 s ≡ some ip → ip < 2 ^ 32
unfolding parse_ipv4
parse_ipv4-lt s ip = pieces-lt (split (λ c. c == b'.') s) ip

-- What a rule is stored as fits the fields of the map.
pub rule_val-RuleFits :
    (ip forward_port : ℕ) (mac : List ℕ)
    → ip < 2 ^ 32
    → forward_port < 65536
    → IsMac mac
    → RuleFits (rule_val ip forward_port mac)
rule_val-RuleFits ip forward_port mac h k m = record {
  ip_lt = swap32-lt ip h;
  port_lt = swap16-lt forward_port k;
  mac_lt = let small = mac_number-lt mac m.bytes in omega (arith, (rw m.six at small));
}
