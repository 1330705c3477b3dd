-- ===== src/Daemon/Rules.antt =====
-- forward/src/rule.rs: the rules in FORWARD_MAP, the timeouts, and the file that keeps the rules.
pub mod Words
pub mod Table
pub mod Listing
pub mod Restore
pub mod Saved
use xdp_nat_forward.Base.{
  ℕ, zero, suc, ◌+◌, ◌*◌, ◌/◌, ◌%◌, ◌^◌, ◌≡◌, ◌==◌, Bool, true, false, Option, none, some, List, [],
  ◌∷◌, if◌then◌else◌,
}
use xdp_nat_forward.Console.Text.{codes, text_eq}
use xdp_nat_forward.Datapath.Packet.{swap16, swap32}
use xdp_nat_forward.Datapath.Types.{ForwardKey, ForwardVal}
use xdp_nat_forward.Datapath.Maps.{HashMap}
use xdp_nat_forward.Datapath.Maps.Iteration.{Iteration}
use xdp_nat_forward.Daemon.Words.{to_lowercase, parse_ipv4, show_ipv4}
use xdp_nat_forward.Daemon.Host.{Network, resolve_ip_mac}
use xdp_nat_forward.Daemon.Cleanup.{Timeouts}

-- `forward_ip` is the u32 of the address, `forward_mac` its six bytes.
pub record ForwardRule : Type 0 where
  pub proto : ℕ
  pub local_port : ℕ
  pub forward_ip : ℕ
  pub forward_port : ℕ
  pub forward_mac : List ℕ

-- The errors of the functions below, without their causes.
pub data RuleError : Type 0 where
  invalid_protocol : RuleError
  invalid_forward_ip : RuleError
  unresolved_mac : RuleError
  insert_failed : RuleError
  remove_failed : RuleError
  list_failed : RuleError

pub data Result {ℓ} (A : Type ℓ) : Type ℓ where
  ok : A → Result A
  err : RuleError → Result A

unfoldable pub parse_proto : List ℕ → Option ℕ
parse_proto proto_str =
    if text_eq (to_lowercase proto_str) (codes "tcp")
    then some 6
    else if text_eq (to_lowercase proto_str) (codes "udp")
    then some 17
    else none

-- The number that a field of type [u8; 6] holds, and its bytes.
unfoldable pub mac_number : List ℕ → ℕ
mac_number [] = 0
mac_number (b ∷ bs) = b + 256 * mac_number bs

unfoldable pub mac_bytes : ℕ → ℕ → List ℕ
mac_bytes zero v = []
mac_bytes (suc n) v = v % 256 ∷ mac_bytes n (v / 256)

abbrev pub rule_val : ℕ → ℕ → List ℕ → ForwardVal
rule_val ip forward_port mac = record {
  forward_ip = swap32 ip;
  forward_port = swap16 forward_port;
  forward_mac = mac_number mac;
  pad = 0;
}

abbrev pub rule_of : ForwardKey → ForwardVal → ForwardRule
rule_of key val = record {
  proto = key.proto;
  local_port = key.local_port;
  forward_ip = swap32 val.forward_ip;
  forward_port = swap16 val.forward_port;
  forward_mac = mac_bytes 6 val.forward_mac;
}

module _ (forward_map : HashMap ForwardKey ForwardVal) where
  open forward_map use {Map, insert, remove}

  abbrev pub inserted : List ℕ → Map → Option Map → Result (List ℕ) × Map
  inserted mac m none = (err insert_failed, m)
  inserted mac m (some m') = (ok mac, m')

  -- The protocol, the address and the MAC address are looked at in this order.
  unfoldable pub add_values :
      Map → ℕ → ℕ → Option ℕ → Option ℕ → Option (List ℕ) → Result (List ℕ) × Map
  add_values m local_port forward_port none ip mac = (err invalid_protocol, m)
  add_values m local_port forward_port (some proto) none mac = (err invalid_forward_ip, m)
  add_values m local_port forward_port (some proto) (some ip) none = (err unresolved_mac, m)
  add_values m local_port forward_port (some proto) (some ip) (some mac) =
      inserted mac m (
        insert m (record { proto = proto; local_port = local_port }) (rule_val ip forward_port mac))

  unfoldable pub add_forward_rule : Network → List ℕ → ℕ → List ℕ → ℕ → Map → Result (List ℕ) × Map
  add_forward_rule net proto_str local_port forward_ip_str forward_port m =
      add_values m local_port forward_port (parse_proto proto_str) (parse_ipv4 forward_ip_str)
        (resolve_ip_mac net forward_ip_str)

  abbrev pub removed : Map → Option Map → Result (Unit {0}) × Map
  removed m none = (err remove_failed, m)
  removed m (some m') = (ok tt, m')

  unfoldable pub delete_values : Map → ℕ → Option ℕ → Result (Unit {0}) × Map
  delete_values m local_port none = (err invalid_protocol, m)
  delete_values m local_port (some proto) =
      removed m (remove m (record { proto = proto; local_port = local_port }))

  unfoldable pub delete_forward_rule : List ℕ → ℕ → Map → Result (Unit {0}) × Map
  delete_forward_rule proto_str local_port m = delete_values m local_port (parse_proto proto_str)

  -- `proto_str` of a stored rule.
  abbrev pub stored_proto : ForwardRule → List ℕ
  stored_proto rule = if rule.proto == 6 then codes "tcp" else codes "udp"

  -- The loop of `load_and_restore_rules`, where the i-th rule is resolved in the i-th network. A rule
  -- that cannot be restored is passed over.
  unfoldable pub restore : (ℕ → Network) → ℕ → List ForwardRule → Map → Map
  restore nets i [] m = m
  restore nets i (rule ∷ rules) m =
      restore nets (suc i) rules
        (add_forward_rule (nets i) (stored_proto rule) rule.local_port (show_ipv4 rule.forward_ip)
          rule.forward_port m).1

-- The rules of the items, unless one fails.
abbrev pub add_item :
    Option (ForwardKey × ForwardVal) → Result (List ForwardRule) → Result (List ForwardRule)
add_item none rest = err list_failed
add_item (some r) (err e) = err e
add_item (some r) (ok rules) = ok (rule_of r.0 r.1 ∷ rules)

unfoldable pub list_items : List (Option (ForwardKey × ForwardVal)) → Result (List ForwardRule)
list_items [] = ok []
list_items (item ∷ items) = add_item item (list_items items)

unfoldable pub list_forward_rules :
    (h : HashMap ForwardKey ForwardVal) → Iteration h → HashMap.Map h → Result (List ForwardRule)
list_forward_rules h iteration m = list_items (Iteration.iter iteration m)

-- u64 multiplication; a release build wraps.
abbrev pub nanoseconds : ℕ → ℕ
nanoseconds seconds = seconds * 1_000_000_000 % 2 ^ 64

abbrev pub store_timeout : Timeouts → ℕ → Option ℕ → Option Timeouts
store_timeout t ns none = none
store_timeout t ns (some proto) =
    some (if proto == 6 then record t { tcp_ns = ns } else record t { udp_ns = ns })

unfoldable pub set_timeout : Timeouts → List ℕ → ℕ → Option Timeouts
set_timeout t proto_str seconds = store_timeout t (nanoseconds seconds) (parse_proto proto_str)

-- The file at `rules_path` with serde_json: the write says whether it succeeded, and the read is
-- `none` where the file is absent or no list of rules.
pub record RulesFile : Type 1 where
  pub File : Type 0
  pub write : File → List ForwardRule → Bool × File
  pub read : File → Option (List ForwardRule)
  -- A file that was written is read back.
  pub read-write :
      (f g : File) (rules : List ForwardRule) → write f rules ≡ (true, g) → read g ≡ some rules
