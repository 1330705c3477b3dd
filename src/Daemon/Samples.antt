-- ===== src/Daemon/Samples.antt =====
-- A host with one rule and one session: the kernel's files, the maps, and a file of rules.
use xdp_nat_forward.Base.{
  ℕ, ◌*◌, ◌≡◌, ◌∙◌, arith, refl, sym, ap, List, [], ◌∷◌, none, some, Option, true, inl, if_pos,
  if_neg,
}
use xdp_nat_forward.Datapath.Types.{
  ForwardKey, ForwardVal, SessionKey, SessionVal, RevSessionVal, ForwardKey-discrete,
  SessionKey-discrete, RevSessionKey-discrete,
}
use xdp_nat_forward.Datapath.Maps.{HashMap, Tables}
use xdp_nat_forward.Datapath.Maps.Iteration.{Iteration}
use xdp_nat_forward.Datapath.Maps.Listed.{
  look_up, cons_self, listed_map, listed_iteration, listed_maps,
}
use xdp_nat_forward.Datapath.Samples.{ip_of, web_key, web_rule}
use xdp_nat_forward.Datapath.Session.Paired.{reverse_of, Paired}
use xdp_nat_forward.Daemon.Rules.Restore.{HasRules}
use xdp_nat_forward.Console.Text.{codes, text_eq, show, show_digits, digit_value}
use xdp_nat_forward.Console.State.{nodes_in_group}
use xdp_nat_forward.Console.Handlers.{sync_request}
use xdp_nat_forward.Console.Audit.{audit_row, is_present}
use xdp_nat_forward.Manager.{
  insert, remove, get, connect, get_nodes, as_unsigned, payload_of, decode_add,
}
use xdp_nat_forward.Daemon.Words.{
  upper, to_lowercase, to_uppercase, is_whitespace, split, split_whitespace, join, read_all,
  from_str_radix, parse_u16, parse_u32, parse_u64, parse_octet, parse_ipv4, show_ipv4,
}
use xdp_nat_forward.Daemon.Host.{
  Network, all_some, bytes_of, parse_mac, arp_parts, search, find_in_file, find_mac_in_arp,
  gateway_text, route_parts, get_gateway_ip, resolve_gateway, resolve_ip_mac,
}
use xdp_nat_forward.Daemon.Cleanup.{Timeouts}
use xdp_nat_forward.Daemon.Rules.{
  ForwardRule, RulesFile, parse_proto, add_values, add_forward_rule, list_items, list_forward_rules,
}
use xdp_nat_forward.Daemon.Service.{State, add_and_save, save}
use xdp_nat_forward.Daemon.Http.{constant_time_eq, verify_signature, run_call, handle}
use xdp_nat_forward.Daemon.Client.{handle_node_command}

abbrev pub rules_map : HashMap ForwardKey ForwardVal
rules_map = listed_map ForwardKey-discrete

abbrev pub rules_iteration : Iteration rules_map
rules_iteration = listed_iteration ForwardKey-discrete

abbrev pub sessions_iteration : Iteration listed_maps.session
sessions_iteration = listed_iteration SessionKey-discrete

-- An open TCP session of 192.168.1.5:40000, last seen at 100.
abbrev pub open_key : SessionKey
open_key = record {
  client_ip = ip_of 192 168 1 5;
  target_ip = ip_of 10 0 0 2;
  client_port = 0x409C;
  target_port = 80 * 256;
  proto = 6;
  pad = 0;
}

abbrev pub open_val : SessionVal
open_val = record { nat_port = 0x2875; client_mac = 5; last_seen = 100 }

abbrev open_reverse : RevSessionVal
open_reverse = record {
  client_ip = ip_of 192 168 1 5;
  client_port = 0x409C;
  local_port = 0x901F;
  client_mac = 5;
  pad = 0;
  last_seen = 100;
}

abbrev pub one_open : Tables listed_maps
one_open = record {
  forward_map = (web_key, web_rule) ∷ [];
  session_map = (open_key, open_val) ∷ [];
  reverse_session_map = (reverse_of open_key open_val, open_reverse) ∷ [];
}

-- What a map with one entry holds.
look_up-single :
    {K V : Type 0} (dec : Discrete K) (k j : K) (v w : V)
    → look_up dec ((k, v) ∷ []) j ≡ some w
    → (j ≡ k) × (v ≡ w)
look_up-single dec k j v w e = elim (dec j k) [
  | yes same ↦
      let found : some v ≡ some w = sym (if_pos (dec j k) same (some v) none) ∙ e in (same, cc)
  | no other ↦
      let missed : none ≡ some w = sym (if_neg (dec j k) other (some v) none) ∙ e in
      absurd (cc missed)
]

pub one_open-Paired : Paired listed_maps one_open
one_open-Paired = record {
  padded = λ k v e. ap (λ x. x.pad) (look_up-single SessionKey-discrete open_key k open_val v e).0;
  rev_padded = λ k r e.
      ap (λ x. x.pad)
        (look_up-single RevSessionKey-discrete (reverse_of open_key open_val) k open_reverse r e).0;
  forth = λ k v e.
      let (a, b) = look_up-single SessionKey-discrete open_key k open_val v e in
      rw (a, ← b)
        (
          open_reverse,
          cons_self RevSessionKey-discrete [] (reverse_of open_key open_val) open_reverse,
          record { client_ip = refl; client_port = refl; client_mac = refl },
        );
  back = λ k r e.
      let (a, b) =
        look_up-single RevSessionKey-discrete (reverse_of open_key open_val) k open_reverse r e in
      rw (a, ← b) (open_val, cons_self SessionKey-discrete [] open_key open_val, refl);
}

pub web_HasRules : HasRules rules_map ((web_key, web_rule) ∷ [])
web_HasRules k v e =
    let (a, b) = look_up-single ForwardKey-discrete web_key k web_rule v e in
    rw (a, ← b)
      (record {
        proto = inl refl;
        fits = record { ip_lt = omega arith; port_lt = omega arith; mac_lt = omega arith };
      })

abbrev pub short_timeouts : Timeouts
short_timeouts = record { tcp_ns = 300; udp_ns = 60 }

-- The gateway of the default route, 10.0.0.1, answers for every address.
abbrev pub gateway_network : Network
gateway_network = record {
  arp = none;
  arp_triggered = none;
  route =
      some (some (codes "Iface Destination Gateway") ∷ some (codes "eth0 00000000 0100000A") ∷ []);
  arp_gateway =
      some
        (some (codes "IP address") ∷ some (codes "10.0.0.1 0x1 0x2 02:00:00:00:00:09 * eth0") ∷ []);
  arp_gateway_triggered = none;
}

abbrev pub gateway_mac : List ℕ
gateway_mac = 2 ∷ 0 ∷ 0 ∷ 0 ∷ 0 ∷ 9 ∷ []

-- A file that keeps the last rules written.
abbrev pub memory_file : RulesFile
memory_file = record {
  File = Option (List ForwardRule);
  write = λ f rules. (true, some rules);
  read = λ f. f;
  read-write = λ f g rules e. cc;
}

abbrev pub idle : State rules_map rules_iteration memory_file
idle = record { rules = []; timeouts = short_timeouts; rules_file = none }

-- What a run of the daemon unfolds.
unfoldable pub daemon : Unit {0}
unfolding upper to_lowercase to_uppercase is_whitespace split split_whitespace join read_all
    from_str_radix parse_u16 parse_u32 parse_u64 parse_octet parse_ipv4 show_ipv4 show show_digits
    digit_value text_eq all_some bytes_of parse_mac arp_parts search find_in_file find_mac_in_arp
    gateway_text route_parts get_gateway_ip resolve_gateway resolve_ip_mac parse_proto add_values
    add_forward_rule list_items list_forward_rules add_and_save save handle run_call
    verify_signature constant_time_eq handle_node_command insert remove get connect get_nodes
    as_unsigned payload_of decode_add sync_request audit_row is_present nodes_in_group
daemon = tt
