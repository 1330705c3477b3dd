-- ===== src/Datapath/Samples.antt =====
-- A small network: a rule that maps TCP port 8080 to 10.0.0.2:80, a client's packet and maps.
use xdp_nat_forward.Base.{
  ℕ, zero, suc, ◌+◌, ◌*◌, ◌<◌, ◌≡◌, arith, List, [], ◌∷◌, none, some, All, if_pos, if_neg, sym, ◌∙◌,
  subst, ℕ_discrete,
}
use xdp_nat_forward.Datapath.Checksum.{update_csum_16, update_csum_32, csum_fold, fold_rounds}
use xdp_nat_forward.Datapath.Packet.{Mem, Packet, load, store, swap16, swap32}
use xdp_nat_forward.Datapath.Session.{
  allocate_from, allocate_nat_port, touch_session, touch_reverse, open_session, track_client,
  track_target,
}
use xdp_nat_forward.Datapath.Rewrite.{
  rewrite_addresses, rewrite_ip_check, rewrite_ports, rewrite_tcp_check, rewrite_udp_check,
  rewrite_ip, tcp_rewrite, udp_rewrite,
}
use xdp_nat_forward.Datapath.Packet.Laws.{IsBytes}
use xdp_nat_forward.Datapath.Types.{
  ForwardKey, ForwardVal, ForwardKey-discrete, SessionKey-discrete, RevSessionKey-discrete,
}
use xdp_nat_forward.Datapath.Maps.{Tables}
use xdp_nat_forward.Datapath.Maps.Total.{update, total_maps}
use xdp_nat_forward.Datapath.Session.Typed.{RuleFits, Typed}
use xdp_nat_forward.Datapath.Session.Paired.{Paired, HasRoom}
use xdp_nat_forward.Datapath.Program.{
  World, forward, try_forward, try_ip, try_tcp, try_udp, translate, client_to_target,
  target_to_client,
}
use xdp_nat_forward.Datapath.Program.Integrity.{IsValid}

-- A packet of listed bytes; what lies behind them is 0.
abbrev pub bytes_at : List ℕ → Mem
bytes_at [] i = 0
bytes_at (x ∷ xs) zero = x
bytes_at (x ∷ xs) (suc i) = bytes_at xs i

pub bytes_at-IsBytes : (xs : List ℕ) → All (λ x. x < 256) xs → IsBytes (bytes_at xs)
bytes_at-IsBytes [] h i = omega arith
bytes_at-IsBytes (x ∷ xs) h zero = h.0
bytes_at-IsBytes (x ∷ xs) h (suc i) = bytes_at-IsBytes xs h.1 i

-- An IPv4 address and a port in network byte order, as the target's fields hold them.
abbrev pub ip_of : ℕ → ℕ → ℕ → ℕ → ℕ
ip_of a b c d = a + 256 * (b + 256 * (c + 256 * d))

abbrev pub web_key : ForwardKey
web_key = record { proto = 6; local_port = 8080 }

abbrev pub web_rule : ForwardVal
web_rule = record {
  forward_ip = ip_of 10 0 0 2;
  forward_port = 80 * 256;
  forward_mac = 0x02_0000_0000_02;
  pad = 0;
}

abbrev pub fresh_tables : Tables total_maps
fresh_tables = record {
  forward_map = update ForwardKey-discrete (λ k. none) web_key (some web_rule);
  session_map = λ k. none;
  reverse_session_map = λ k. none;
}

-- 192.168.1.5:40000 to 192.168.1.1:8080, a TCP SYN; its checksum fields hold 0x1234 and 0x5678.
abbrev pub syn_bytes : List ℕ
syn_bytes =
    2 ∷ 0 ∷ 0 ∷ 0 ∷ 0 ∷ 1 ∷ 2 ∷ 0 ∷ 0 ∷ 0 ∷ 0 ∷ 5 ∷ 8 ∷ 0 ∷ 0x45 ∷ 0 ∷ 0 ∷ 40 ∷ 0 ∷ 0 ∷ 0 ∷ 0 ∷ 64
    ∷ 6 ∷ 0x12 ∷ 0x34 ∷ 192 ∷ 168 ∷ 1 ∷ 5 ∷ 192 ∷ 168 ∷ 1 ∷ 1 ∷ 156 ∷ 64 ∷ 31 ∷ 144 ∷ 0 ∷ 0 ∷ 0 ∷ 1
    ∷ 0 ∷ 0 ∷ 0 ∷ 0 ∷ 0x50 ∷ 2 ∷ 1 ∷ 0 ∷ 0x56 ∷ 0x78 ∷ 0 ∷ 0 ∷ []

abbrev pub syn : Packet
syn = record { size = 54; mem = bytes_at syn_bytes }

abbrev pub fresh : World total_maps
fresh = record { packet = syn; tables = fresh_tables }

web_rule-RuleFits : RuleFits web_rule
web_rule-RuleFits = record { ip_lt = omega arith; port_lt = omega arith; mac_lt = omega arith }

-- The only rule is `web_rule`.
one_rule :
    (key k : ForwardKey) (v : ForwardVal)
    → update ForwardKey-discrete (λ k. none) key (some web_rule) k ≡ some v
    → RuleFits v
one_rule key k v e = elim (ForwardKey-discrete k key) [
  | yes same ↦
      let found : some web_rule ≡ some v =
        sym (if_pos (ForwardKey-discrete k key) same (some web_rule) none) ∙ e in
      let is : web_rule ≡ v = cc in subst RuleFits is web_rule-RuleFits
  | no other ↦
      let missed : none ≡ some v =
        sym (if_neg (ForwardKey-discrete k key) other (some web_rule) none) ∙ e in
      absurd (cc missed)
]

pub fresh-Typed : Typed total_maps fresh_tables
fresh-Typed = record {
  rules = λ k v e. one_rule web_key k v e;
  sessions = λ k v e. absurd (cc);
  reverses = λ k v e. absurd (cc);
}

pub fresh-IsValid : IsValid total_maps fresh
fresh-IsValid = record { bytes = bytes_at-IsBytes syn_bytes (omega arith); typed = fresh-Typed }

pub fresh-Paired : Paired total_maps fresh_tables
fresh-Paired = record {
  padded = λ k v e. absurd (cc);
  rev_padded = λ k v e. absurd (cc);
  forth = λ k v e. absurd (cc);
  back = λ k v e. absurd (cc);
}

pub fresh-HasRoom : HasRoom total_maps fresh_tables
fresh-HasRoom = record { session_room = λ k v e. cc; reverse_room = λ k v e. cc }

-- The reply of 10.0.0.2:80 to the NAT port 50262.
abbrev pub reply_bytes : List ℕ
reply_bytes =
    2 ∷ 0 ∷ 0 ∷ 0 ∷ 0 ∷ 1 ∷ 2 ∷ 0 ∷ 0 ∷ 0 ∷ 0 ∷ 2 ∷ 8 ∷ 0 ∷ 0x45 ∷ 0 ∷ 0 ∷ 40 ∷ 0 ∷ 0 ∷ 0 ∷ 0 ∷ 64
    ∷ 6 ∷ 0x12 ∷ 0x34 ∷ 10 ∷ 0 ∷ 0 ∷ 2 ∷ 192 ∷ 168 ∷ 1 ∷ 1 ∷ 0 ∷ 80 ∷ 196 ∷ 86 ∷ 0 ∷ 0 ∷ 0 ∷ 1 ∷ 0
    ∷ 0 ∷ 0 ∷ 2 ∷ 0x50 ∷ 18 ∷ 1 ∷ 0 ∷ 0x56 ∷ 0x78 ∷ 0 ∷ 0 ∷ []

abbrev pub reply : Packet
reply = record { size = 54; mem = bytes_at reply_bytes }

-- A UDP packet with a checksum.
abbrev pub query_bytes : List ℕ
query_bytes =
    2 ∷ 0 ∷ 0 ∷ 0 ∷ 0 ∷ 1 ∷ 2 ∷ 0 ∷ 0 ∷ 0 ∷ 0 ∷ 5 ∷ 8 ∷ 0 ∷ 0x45 ∷ 0 ∷ 0 ∷ 28 ∷ 0 ∷ 0 ∷ 0 ∷ 0 ∷ 64
    ∷ 17 ∷ 0x12 ∷ 0x34 ∷ 192 ∷ 168 ∷ 1 ∷ 5 ∷ 192 ∷ 168 ∷ 1 ∷ 1 ∷ 156 ∷ 64 ∷ 31 ∷ 144 ∷ 0 ∷ 8 ∷ 0x56
    ∷ 0x78 ∷ []

-- A rule for UDP port 8080, beside the one for TCP.
abbrev pub dns_key : ForwardKey
dns_key = record { proto = 17; local_port = 8080 }

abbrev pub dns_tables : Tables total_maps
dns_tables = record {
  forward_map = update ForwardKey-discrete (λ k. none) dns_key (some web_rule);
  session_map = λ k. none;
  reverse_session_map = λ k. none;
}

abbrev pub query : World total_maps
query = record { packet = record { size = 42; mem = bytes_at query_bytes }; tables = dns_tables }

pub query-IsValid : IsValid total_maps query
query-IsValid = record {
  bytes = bytes_at-IsBytes query_bytes (omega arith);
  typed = record {
    rules = λ k v e. one_rule dns_key k v e;
    sessions = λ k v e. absurd (cc);
    reverses = λ k v e. absurd (cc);
  };
}

-- What a run of the program unfolds.
unfoldable pub program : Unit {0}
unfolding update_csum_16 update_csum_32 csum_fold fold_rounds load store swap16 swap32
    ForwardKey-discrete SessionKey-discrete RevSessionKey-discrete allocate_from allocate_nat_port
    touch_session touch_reverse open_session track_client track_target rewrite_addresses
    rewrite_ip_check rewrite_ports rewrite_tcp_check rewrite_udp_check rewrite_ip tcp_rewrite
    udp_rewrite forward try_forward try_ip try_tcp try_udp translate client_to_target
    target_to_client ℕ_discrete
program = tt
