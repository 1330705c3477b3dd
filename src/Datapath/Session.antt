-- ===== src/Datapath/Session.antt =====
-- forward-ebpf/src/main.rs, the session tables: `allocate_nat_port`, and the parts of
-- `try_forward` that look a session up, open it and refresh it. TCP and UDP run the same code.
pub mod Allocate
pub mod Touch
pub mod Tracked
pub mod Paired
pub mod Balanced
pub mod Typed
pub mod Clock
use mathlib.Core.Option
use xdp_nat_forward.Base.{
  ℕ, zero, suc, ◌+◌, ◌%◌, bit_xor, Option, none, some, if◌then◌else◌, Bool, true, false,
}
use xdp_nat_forward.Datapath.Checksum.{add32}
use xdp_nat_forward.Datapath.Packet.{swap16}
use xdp_nat_forward.Datapath.Types.{
  ForwardVal, SessionKey, SessionVal, RevSessionKey, RevSessionVal,
}
use xdp_nat_forward.Datapath.Maps.{HashMap, Bpf, Tables}

-- The locals of `try_forward` that both directions read, as they stand in the packet.
pub record Flow : Type 0 where
  pub src_ip : ℕ
  pub dst_ip : ℕ
  pub src_port : ℕ
  pub dst_port : ℕ
  pub proto : ℕ

abbrev pub rev_key : ℕ → ℕ → ℕ → ℕ → RevSessionKey
rev_key target_ip nat_port target_port proto = record {
  target_ip = target_ip;
  nat_port = nat_port;
  target_port = target_port;
  proto = proto;
  pad = 0;
}

-- The session of a client's packet under a rule.
abbrev pub client_key : Flow → ForwardVal → SessionKey
client_key fl rule = record {
  client_ip = fl.src_ip;
  target_ip = rule.forward_ip;
  client_port = fl.src_port;
  target_port = rule.forward_port;
  proto = fl.proto;
  pad = 0;
}

-- The reverse entry that a target's packet looks up.
abbrev pub reply_key : Flow → RevSessionKey
reply_key fl = rev_key fl.src_ip fl.dst_port fl.src_port fl.proto

-- The session that a reverse entry stands for, as the target's packet names it.
abbrev pub replied_key : Flow → RevSessionVal → SessionKey
replied_key fl rev_val = record {
  client_ip = rev_val.client_ip;
  target_ip = fl.src_ip;
  client_port = rev_val.client_port;
  target_port = fl.src_port;
  proto = fl.proto;
  pad = 0;
}

-- The port that round i of the loop in `allocate_nat_port` tries.
abbrev pub candidate : ℕ → ℕ → ℕ
candidate hash i = 1024 + add32 hash i % 64000 % 65536

abbrev pub is_none {ℓ} : {A : Type ℓ} → Option A → Bool
is_none none = true
is_none (some a) = false

abbrev pub or_keep {ℓ} : {A : Type ℓ} → Option A → A → A
or_keep none old = old
or_keep (some new) old = new

abbrev pub flow_hash : ℕ → ℕ → ℕ → ℕ → ℕ
flow_hash client_ip target_ip client_port target_port =
    bit_xor (bit_xor (bit_xor client_ip target_ip) client_port) target_port

-- The loop of `allocate_nat_port` with the rounds left; `free` says that the reverse map has no
-- entry for the port, which it is given in network byte order.
unfoldable pub allocate_from : (ℕ → Bool) → ℕ → ℕ → ℕ → Option ℕ
allocate_from free hash zero i = none
allocate_from free hash (suc n) i =
    let rest = allocate_from free hash n (suc i) in
    if free (swap16 (candidate hash i)) then some (candidate hash i) else rest

abbrev pub session_val : ℕ → ℕ → ℕ → SessionVal
session_val nat_port client_mac now = record {
  nat_port = nat_port;
  client_mac = client_mac;
  last_seen = now;
}

-- The reverse entry of a new session.
abbrev pub rev_val : Flow → ℕ → ℕ → RevSessionVal
rev_val fl client_mac now = record {
  client_ip = fl.src_ip;
  client_port = fl.src_port;
  local_port = fl.dst_port;
  client_mac = client_mac;
  pad = 0;
  last_seen = now;
}

module _ (bpf : Bpf) where
  open bpf use {session, reverse}

  abbrev pub port_is_free : Tables bpf → ℕ → ℕ → ℕ → ℕ → Bool
  port_is_free t target_ip target_port proto nat_port =
      is_none
        (HashMap.get reverse t.reverse_session_map (rev_key target_ip nat_port target_port proto))

  unfoldable pub allocate_nat_port : Tables bpf → ℕ → ℕ → ℕ → ℕ → ℕ → Option ℕ
  allocate_nat_port t client_ip target_ip client_port target_port proto =
      allocate_from (port_is_free t target_ip target_port proto)
        (flow_hash client_ip target_ip client_port target_port) 5 0

  -- Refreshes `last_seen` of a session, if it is there.
  unfoldable pub touch_session : Tables bpf → SessionKey → ℕ → Tables bpf
  touch_session t key now = elim (HashMap.get session t.session_map key) [
    | none ↦ t
    | some v ↦ record t {
      session_map = HashMap.write session t.session_map key (record v { last_seen = now });
    }
  ]

  -- Refreshes `last_seen` of a reverse entry, if it is there.
  unfoldable pub touch_reverse : Tables bpf → RevSessionKey → ℕ → Tables bpf
  touch_reverse t key now = elim (HashMap.get reverse t.reverse_session_map key) [
    | none ↦ t
    | some v ↦ record t {
      reverse_session_map =
          HashMap.write reverse t.reverse_session_map key (record v { last_seen = now });
    }
  ]

  -- The two inserts of a new session; their errors are ignored.
  unfoldable pub open_session : Tables bpf → Flow → ForwardVal → ℕ → ℕ → ℕ → Tables bpf
  open_session t fl rule nat_port client_mac now = record t {
    session_map =
        or_keep
          (HashMap.insert session t.session_map (client_key fl rule)
            (session_val nat_port client_mac now))
          t.session_map;
    reverse_session_map =
        or_keep
          (HashMap.insert reverse t.reverse_session_map
            (rev_key rule.forward_ip nat_port rule.forward_port fl.proto)
            (rev_val fl client_mac now))
          t.reverse_session_map;
  }

  -- The client's packet has a session, or gets one: the NAT port in network byte order, and the
  -- tables. `none` is the return of XDP_ABORTED when no port is free.
  unfoldable pub track_client : Tables bpf → Flow → ForwardVal → ℕ → ℕ → Option (ℕ × Tables bpf)
  track_client t fl rule client_mac now =
      elim (HashMap.get session t.session_map (client_key fl rule)) [
        | some v ↦ some (
          v.nat_port,
          touch_reverse (touch_session t (client_key fl rule) now)
              (rev_key rule.forward_ip v.nat_port rule.forward_port fl.proto) now,
        )
        | none ↦
            Option.map (λ port. (swap16 port, open_session t fl rule (swap16 port) client_mac now))
              (allocate_nat_port t fl.src_ip rule.forward_ip fl.src_port rule.forward_port fl.proto)
      ]

  -- The target's packet refreshes its reverse entry and the session that this stands for.
  unfoldable pub track_target : Tables bpf → Flow → RevSessionVal → ℕ → Tables bpf
  track_target t fl v now =
      touch_session (touch_reverse t (reply_key fl) now) (replied_key fl v) now
