-- ===== src/Datapath/Rewrite/Fields.antt =====
-- The header fields of a rewritten packet.
use xdp_nat_forward.Base.{ℕ, ◌+◌, ◌^◌, ◌≤◌, ◌<◌, ◌≡◌, ◌∙◌, inl, inr, arith, ◌==◌, Bool-cases}
use xdp_nat_forward.Datapath.Packet.{Mem, load, swap16}
use xdp_nat_forward.Datapath.Packet.Laws.{Apart, load-store_ne, load-store_self}
use xdp_nat_forward.Datapath.Session.{Flow}
use xdp_nat_forward.Datapath.Rewrite.{
  Target, rewrite_addresses, rewrite_ip_check, rewrite_ports, rewrite_tcp_check, rewrite_udp_check,
  rewrite_ip, tcp_rewrite, udp_rewrite,
}

-- The new fields fit their widths.
pub record Fits (new : Target) : Type 0 where
  pub src_ip_lt : new.src_ip < 2 ^ 32
  pub dst_ip_lt : new.dst_ip < 2 ^ 32
  pub src_port_lt : new.src_port < 65536
  pub dst_port_lt : new.dst_port < 65536
  pub mac_lt : new.mac < 2 ^ 48

-- A field apart from what a part of the rewriting stores.
pub load-rewrite_addresses :
    (w o : ℕ) (new : Target) (m : Mem)
    → Apart w o 12 0
    → Apart w o 8 26
    → load w o (rewrite_addresses new m) ≡ load w o m
unfolding rewrite_addresses
load-rewrite_addresses w o new m h k =
    load-store_ne w o 4 30 _ _ (ground arith)
    ∙ load-store_ne w o 4 26 _ _ (ground arith)
    ∙ load-store_ne w o 6 0 _ _ (ground arith)
    ∙ load-store_ne w o 6 6 _ _ (ground arith)

pub load-rewrite_ip_check :
    (w o : ℕ) (old : Flow) (new : Target) (m : Mem)
    → Apart w o 2 24
    → load w o (rewrite_ip_check old new m) ≡ load w o m
unfolding rewrite_ip_check
load-rewrite_ip_check w o old new m h = load-store_ne w o 2 24 _ _ h

pub load-rewrite_ports :
    (w o l4 : ℕ) (new : Target) (m : Mem)
    → Apart w o 4 l4
    → load w o (rewrite_ports l4 new m) ≡ load w o m
unfolding rewrite_ports
load-rewrite_ports w o l4 new m h =
    load-store_ne w o 2 (l4 + 2) _ _ (ground arith) ∙ load-store_ne w o 2 l4 _ _ (ground arith)

pub load-rewrite_tcp_check :
    (w o l4 : ℕ) (old : Flow) (new : Target) (m : Mem)
    → Apart w o 2 (l4 + 16)
    → load w o (rewrite_tcp_check l4 old new m) ≡ load w o m
unfolding rewrite_tcp_check
load-rewrite_tcp_check w o l4 old new m h = load-store_ne w o 2 (l4 + 16) _ _ h

pub load-rewrite_udp_check :
    (w o l4 : ℕ) (old : Flow) (new : Target) (m : Mem)
    → Apart w o 2 (l4 + 6)
    → load w o (rewrite_udp_check l4 old new m) ≡ load w o m
unfolding rewrite_udp_check
load-rewrite_udp_check w o l4 old new m h = elim (Bool-cases (swap16 (load 2 (l4 + 6) m) == 0)) [
  | inl e ↦ rw e
  | inr e ↦ rw e (load-store_ne w o 2 (l4 + 6) _ _ h)
]

-- The fields that say where a packet goes.
pub record Carries (new : Target) (old_mac l4 : ℕ) (m : Mem) : Type 0 where
  pub dst_mac : load 6 0 m ≡ new.mac
  pub src_mac : load 6 6 m ≡ old_mac
  pub src_ip : load 4 26 m ≡ new.src_ip
  pub dst_ip : load 4 30 m ≡ new.dst_ip
  pub src_port : load 2 l4 m ≡ new.src_port
  pub dst_port : load 2 (l4 + 2) m ≡ new.dst_port

module _ (l4 : ℕ) (old : Flow) (new : Target) (m : Mem) (room : 34 ≤ l4) where
  -- A field below the ports goes through the later parts.
  below :
      (w o : ℕ)
      → o + w ≤ 34
      → Apart w o 2 24
      → load w o (rewrite_ip l4 old new m) ≡ load w o (rewrite_addresses new m)
  unfolding rewrite_ip
  below w o h k =
      load-rewrite_ports w o l4 new _ (inl (omega arith)) ∙ load-rewrite_ip_check w o old new _ k

  pub rewrite_ip-Carries :
      Fits new → load 6 0 m < 2 ^ 48 → Carries new (load 6 0 m) l4 (rewrite_ip l4 old new m)
  unfolding rewrite_ip rewrite_addresses rewrite_ports
  rewrite_ip-Carries f bound = record {
    dst_mac =
        below 6 0 (omega arith) (inl (omega arith))
        ∙ load-store_ne 6 0 4 30 _ _ (inl (omega arith))
        ∙ load-store_ne 6 0 4 26 _ _ (inl (omega arith))
        ∙ load-store_self 6 0 _ _ f.mac_lt;
    src_mac =
        below 6 6 (omega arith) (inl (omega arith))
        ∙ load-store_ne 6 6 4 30 _ _ (inl (omega arith))
        ∙ load-store_ne 6 6 4 26 _ _ (inl (omega arith))
        ∙ load-store_ne 6 6 6 0 _ _ (inr (omega arith))
        ∙ load-store_self 6 6 _ _ bound;
    src_ip =
        below 4 26 (omega arith) (inr (omega arith))
        ∙ load-store_ne 4 26 4 30 _ _ (inl (omega arith))
        ∙ load-store_self 4 26 _ _ f.src_ip_lt;
    dst_ip = below 4 30 (omega arith) (inr (omega arith)) ∙ load-store_self 4 30 _ _ f.dst_ip_lt;
    src_port =
        load-store_ne 2 l4 2 (l4 + 2) _ _ (inl (omega arith))
        ∙ load-store_self 2 l4 _ _ f.src_port_lt;
    dst_port = load-store_self 2 (l4 + 2) _ _ f.dst_port_lt;
  }

  pub tcp_rewrite-Carries :
      Fits new → load 6 0 m < 2 ^ 48 → Carries new (load 6 0 m) l4 (tcp_rewrite l4 old new m)
  unfolding tcp_rewrite
  tcp_rewrite-Carries f bound =
      let c = rewrite_ip-Carries f bound in
      let keeps = λ (w o : ℕ) (h : o + w ≤ l4 + 16).
        load-rewrite_tcp_check w o l4 old new (rewrite_ip l4 old new m) (inl h) in
      record {
        dst_mac = keeps 6 0 (omega arith) ∙ c.dst_mac;
        src_mac = keeps 6 6 (omega arith) ∙ c.src_mac;
        src_ip = keeps 4 26 (omega arith) ∙ c.src_ip;
        dst_ip = keeps 4 30 (omega arith) ∙ c.dst_ip;
        src_port = keeps 2 l4 (omega arith) ∙ c.src_port;
        dst_port = keeps 2 (l4 + 2) (omega arith) ∙ c.dst_port;
      }

  pub udp_rewrite-Carries :
      Fits new → load 6 0 m < 2 ^ 48 → Carries new (load 6 0 m) l4 (udp_rewrite l4 old new m)
  unfolding udp_rewrite
  udp_rewrite-Carries f bound =
      let c = rewrite_ip-Carries f bound in
      let keeps = λ (w o : ℕ) (h : o + w ≤ l4 + 6).
        load-rewrite_udp_check w o l4 old new (rewrite_ip l4 old new m) (inl h) in
      record {
        dst_mac = keeps 6 0 (omega arith) ∙ c.dst_mac;
        src_mac = keeps 6 6 (omega arith) ∙ c.src_mac;
        src_ip = keeps 4 26 (omega arith) ∙ c.src_ip;
        dst_ip = keeps 4 30 (omega arith) ∙ c.dst_ip;
        src_port = keeps 2 l4 (omega arith) ∙ c.src_port;
        dst_port = keeps 2 (l4 + 2) (omega arith) ∙ c.dst_port;
      }

  -- Outside the Ethernet addresses, the IP checksum and addresses, and the ports, `rewrite_ip`
  -- changes no field.
  pub load-rewrite_ip :
      (w o : ℕ)
      → Apart w o 12 0
      → Apart w o 10 24
      → Apart w o 4 l4
      → load w o (rewrite_ip l4 old new m) ≡ load w o m
  unfolding rewrite_ip
  load-rewrite_ip w o a b c =
      load-rewrite_ports w o l4 new _ c
      ∙ load-rewrite_ip_check w o old new _ (ground arith)
      ∙ load-rewrite_addresses w o new m a (ground arith)
