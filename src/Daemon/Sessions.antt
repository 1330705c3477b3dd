-- ===== src/Daemon/Sessions.antt =====
-- forward/src/cmd.rs and manager_client.rs, the query of the sessions between two addresses.
use xdp_nat_forward.Base.{
  ℕ, ◌==◌, Bool, ◌&&◌, ◌≡◌, arith, true, Option, none, some, List, [], ◌∷◌, map, IsIn,
  if◌then◌else◌, inl, inr, Bool-cases, ap, some_injective, ◌∙◌,
}
use xdp_nat_forward.Console.Text.{codes}
use xdp_nat_forward.Datapath.Packet.{swap16, swap32}
use xdp_nat_forward.Datapath.Types.{SessionKey, SessionVal}

pub record SessionInfo : Type 0 where
  pub proto : List ℕ
  pub src_port : ℕ
  pub dst_port : ℕ
  pub nat_port : ℕ

-- The session is from the client to the target, both in network byte order.
abbrev pub is_between : ℕ → ℕ → SessionKey → Bool
is_between src dst key = (key.client_ip == src) && (key.target_ip == dst)

-- The items that are read and lie between the two addresses.
unfoldable pub found :
    ℕ → ℕ → List (Option (SessionKey × SessionVal)) → List (SessionKey × SessionVal)
found src dst [] = []
found src dst (none ∷ items) = found src dst items
found src dst (some r ∷ items) =
    let rest = found src dst items in if is_between src dst r.0 then r ∷ rest else rest

abbrev pub session_info : SessionKey × SessionVal → SessionInfo
session_info r = record {
  proto = if r.0.proto == 6 then codes "tcp" else codes "udp";
  src_port = swap16 r.0.client_port;
  dst_port = swap16 r.0.target_port;
  nat_port = swap16 r.1.nat_port;
}

-- `query_bpf_sessions` behind the parsing of its addresses.
unfoldable pub query_sessions : ℕ → ℕ → List (Option (SessionKey × SessionVal)) → List SessionInfo
query_sessions src_ip dst_ip items = map session_info (found (swap32 src_ip) (swap32 dst_ip) items)

pub found_back :
    (src dst : ℕ) (items : List (Option (SessionKey × SessionVal))) (r : SessionKey × SessionVal)
    → IsIn r (found src dst items)
    → IsIn (some r) items × (r.0.client_ip ≡ src) × (r.0.target_ip ≡ dst)
unfolding found
found_back src dst [] r h = absurd h
found_back src dst (none ∷ items) r h =
    let (i, a, b) = found_back src dst items r h in (inr i, a, b)
found_back src dst (some q ∷ items) r h = elim (Bool-cases (is_between src dst q.0)) [
  | inl e ↦ elim (rw e at h) [
    | inl same ↦ (
      inl (ap (λ x. some x) same),
      ap (λ x. x.0.client_ip) same ∙ ground (arith, e),
      ap (λ x. x.0.target_ip) same ∙ ground (arith, e),
    )
    | inr later ↦ let (i, a, b) = found_back src dst items r later in (inr i, a, b)
  ]
  | inr e ↦ let (i, a, b) = found_back src dst items r (rw e at h) in (inr i, a, b)
]

pub found_forth :
    (src dst : ℕ) (items : List (Option (SessionKey × SessionVal))) (r : SessionKey × SessionVal)
    → IsIn (some r) items
    → r.0.client_ip ≡ src
    → r.0.target_ip ≡ dst
    → IsIn r (found src dst items)
unfolding found
found_forth src dst [] r h a b = absurd h
found_forth src dst (none ∷ items) r h a b = elim h [
  | inl other ↦ absurd (cc)
  | inr i ↦ found_forth src dst items r i a b
]
found_forth src dst (some q ∷ items) r h a b = elim h [
  | inl same ↦
      let here = some_injective same in
      let between : is_between src dst q.0 ≡ true =
        ground (arith, a, b, ap (λ x. x.0.client_ip) here, ap (λ x. x.0.target_ip) here) in
      rw between (inl here)
  | inr i ↦ elim (Bool-cases (is_between src dst q.0)) [
    | inl x ↦ rw x (inr (found_forth src dst items r i a b))
    | inr x ↦ rw x (found_forth src dst items r i a b)
  ]
]
