-- ===== src/Datapath/Session/Allocate.antt =====
-- `allocate_nat_port` finds the first free candidate, or there is none.
use xdp_nat_forward.Base.{
  ℕ, zero, suc, ◌+◌, ◌≤◌, ◌<◌, ◌≡◌, arith, Bool, true, false, Bool-cases, inl, inr, ℕ_discrete,
  none, some,
}
use xdp_nat_forward.Datapath.Packet.{swap16}
use xdp_nat_forward.Datapath.Maps.{HashMap, Bpf, Tables}
use xdp_nat_forward.Datapath.Session.{
  candidate, rev_key, flow_hash, allocate_from, port_is_free, allocate_nat_port,
}

-- The candidates lie outside the well-known ports.
pub candidate_bounds : (hash i : ℕ) → (1024 ≤ candidate hash i) × (candidate hash i < 65024)
candidate_bounds hash i = omega arith

-- `j` is the first round from `i` on, among `n`, whose candidate is free.
pub record IsFirstFree (free : ℕ → Bool) (hash n i j : ℕ) : Type 0 where
  pub from : i ≤ j
  pub within : j < i + n
  pub is_free : free (swap16 (candidate hash j)) ≡ true
  pub taken_before : (k : ℕ) → i ≤ k → k < j → free (swap16 (candidate hash k)) ≡ false

allocate_from-some :
    (free : ℕ → Bool) (hash n i p : ℕ)
    → allocate_from free hash n i ≡ some p
    → (j : ℕ) × IsFirstFree free hash n i j × (p ≡ candidate hash j)
unfolding allocate_from
allocate_from-some free hash zero i p e = cc
allocate_from-some free hash (suc n) i p e = elim (Bool-cases (free (swap16 (candidate hash i)))) [
  | inl here ↦ (
    i,
    record {
      from = omega arith;
      within = omega arith;
      is_free = here;
      taken_before = λ k a b. absurd (omega arith);
    },
    ground arith,
  )
  | inr not_here ↦
      let (j, first, same) = allocate_from-some free hash n (suc i) p (ground arith) in
      (
        j,
        record {
          from = omega (arith, first.from);
          within = omega (arith, first.within);
          is_free = first.is_free;
          taken_before = λ k a b. ground (arith, first.taken_before k);
        },
        same,
      )
]

allocate_from-none :
    (free : ℕ → Bool) (hash n i : ℕ)
    → allocate_from free hash n i ≡ none
    → (k : ℕ) → i ≤ k
    → k < i + n
    → free (swap16 (candidate hash k)) ≡ false
unfolding allocate_from
allocate_from-none free hash zero i e k a b = absurd (omega arith)
allocate_from-none free hash (suc n) i e k a b = elim (ℕ_discrete i k) [
  | yes here ↦ ground arith
  | no later ↦ allocate_from-none free hash n (suc i) (ground arith) k (omega arith) (omega arith)
]

module _ (bpf : Bpf) (t : Tables bpf) (client_ip target_ip client_port target_port proto : ℕ) where
  -- An allocated port, in host byte order, is the first of the five candidates that no reverse
  -- session of the target has, and lies in 1024 .. 65023.
  pub allocate_nat_port-some :
      (port : ℕ)
      → allocate_nat_port bpf t client_ip target_ip client_port target_port proto ≡ some port
      → (j : ℕ) × IsFirstFree
          (port_is_free bpf t target_ip target_port proto)
          (flow_hash client_ip target_ip client_port target_port)
          5
          0
          j
        × (port ≡ candidate (flow_hash client_ip target_ip client_port target_port) j)
        × (1024 ≤ port)
        × (port < 65024)
  unfolding allocate_nat_port
  allocate_nat_port-some port e =
      let hash = flow_hash client_ip target_ip client_port target_port in
      let (j, first, same) =
        allocate_from-some (port_is_free bpf t target_ip target_port proto) hash 5 0 port e in
      (j, first, same, omega arith, omega arith)

  -- So the reverse key of an allocated port is not in use.
  pub allocate_nat_port-fresh :
      (port : ℕ)
      → allocate_nat_port bpf t client_ip target_ip client_port target_port proto ≡ some port
      → HashMap.get bpf.reverse t.reverse_session_map
          (rev_key target_ip (swap16 port) target_port proto)
        ≡ none
  allocate_nat_port-fresh port e =
      let (j, first, same, _, _) = allocate_nat_port-some port e in ground (arith, first.is_free)

  -- No port is allocated exactly when all five candidates are in use.
  pub allocate_nat_port-none :
      allocate_nat_port bpf t client_ip target_ip client_port target_port proto ≡ none
      → (k : ℕ) → k < 5
      → port_is_free bpf t target_ip target_port proto
          (swap16 (candidate (flow_hash client_ip target_ip client_port target_port) k))
        ≡ false
  unfolding allocate_nat_port
  allocate_nat_port-none e k h = allocate_from-none _ _ 5 0 e k (omega arith) h
