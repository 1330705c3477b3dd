-- ===== src/Datapath/Types.antt =====
-- forward-common/src/lib.rs: the keys and values of the BPF maps. Addresses and ports keep the
-- byte order that the field's comment names; an array of bytes is the number with those digits.
use xdp_nat_forward.Base.{ℕ, ℕ_discrete}

pub record ForwardKey : Type 0 where
  pub proto : ℕ
  pub local_port : ℕ

pub record ForwardVal : Type 0 where
  pub forward_ip : ℕ
  pub forward_port : ℕ
  pub forward_mac : ℕ
  pub pad : ℕ

pub record SessionKey : Type 0 where
  pub client_ip : ℕ
  pub target_ip : ℕ
  pub client_port : ℕ
  pub target_port : ℕ
  pub proto : ℕ
  pub pad : ℕ

pub record SessionVal : Type 0 where
  pub nat_port : ℕ
  pub client_mac : ℕ
  pub last_seen : ℕ

pub record RevSessionKey : Type 0 where
  pub target_ip : ℕ
  pub nat_port : ℕ
  pub target_port : ℕ
  pub proto : ℕ
  pub pad : ℕ

pub record RevSessionVal : Type 0 where
  pub client_ip : ℕ
  pub client_port : ℕ
  pub local_port : ℕ
  pub client_mac : ℕ
  pub pad : ℕ
  pub last_seen : ℕ

unfoldable pub ForwardKey-discrete : Discrete ForwardKey
ForwardKey-discrete = hlevel ℕ_discrete

unfoldable pub SessionKey-discrete : Discrete SessionKey
SessionKey-discrete = hlevel ℕ_discrete

unfoldable pub RevSessionKey-discrete : Discrete RevSessionKey
RevSessionKey-discrete = hlevel ℕ_discrete
