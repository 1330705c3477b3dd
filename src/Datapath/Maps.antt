-- ===== src/Datapath/Maps.antt =====
-- The BPF hash maps that forward-ebpf/src/main.rs and forward/src use through aya. They are not
-- the repository's code: a map is an interface, with the documented behaviour of its calls.
pub mod Cases
pub mod Total
pub mod Iteration
pub mod Listed
use xdp_nat_forward.Base.{ℕ, ◌≡◌, ◌≢◌, Option, none, some, List}
use xdp_nat_forward.Datapath.Types.{
  ForwardKey, ForwardVal, SessionKey, SessionVal, RevSessionKey, RevSessionVal,
}

pub record HashMap (K V : Type 0) : Type 1 where
  pub Map : Type 0
  pub get : Map → K → Option V
  -- A write through the pointer that `get_ptr_mut` returns for a key.
  pub write : Map → K → V → Map
  -- `insert` with flags 0, and `remove`; `none` is an error, which changes nothing.
  pub insert : Map → K → V → Option Map
  pub remove : Map → K → Option Map
  pub get-write_self : (m : Map) (k : K) (v w : V) → get m k ≡ some w → get (write m k v) k ≡ some v
  pub get-write_ne : (m : Map) (k j : K) (v : V) → j ≢ k → get (write m k v) j ≡ get m j
  pub get-insert_self : (m m' : Map) (k : K) (v : V) → insert m k v ≡ some m' → get m' k ≡ some v
  pub get-insert_ne :
      (m m' : Map) (k j : K) (v : V) → insert m k v ≡ some m' → j ≢ k → get m' j ≡ get m j
  pub get-remove_self : (m m' : Map) (k : K) → remove m k ≡ some m' → get m' k ≡ none
  pub get-remove_ne : (m m' : Map) (k j : K) → remove m k ≡ some m' → j ≢ k → get m' j ≡ get m j
  pub remove_absent : (m : Map) (k : K) → remove m k ≡ none → get m k ≡ none

-- `FORWARD_MAP`, `SESSION_MAP` and `REVERSE_SESSION_MAP`.
pub record Bpf : Type 1 where
  pub forward : HashMap ForwardKey ForwardVal
  pub session : HashMap SessionKey SessionVal
  pub reverse : HashMap RevSessionKey RevSessionVal

-- The contents of the three maps.
pub record Tables (bpf : Bpf) : Type 0 where
  pub forward_map : HashMap.Map bpf.forward
  pub session_map : HashMap.Map bpf.session
  pub reverse_session_map : HashMap.Map bpf.reverse
