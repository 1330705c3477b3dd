-- ===== src/Datapath/Maps/Iteration.antt =====
-- The maps as the daemon reads them: `iter` of aya's HashMap, which walks the keys and looks each up.
-- An item is `none` where the kernel's call fails.
use xdp_nat_forward.Base.{◌≡◌, ◌⊎◌, Option, none, some, List, IsIn}
use xdp_nat_forward.Datapath.Maps.{HashMap}

pub record Iteration {K V : Type 0} (h : HashMap K V) : Type 0 where
  pub iter : h.Map → List (Option (K × V))
  -- What is listed is there.
  pub iter_sound : (m : h.Map) (k : K) (v : V) → IsIn (some (k, v)) (iter m) → h.get m k ≡ some v
  -- What is there is listed, unless an item fails.
  pub iter_complete :
      (m : h.Map) (k : K) (v : V)
      → h.get m k ≡ some v
      → IsIn (some (k, v)) (iter m) ⊎ IsIn none (iter m)
