-- ===== src/Datapath/Maps/Total.antt =====
-- A map that is never full, as a function: the interface of the BPF maps can be met.
use xdp_nat_forward.Base.{◌≡◌, ◌≢◌, refl, ite, if_pos, if_neg, Option, none, some}
use xdp_nat_forward.Datapath.Types.{
  ForwardKey-discrete, SessionKey-discrete, RevSessionKey-discrete,
}
use xdp_nat_forward.Datapath.Maps.{HashMap, Bpf}

module _ {K V : Type 0} (dec : Discrete K) where
  abbrev pub update : (K → Option V) → K → Option V → K → Option V
  update m k v j = ite (dec j k) v (m j)

  abbrev pub remove_present : (K → Option V) → K → Option V → Option (K → Option V)
  remove_present m k none = none
  remove_present m k (some v) = some (update m k none)

  pub update_self : (m : K → Option V) (k : K) (v : Option V) → update m k v k ≡ v
  update_self m k v = if_pos (dec k k) refl v (m k)

  pub update_ne : (m : K → Option V) (k j : K) (v : Option V) → j ≢ k → update m k v j ≡ m j
  update_ne m k j v h = if_neg (dec j k) h v (m j)

  pub get-insert_self :
      (m m' : K → Option V) (k : K) (v : V)
      → ◌≡◌ {A = Option (K → Option V)} (some (update m k (some v))) (some m')
      → m' k ≡ some v
  get-insert_self m m' k v e =
      let same : update m k (some v) ≡ m' = cc in rw (← same) (update_self m k (some v))

  pub get-insert_ne :
      (m m' : K → Option V) (k j : K) (v : V)
      → ◌≡◌ {A = Option (K → Option V)} (some (update m k (some v))) (some m')
      → j ≢ k
      → m' j ≡ m j
  get-insert_ne m m' k j v e h =
      let same : update m k (some v) ≡ m' = cc in rw (← same) (update_ne m k j (some v) h)

  removed :
      (m m' : K → Option V) (k : K) (o : Option V)
      → remove_present m k o ≡ some m'
      → update m k none ≡ m'
  removed m m' k none e = cc
  removed m m' k (some v) e = cc

  pub get-remove_self :
      (m m' : K → Option V) (k : K) → remove_present m k (m k) ≡ some m' → m' k ≡ none
  get-remove_self m m' k e = rw (← removed m m' k (m k) e) (update_self m k none)

  pub get-remove_ne :
      (m m' : K → Option V) (k j : K) → remove_present m k (m k) ≡ some m' → j ≢ k → m' j ≡ m j
  get-remove_ne m m' k j e h = rw (← removed m m' k (m k) e) (update_ne m k j none h)

  pub remove_absent :
      (m : K → Option V) (k : K) (o : Option V) → remove_present m k o ≡ none → o ≡ none
  remove_absent m k none e = refl
  remove_absent m k (some v) e = cc

  abbrev pub total_map : HashMap K V
  total_map = record {
    Map = K → Option V;
    get = λ m k. m k;
    write = λ m k v. update m k (some v);
    insert = λ m k v. some (update m k (some v));
    remove = λ m k. remove_present m k (m k);
    get-write_self = λ m k v w e. update_self m k (some v);
    get-write_ne = λ m k j v h. update_ne m k j (some v) h;
    get-insert_self = get-insert_self;
    get-insert_ne = get-insert_ne;
    get-remove_self = get-remove_self;
    get-remove_ne = get-remove_ne;
    remove_absent = λ m k. remove_absent m k (m k);
  }

abbrev pub total_maps : Bpf
total_maps = record {
  forward = total_map ForwardKey-discrete;
  session = total_map SessionKey-discrete;
  reverse = total_map RevSessionKey-discrete;
}
