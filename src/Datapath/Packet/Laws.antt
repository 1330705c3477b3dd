-- ===== src/Datapath/Packet/Laws.antt =====
-- Loads after stores, and the byte order.
use native.Mathlib.Nat.{pow-suc}
use xdp_nat_forward.Base.{ℕ, zero, suc, ◌+◌, ◌/◌, ◌%◌, ◌^◌, ◌≤◌, ◌<◌, ◌≡◌, ◌⊎◌, arith, refl}
use xdp_nat_forward.Datapath.Packet.{Mem, write_byte, load, store, swap16, swap32}

abbrev pub IsBytes : Mem → Type 0
IsBytes m = (i : ℕ) → m i < 256

abbrev pub Apart : ℕ → ℕ → ℕ → ℕ → Type 0
Apart w o w' o' = (o + w ≤ o') ⊎ (o' + w' ≤ o)

-- A byte outside a store keeps its value.
pub store_byte : (w o v : ℕ) (m : Mem) (i : ℕ) → (i < o) ⊎ (o + w ≤ i) → store w o v m i ≡ m i
unfolding store
store_byte zero o v m i h = refl
store_byte (suc w) o v m i h = ground (arith, store_byte w (suc o) (v / 256) m i)

load_cong :
    (w o : ℕ) (m m' : Mem) → ((i : ℕ) → o ≤ i → i < o + w → m i ≡ m' i) → load w o m ≡ load w o m'
unfolding load
load_cong zero o m m' h = refl
load_cong (suc w) o m m' h = omega (
  arith,
  h o (omega arith) (omega arith),
  load_cong w (suc o) m m' (λ i a b. h i (omega arith) (omega arith)),
)

pub load-store_ne :
    (w o w' o' v : ℕ) (m : Mem) → Apart w o w' o' → load w o (store w' o' v m) ≡ load w o m
load-store_ne w o w' o' v m h =
    load_cong w o (store w' o' v m) m (λ i a b. store_byte w' o' v m i (ground arith))

pub load-store_self : (w o v : ℕ) (m : Mem) → v < 256 ^ w → load w o (store w o v m) ≡ v
unfolding load store
load-store_self zero o v m h = omega arith
load-store_self (suc w) o v m h =
    let rest = store w (suc o) (v / 256) m in
    let high : v / 256 < 256 ^ w = omega (arith, pow-suc 256 w) in
    ground (
      arith,
      load-store_self w (suc o) (v / 256) m high,
      load_cong w (suc o) (write_byte o (v % 256) rest) rest (λ i a b. ground arith),
    )

pub store-IsBytes : (w o v : ℕ) (m : Mem) → IsBytes m → IsBytes (store w o v m)
unfolding store
store-IsBytes zero o v m h i = h i
store-IsBytes (suc w) o v m h i = ground (arith, h i, store-IsBytes w (suc o) (v / 256) m h i)

pub load-lt : (w o : ℕ) (m : Mem) → IsBytes m → load w o m < 256 ^ w
unfolding load
load-lt zero o m h = omega arith
load-lt (suc w) o m h = omega (arith, pow-suc 256 w, h o, load-lt w (suc o) m h)

pub swap16-lt : (v : ℕ) → v < 65536 → swap16 v < 65536
unfolding swap16
swap16-lt v h = omega arith

pub swap16-swap16 : (v : ℕ) → v < 65536 → swap16 (swap16 v) ≡ v
unfolding swap16
swap16-swap16 v h = omega arith

pub swap32-lt : (v : ℕ) → v < 2 ^ 32 → swap32 v < 2 ^ 32
unfolding swap32 swap16
swap32-lt v h = omega arith
