-- ===== src/Datapath/Maps/Cases.antt =====
-- What a map holds after a write or an insert, by cases on the key.
use xdp_nat_forward.Base.{◌≡◌, ◌≢◌, sym, ◌∙◌, ◌⊎◌, inl, inr, some}
use xdp_nat_forward.Datapath.Maps.{HashMap}

module _ {K V : Type 0} (h : HashMap K V) (dec : Discrete K) where
  -- The value that is found is the one written, or an old one under another key.
  pub get-write_back :
      (m : h.Map) (k j : K) (v old w : V)
      → h.get m k ≡ some old
      → h.get (h.write m k v) j ≡ some w
      → ((j ≡ k) × (w ≡ v)) ⊎ ((j ≢ k) × (h.get m j ≡ some w))
  get-write_back m k j v old w present e = elim (dec j k) [
    | yes same ↦ inl (same, cc (h.get-write_self m k v old present))
    | no other ↦ inr (other, sym (h.get-write_ne m k j v other) ∙ e)
  ]

  pub get-insert_back :
      (m m' : h.Map) (k j : K) (v w : V)
      → h.insert m k v ≡ some m'
      → h.get m' j ≡ some w
      → ((j ≡ k) × (w ≡ v)) ⊎ ((j ≢ k) × (h.get m j ≡ some w))
  get-insert_back m m' k j v w done e = elim (dec j k) [
    | yes same ↦ inl (same, cc (h.get-insert_self m m' k v done))
    | no other ↦ inr (other, sym (h.get-insert_ne m m' k j v done other) ∙ e)
  ]
