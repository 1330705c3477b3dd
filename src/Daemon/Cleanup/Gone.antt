-- ===== src/Daemon/Cleanup/Gone.antt =====
-- What a map holds after a list of keys is removed.
use xdp_nat_forward.Base.{
  ◌≡◌, ◌≢◌, ◌∙◌, refl, inl, inr, none, some, List, [], ◌∷◌, IsIn, Option-cases, dec_IsIn,
}
use xdp_nat_forward.Datapath.Maps.{HashMap}
use xdp_nat_forward.Datapath.Session.{or_keep}
use xdp_nat_forward.Daemon.Cleanup.{remove_all}

module _ {K V : Type 0} (h : HashMap K V) (dec : Discrete K) where
  -- One removal, whether it fails or not.
  pub get-remove_self : (m : h.Map) (k : K) → h.get (or_keep (h.remove m k) m) k ≡ none
  get-remove_self m k = elim (Option-cases (h.remove m k)) [
    | inl e ↦ rw e (h.remove_absent m k e)
    | inr (m', e) ↦ rw e (h.get-remove_self m m' k e)
  ]

  pub get-remove_ne : (m : h.Map) (k j : K) → j ≢ k → h.get (or_keep (h.remove m k) m) j ≡ h.get m j
  get-remove_ne m k j n = elim (Option-cases (h.remove m k)) [
    | inl e ↦ rw e refl
    | inr (m', e) ↦ rw e (h.get-remove_ne m m' k j e n)
  ]

  stays_gone :
      (ks : List K) (m : h.Map) (j : K) → h.get m j ≡ none → h.get (remove_all h m ks) j ≡ none
  unfolding remove_all
  stays_gone [] m j e = e
  stays_gone (k ∷ ks) m j e = elim (dec j k) [
    | yes same ↦ stays_gone ks _ j (rw same (get-remove_self m k))
    | no other ↦ stays_gone ks _ j (get-remove_ne m k j other ∙ e)
  ]

  pub get-remove_all_in :
      (ks : List K) (m : h.Map) (j : K) → IsIn j ks → h.get (remove_all h m ks) j ≡ none
  unfolding remove_all
  get-remove_all_in [] m j i = absurd i
  get-remove_all_in (k ∷ ks) m j i = elim i [
    | inl same ↦ stays_gone ks _ j (rw same (get-remove_self m k))
    | inr later ↦ get-remove_all_in ks _ j later
  ]

  pub get-remove_all_out :
      (ks : List K) (m : h.Map) (j : K) → ¬ (IsIn j ks) → h.get (remove_all h m ks) j ≡ h.get m j
  unfolding remove_all
  get-remove_all_out [] m j n = refl
  get-remove_all_out (k ∷ ks) m j n =
      get-remove_all_out ks _ j (λ i. n (inr i)) ∙ get-remove_ne m k j (λ e. n (inl e))

  -- What is still there was there, under a key that was not removed.
  pub get-remove_all_back :
      (ks : List K) (m : h.Map) (j : K) (v : V)
      → h.get (remove_all h m ks) j ≡ some v
      → ¬ (IsIn j ks) × (h.get m j ≡ some v)
  get-remove_all_back ks m j v e = elim (dec_IsIn dec j ks) [
    | inl i ↦ let gone = get-remove_all_in ks m j i in cc
    | inr n ↦ (n, cc (get-remove_all_out ks m j n))
  ]
