-- ===== src/Manager/Tables.antt =====
-- The `HashMap`s of handlers.rs: what insert, remove and get_mut do to all entries and to the keys.
use xdp_nat_forward.Base.{
  ℕ, ◌≡◌, ◌≢◌, ◌∙◌, sym, ap, refl, true, false, List, [], ◌∷◌, map, some, Bool-cases, ◌⊎◌, inl, inr,
  All, IsIn, Distinct, map-IsIn,
}
use xdp_nat_forward.Console.Text.{text_eq}
use xdp_nat_forward.Console.Text.Laws.{text_eq_refl, text_eq_lem}
use xdp_nat_forward.Manager.{TextMap, remove, insert, get, modify}

abbrev pub keys : {A : Type 0} → TextMap A → List (List ℕ)
keys m = map (λ r. r.0) m

apart : (j k : List ℕ) → text_eq j k ≡ false → j ≢ k
apart j k e same = absurd (no_refl (sym (text_eq_refl k) ∙ rw same at e))
  where
    no_refl : true ≡ false → ⊥
    no_refl h = absurd (cc)

module _ {A : Type 0} (P : List ℕ × A → Type 0) where
  pub remove-All : (m : TextMap A) (k : List ℕ) → All P m → All (λ r. P r × (r.0 ≢ k)) (remove m k)
  unfolding remove
  remove-All [] k h = tt
  remove-All ((j, a) ∷ m) k h = elim (Bool-cases (text_eq j k)) [
    | inl e ↦ rw e (remove-All m k h.1)
    | inr e ↦ rw e ((h.0, apart j k e), remove-All m k h.1)
  ]

  pub modify-All :
      (m : TextMap A) (k : List ℕ) (f : A → A)
      → ((j : List ℕ) (a : A) → P (j, a) → P (j, f a))
      → All P m
      → All P (modify m k f)
  unfolding modify
  modify-All [] k f g h = tt
  modify-All ((j, a) ∷ m) k f g h = elim (Bool-cases (text_eq j k)) [
    | inl e ↦ rw e (g j a h.0, modify-All m k f g h.1)
    | inr e ↦ rw e (h.0, modify-All m k f g h.1)
  ]

module _ {A : Type 0} where
  pub get-IsIn :
      (m : TextMap A) (k : List ℕ) (a : A)
      → get m k ≡ some a
      → (j : List ℕ) × IsIn (j, a) m × (text_eq j k ≡ true)
  unfolding get
  get-IsIn [] k a e = absurd (cc)
  get-IsIn ((j, b) ∷ m) k a e = elim (Bool-cases (text_eq j k)) [
    | inl h ↦ let found : some b ≡ some a = rw h at e in (j, inl (cc), h)
    | inr h ↦ let (i, w, t) = get-IsIn m k a (rw h at e) in (i, inr w, t)
  ]

  absent : (m : TextMap A) (k : List ℕ) → All (λ r. Unit {0} × (r.0 ≢ k)) m → ¬ (IsIn k (keys m))
  absent [] k h i = i
  absent (r ∷ m) k h i = elim i [ inl e ↦ h.0.1 (sym e) | inr w ↦ absent m k h.1 w ]

  all_of : (m : TextMap A) → All (λ r. Unit {0}) m
  all_of [] = tt
  all_of (r ∷ m) = (tt, all_of m)

  remove_back : (m : TextMap A) (k j : List ℕ) → IsIn j (keys (remove m k)) → IsIn j (keys m)
  unfolding remove
  remove_back [] k j i = i
  remove_back ((l, a) ∷ m) k j i = elim (Bool-cases (text_eq l k)) [
    | inl e ↦ inr (remove_back m k j (rw e at i))
    | inr e ↦ elim (rw e at i) as (λ d. (j ≡ l) ⊎ IsIn j (keys m)) [
      | inl same ↦ inl same
      | inr w ↦ inr (remove_back m k j w)
    ]
  ]

  pub remove-Distinct :
      (m : TextMap A) (k : List ℕ) → Distinct (keys m) → Distinct (keys (remove m k))
  unfolding remove
  remove-Distinct [] k h = tt
  remove-Distinct ((j, a) ∷ m) k h = elim (Bool-cases (text_eq j k)) [
    | inl e ↦ rw e (remove-Distinct m k h.1)
    | inr e ↦ rw e ((λ i. h.0 (remove_back m k j i)), remove-Distinct m k h.1)
  ]

  pub insert-Distinct :
      (m : TextMap A) (k : List ℕ) (a : A) → Distinct (keys m) → Distinct (keys (insert m k a))
  unfolding insert
  insert-Distinct m k a h =
      (absent (remove m k) k (remove-All (λ r. Unit {0}) m k (all_of m)), remove-Distinct m k h)

  pub keys-modify : (m : TextMap A) (k : List ℕ) (f : A → A) → keys (modify m k f) ≡ keys m
  unfolding modify
  keys-modify [] k f = refl
  keys-modify ((j, a) ∷ m) k f = ap (λ ks. j ∷ ks) (keys-modify m k f)

  -- With each key once, an entry is what its key finds.
  pub IsIn-get :
      (m : TextMap A) (k : List ℕ) (a : A) → Distinct (keys m) → IsIn (k, a) m → get m k ≡ some a
  unfolding get
  IsIn-get [] k a d i = absurd i
  IsIn-get ((j, b) ∷ m) k a d i = elim (Bool-cases (text_eq j k)) [
    | inl e ↦ elim i [
      | inl same ↦ let value : b ≡ a = cc in rw (e, value) refl
      | inr w ↦
          absurd (d.0 (rw (← text_eq_lem j k e) at (map-IsIn (λ (r : List ℕ × A). r.0) (k, a) m w)))
    ]
    | inr e ↦ elim i [
      | inl same ↦ let key : k ≡ j = ap (λ r. r.0) same in absurd (apart j k e (sym key))
      | inr w ↦ rw e (IsIn-get m k a d.1 w)
    ]
  ]
