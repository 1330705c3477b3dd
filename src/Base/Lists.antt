-- ===== src/Base/Lists.antt =====
-- Lists measured by native numbers, and predicates on all elements.
use Prim.Native.Nat.{ℕ, suc, ◌+◌}
use mathlib.Core.Path.{◌≡◌, refl, ap, sym}
use mathlib.Core.Logic.{◌⊎◌, ◌≢◌, inl, inr}
use mathlib.Core.List.{List, [], ◌∷◌, ◌++◌, map}
use native.Mathlib.Omega.{arith}
use mathlib.Core.Bool.{Bool, true, false}
use xdp_nat_forward.Base.Tests.{if◌then◌else◌}

module _ {ℓ} {A : Type ℓ} where
  abbrev pub length : List A → ℕ
  length [] = 0
  length (x ∷ xs) = suc (length xs)

  pub length-append : (xs ys : List A) → length (xs ++ ys) ≡ length xs + length ys
  length-append [] ys = omega arith
  length-append (x ∷ xs) ys = omega (arith, length-append xs ys)

module _ {ℓ κ} {A : Type ℓ} (P : A → Type κ) where
  abbrev pub All : List A → Type κ
  All [] = Unit
  All (x ∷ xs) = P x × All xs

  pub append-All : (xs ys : List A) → All xs → All ys → All (xs ++ ys)
  append-All [] ys h k = k
  append-All (x ∷ xs) ys h k = (h.0, append-All xs ys h.1 k)

  pub All-if :
      (b : Bool) (xs ys : List A)
      → (b ≡ true → All xs)
      → (b ≡ false → All ys)
      → All (if b then xs else ys)
  All-if true xs ys h k = h refl
  All-if false xs ys h k = k refl

module _ {A : Type 0} (P Q : A → Type 0) where
  pub All-All : (xs : List A) → ((x : A) → P x → Q x) → All P xs → All Q xs
  All-All [] f h = tt
  All-All (x ∷ xs) f h = (f x h.0, All-All xs f h.1)

module _ {A B : Type 0} (P : B → Type 0) (f : A → B) where
  pub map-All : (xs : List A) → ((x : A) → P (f x)) → All P (map f xs)
  map-All [] h = tt
  map-All (x ∷ xs) h = (h x, map-All xs h)

module _ {A : Type 0} where
  -- The element stands somewhere in the list.
  abbrev pub IsIn : A → List A → Type 0
  IsIn a [] = ⊥
  IsIn a (x ∷ xs) = (a ≡ x) ⊎ IsIn a xs

  pub dec_IsIn : Discrete A → (a : A) (xs : List A) → IsIn a xs ⊎ ¬ (IsIn a xs)
  dec_IsIn dec a [] = inr (λ h. absurd h)
  dec_IsIn dec a (x ∷ xs) = elim (dec a x) [
    | yes h ↦ inl (inl h)
    | no h ↦ elim (dec_IsIn dec a xs) [
      | inl k ↦ inl (inr k)
      | inr k ↦ inr (λ w. elim w [ inl e ↦ h e | inr i ↦ k i ])
    ]
  ]

  pub All-IsIn : (P : A → Type 0) (xs : List A) (a : A) → All P xs → IsIn a xs → P a
  All-IsIn P [] a h i = absurd i
  All-IsIn P (x ∷ xs) a h i = elim i [ inl e ↦ rw e h.0 | inr k ↦ All-IsIn P xs a h.1 k ]

  -- One element less, which is another one.
  pub IsIn-split : (a x : A) (xs ys : List A) → a ≢ x → IsIn a (xs ++ (x ∷ ys)) → IsIn a (xs ++ ys)
  IsIn-split a x [] ys n i = elim i [ inl e ↦ absurd (n e) | inr k ↦ k ]
  IsIn-split a x (z ∷ xs) ys n i = elim i [ inl e ↦ inl e | inr k ↦ inr (IsIn-split a x xs ys n k) ]

  pub IsIn-append_back : (a : A) (xs ys : List A) → IsIn a (xs ++ ys) → IsIn a xs ⊎ IsIn a ys
  IsIn-append_back a [] ys h = inr h
  IsIn-append_back a (x ∷ xs) ys h = elim h [
    | inl e ↦ inl (inl e)
    | inr i ↦ elim (IsIn-append_back a xs ys i) [ inl l ↦ inl (inr l) | inr r ↦ inr r ]
  ]

  pub IsIn-append_left : (a : A) (xs ys : List A) → IsIn a xs → IsIn a (xs ++ ys)
  IsIn-append_left a [] ys h = absurd h
  IsIn-append_left a (x ∷ xs) ys h = elim h [
    | inl e ↦ inl e
    | inr i ↦ inr (IsIn-append_left a xs ys i)
  ]

  pub IsIn-append_last : (a : A) (xs : List A) → IsIn a (xs ++ (a ∷ []))
  IsIn-append_last a [] = inl refl
  IsIn-append_last a (x ∷ xs) = inr (IsIn-append_last a xs)

  -- No element stands twice in the list.
  abbrev pub Distinct : List A → Type 0
  Distinct [] = Unit
  Distinct (x ∷ xs) = ¬ (IsIn x xs) × Distinct xs

  pub append-Distinct :
      (xs : List A) (a : A) → Distinct xs → ¬ (IsIn a xs) → Distinct (xs ++ (a ∷ []))
  append-Distinct [] a d n = ((λ h. absurd h), tt)
  append-Distinct (x ∷ xs) a d n = (
    λ h. elim (IsIn-append_back x xs (a ∷ []) h) [
      | inl i ↦ d.0 i
      | inr (inl e) ↦ n (inl (sym e))
      | inr (inr i) ↦ absurd i
    ],
    append-Distinct xs a d.1 (λ i. n (inr i)),
  )

-- What a list of images stands for.
module _ {A B : Type 0} (f : A → B) where
  pub IsIn-map : (b : B) (xs : List A) → IsIn b (map f xs) → (a : A) × (IsIn a xs × (b ≡ f a))
  IsIn-map b [] h = absurd h
  IsIn-map b (x ∷ xs) h = elim h [
    | inl e ↦ (x, (inl refl, e))
    | inr i ↦ let (a, (w, e)) = IsIn-map b xs i in (a, (inr w, e))
  ]

  pub map-IsIn : (a : A) (xs : List A) → IsIn a xs → IsIn (f a) (map f xs)
  map-IsIn a [] h = absurd h
  map-IsIn a (x ∷ xs) h = elim h [ inl e ↦ inl (ap f e) | inr i ↦ inr (map-IsIn a xs i) ]
