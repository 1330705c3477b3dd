-- ===== src/Console/Sets.antt =====
-- Lists of strings in App.tsx: `includes`, `filter`, `some`, and the insertion into a `Set` that
-- keeps the order of the first insertions.
use xdp_nat_forward.Base.{
  ℕ, ◌≡◌, refl, arith, List, [], ◌∷◌, ◌++◌, Bool, true, false, not, ◌&&◌, ◌||◌, if◌then◌else◌,
  Bool-cases, inl, inr,
}
use xdp_nat_forward.Console.Text.{text_eq}
use xdp_nat_forward.Console.Text.Laws.{text_eq_lem}

-- `xs.includes(x)`
abbrev pub includes : List (List ℕ) → List ℕ → Bool
includes [] x = false
includes (y ∷ ys) x = text_eq y x || includes ys x

-- `xs.some(p)`
abbrev pub any {ℓ} : {A : Type ℓ} → (A → Bool) → List A → Bool
any p [] = false
any p (y ∷ ys) = p y || any p ys

-- `xs.filter(p)`
abbrev pub filter {ℓ} : {A : Type ℓ} → (A → Bool) → List A → List A
filter p [] = []
filter p (y ∷ ys) = let rest = filter p ys in if p y then y ∷ rest else rest

-- `set.add(x)`
unfoldable pub set_add : List (List ℕ) → List ℕ → List (List ℕ)
set_add s x = if includes s x then s else s ++ (x ∷ [])

-- `set` after the elements of a list are added one by one.
unfoldable pub add_all : List (List ℕ) → List (List ℕ) → List (List ℕ)
add_all s [] = s
add_all s (x ∷ xs) = add_all (set_add s x) xs

-- No element of the list occurs twice.
abbrev pub is_distinct : List (List ℕ) → Bool
is_distinct [] = true
is_distinct (x ∷ xs) = not (includes xs x) && is_distinct xs

pub text_eq_comm : (s t : List ℕ) → text_eq s t ≡ text_eq t s
text_eq_comm [] [] = refl
text_eq_comm [] (d ∷ t) = refl
text_eq_comm (c ∷ s) [] = refl
text_eq_comm (c ∷ s) (d ∷ t) = ground (arith, text_eq_comm s t)

pub includes-append :
    (xs ys : List (List ℕ)) (x : List ℕ) → includes (xs ++ ys) x ≡ includes xs x || includes ys x
includes-append [] ys x = refl
includes-append (z ∷ xs) ys x = ground (arith, includes-append xs ys x)

-- A text that is included stands for each text equal to it.
pub includes-at :
    (xs : List (List ℕ)) (x y : List ℕ) → text_eq x y ≡ true → includes xs x ≡ includes xs y
includes-at xs x y h = rw (text_eq_lem x y h) refl

pub includes-set_add :
    (s : List (List ℕ)) (x y : List ℕ) → includes (set_add s x) y ≡ includes s y || text_eq x y
unfolding set_add
includes-set_add s x y = elim (Bool-cases (includes s x)) [
  | inl e ↦ elim (Bool-cases (text_eq x y)) [
    | inl h ↦ ground (arith, e, h, includes-at s x y h)
    | inr h ↦ ground (arith, e, h)
  ]
  | inr e ↦ ground (arith, e, includes-append s (x ∷ []) y)
]

pub includes-add_all :
    (s xs : List (List ℕ)) (y : List ℕ) → includes (add_all s xs) y ≡ includes s y || includes xs y
unfolding add_all
includes-add_all s [] y = ground arith
includes-add_all s (x ∷ xs) y =
    ground (arith, includes-add_all (set_add s x) xs y, includes-set_add s x y)

append-distinct :
    (s : List (List ℕ)) (x : List ℕ)
    → is_distinct s ≡ true
    → includes s x ≡ false
    → is_distinct (s ++ (x ∷ [])) ≡ true
append-distinct [] x h k = refl
append-distinct (y ∷ s) x h k =
    ground (arith, append-distinct s x, h, k, includes-append s (x ∷ []) y, text_eq_comm x y)

pub set_add-distinct :
    (s : List (List ℕ)) (x : List ℕ) → is_distinct s ≡ true → is_distinct (set_add s x) ≡ true
unfolding set_add
set_add-distinct s x h = elim (Bool-cases (includes s x)) [
  | inl e ↦ ground (arith, e, h)
  | inr e ↦ rw e (append-distinct s x h e)
]

pub add_all-distinct :
    (s xs : List (List ℕ)) → is_distinct s ≡ true → is_distinct (add_all s xs) ≡ true
unfolding add_all
add_all-distinct s [] h = h
add_all-distinct s (x ∷ xs) h = add_all-distinct (set_add s x) xs (set_add-distinct s x h)
