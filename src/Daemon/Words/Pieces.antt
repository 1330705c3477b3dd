-- ===== src/Daemon/Words/Pieces.antt =====
-- Joining texts and splitting them.
use xdp_nat_forward.Base.{ℕ, ◌≡◌, ◌∙◌, ap, refl, Bool, true, false, not, List, [], ◌∷◌, ◌++◌, All}
use xdp_nat_forward.Console.Text.{is_empty}
use xdp_nat_forward.Console.Sets.{filter}
use xdp_nat_forward.Daemon.Words.{split, split_whitespace, is_whitespace, join}

module _ (p : ℕ → Bool) where
  -- No character of the text is a separator.
  abbrev pub IsPlain : List ℕ → Type 0
  IsPlain s = All (λ c. p c ≡ false) s

  split-plain : (x : List ℕ) → IsPlain x → split p x ≡ x ∷ []
  unfolding split
  split-plain [] h = refl
  split-plain (c ∷ x) h = rw (h.0, split-plain x h.1) refl

  split-append :
      (x : List ℕ) (c : ℕ) (s : List ℕ)
      → IsPlain x
      → p c ≡ true
      → split p (x ++ (c ∷ s)) ≡ x ∷ split p s
  unfolding split
  split-append [] c s h k = rw k refl
  split-append (d ∷ x) c s h k = rw (h.0, split-append x c s h.1 k) refl

  pub split-join :
      (c : ℕ) (x : List ℕ) (xs : List (List ℕ))
      → p c ≡ true
      → All IsPlain (x ∷ xs)
      → split p (join c (x ∷ xs)) ≡ x ∷ xs
  unfolding join
  split-join c x [] k h = split-plain x h.0
  split-join c x (y ∷ xs) k h =
      split-append x c (join c (y ∷ xs)) h.0 k ∙ ap (λ ys. x ∷ ys) (split-join c y xs k h.1)

-- A word: no white space, and not empty.
pub record IsWord (s : List ℕ) : Type 0 where
  pub plain : IsPlain is_whitespace s
  pub nonempty : is_empty s ≡ false

filter-words : (xs : List (List ℕ)) → All IsWord xs → filter (λ x. not (is_empty x)) xs ≡ xs
filter-words [] h = refl
filter-words (x ∷ xs) h = rw (h.0.nonempty, filter-words xs h.1) refl

words-IsPlain : (xs : List (List ℕ)) → All IsWord xs → All (IsPlain is_whitespace) xs
words-IsPlain [] h = tt
words-IsPlain (x ∷ xs) h = (h.0.plain, words-IsPlain xs h.1)

-- A line of words with single spaces has these words.
pub split_whitespace-join :
    (x : List ℕ) (xs : List (List ℕ))
    → All IsWord (x ∷ xs)
    → split_whitespace (join b' ' (x ∷ xs)) ≡ x ∷ xs
unfolding split_whitespace is_whitespace
split_whitespace-join x xs h =
    ap (filter (λ y. not (is_empty y)))
      (split-join is_whitespace b' ' x xs (is_space) (words-IsPlain (x ∷ xs) h))
    ∙ filter-words (x ∷ xs) h
  where
    is_space : is_whitespace b' ' ≡ true
    is_space = refl
