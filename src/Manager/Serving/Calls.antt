-- ===== src/Manager/Serving/Calls.antt =====
-- handlers.rs: calls that go from one list of a server to another.
use xdp_nat_forward.Base.{ℕ, ◌≢◌, List, [], ◌∷◌, ◌++◌, ◌⊎◌, inl, inr, IsIn, IsIn-split}

-- The call is in one of the two lists.
abbrev pub IsAmong : ℕ × List ℕ → List (ℕ × List ℕ) → List (ℕ × List ℕ) → Type 0
IsAmong x xs ys = IsIn x xs ⊎ IsIn x ys

-- A call goes from the one list to the other.
pub moved-IsAmong :
    (x y : ℕ × List ℕ) (before after ys : List (ℕ × List ℕ))
    → IsAmong x (before ++ (y ∷ after)) ys
    → IsAmong x (before ++ after) (y ∷ ys)
moved-IsAmong x y [] after ys (inl (inl e)) = inr (inl e)
moved-IsAmong x y [] after ys (inl (inr i)) = inl i
moved-IsAmong x y (z ∷ before) after ys (inl (inl e)) = inl (inl e)
moved-IsAmong x y (z ∷ before) after ys (inl (inr i)) =
    elim (moved-IsAmong x y before after ys (inl i)) [ inl j ↦ inl (inr j) | inr j ↦ inr j ]
moved-IsAmong x y before after ys (inr i) = inr (inr i)

-- Another call than the one that goes.
pub left_first :
    (x y : ℕ × List ℕ) (before after ys : List (ℕ × List ℕ))
    → x ≢ y
    → IsAmong x (before ++ (y ∷ after)) ys
    → IsAmong x (before ++ after) ys
left_first x y before after ys n (inl i) = inl (IsIn-split x y before after n i)
left_first x y before after ys n (inr i) = inr i

pub left_second :
    (x y : ℕ × List ℕ) (before after xs : List (ℕ × List ℕ))
    → x ≢ y
    → IsAmong x xs (before ++ (y ∷ after))
    → IsAmong x xs (before ++ after)
left_second x y before after xs n (inl i) = inl i
left_second x y before after xs n (inr i) = inr (IsIn-split x y before after n i)

-- One more call in the first list.
pub more-IsAmong :
    (x y : ℕ × List ℕ) (xs ys : List (ℕ × List ℕ)) → IsAmong x xs ys → IsAmong x (y ∷ xs) ys
more-IsAmong x y xs ys (inl i) = inl (inr i)
more-IsAmong x y xs ys (inr i) = inr i
