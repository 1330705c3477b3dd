-- ===== src/Console/Audit/Signature.antt =====
-- The text of a rule's signature determines the rule, but for its MAC address.
use xdp_nat_forward.Base.{
  ℕ, ◌≡◌, sym, ap, refl, arith, List, [], ◌∷◌, ◌++◌, ◌==◌, All, Bool-cases, inl, inr,
}
use xdp_nat_forward.Console.Text.{codes, show}
use xdp_nat_forward.Console.Text.Laws.{IsDigit, show-All, show_injective}
use xdp_nat_forward.Console.State.{ForwardRule}
use xdp_nat_forward.Console.Audit.{key_of, rule_key, proto_str}

tail_or : List ℕ → List ℕ
tail_or [] = []
tail_or (c ∷ s) = s

head_or : List ℕ → ℕ
head_or [] = 0
head_or (c ∷ s) = c

nil_not_cons : (c : ℕ) (s : List ℕ) → [] ≡ c ∷ s → ⊥
nil_not_cons c s h = absurd (cc)

-- Digits in front of the first colon.
split_first :
    (a b x y : List ℕ)
    → All IsDigit a
    → All IsDigit b
    → a ++ (b':' ∷ x) ≡ b ++ (b':' ∷ y)
    → (a ≡ b) × (x ≡ y)
unfolding tail_or head_or
split_first [] [] x y h k e = (refl, ap tail_or e)
split_first [] (d ∷ b) x y h k e = absurd (omega (arith, k.0.0, k.0.1, ap head_or e))
split_first (c ∷ a) [] x y h k e = absurd (omega (arith, h.0.0, h.0.1, ap head_or e))
split_first (c ∷ a) (d ∷ b) x y h k e =
    let r = split_first a b x y h.1 k.1 (ap tail_or e) in (λ i. head_or (e i) ∷ r.0 i, r.1)

-- No colon is among digits.
digits_no_colon : (a x d : List ℕ) → All IsDigit d → d ≡ a ++ (b':' ∷ x) → ⊥
unfolding tail_or head_or
digits_no_colon [] x [] h e = nil_not_cons b':' x e
digits_no_colon (c ∷ a) x [] h e = nil_not_cons c (a ++ (b':' ∷ x)) e
digits_no_colon [] x (d ∷ ds) h e = omega (arith, h.0.1, ap head_or e)
digits_no_colon (c ∷ a) x (d ∷ ds) h e = digits_no_colon a x ds h.1 (ap tail_or e)

-- Digits behind the last colon.
split_last :
    (a b x y : List ℕ)
    → All IsDigit x
    → All IsDigit y
    → a ++ (b':' ∷ x) ≡ b ++ (b':' ∷ y)
    → (a ≡ b) × (x ≡ y)
unfolding tail_or head_or
split_last [] [] x y h k e = (refl, ap tail_or e)
split_last [] (d ∷ b) x y h k e = absurd (digits_no_colon b y x h (ap tail_or e))
split_last (c ∷ a) [] x y h k e = absurd (digits_no_colon a x y k (sym (ap tail_or e)))
split_last (c ∷ a) (d ∷ b) x y h k e =
    let r = split_last a b x y h k (ap tail_or e) in (λ i. head_or (e i) ∷ r.0 i, r.1)

proto_split :
    (r q : ForwardRule) (x y : List ℕ)
    → proto_str r ++ (b':' ∷ x) ≡ proto_str q ++ (b':' ∷ y)
    → (proto_str r ≡ proto_str q) × (x ≡ y)
unfolding tail_or head_or
proto_split r q x y e = elim (Bool-cases (r.proto == 6)) [
  | inl a ↦ elim (Bool-cases (q.proto == 6)) [
    | inl b ↦ (rw (a, b) refl, ap (λ s. tail_or (tail_or (tail_or (tail_or s)))) (rw (a, b) at e))
    | inr b ↦ absurd (tcp_not_udp x y (rw (a, b) at e))
  ]
  | inr a ↦ elim (Bool-cases (q.proto == 6)) [
    | inl b ↦ absurd (tcp_not_udp y x (sym (rw (a, b) at e)))
    | inr b ↦ (rw (a, b) refl, ap (λ s. tail_or (tail_or (tail_or (tail_or s)))) (rw (a, b) at e))
  ]
]
  where
    tcp_not_udp : (x y : List ℕ) → codes "tcp" ++ (b':' ∷ x) ≡ codes "udp" ++ (b':' ∷ y) → ⊥
    tcp_not_udp x y e = omega (arith, ap head_or e)

-- Rules with one signature have the same protocol tag, ports and target address, also when an
-- address has a colon in it.
pub rule_key_injective :
    (r q : ForwardRule)
    → rule_key r ≡ rule_key q
    → (proto_str r ≡ proto_str q)
      × (r.local_port ≡ q.local_port)
      × (r.forward_ip ≡ q.forward_ip)
      × (r.forward_port ≡ q.forward_port)
unfolding key_of
rule_key_injective r q e =
    let a = proto_split r q _ _ e in
    let b =
      split_first (show r.local_port) (show q.local_port) _ _ (show-All r.local_port)
        (show-All q.local_port) a.1 in
    let c =
      split_last r.forward_ip q.forward_ip (show r.forward_port) (show q.forward_port)
        (show-All r.forward_port) (show-All q.forward_port) b.1 in
    (
      a.0,
      show_injective r.local_port q.local_port b.0,
      c.0,
      show_injective r.forward_port q.forward_port c.1,
    )
