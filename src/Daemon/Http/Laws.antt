-- ===== src/Daemon/Http/Laws.antt =====
-- forward/src/http.rs: which requests are carried out.
use xdp_nat_forward.Base.{
  ℕ, ◌+◌, ◌≤◌, ◌≡◌, ◌≢◌, ◌↔◌, ap, sym, refl, arith, Bool, true, false, Option, none, some, List, [],
  ◌∷◌, length, bit_xor, bit_or, bit_xor-zero, bit_xor_self, bit_or-zero, ◌==◌, Bool-cases, inl, inr,
}
use xdp_nat_forward.Datapath.Types.{ForwardKey, ForwardVal}
use xdp_nat_forward.Datapath.Maps.{HashMap}
use xdp_nat_forward.Datapath.Maps.Iteration.{Iteration}
use xdp_nat_forward.Daemon.Words.{parse_u64}
use xdp_nat_forward.Daemon.Rules.{RulesFile}
use xdp_nat_forward.Daemon.Service.{State}
use xdp_nat_forward.Daemon.Http.{
  differences, constant_time_eq, signed_data, Crypto, compare_signature, check_time,
  verify_signature, Call, Request, unauthorized, run_call, signed_by, is_authorized, handle,
  get_rules, add_rule, delete_rule, post_timeout,
}

differences-zero :
    (acc : ℕ) (a b : List ℕ) → length a ≡ length b → differences acc a b ≡ 0 → (acc ≡ 0) × (a ≡ b)
differences-zero acc [] [] h e = (e, refl)
differences-zero acc [] (y ∷ b) h e = absurd (omega (arith, h))
differences-zero acc (x ∷ a) [] h e = absurd (omega (arith, h))
differences-zero acc (x ∷ a) (y ∷ b) h e =
    let (p, q) = differences-zero (bit_or acc (bit_xor x y)) a b (omega (arith, h)) e in
    let (r, s) = bit_or-zero acc (bit_xor x y) p in (r, cons_lem (bit_xor-zero x y s) q)
  where
    cons_lem : {x y : ℕ} {a b : List ℕ} → x ≡ y → a ≡ b → x ∷ a ≡ y ∷ b
    cons_lem p q = cc

differences_self : (a : List ℕ) → differences 0 a a ≡ 0
differences_self [] = refl
differences_self (x ∷ a) = rw (bit_xor_self x) (differences_self a)

-- The comparison that reads both slices to the end tells equality.
pub constant_time_eq_iff : (a b : List ℕ) → (constant_time_eq a b ≡ true) ↔ (a ≡ b)
unfolding constant_time_eq
constant_time_eq_iff a b = (
  λ h. elim (Bool-cases (length a == length b)) [
    | inl e ↦ (differences-zero 0 a b (ground (arith, e)) (ground (arith, (rw e at h)))).1
    | inr e ↦ absurd (false_not_true (rw e at h))
  ],
  λ e. rw e (ground (arith, differences_self b)),
)
  where
    false_not_true : false ≡ true → ⊥
    false_not_true k = absurd (cc)

-- The timestamp is a number within 300 seconds of the clock, and the signature is the HMAC of the
-- timestamp, the method and the path under the secret.
pub record IsSigned (crypto : Crypto) (clock : Option ℕ)
    (secret timestamp method path signature : List ℕ) : Type 0 where
  pub ts : ℕ
  pub now : ℕ
  pub mac : List ℕ
  pub timestamp_is : parse_u64 timestamp ≡ some ts
  pub clock_is : clock ≡ some now
  pub not_old : now ≤ ts + 300
  pub not_early : ts ≤ now + 300
  pub signature_is : crypto.hex_decode signature ≡ some mac
  pub hmac_is : crypto.hmac secret (signed_data timestamp method path) ≡ some mac

check_time-true :
    (t c : Option ℕ) (valid : Bool)
    → check_time t c valid ≡ true
    → (ts : ℕ) × (now : ℕ) × (t ≡ some ts)
      × (c ≡ some now)
      × (now ≤ ts + 300)
      × (ts ≤ now + 300)
      × (valid ≡ true)
check_time-true none c valid h = absurd (cc)
check_time-true (some ts) none valid h = absurd (cc)
check_time-true (some ts) (some now) valid h =
    (ts, now, refl, refl, ground (arith, h), ground (arith, h), ground (arith, h))

compare_signature-true :
    (s e : Option (List ℕ))
    → compare_signature s e ≡ true
    → (mac : List ℕ) × (s ≡ some mac) × (e ≡ some mac)
compare_signature-true none e h = absurd (cc)
compare_signature-true (some s) none h = absurd (cc)
compare_signature-true (some s) (some e) h =
    (s, refl, ap (λ x. some x) (sym ((constant_time_eq_iff s e).0 h)))

module _ (crypto : Crypto) (clock : Option ℕ)
    (secret timestamp method path signature : List ℕ) where
  accept :
      verify_signature crypto clock secret timestamp method path signature ≡ true
      → IsSigned crypto clock secret timestamp method path signature
  unfolding verify_signature
  accept h =
      let (ts, now, a, b, c, d, e) = check_time-true (parse_u64 timestamp) clock _ h in
      let (mac, f, g) = compare_signature-true _ _ e in
      record {
        ts = ts;
        now = now;
        mac = mac;
        timestamp_is = a;
        clock_is = b;
        not_old = c;
        not_early = d;
        signature_is = f;
        hmac_is = g;
      }

  verify :
      IsSigned crypto clock secret timestamp method path signature
      → verify_signature crypto clock secret timestamp method path signature ≡ true
  unfolding verify_signature
  verify s =
      rw (s.timestamp_is, s.clock_is, s.signature_is, s.hmac_is)
        (ground (arith, (constant_time_eq_iff s.mac s.mac).1 refl, s.not_old, s.not_early))

  -- A signature is accepted if and only if it is that of the request's timestamp, method and path and
  -- the timestamp is within 300 seconds of the clock.
  pub verify_signature_iff :
      (verify_signature crypto clock secret timestamp method path signature ≡ true)
      ↔ IsSigned crypto clock secret timestamp method path signature
  verify_signature_iff = (accept, verify)

-- The two calls have one method and one path, and differ at most in their bodies.
abbrev pub IsSameRoute : Call → Call → Type 0
IsSameRoute get_rules get_rules = Unit
IsSameRoute (add_rule _ _ _ _ _) (add_rule _ _ _ _ _) = Unit
IsSameRoute (delete_rule p n) (delete_rule q m) = (p ≡ q) × (n ≡ m)
IsSameRoute (post_timeout _ _) (post_timeout _ _) = Unit
IsSameRoute _ _ = ⊥

signed_by-true :
    (crypto : Crypto) (clock : Option ℕ) (secret method path : List ℕ) (t s : Option (List ℕ))
    → signed_by crypto clock secret method path t s ≡ true
    → (timestamp : List ℕ) × (signature : List ℕ) × (t ≡ some timestamp)
      × (s ≡ some signature)
      × IsSigned crypto clock secret timestamp method path signature
signed_by-true crypto clock secret method path none s h = absurd (cc)
signed_by-true crypto clock secret method path (some timestamp) none h = absurd (cc)
signed_by-true crypto clock secret method path (some timestamp) (some signature) h =
    (timestamp, signature, refl, refl, accept crypto clock secret timestamp method path signature h)

module _ (forward_map : HashMap ForwardKey ForwardVal) (iteration : Iteration forward_map)
    (file : RulesFile) (crypto : Crypto) (secret : List ℕ) (has_path : Bool) where
  -- A request that is answered by anything but 401 and an unchanged state is signed.
  pub handle-IsSigned :
      (clock : Option ℕ) (req : Request) (s : State forward_map iteration file)
      → handle forward_map iteration file crypto clock secret has_path req s ≢ (unauthorized, s)
      → (timestamp : List ℕ) × (signature : List ℕ) × (req.timestamp ≡ some timestamp)
        × (req.signature ≡ some signature)
        × IsSigned crypto clock secret timestamp req.method req.path signature
  unfolding handle
  handle-IsSigned clock req s h = elim (Bool-cases (is_authorized crypto clock secret req)) [
    | inl e ↦ signed_by-true crypto clock secret req.method req.path req.timestamp req.signature e
    | inr e ↦ absurd (h (rw e refl))
  ]

  -- The signature does not cover the body: once a request is signed, a request with another body on the
  -- same route, under the same headers, is carried out, at every later clock within 300 seconds of
  -- the timestamp.
  pub handle-any_body :
      (clock : Option ℕ) (later : ℕ) (req : Request) (timestamp signature : List ℕ) (call : Call)
      (s : State forward_map iteration file)
      → IsSameRoute req.call call
      → req.timestamp ≡ some timestamp
      → req.signature ≡ some signature
      → (w : IsSigned crypto clock secret timestamp req.method req.path signature)
      → later ≤ w.ts + 300
      → w.ts ≤ later + 300
      → handle forward_map iteration file crypto
          (some later)
          secret
          has_path
          (record req { call = call })
          s
        ≡ run_call forward_map iteration file has_path call s
  unfolding handle
  handle-any_body clock later req timestamp signature call s route a b w c d =
      rw
        (
          a,
          b,
          signed_by,
          verify crypto (some later) secret timestamp req.method req.path signature again,
        )
        refl
    where
      again : IsSigned crypto (some later) secret timestamp req.method req.path signature
      again = record {
        ts = w.ts;
        now = later;
        mac = w.mac;
        timestamp_is = w.timestamp_is;
        clock_is = refl;
        not_old = c;
        not_early = d;
        signature_is = w.signature_is;
        hmac_is = w.hmac_is;
      }
