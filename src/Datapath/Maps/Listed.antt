-- ===== src/Datapath/Maps/Listed.antt =====
-- A map as the list of its entries, where the first entry of a key counts: a map that can be walked.
use xdp_nat_forward.Base.{
  ◌≡◌, ◌≢◌, ◌∙◌, sym, refl, ite, if_pos, if_neg, Option, none, some, List, [], ◌∷◌, inl, inr, ◌⊎◌,
  IsIn,
}
use xdp_nat_forward.Datapath.Types.{
  ForwardKey-discrete, SessionKey-discrete, RevSessionKey-discrete,
}
use xdp_nat_forward.Datapath.Maps.{HashMap, Bpf}
use xdp_nat_forward.Datapath.Maps.Iteration.{Iteration}

module _ {K V : Type 0} (dec : Discrete K) where
  abbrev pub look_up : List (K × V) → K → Option V
  look_up [] k = none
  look_up (r ∷ m) k = ite (dec k r.0) (some r.1) (look_up m k)

  abbrev pub drop : List (K × V) → K → List (K × V)
  drop [] k = []
  drop (r ∷ m) k = ite (dec k r.0) (drop m k) (r ∷ drop m k)

  abbrev pub drop_present : List (K × V) → K → Option V → Option (List (K × V))
  drop_present m k none = none
  drop_present m k (some v) = some (drop m k)

  abbrev push : K → Option V → List (Option (K × V)) → List (Option (K × V))
  push k none rest = rest
  push k (some v) rest = some (k, v) ∷ rest

  -- The keys of the second list, with what the first list holds for them.
  abbrev pub walk : List (K × V) → List (K × V) → List (Option (K × V))
  walk m [] = []
  walk m (r ∷ rest) = push r.0 (look_up m r.0) (walk m rest)

  pub cons_self : (m : List (K × V)) (k : K) (v : V) → look_up ((k, v) ∷ m) k ≡ some v
  cons_self m k v = if_pos (dec k k) refl (some v) (look_up m k)

  pub cons_ne : (m : List (K × V)) (k j : K) (v : V) → j ≢ k → look_up ((k, v) ∷ m) j ≡ look_up m j
  cons_ne m k j v h = if_neg (dec j k) h (some v) (look_up m j)

  pub drop_self : (m : List (K × V)) (k : K) → look_up (drop m k) k ≡ none
  drop_self [] k = refl
  drop_self (r ∷ m) k =
      elim (dec k r.0) as (λ d. look_up (ite d (drop m k) (r ∷ drop m k)) k ≡ none) [
        | yes e ↦ drop_self m k
        | no e ↦ cons_ne (drop m k) r.0 k r.1 e ∙ drop_self m k
      ]

  pub drop_ne : (m : List (K × V)) (k j : K) → j ≢ k → look_up (drop m k) j ≡ look_up m j
  drop_ne [] k j h = refl
  drop_ne (r ∷ m) k j h =
      elim (dec k r.0) as (λ d. look_up (ite d (drop m k) (r ∷ drop m k)) j ≡ look_up (r ∷ m) j) [
        | yes e ↦ drop_ne m k j h ∙ sym (cons_ne m r.0 j r.1 (λ s. h (s ∙ sym e)))
        | no e ↦
            elim (dec j r.0)
              as (λ d. ite d (some r.1) (look_up (drop m k) j) ≡ ite d (some r.1) (look_up m j)) [
                | yes s ↦ refl
                | no s ↦ drop_ne m k j h
              ]
      ]

  pub removed :
      (m m' : List (K × V)) (k : K) (o : Option V) → drop_present m k o ≡ some m' → drop m k ≡ m'
  removed m m' k none e = cc
  removed m m' k (some v) e = cc

  pub absent : (m : List (K × V)) (k : K) (o : Option V) → drop_present m k o ≡ none → o ≡ none
  absent m k none e = refl
  absent m k (some v) e = cc

  pub inserted :
      (m m' : List (K × V)) (k : K) (v : V)
      → ◌≡◌ {A = Option (List (K × V))} (some ((k, v) ∷ m)) (some m')
      → (k, v) ∷ m ≡ m'
  inserted m m' k v e = cc

  abbrev pub listed_map : HashMap K V
  listed_map = record {
    Map = List (K × V);
    get = look_up;
    write = λ m k v. (k, v) ∷ m;
    insert = λ m k v. some ((k, v) ∷ m);
    remove = λ m k. drop_present m k (look_up m k);
    get-write_self = λ m k v w e. cons_self m k v;
    get-write_ne = λ m k j v h. cons_ne m k j v h;
    get-insert_self = λ m m' k v e. rw (← inserted m m' k v e) (cons_self m k v);
    get-insert_ne = λ m m' k j v e h. rw (← inserted m m' k v e) (cons_ne m k j v h);
    get-remove_self = λ m m' k e. rw (← removed m m' k (look_up m k) e) (drop_self m k);
    get-remove_ne = λ m m' k j e h. rw (← removed m m' k (look_up m k) e) (drop_ne m k j h);
    remove_absent = λ m k. absent m k (look_up m k);
  }

  push_back :
      (j k : K) (v : V) (o : Option V) (rest : List (Option (K × V)))
      → IsIn (some (k, v)) (push j o rest)
      → ((k ≡ j) × (o ≡ some v)) ⊎ IsIn (some (k, v)) rest
  push_back j k v none rest h = inr h
  push_back j k v (some w) rest h = elim h [ inl e ↦ inl (cc, cc) | inr i ↦ inr i ]

  pub walk_sound :
      (m rest : List (K × V)) (k : K) (v : V)
      → IsIn (some (k, v)) (walk m rest)
      → look_up m k ≡ some v
  walk_sound m [] k v h = absurd h
  walk_sound m (r ∷ rest) k v h = elim (push_back r.0 k v (look_up m r.0) (walk m rest) h) [
    | inl (same, e) ↦ rw same e
    | inr i ↦ walk_sound m rest k v i
  ]

  push_forth :
      (k : K) (v : V) (o : Option V) (rest : List (Option (K × V)))
      → o ≡ some v
      → IsIn (some (k, v)) (push k o rest)
  push_forth k v none rest e = cc
  push_forth k v (some w) rest e = inl (cc)

  push_keeps :
      (j k : K) (v : V) (o : Option V) (rest : List (Option (K × V)))
      → IsIn (some (k, v)) rest
      → IsIn (some (k, v)) (push j o rest)
  push_keeps j k v none rest h = h
  push_keeps j k v (some w) rest h = inr h

  pub walk_complete :
      (m rest : List (K × V)) (k : K) (v : V)
      → look_up m k ≡ some v
      → look_up rest k ≢ none
      → IsIn (some (k, v)) (walk m rest)
  walk_complete m [] k v e h = absurd (h refl)
  walk_complete m (r ∷ rest) k v e h = elim (dec k r.0) [
    | yes same ↦ rw same (push_forth r.0 v (look_up m r.0) (walk m rest) (rw same at e))
    | no other ↦
        push_keeps r.0 k v (look_up m r.0) (walk m rest)
          (walk_complete m rest k v e (λ n. h (cons_ne rest r.0 k r.1 other ∙ n)))
  ]

  push-none :
      (k : K) (o : Option V) (rest : List (Option (K × V)))
      → IsIn none (push k o rest)
      → IsIn none rest
  push-none k none rest h = h
  push-none k (some v) rest h = elim h [ inl e ↦ absurd (cc) | inr i ↦ i ]

  -- No walk fails.
  pub walk_readable : (m rest : List (K × V)) → IsIn none (walk m rest) → ⊥
  walk_readable m [] h = absurd h
  walk_readable m (r ∷ rest) h =
      walk_readable m rest (push-none r.0 (look_up m r.0) (walk m rest) h)

  abbrev pub listed_iteration : Iteration listed_map
  listed_iteration = record {
    iter = λ m. walk m m;
    iter_sound = λ m k v. walk_sound m m k v;
    iter_complete = λ m k v e. inl (walk_complete m m k v e (λ n. cc));
  }

abbrev pub listed_maps : Bpf
listed_maps = record {
  forward = listed_map ForwardKey-discrete;
  session = listed_map SessionKey-discrete;
  reverse = listed_map RevSessionKey-discrete;
}
