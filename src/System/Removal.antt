-- ===== src/System/Removal.antt =====
-- The steps of the cleanup task.
use xdp_nat_forward.Base.{
  ℕ, ◌≡◌, ◌≢◌, ◌∙◌, sym, refl, inl, inr, some, List, [], ◌∷◌, ◌++◌, IsIn, IsIn-append_back,
  IsIn-append_left, IsIn-append_last, append-Distinct,
}
use xdp_nat_forward.Datapath.Types.{
  SessionKey, SessionVal, RevSessionKey, SessionKey-discrete, RevSessionKey-discrete,
}
use xdp_nat_forward.Datapath.Maps.{HashMap, Bpf, Tables}
use xdp_nat_forward.Datapath.Session.{or_keep, rev_key}
use xdp_nat_forward.Datapath.Session.Paired.{reverse_of, session_of, reverse_of-injective}
use xdp_nat_forward.Datapath.Session.Balanced.{Balanced}
use xdp_nat_forward.Daemon.Cleanup.Gone.{get-remove_self, get-remove_ne}

-- What a map holds after a removal, whether it fails or not.
module _ {K V : Type 0} (h : HashMap K V) (dec : Discrete K) where
  pub get-remove_back :
      (m : h.Map) (k j : K) (v : V)
      → h.get (or_keep (h.remove m k) m) j ≡ some v
      → (j ≢ k) × (h.get m j ≡ some v)
  get-remove_back m k j v e = elim (dec j k) [
    | yes same ↦ let gone = get-remove_self h dec m k in absurd (cc)
    | no other ↦ (other, sym (get-remove_ne h dec m k j other) ∙ e)
  ]

module _ (bpf : Bpf) (t : Tables bpf) (doomed : List SessionKey)
    (pending : List RevSessionKey) where
  open bpf use {session, reverse}

  -- A session that the walk collects.
  pub collect-Balanced :
      (k : SessionKey) (v : SessionVal)
      → session.get t.session_map k ≡ some v
      → ¬ (IsIn k doomed)
      → Balanced bpf t doomed pending
      → Balanced bpf t (doomed ++ (k ∷ [])) (pending ++ (reverse_of k v ∷ []))
  collect-Balanced k v e fresh p = record {
    padded = p.padded;
    rev_padded = p.rev_padded;
    forth = p.forth;
    back = λ j r w. elim (p.back j r w) [
      | inl h ↦ inl h
      | inr i ↦ inr (IsIn-append_left j pending _ i)
    ];
    doomed_live = λ j i. elim (IsIn-append_back j doomed (k ∷ []) i) [
      | inl old ↦
          let (w, ew, later) = p.doomed_live j old in (w, ew, IsIn-append_left _ pending _ later)
      | inr (inl same) ↦ rw same (v, e, IsIn-append_last (reverse_of k v) pending)
      | inr (inr none_left) ↦ absurd none_left
    ];
    pending_live = λ j i. elim (IsIn-append_back j pending (reverse_of k v ∷ []) i) [
      | inl old ↦ p.pending_live j old
      | inr (inl same) ↦ let (r, er, n) = p.forth k v e in (r, rw same er)
      | inr (inr none_left) ↦ absurd none_left
    ];
    owned = λ j w ew i. elim (IsIn-append_back (reverse_of j w) pending (reverse_of k v ∷ []) i) [
      | inl old ↦ IsIn-append_left j doomed _ (p.owned j w ew old)
      | inr (inl same) ↦
          rw (reverse_of-injective bpf t p.padded p.forth j k w v ew e same)
            (IsIn-append_last k doomed)
      | inr (inr none_left) ↦ absurd none_left
    ];
    doomed_once = append-Distinct doomed k p.doomed_once fresh;
    pending_once =
        append-Distinct pending (reverse_of k v) p.pending_once (λ i. fresh (p.owned k v e i));
  }

-- A reverse key with its fields.
same_key :
    (j : RevSessionKey) (x : ℕ)
    → x ≡ j.nat_port
    → j.pad ≡ 0
    → rev_key j.target_ip x j.target_port j.proto ≡ j
same_key j x e h = cc

module _ (bpf : Bpf) (t : Tables bpf) where
  open bpf use {session, reverse}

  -- A session that the task removes; its reverse entry is pending.
  pub remove_session-Balanced :
      (k : SessionKey) (ks : List SessionKey) (pending : List RevSessionKey)
      → Balanced bpf t (k ∷ ks) pending
      → Balanced bpf
          (record t { session_map = or_keep (session.remove t.session_map k) t.session_map })
          ks
          pending
  remove_session-Balanced k ks pending p =
      let gone = get-remove_back session SessionKey-discrete t.session_map k in
      let left = get-remove_ne session SessionKey-discrete t.session_map k in
      record {
        padded = λ j v e. p.padded j v (gone j v e).1;
        rev_padded = p.rev_padded;
        forth = λ j v e. p.forth j v (gone j v e).1;
        back = λ j r e. elim (p.back j r e) [
          | inr i ↦ inr i
          | inl (v, ev, port) ↦ elim (SessionKey-discrete (session_of j r) k) [
            | no other ↦ inl (v, left (session_of j r) other ∙ ev, port)
            | yes same ↦
                let (w, ew, later) = p.doomed_live k (inl refl) in
                let value : w ≡ v = cc in
                let named : reverse_of k w ≡ j =
                  rw (← same, value) (same_key j v.nat_port port (p.rev_padded j r e)) in
                inr (rw named at later)
          ]
        ];
        doomed_live = λ j i.
            let (v, e, later) = p.doomed_live j (inr i) in
            (v, left j (λ same. p.doomed_once.0 (rw same at i)) ∙ e, later);
        pending_live = p.pending_live;
        owned = λ j v e i. elim (p.owned j v (gone j v e).1 i) [
          | inl same ↦ absurd ((gone j v e).0 same)
          | inr later ↦ later
        ];
        doomed_once = p.doomed_once.1;
        pending_once = p.pending_once;
      }

  -- A reverse entry that the task removes, once no session waits to be removed.
  pub remove_reverse-Balanced :
      (j : RevSessionKey) (js : List RevSessionKey)
      → Balanced bpf t [] (j ∷ js)
      → Balanced bpf
          (record t {
            reverse_session_map =
                or_keep (reverse.remove t.reverse_session_map j) t.reverse_session_map;
          })
          []
          js
  remove_reverse-Balanced j js p =
      let gone = get-remove_back reverse RevSessionKey-discrete t.reverse_session_map j in
      let left = get-remove_ne reverse RevSessionKey-discrete t.reverse_session_map j in
      record {
        padded = p.padded;
        rev_padded = λ i r e. p.rev_padded i r (gone i r e).1;
        forth = λ k v e.
            let (r, er, n) = p.forth k v e in
            (r, left (reverse_of k v) (λ same. p.owned k v e (inl same)) ∙ er, n);
        back = λ i r e. elim (p.back i r (gone i r e).1) [
          | inl h ↦ inl h
          | inr (inl same) ↦ absurd ((gone i r e).0 same)
          | inr (inr later) ↦ inr later
        ];
        doomed_live = λ k i. absurd i;
        pending_live = λ i w.
            let (r, e) = p.pending_live i (inr w) in
            (r, left i (λ same. p.pending_once.0 (rw same at w)) ∙ e);
        owned = λ k v e i. p.owned k v e (inr i);
        doomed_once = tt;
        pending_once = p.pending_once.1;
      }
