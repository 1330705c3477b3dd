-- ===== src/Daemon/Cleanup/Laws.antt =====
-- forward/src/main.rs, `spawn_session_cleanup_task`: the sessions before and after a round.
use xdp_nat_forward.Base.{
  ℕ, ◌+◌, ◌<◌, ◌≡◌, ◌≢◌, arith, ◌∙◌, sym, ap, true, false, ◌⊎◌, inl, inr, Option, none, some, List,
  [], ◌∷◌, map, IsIn, IsIn-map, map-IsIn, Option-cases, Bool-cases, some_injective,
}
use xdp_nat_forward.Datapath.Session.{rev_key}
use xdp_nat_forward.Datapath.Types.{
  SessionKey, SessionVal, RevSessionKey, SessionKey-discrete, RevSessionKey-discrete,
}
use xdp_nat_forward.Datapath.Maps.{HashMap, Bpf, Tables}
use xdp_nat_forward.Datapath.Maps.Iteration.{Iteration}
use xdp_nat_forward.Datapath.Session.Paired.{reverse_of, session_of, Paired, Paired-injective}
use xdp_nat_forward.Daemon.Cleanup.{
  Timeouts, is_expired, expired, session_key, reverse_key, to_delete, delete_sessions, cleanup,
  rounds,
}
use xdp_nat_forward.Daemon.Cleanup.Gone.{get-remove_all_in, get-remove_all_out, get-remove_all_back}

-- What is to be deleted was read and has expired.
expired_back :
    (t : Timeouts) (now : ℕ) (items : List (Option (SessionKey × SessionVal))) (k : SessionKey)
    (v : SessionVal)
    → IsIn (k, v) (expired t now items)
    → IsIn (some (k, v)) items × (is_expired t now k v ≡ true)
unfolding expired
expired_back t now [] k v h = absurd h
expired_back t now (none ∷ items) k v h = let (i, e) = expired_back t now items k v h in (inr i, e)
expired_back t now (some r ∷ items) k v h = elim (Bool-cases (is_expired t now r.0 r.1)) [
  | inl e ↦ elim (rw e at h) [
    | inl same ↦ (inl (ap (λ x. some x) same), ap (λ x. is_expired t now x.0 x.1) same ∙ e)
    | inr later ↦ let (i, x) = expired_back t now items k v later in (inr i, x)
  ]
  | inr e ↦ let (i, x) = expired_back t now items k v (rw e at h) in (inr i, x)
]

expired_forth :
    (t : Timeouts) (now : ℕ) (items : List (Option (SessionKey × SessionVal))) (k : SessionKey)
    (v : SessionVal)
    → IsIn (some (k, v)) items
    → is_expired t now k v ≡ true
    → IsIn (k, v) (expired t now items)
unfolding expired
expired_forth t now [] k v h e = absurd h
expired_forth t now (none ∷ items) k v h e = elim h [
  | inl other ↦ absurd (cc)
  | inr i ↦ expired_forth t now items k v i e
]
expired_forth t now (some r ∷ items) k v h e = elim h [
  | inl same ↦
      let here = some_injective same in
      let yes_expired = sym (ap (λ x. is_expired t now x.0 x.1) here) ∙ e in
      rw yes_expired (inl here)
  | inr i ↦ elim (Bool-cases (is_expired t now r.0 r.1)) [
    | inl x ↦ rw x (inr (expired_forth t now items k v i e))
    | inr x ↦ rw x (expired_forth t now items k v i e)
  ]
]

-- A key with its fields.
same_key :
    (j : RevSessionKey) (x : ℕ)
    → x ≡ j.nat_port
    → j.pad ≡ 0
    → rev_key j.target_ip x j.target_port j.proto ≡ j
same_key j x e h = cc

module _ (bpf : Bpf) where
  open bpf use {session, reverse}

  -- Sessions that are deleted with the values that they have leave the maps paired.
  delete_sessions-Paired :
      (rs : List (SessionKey × SessionVal)) (t : Tables bpf)
      → ((r : SessionKey × SessionVal) → IsIn r rs → session.get t.session_map r.0 ≡ some r.1)
      → Paired bpf t
      → Paired bpf (delete_sessions bpf rs t)
  unfolding delete_sessions
  delete_sessions-Paired rs t held p = record {
    padded = λ k v e.
        p.padded k v
          (get-remove_all_back session SessionKey-discrete (map session_key rs) _ k v e).1;
    rev_padded = λ k r e.
        p.rev_padded k r
          (get-remove_all_back reverse RevSessionKey-discrete (map reverse_key rs) _ k r e).1;
    forth = λ k v e.
        let (kept, old) =
          get-remove_all_back session SessionKey-discrete (map session_key rs) _ k v e in
        let (r, er, n) = p.forth k v old in
        (
          r,
          get-remove_all_out reverse RevSessionKey-discrete (map reverse_key rs) _ (reverse_of k v)
                (λ i.
                  let (a, (w, same)) = IsIn-map reverse_key (reverse_of k v) rs i in
                  let one = Paired-injective bpf t k a.0 v a.1 p old (held a w) same in
                  kept (rw one (map-IsIn session_key a rs w)))
              ∙ er,
          n,
        );
    back = λ j r e.
        let (kept, old) =
          get-remove_all_back reverse RevSessionKey-discrete (map reverse_key rs) _ j r e in
        let (v, ev, port) = p.back j r old in
        (
          v,
          get-remove_all_out session SessionKey-discrete (map session_key rs) _ (session_of j r)
                (λ i.
                  let (a, (w, same)) = IsIn-map session_key (session_of j r) rs i in
                  let value : a.1 ≡ v = cc (held a w) in
                  let named : reverse_key a ≡ j =
                    rw (← same, value) (same_key j v.nat_port port (p.rev_padded j r old)) in
                  kept (rw (← named) (map-IsIn reverse_key a rs w)))
              ∙ ev,
          port,
        );
  }

  module _ (iteration : Iteration session) where
    held :
        (timeouts : Timeouts) (now : ℕ) (t : Tables bpf) (r : SessionKey × SessionVal)
        → IsIn r (to_delete bpf iteration timeouts now t)
        → session.get t.session_map r.0 ≡ some r.1
    unfolding to_delete
    held timeouts now t r i =
        iteration.iter_sound t.session_map r.0 r.1 (expired_back timeouts now _ r.0 r.1 i).0

    -- A round of the cleanup keeps sessions and reverse entries in correspondence.
    pub cleanup-Paired :
        (timeouts : Timeouts) (now : ℕ) (t : Tables bpf)
        → Paired bpf t
        → Paired bpf (cleanup bpf iteration timeouts now t)
    unfolding cleanup
    cleanup-Paired timeouts now t = delete_sessions-Paired _ t (held timeouts now t)

    -- No item of a walk over the map fails.
    abbrev pub IsReadable : HashMap.Map session → Type 0
    IsReadable m = ¬ (IsIn none (iteration.iter m))

    -- A round removes a session that has expired, with its reverse entry, and keeps every other
    -- session as it is, when the walk over the map does not fail.
    pub cleanup-exact :
        (timeouts : Timeouts) (now : ℕ) (t : Tables bpf) (k : SessionKey) (v : SessionVal)
        → IsReadable t.session_map
        → session.get t.session_map k ≡ some v
        → let u = cleanup bpf iteration timeouts now t in
          ((is_expired timeouts now k v ≡ true)
            × (session.get u.session_map k ≡ none)
            × (reverse.get u.reverse_session_map (reverse_of k v) ≡ none))
          ⊎ ((is_expired timeouts now k v ≡ false) × (session.get u.session_map k ≡ some v))
    unfolding cleanup delete_sessions to_delete
    cleanup-exact timeouts now t k v readable e = elim (Bool-cases (is_expired timeouts now k v)) [
      | inl x ↦
          let listed : IsIn (some (k, v)) (iteration.iter t.session_map) =
            elim (iteration.iter_complete t.session_map k v e) [
              | inl i ↦ i
              | inr i ↦ absurd (readable i)
            ] in
          let doomed = expired_forth timeouts now _ k v listed x in
          inl (
            x,
            get-remove_all_in session SessionKey-discrete _ t.session_map k
                (map-IsIn session_key (k, v) _ doomed),
            get-remove_all_in reverse RevSessionKey-discrete _ t.reverse_session_map
                (reverse_of k v) (map-IsIn reverse_key (k, v) _ doomed),
          )
      | inr x ↦ inr (
        x,
        get-remove_all_out session SessionKey-discrete _ t.session_map k (λ i.
              let (a, (w, same)) = IsIn-map session_key k _ i in
              let value : v ≡ a.1 = cc (held timeouts now t a w) in
              let gone = (expired_back timeouts now _ a.0 a.1 w).1 in absurd (cc))
            ∙ e,
      )
    ]

    -- The reading is later than the session's last packet by more than the timeout of its protocol, 6
    -- for TCP.
    abbrev pub IsLate : Timeouts → SessionKey → SessionVal → ℕ → Type 0
    IsLate timeouts k v now =
        ((k.proto ≡ 6) × (v.last_seen + timeouts.tcp_ns < now))
        ⊎ ((k.proto ≢ 6) × (v.last_seen + timeouts.udp_ns < now))

    late_is_expired :
        (timeouts : Timeouts) (k : SessionKey) (v : SessionVal) (now : ℕ)
        → IsLate timeouts k v now
        → is_expired timeouts now k v ≡ true
    late_is_expired timeouts k v now (inl (tcp, h)) = ground arith
    late_is_expired timeouts k v now (inr (udp, h)) = ground arith

    -- One of the readings is late.
    abbrev pub IsPast : Timeouts → SessionKey → SessionVal → List ℕ → Type 0
    IsPast timeouts k v [] = ⊥
    IsPast timeouts k v (now ∷ later) = IsLate timeouts k v now ⊎ IsPast timeouts k v later

    rounds_gone :
        (timeouts : Timeouts) (times : List ℕ) (t : Tables bpf) (k : SessionKey)
        → session.get t.session_map k ≡ none
        → session.get (rounds bpf iteration timeouts times t).session_map k ≡ none
    unfolding rounds cleanup delete_sessions
    rounds_gone timeouts [] t k e = e
    rounds_gone timeouts (now ∷ later) t k e =
        rounds_gone timeouts later (cleanup bpf iteration timeouts now t) k
          (elim (Option-cases (session.get (cleanup bpf iteration timeouts now t).session_map k)) [
            | inl none_left ↦ none_left
            | inr (v, left) ↦
                let old =
                  (get-remove_all_back session SessionKey-discrete _ t.session_map k v left).1 in
                absurd (cc)
          ])

    -- A session is gone after rounds of the cleanup with no packet of any session between them, once one of
    -- the rounds comes later than its last packet by more than the TCP timeout, or for another protocol the
    -- UDP timeout, when walks over the map do not fail.
    pub rounds-IsPast :
        (timeouts : Timeouts) (times : List ℕ) (t : Tables bpf) (k : SessionKey) (v : SessionVal)
        → ((m : HashMap.Map session) → IsReadable m)
        → session.get t.session_map k ≡ some v
        → IsPast timeouts k v times
        → session.get (rounds bpf iteration timeouts times t).session_map k ≡ none
    unfolding rounds
    rounds-IsPast timeouts [] t k v readable e past = absurd past
    rounds-IsPast timeouts (now ∷ later) t k v readable e past =
        elim (cleanup-exact timeouts now t k v (readable t.session_map) e) [
          | inl (x, gone, _) ↦
              rounds_gone timeouts later (cleanup bpf iteration timeouts now t) k gone
          | inr (x, kept) ↦ elim past [
            | inl y ↦ let gone = late_is_expired timeouts k v now y in absurd (cc)
            | inr y ↦
                rounds-IsPast timeouts later (cleanup bpf iteration timeouts now t) k v readable
                  kept y
          ]
        ]
