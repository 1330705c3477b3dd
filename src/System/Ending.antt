-- ===== src/System/Ending.antt =====
-- The two loops of the cleanup task over `to_delete`, while packets and rule changes go on.
use xdp_nat_forward.Base.{
  ℕ, suc, ◌+◌, ◌<◌, ◌≤◌, ◌≡◌, ◌≢◌, refl, arith, ◌⊎◌, inl, inr, List, [], ◌∷◌, length, none, IsIn,
  dec_IsIn,
}
use xdp_nat_forward.Datapath.Types.{
  SessionKey, RevSessionKey, SessionKey-discrete, RevSessionKey-discrete,
}
use xdp_nat_forward.Datapath.Maps.{Bpf}
use xdp_nat_forward.Daemon.Cleanup.{remove_all}
use xdp_nat_forward.Daemon.Cleanup.Gone.{get-remove_all_in, get-remove_all_out}
use xdp_nat_forward.System.{
  Phase, walking, removing_sessions, removing_reverses, System, Task, Other, packet_step, op_step,
  collect_step, walk_ends, session_step, sessions_end, reverse_step, reverses_end, after_packet,
  after_op, collect, remove_session, remove_reverse,
}

-- The steps that the task takes before it sleeps again.
abbrev pub steps_left : Phase → List SessionKey → List RevSessionKey → ℕ
steps_left walking ks js = 0
steps_left removing_sessions ks js = suc (suc (length ks + length js))
steps_left removing_reverses ks js = suc (length js)

module _ (bpf : Bpf) where
  open bpf use {session, reverse}

  abbrev pub work : System bpf → ℕ
  work s = steps_left s.phase s.doomed s.pending

  -- The states after a number of steps of the task, none in its walk, with others between them.
  pub data Run (s : System bpf) : ℕ → System bpf → Type 0 where
    nothing : Run s 0 s
    with_other : (n : ℕ) (t u : System bpf) → Run s n t → Other bpf t u → Run s n u
    with_task :
        (n : ℕ) (t u : System bpf) → Run s n t → t.phase ≢ walking → Task bpf t u → Run s (suc n) u

  Task-work : (s t : System bpf) → s.phase ≢ walking → Task bpf s t → suc (work t) ≡ work s
  unfolding collect remove_session remove_reverse
  Task-work s t h (collect_step timeouts now k v ph e ex fresh) = absurd (h ph)
  Task-work s t h (walk_ends ph) = absurd (h ph)
  Task-work s t h (session_step k ks ph d) = rw (ph, d) (omega arith)
  Task-work s t h (sessions_end ph d) = rw (ph, d) (omega arith)
  Task-work s t h (reverse_step j js ph d) = rw (ph, d) refl
  Task-work s t h (reverses_end ph d) = rw (ph, d) refl

  Other-work : (s t : System bpf) → Other bpf s t → work t ≡ work s
  unfolding after_packet after_op
  Other-work s t (packet_step p now bytes room) = refl
  Other-work s t (op_step op fits) = refl

  Run-work : (s t : System bpf) (n : ℕ) → Run s n t → n + work t ≡ work s
  Run-work s t n nothing = omega arith
  Run-work s t n (with_other _ u _ r o) = rw (Other-work u t o) (Run-work s u n r)
  Run-work s t n (with_task m u _ r h o) = omega (arith, Task-work u t h o, Run-work s u m r)

  -- In its loops the task can always take a step.
  Task-next : (s : System bpf) → (s.phase ≡ walking) ⊎ ((t : System bpf) × Task bpf s t)
  Task-next s = go s.phase s.doomed s.pending refl refl refl
    where
      go :
          (p : Phase) (ks : List SessionKey) (js : List RevSessionKey)
          → s.phase ≡ p
          → s.doomed ≡ ks
          → s.pending ≡ js
          → (s.phase ≡ walking) ⊎ ((t : System bpf) × Task bpf s t)
      go walking ks js a b c = inl a
      go removing_sessions [] js a b c = inr (_, sessions_end a b)
      go removing_sessions (k ∷ ks) js a b c = inr (_, session_step k ks a b)
      go removing_reverses ks [] a b c = inr (_, reverses_end a c)
      go removing_reverses ks (j ∷ js) a b c = inr (_, reverse_step j js a c)

  -- In its loops a step of the task is work done, so what is left is not nothing.
  Task-loops :
      (s t : System bpf) (p : Phase)
      → s.phase ≡ p
      → Task bpf s t
      → (s.phase ≡ walking) ⊎ (0 < work s)
  Task-loops s t walking e st = inl e
  Task-loops s t removing_sessions e st = inr (rw e (omega arith))
  Task-loops s t removing_reverses e st = inr (rw e (omega arith))

  -- A packet came between the steps.
  unfoldable pub HasPacket : {s t : System bpf} {n : ℕ} → Run s n t → Type 0
  HasPacket nothing = ⊥
  HasPacket (with_other n t u r (packet_step p now bytes room)) = Unit
  HasPacket (with_other n t u r (op_step op fits)) = HasPacket r
  HasPacket (with_task n t u r h st) = HasPacket r

  -- The keys to remove are gone from the two maps, and all other keys have what they had.
  pub record Cleared (s t : System bpf) : Type 0 where
    pub sessions :
        (k : SessionKey)
        → (IsIn k s.doomed × (session.get t.tables.session_map k ≡ none))
          ⊎ (¬ (IsIn k s.doomed)
              × (session.get t.tables.session_map k ≡ session.get s.tables.session_map k))
    pub reverses :
        (j : RevSessionKey)
        → (IsIn j s.pending × (reverse.get t.tables.reverse_session_map j ≡ none))
          ⊎ (¬ (IsIn j s.pending)
              × (reverse.get t.tables.reverse_session_map j
                  ≡ reverse.get s.tables.reverse_session_map j))

  -- What is left in each phase of the loops.
  abbrev LeftIn : Phase → List SessionKey → List RevSessionKey → Type 0
  LeftIn walking ks js = (ks ≡ []) × (js ≡ [])
  LeftIn removing_sessions ks js = Unit
  LeftIn removing_reverses ks js = ks ≡ []

  -- Removing what is left gives the maps that removing everything from the first state gives.
  record OnTheWay (s t : System bpf) : Type 0 where
    sessions :
        remove_all session t.tables.session_map t.doomed
        ≡ remove_all session s.tables.session_map s.doomed
    reverses :
        remove_all reverse t.tables.reverse_session_map t.pending
        ≡ remove_all reverse s.tables.reverse_session_map s.pending
    left : LeftIn t.phase t.doomed t.pending

  Task-OnTheWay :
      (s t u : System bpf) → t.phase ≢ walking → Task bpf t u → OnTheWay s t → OnTheWay s u
  unfolding remove_all collect remove_session remove_reverse
  Task-OnTheWay s t u h (collect_step timeouts now k v ph e ex fresh) w = absurd (h ph)
  Task-OnTheWay s t u h (walk_ends ph) w = absurd (h ph)
  Task-OnTheWay s t u h (session_step k ks ph d) w = record {
    sessions = rw d at w.sessions;
    reverses = w.reverses;
    left = rw ph tt;
  }
  Task-OnTheWay s t u h (sessions_end ph d) w = record {
    sessions = w.sessions;
    reverses = w.reverses;
    left = d;
  }
  Task-OnTheWay s t u h (reverse_step j js ph d) w = record {
    sessions = w.sessions;
    reverses = rw d at w.reverses;
    left = let none_doomed : t.doomed ≡ [] = rw ph at w.left in rw ph none_doomed;
  }
  Task-OnTheWay s t u h (reverses_end ph d) w = record {
    sessions = w.sessions;
    reverses = w.reverses;
    left = let none_doomed : t.doomed ≡ [] = rw ph at w.left in (none_doomed, d);
  }

  Run-OnTheWay :
      (s t : System bpf) (n : ℕ) (r : Run s n t)
      → s.phase ≡ removing_sessions
      → HasPacket r ⊎ OnTheWay s t
  unfolding HasPacket after_op
  Run-OnTheWay s t n nothing h = inr (record { sessions = refl; reverses = refl; left = rw h tt })
  Run-OnTheWay s t n (with_other _ u _ r (packet_step p now bytes room)) h = inl tt
  Run-OnTheWay s t n (with_other _ u _ r (op_step op fits)) h = elim (Run-OnTheWay s u n r h) [
    | inl q ↦ inl q
    | inr w ↦ inr (record { sessions = w.sessions; reverses = w.reverses; left = w.left })
  ]
  Run-OnTheWay s t n (with_task m u _ r k st) h = elim (Run-OnTheWay s u m r h) [
    | inl q ↦ inl q
    | inr w ↦ inr (Task-OnTheWay s u t k st w)
  ]

  OnTheWay-Cleared : (s t : System bpf) → OnTheWay s t → t.phase ≡ walking → Cleared s t
  unfolding remove_all
  OnTheWay-Cleared s t w ph =
      let (no_doomed, no_pending) : (t.doomed ≡ []) × (t.pending ≡ []) = rw ph at w.left in
      let sessions_are : t.tables.session_map ≡ remove_all session s.tables.session_map s.doomed =
        rw no_doomed at w.sessions in
      let reverses_are : t.tables.reverse_session_map
          ≡ remove_all reverse s.tables.reverse_session_map s.pending =
        rw no_pending at w.reverses in
      record {
        sessions = λ k. elim (dec_IsIn SessionKey-discrete k s.doomed) [
          | inl i ↦
              inl
                (i, rw sessions_are (get-remove_all_in session SessionKey-discrete s.doomed _ k i))
          | inr i ↦
              inr
                (i, rw sessions_are (get-remove_all_out session SessionKey-discrete s.doomed _ k i))
        ];
        reverses = λ j. elim (dec_IsIn RevSessionKey-discrete j s.pending) [
          | inl i ↦ inl (
            i,
            rw reverses_are (get-remove_all_in reverse RevSessionKey-discrete s.pending _ j i),
          )
          | inr i ↦ inr (
            i,
            rw reverses_are (get-remove_all_out reverse RevSessionKey-discrete s.pending _ j i),
          )
        ];
      }

  cleared :
      (s t : System bpf) (n : ℕ) (r : Run s n t)
      → s.phase ≡ removing_sessions
      → t.phase ≡ walking
      → HasPacket r ⊎ Cleared s t
  cleared s t n r h e = elim (Run-OnTheWay s t n r h) [
    | inl q ↦ inl q
    | inr w ↦ inr (OnTheWay-Cleared s t w e)
  ]

  -- From the end of its walk, whatever packets and rule changes come between its steps, the cleanup takes
  -- at most as many steps as there are keys left to remove and two more. Until it is back in its walk it
  -- has taken fewer and can take the next; when it is back, a packet came between, or the keys to
  -- remove are gone from both maps and every other key has what it had.
  pub Run-ends :
      (s t : System bpf) (n : ℕ) (r : Run s n t)
      → s.phase ≡ removing_sessions
      → (n ≤ suc (suc (length s.doomed + length s.pending)))
        × (((t.phase ≡ walking) × (HasPacket r ⊎ Cleared s t))
            ⊎ ((n < suc (suc (length s.doomed + length s.pending)))
                × (u : System bpf) × Task bpf t u))
  Run-ends s t n r h =
      let total = Run-work s t n r in
      let all_work : work s ≡ suc (suc (length s.doomed + length s.pending)) = rw h refl in
      (
        omega (arith, total, all_work),
        elim (Task-next t) [
          | inl e ↦ inl (e, cleared s t n r h e)
          | inr (u, st) ↦ elim (Task-loops t u t.phase refl st) [
            | inl e ↦ inl (e, cleared s t n r h e)
            | inr more ↦ inr (omega (arith, total, more, all_work), u, st)
          ]
        ],
      )
