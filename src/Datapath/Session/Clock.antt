-- ===== src/Datapath/Session/Clock.antt =====
-- The times of the sessions and the reverse entries, which are readings of the clock.
use xdp_nat_forward.Base.{ℕ, ◌<◌, ◌≡◌, some, Option-cases, inl, inr}
use xdp_nat_forward.Datapath.Types.{
  ForwardVal, SessionKey, SessionVal, RevSessionKey, RevSessionVal, SessionKey-discrete,
  RevSessionKey-discrete,
}
use xdp_nat_forward.Datapath.Maps.{HashMap, Bpf, Tables}
use xdp_nat_forward.Datapath.Maps.Cases.{get-insert_back, get-write_back}
use xdp_nat_forward.Datapath.Session.{
  Flow, rev_key, client_key, reply_key, replied_key, session_val, rev_val, touch_session,
  touch_reverse, open_session, track_client, track_target,
}
use xdp_nat_forward.Datapath.Session.Touch.{touch_session-reverse, touch_reverse-session}
use xdp_nat_forward.Datapath.Session.Tracked.{track_client-cases}

module _ (bpf : Bpf) (limit : ℕ) where
  open bpf use {session, reverse}

  -- Every session and every reverse entry was last seen below the limit.
  pub record Clocked (t : Tables bpf) : Type 0 where
    pub sessions :
        (k : SessionKey) (v : SessionVal)
        → HashMap.get session t.session_map k ≡ some v
        → v.last_seen < limit
    pub reverses :
        (k : RevSessionKey) (v : RevSessionVal)
        → HashMap.get reverse t.reverse_session_map k ≡ some v
        → v.last_seen < limit

  module _ (now : ℕ) (in_time : now < limit) where
    touch_session-Clocked :
        (t : Tables bpf) (k : SessionKey) → Clocked t → Clocked (touch_session bpf t k now)
    unfolding touch_session
    touch_session-Clocked t k p = record {
      sessions = λ j w e. elim (Option-cases (HashMap.get session t.session_map k)) [
        | inl absent ↦ p.sessions j w (rw (absent, touch_session) at e)
        | inr (v, found) ↦
            elim (get-write_back session SessionKey-discrete t.session_map k j _ v w found
              (rw (found, touch_session) at e)) [
                | inl (same, is) ↦ rw is in_time
                | inr (other, old) ↦ p.sessions j w old
              ]
      ];
      reverses = λ j v e. p.reverses j v (rw ((touch_session-reverse bpf t now k).0) at e);
    }

    touch_reverse-Clocked :
        (t : Tables bpf) (k : RevSessionKey) → Clocked t → Clocked (touch_reverse bpf t k now)
    unfolding touch_reverse
    touch_reverse-Clocked t k p = record {
      sessions = λ j v e. p.sessions j v (rw ((touch_reverse-session bpf t now k).0) at e);
      reverses = λ j w e. elim (Option-cases (HashMap.get reverse t.reverse_session_map k)) [
        | inl absent ↦ p.reverses j w (rw (absent, touch_reverse) at e)
        | inr (v, found) ↦
            elim (get-write_back reverse RevSessionKey-discrete t.reverse_session_map k j _ v w
              found (rw (found, touch_reverse) at e)) [
                | inl (same, is) ↦ rw is in_time
                | inr (other, old) ↦ p.reverses j w old
              ]
      ];
    }

    pub track_target-Clocked :
        (t : Tables bpf) (fl : Flow) (v : RevSessionVal)
        → Clocked t
        → Clocked (track_target bpf t fl v now)
    unfolding track_target
    track_target-Clocked t fl v p =
        touch_session-Clocked _ (replied_key fl v) (touch_reverse-Clocked t (reply_key fl) p)

    open_session-Clocked :
        (t : Tables bpf) (fl : Flow) (rule : ForwardVal) (port mac : ℕ)
        → Clocked t
        → Clocked (open_session bpf t fl rule port mac now)
    unfolding open_session
    open_session-Clocked t fl rule port mac p = record {
      sessions = λ j v e.
          elim (Option-cases (
            HashMap.insert session t.session_map (client_key fl rule) (session_val port mac now))) [
              | inl full ↦ p.sessions j v (rw full at e)
              | inr (s, es) ↦
                  elim (get-insert_back session SessionKey-discrete _ s _ j _ v es (rw es at e)) [
                    | inl (_, is) ↦ rw is in_time
                    | inr (_, old) ↦ p.sessions j v old
                  ]
            ];
      reverses = λ j v e.
          elim (Option-cases (
            HashMap.insert reverse t.reverse_session_map
              (rev_key rule.forward_ip port rule.forward_port fl.proto) (rev_val fl mac now))) [
                | inl full ↦ p.reverses j v (rw full at e)
                | inr (r, er) ↦
                    elim (get-insert_back reverse RevSessionKey-discrete _ r _ j _ v er
                      (rw er at e)) [
                        | inl (_, is) ↦ rw is in_time
                        | inr (_, old) ↦ p.reverses j v old
                      ]
              ];
    }

    pub track_client-Clocked :
        (t t' : Tables bpf) (fl : Flow) (rule : ForwardVal) (mac nat_port : ℕ)
        → Clocked t
        → track_client bpf t fl rule mac now ≡ some (nat_port, t')
        → Clocked t'
    track_client-Clocked t t' fl rule mac nat_port p e =
        elim (track_client-cases bpf t t' fl rule mac now nat_port e) [
          | inl q ↦
              rw q.tables_are
                (touch_reverse-Clocked _ _ (touch_session-Clocked t (client_key fl rule) p))
          | inr o ↦ rw o.tables_are (open_session-Clocked t fl rule _ mac p)
        ]
