-- ===== src/Datapath/Session/Balanced.antt =====
-- Sessions and reverse entries while the cleanup is under way.
pub mod Kept
use xdp_nat_forward.Base.{
  ℕ, ◌≡◌, ◌∙◌, sym, ap, refl, ◌⊎◌, inl, inr, none, some, List, [], IsIn, Distinct,
}
use xdp_nat_forward.Datapath.Packet.{swap16}
use xdp_nat_forward.Datapath.Types.{
  ForwardVal, SessionKey, SessionVal, RevSessionKey, RevSessionVal, SessionKey-discrete,
  RevSessionKey-discrete,
}
use xdp_nat_forward.Datapath.Maps.{HashMap, Bpf, Tables}
use xdp_nat_forward.Datapath.Maps.Cases.{get-insert_back}
use xdp_nat_forward.Datapath.Session.{
  Flow, rev_key, client_key, reply_key, replied_key, session_val, rev_val, touch_session,
  touch_reverse, open_session, track_client, track_target,
}
use xdp_nat_forward.Datapath.Session.Allocate.{allocate_nat_port-fresh}
use xdp_nat_forward.Datapath.Session.Tracked.{track_client-cases}
use xdp_nat_forward.Datapath.Session.Touch.{
  touch_session-reverse, touch_reverse-session, touch_session_back, touch_session_forth,
  touch_reverse_back, touch_reverse_forth,
}
use xdp_nat_forward.Datapath.Session.Paired.{
  reverse_of, session_of, Names, Paired, HasRoom, some_of_ne_none,
}

module _ (bpf : Bpf) where
  open bpf use {session, reverse}

  -- The map has the reverse entry of the session, and it names the session's client.
  abbrev pub HasReverse : Tables bpf → SessionKey → SessionVal → Type 0
  HasReverse t k v =
      (r : RevSessionVal) × (reverse.get t.reverse_session_map (reverse_of k v) ≡ some r)
      × Names k v r

  -- So has each session.
  abbrev pub HasReverses : Tables bpf → Type 0
  HasReverses t =
      (k : SessionKey) (v : SessionVal) → session.get t.session_map k ≡ some v → HasReverse t k v

  -- The map has the session that the reverse entry stands for.
  abbrev pub HasSession : Tables bpf → RevSessionKey → RevSessionVal → Type 0
  HasSession t j r =
      (v : SessionVal) × (session.get t.session_map (session_of j r) ≡ some v)
      × (v.nat_port ≡ j.nat_port)

  -- Every session has its reverse entry; every reverse entry has its session or is about to be removed;
  -- and what is about to be removed is there, once, and goes together.
  pub record Balanced (t : Tables bpf) (doomed : List SessionKey) (pending : List RevSessionKey)
      : Type 0 where
    pub padded :
        (k : SessionKey) (v : SessionVal) → session.get t.session_map k ≡ some v → k.pad ≡ 0
    pub rev_padded :
        (j : RevSessionKey) (r : RevSessionVal)
        → reverse.get t.reverse_session_map j ≡ some r
        → j.pad ≡ 0
    pub forth :
        (k : SessionKey) (v : SessionVal) → session.get t.session_map k ≡ some v → HasReverse t k v
    pub back :
        (j : RevSessionKey) (r : RevSessionVal)
        → reverse.get t.reverse_session_map j ≡ some r
        → HasSession t j r ⊎ IsIn j pending
    pub doomed_live :
        (k : SessionKey)
        → IsIn k doomed
        → (v : SessionVal) × (session.get t.session_map k ≡ some v) × IsIn (reverse_of k v) pending
    pub pending_live :
        (j : RevSessionKey)
        → IsIn j pending
        → (r : RevSessionVal) × (reverse.get t.reverse_session_map j ≡ some r)
    pub owned :
        (k : SessionKey) (v : SessionVal)
        → session.get t.session_map k ≡ some v
        → IsIn (reverse_of k v) pending
        → IsIn k doomed
    pub doomed_once : Distinct doomed
    pub pending_once : Distinct pending

  pub Paired-Balanced : (t : Tables bpf) → Paired bpf t → Balanced t [] []
  Paired-Balanced t p = record {
    padded = p.padded;
    rev_padded = p.rev_padded;
    forth = p.forth;
    back = λ j r e. inl (p.back j r e);
    doomed_live = λ k i. absurd i;
    pending_live = λ j i. absurd i;
    owned = λ k v e i. absurd i;
    doomed_once = tt;
    pending_once = tt;
  }

  -- With nothing about to be removed, sessions and reverse entries correspond.
  pub Balanced-Paired : (t : Tables bpf) → Balanced t [] [] → Paired bpf t
  Balanced-Paired t b = record {
    padded = b.padded;
    rev_padded = b.rev_padded;
    forth = b.forth;
    back = λ j r e. elim (b.back j r e) [ inl h ↦ h | inr i ↦ absurd i ];
  }
