-- ===== src/Datapath/Session/Touch.antt =====
-- Refreshing `last_seen` changes no other field.
use xdp_nat_forward.Base.{ℕ, ◌≡◌, refl, arith, ◌∙◌, some, Option-cases, inl, inr}
use xdp_nat_forward.Datapath.Types.{
  SessionKey, SessionVal, RevSessionKey, RevSessionVal, SessionKey-discrete, RevSessionKey-discrete,
}
use xdp_nat_forward.Datapath.Maps.{HashMap, Bpf, Tables}
use xdp_nat_forward.Datapath.Maps.Cases.{get-write_back}
use xdp_nat_forward.Datapath.Session.{touch_session, touch_reverse}

-- Two values of a session that differ at most in `last_seen`.
pub record SameSession (v w : SessionVal) : Type 0 where
  pub nat_port : w.nat_port ≡ v.nat_port
  pub client_mac : w.client_mac ≡ v.client_mac

pub record SameReverse (v w : RevSessionVal) : Type 0 where
  pub client_ip : w.client_ip ≡ v.client_ip
  pub client_port : w.client_port ≡ v.client_port
  pub local_port : w.local_port ≡ v.local_port
  pub client_mac : w.client_mac ≡ v.client_mac

SameReverse-refl : (v : RevSessionVal) → SameReverse v v
SameReverse-refl v = record {
  client_ip = refl;
  client_port = refl;
  local_port = refl;
  client_mac = refl;
}

module _ (bpf : Bpf) (t : Tables bpf) (now : ℕ) where
  open bpf use {session, reverse}

  -- Refreshing a session leaves the reverse map alone, and refreshing a reverse entry the session
  -- map; neither changes the rules.
  pub touch_session-reverse :
      (k : SessionKey)
      → ((touch_session bpf t k now).reverse_session_map ≡ t.reverse_session_map)
        × ((touch_session bpf t k now).forward_map ≡ t.forward_map)
  unfolding touch_session
  touch_session-reverse k = elim (Option-cases (HashMap.get session t.session_map k)) [
    | inl absent ↦ rw (absent, touch_session) (refl, refl)
    | inr (v, found) ↦ rw (found, touch_session) (refl, refl)
  ]

  pub touch_reverse-session :
      (k : RevSessionKey)
      → ((touch_reverse bpf t k now).session_map ≡ t.session_map)
        × ((touch_reverse bpf t k now).forward_map ≡ t.forward_map)
  unfolding touch_reverse
  touch_reverse-session k = elim (Option-cases (HashMap.get reverse t.reverse_session_map k)) [
    | inl absent ↦ rw (absent, touch_reverse) (refl, refl)
    | inr (v, found) ↦ rw (found, touch_reverse) (refl, refl)
  ]

  -- A session that is there after a refresh was there before, and the other way round.
  pub touch_session_back :
      (k j : SessionKey) (w : SessionVal)
      → HashMap.get session (touch_session bpf t k now).session_map j ≡ some w
      → (v : SessionVal) × (HashMap.get session t.session_map j ≡ some v) × SameSession v w
  unfolding touch_session
  touch_session_back k j w e = elim (Option-cases (HashMap.get session t.session_map k)) [
    | inl absent ↦
        (w, rw (absent, touch_session) at e, record { nat_port = refl; client_mac = refl })
    | inr (v, found) ↦
        let e' = rw (found, touch_session) at e in
        elim (get-write_back session SessionKey-discrete t.session_map k j _ v w found e') [
          | inl (same, is) ↦
              (v, rw same found, record { nat_port = ground arith; client_mac = ground arith })
          | inr (other, old) ↦ (w, old, record { nat_port = refl; client_mac = refl })
        ]
  ]

  pub touch_session_forth :
      (k j : SessionKey) (v : SessionVal)
      → HashMap.get session t.session_map j ≡ some v
      → (w : SessionVal) × (HashMap.get session (touch_session bpf t k now).session_map j ≡ some w)
        × SameSession v w
  unfolding touch_session
  touch_session_forth k j v e = elim (Option-cases (HashMap.get session t.session_map k)) [
    | inl absent ↦ rw (absent, touch_session) (v, e, record { nat_port = refl; client_mac = refl })
    | inr (u, found) ↦
        rw (found, touch_session)
          (elim (SessionKey-discrete j k) [
            | yes same ↦ (
              record u { last_seen = now },
              rw same (session.get-write_self _ k _ u found),
              let is : u ≡ v = cc in record { nat_port = ground arith; client_mac = ground arith },
            )
            | no other ↦ (
              v,
              session.get-write_ne _ k j _ other ∙ e,
              record { nat_port = refl; client_mac = refl },
            )
          ])
  ]

  -- Likewise for a reverse entry that is there after a refresh was there before, and the other way round.
  pub touch_reverse_back :
      (k j : RevSessionKey) (w : RevSessionVal)
      → HashMap.get reverse (touch_reverse bpf t k now).reverse_session_map j ≡ some w
      → (v : RevSessionVal) × (HashMap.get reverse t.reverse_session_map j ≡ some v)
        × SameReverse v w
  unfolding touch_reverse
  touch_reverse_back k j w e = elim (Option-cases (HashMap.get reverse t.reverse_session_map k)) [
    | inl absent ↦ (w, rw (absent, touch_reverse) at e, SameReverse-refl w)
    | inr (v, found) ↦
        let e' = rw (found, touch_reverse) at e in
        elim (get-write_back reverse RevSessionKey-discrete t.reverse_session_map k j _ v w found
          e') [
            | inl (same, is) ↦ (
              v,
              rw same found,
              record {
                client_ip = ground arith;
                client_port = ground arith;
                local_port = ground arith;
                client_mac = ground arith;
              },
            )
            | inr (other, old) ↦ (w, old, SameReverse-refl w)
          ]
  ]

  pub touch_reverse_forth :
      (k j : RevSessionKey) (v : RevSessionVal)
      → HashMap.get reverse t.reverse_session_map j ≡ some v
      → (w : RevSessionVal) × (HashMap.get reverse (touch_reverse bpf t k now).reverse_session_map j
          ≡ some w)
        × SameReverse v w
  unfolding touch_reverse
  touch_reverse_forth k j v e = elim (Option-cases (HashMap.get reverse t.reverse_session_map k)) [
    | inl absent ↦ rw (absent, touch_reverse) (v, e, SameReverse-refl v)
    | inr (u, found) ↦
        rw (found, touch_reverse)
          (elim (RevSessionKey-discrete j k) [
            | yes same ↦ (
              record u { last_seen = now },
              rw same (reverse.get-write_self _ k _ u found),
              let is : u ≡ v = cc in
                  record {
                    client_ip = ground arith;
                    client_port = ground arith;
                    local_port = ground arith;
                    client_mac = ground arith;
                  },
            )
            | no other ↦ (v, reverse.get-write_ne _ k j _ other ∙ e, SameReverse-refl v)
          ])
  ]
