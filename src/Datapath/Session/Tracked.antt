-- ===== src/Datapath/Session/Tracked.antt =====
-- The two ways in which `track_client` finds a NAT port.
use mathlib.Core.Option
use xdp_nat_forward.Base.{ℕ, ◌≡◌, sym, ap, arith, ◌⊎◌, inl, inr, Option, none, some, Option-cases}
use xdp_nat_forward.Datapath.Packet.{swap16}
use xdp_nat_forward.Datapath.Types.{ForwardVal, SessionVal}
use xdp_nat_forward.Datapath.Maps.{HashMap, Bpf, Tables}
use xdp_nat_forward.Datapath.Session.{
  Flow, rev_key, client_key, allocate_nat_port, touch_session, touch_reverse, open_session,
  track_client,
}

some_pair :
    {A B : Type 0} {a c : A} {b d : B}
    → ◌≡◌ {A = Option (A × B)} (some (a, b)) (some (c, d))
    → (a ≡ c) × (b ≡ d)
some_pair e = (ground arith, ground arith)

pair : {A B : Type 0} {a c : A} {b d : B} → ◌≡◌ {A = A × B} (a, b) (c, d) → (a ≡ c) × (b ≡ d)
pair e = (ap (λ p. p.0) e, ap (λ p. p.1) e)

module _ (bpf : Bpf) (t t' : Tables bpf) (fl : Flow) (rule : ForwardVal)
    (mac now nat_port : ℕ) where
  -- The session was there, and it and its reverse entry are refreshed.
  pub record Found : Type 0 where
    pub val : SessionVal
    pub found : HashMap.get bpf.session t.session_map (client_key fl rule) ≡ some val
    pub port_is : nat_port ≡ val.nat_port
    pub tables_are :
        t'
        ≡ touch_reverse bpf
            (touch_session bpf t (client_key fl rule) now)
            (rev_key rule.forward_ip val.nat_port rule.forward_port fl.proto)
            now

  -- There was none, and one is opened on a free port.
  pub record Opened : Type 0 where
    pub port : ℕ
    pub absent : HashMap.get bpf.session t.session_map (client_key fl rule) ≡ none
    pub allocated :
        allocate_nat_port bpf t fl.src_ip rule.forward_ip fl.src_port rule.forward_port fl.proto
        ≡ some port
    pub port_is : nat_port ≡ swap16 port
    pub tables_are : t' ≡ open_session bpf t fl rule (swap16 port) mac now

  pub track_client-cases : track_client bpf t fl rule mac now ≡ some (nat_port, t') → Found ⊎ Opened
  unfolding track_client
  track_client-cases e =
      elim (Option-cases (HashMap.get bpf.session t.session_map (client_key fl rule))) [
        | inr (v, found) ↦
            let (port, tables) = some_pair (rw (found, track_client) at e) in
            inl (record { val = v; found = found; port_is = sym port; tables_are = sym tables })
        | inl absent ↦
            let (port, allocated, is) =
              (Option.map-eq-some_iff _ _).0 (rw (absent, track_client) at e) in
            let (same, tables) = pair is in
            inr (record {
              port = port;
              absent = absent;
              allocated = allocated;
              port_is = sym same;
              tables_are = sym tables;
            })
      ]
