-- ===== src/Datapath/Session/Typed.antt =====
-- The values of the maps fit the widths of their fields, those of `last_seen` aside, which are in Clock.
use xdp_nat_forward.Base.{ℕ, ◌^◌, ◌<◌, ◌≡◌, arith, some, Option-cases, inl, inr}
use xdp_nat_forward.Datapath.Packet.{swap16}
use xdp_nat_forward.Datapath.Packet.Laws.{swap16-lt}
use xdp_nat_forward.Datapath.Types.{
  ForwardKey, ForwardVal, SessionKey, SessionVal, RevSessionKey, RevSessionVal, SessionKey-discrete,
  RevSessionKey-discrete,
}
use xdp_nat_forward.Datapath.Maps.{HashMap, Bpf, Tables}
use xdp_nat_forward.Datapath.Maps.Cases.{get-insert_back}
use xdp_nat_forward.Datapath.Session.{
  Flow, rev_key, client_key, reply_key, replied_key, session_val, rev_val, touch_session,
  touch_reverse, open_session, track_client, track_target,
}
use xdp_nat_forward.Datapath.Session.Allocate.{allocate_nat_port-some}
use xdp_nat_forward.Datapath.Session.Touch.{
  touch_session-reverse, touch_reverse-session, touch_session_back, touch_reverse_back,
}
use xdp_nat_forward.Datapath.Session.Tracked.{track_client-cases}

pub record RuleFits (v : ForwardVal) : Type 0 where
  pub ip_lt : v.forward_ip < 2 ^ 32
  pub port_lt : v.forward_port < 65536
  pub mac_lt : v.forward_mac < 2 ^ 48

pub record SessionFits (v : SessionVal) : Type 0 where
  pub port_lt : v.nat_port < 65536
  pub mac_lt : v.client_mac < 2 ^ 48

pub record RevFits (v : RevSessionVal) : Type 0 where
  pub ip_lt : v.client_ip < 2 ^ 32
  pub port_lt : v.client_port < 65536
  pub local_lt : v.local_port < 65536
  pub mac_lt : v.client_mac < 2 ^ 48

-- A flow that was read from a packet.
pub record FlowFits (fl : Flow) : Type 0 where
  pub src_ip_lt : fl.src_ip < 2 ^ 32
  pub dst_ip_lt : fl.dst_ip < 2 ^ 32
  pub src_port_lt : fl.src_port < 65536
  pub dst_port_lt : fl.dst_port < 65536

module _ (bpf : Bpf) where
  open bpf use {forward, session, reverse}

  pub record Typed (t : Tables bpf) : Type 0 where
    pub rules :
        (k : ForwardKey) (v : ForwardVal)
        → HashMap.get forward t.forward_map k ≡ some v
        → RuleFits v
    pub sessions :
        (k : SessionKey) (v : SessionVal)
        → HashMap.get session t.session_map k ≡ some v
        → SessionFits v
    pub reverses :
        (k : RevSessionKey) (v : RevSessionVal)
        → HashMap.get reverse t.reverse_session_map k ≡ some v
        → RevFits v

  touch_session-Typed :
      (t : Tables bpf) (k : SessionKey) (now : ℕ) → Typed t → Typed (touch_session bpf t k now)
  touch_session-Typed t k now p =
      let (unchanged, rules) = touch_session-reverse bpf t now k in
      record {
        rules = λ j v e. p.rules j v (rw rules at e);
        sessions = λ j w e.
            let (v, old, same) = touch_session_back bpf t now k j w e in
            let fits = p.sessions j v old in
            record {
              port_lt = omega (arith, fits.port_lt, same.nat_port);
              mac_lt = omega (arith, fits.mac_lt, same.client_mac);
            };
        reverses = λ j v e. p.reverses j v (rw unchanged at e);
      }

  touch_reverse-Typed :
      (t : Tables bpf) (k : RevSessionKey) (now : ℕ) → Typed t → Typed (touch_reverse bpf t k now)
  touch_reverse-Typed t k now p =
      let (unchanged, rules) = touch_reverse-session bpf t now k in
      record {
        rules = λ j v e. p.rules j v (rw rules at e);
        sessions = λ j v e. p.sessions j v (rw unchanged at e);
        reverses = λ j w e.
            let (v, old, same) = touch_reverse_back bpf t now k j w e in
            let fits = p.reverses j v old in
            record {
              ip_lt = omega (arith, fits.ip_lt, same.client_ip);
              port_lt = omega (arith, fits.port_lt, same.client_port);
              local_lt = omega (arith, fits.local_lt, same.local_port);
              mac_lt = omega (arith, fits.mac_lt, same.client_mac);
            };
      }

  pub track_target-Typed :
      (t : Tables bpf) (fl : Flow) (v : RevSessionVal) (now : ℕ)
      → Typed t
      → Typed (track_target bpf t fl v now)
  unfolding track_target
  track_target-Typed t fl v now p =
      touch_session-Typed _ (replied_key fl v) now (touch_reverse-Typed t (reply_key fl) now p)

  module _ (t : Tables bpf) (fl : Flow) (rule : ForwardVal) (port mac now : ℕ) where
    open_session-Typed :
        FlowFits fl
        → port < 65536
        → mac < 2 ^ 48
        → Typed t
        → Typed (open_session bpf t fl rule port mac now)
    unfolding open_session
    open_session-Typed f port_lt mac_lt p = record {
      rules = p.rules;
      sessions = λ j v e.
          elim (Option-cases (
            HashMap.insert session t.session_map (client_key fl rule) (session_val port mac now))) [
              | inl full ↦ p.sessions j v (rw full at e)
              | inr (s, es) ↦
                  elim (get-insert_back session SessionKey-discrete _ s _ j _ v es (rw es at e)) [
                    | inl (_, is) ↦ rw is (record { port_lt = port_lt; mac_lt = mac_lt })
                    | inr (_, old) ↦ p.sessions j v old
                  ]
            ];
      reverses = λ j v e.
          elim (Option-cases (
            HashMap.insert reverse t.reverse_session_map
              (rev_key rule.forward_ip port rule.forward_port fl.proto) (rev_val fl mac now))) [
                | inl full ↦ p.reverses j v (rw full at e)
                | inr (r, er) ↦
                    elim (get-insert_back reverse RevSessionKey-discrete _ r _ j _ v er
                      (rw er at e)) [
                        | inl (_, is) ↦ rw is (record {
                          ip_lt = f.src_ip_lt;
                          port_lt = f.src_port_lt;
                          local_lt = f.dst_port_lt;
                          mac_lt = mac_lt;
                        })
                        | inr (_, old) ↦ p.reverses j v old
                      ]
              ];
    }

  pub track_client-Typed :
      (t t' : Tables bpf) (fl : Flow) (rule : ForwardVal) (mac now nat_port : ℕ)
      → Typed t
      → FlowFits fl
      → mac < 2 ^ 48
      → track_client bpf t fl rule mac now ≡ some (nat_port, t')
      → Typed t' × (nat_port < 65536)
  track_client-Typed t t' fl rule mac now nat_port p f mac_lt e =
      elim (track_client-cases bpf t t' fl rule mac now nat_port e) [
        | inl q ↦ (
          rw q.tables_are
              (touch_reverse-Typed _ _ now (touch_session-Typed t (client_key fl rule) now p)),
          omega (arith, q.port_is, (p.sessions _ q.val q.found).port_lt),
        )
        | inr o ↦
            let (_, _, _, _, small) = allocate_nat_port-some bpf t _ _ _ _ _ o.port o.allocated in
            let port_lt : swap16 o.port < 65536 = swap16-lt o.port (omega arith) in
            (
              rw o.tables_are
                  (open_session-Typed t fl rule (swap16 o.port) mac now f port_lt mac_lt p),
              omega (arith, o.port_is, port_lt),
            )
      ]
