-- ===== src/Datapath/Session/Balanced/Kept.antt =====
-- What a packet does to the sessions and reverse entries while the cleanup is under way.
use xdp_nat_forward.Base.{ℕ, ◌≡◌, ◌∙◌, sym, ap, refl, inl, inr, none, some, List}
use xdp_nat_forward.Datapath.Packet.{swap16}
use xdp_nat_forward.Datapath.Types.{
  ForwardVal, SessionKey, RevSessionKey, RevSessionVal, SessionKey-discrete, RevSessionKey-discrete,
}
use xdp_nat_forward.Datapath.Maps.{HashMap, Bpf, Tables}
use xdp_nat_forward.Datapath.Maps.Cases.{get-insert_back}
use xdp_nat_forward.Datapath.Session.{
  Flow, rev_key, client_key, reply_key, replied_key, session_val, rev_val, touch_session,
  touch_reverse, open_session, track_client, track_target,
}
use xdp_nat_forward.Datapath.Session.Allocate.{allocate_nat_port-fresh}
use xdp_nat_forward.Datapath.Session.Tracked.{track_client-cases}
use xdp_nat_forward.Datapath.Session.Touch.{
  touch_session-reverse, touch_reverse-session, touch_session_back, touch_session_forth,
  touch_reverse_back, touch_reverse_forth,
}
use xdp_nat_forward.Datapath.Session.Paired.{HasRoom, some_of_ne_none}
use xdp_nat_forward.Datapath.Session.Balanced.{Balanced}

module _ (bpf : Bpf) where
  open bpf use {session, reverse}

  module _ (doomed : List SessionKey) (pending : List RevSessionKey) where
    abbrev B : Tables bpf → Type 0
    B t = Balanced bpf t doomed pending

    touch_session-Balanced :
        (t : Tables bpf) (k : SessionKey) (now : ℕ) → B t → B (touch_session bpf t k now)
    touch_session-Balanced t k now p =
        let unchanged = (touch_session-reverse bpf t now k).0 in
        record {
          padded = λ j w e. p.padded j _ (touch_session_back bpf t now k j w e).1;
          rev_padded = λ j r e. p.rev_padded j r (rw unchanged at e);
          forth = λ j w e.
              let (v, old, same) = touch_session_back bpf t now k j w e in
              let (r, er, n) = p.forth j v old in
              (
                r,
                rw (unchanged, same.nat_port) er,
                record {
                  client_ip = n.client_ip;
                  client_port = n.client_port;
                  client_mac = n.client_mac ∙ sym same.client_mac;
                },
              );
          back = λ j r e. elim (p.back j r (rw unchanged at e)) [
            | inl (v, old, port) ↦
                let (w, new, same) = touch_session_forth bpf t now k _ v old in
                inl (w, new, same.nat_port ∙ port)
            | inr i ↦ inr i
          ];
          doomed_live = λ j i.
              let (v, old, later) = p.doomed_live j i in
              let (w, new, same) = touch_session_forth bpf t now k j v old in
              (w, new, rw same.nat_port later);
          pending_live = λ j i. let (r, e) = p.pending_live j i in (r, rw unchanged e);
          owned = λ j w e i.
              let (v, old, same) = touch_session_back bpf t now k j w e in
              p.owned j v old (rw same.nat_port at i);
          doomed_once = p.doomed_once;
          pending_once = p.pending_once;
        }

    touch_reverse-Balanced :
        (t : Tables bpf) (k : RevSessionKey) (now : ℕ) → B t → B (touch_reverse bpf t k now)
    touch_reverse-Balanced t k now p =
        let unchanged = (touch_reverse-session bpf t now k).0 in
        record {
          padded = λ j v e. p.padded j v (rw unchanged at e);
          rev_padded = λ j r e. p.rev_padded j _ (touch_reverse_back bpf t now k j r e).1;
          forth = λ j v e.
              let (r, er, n) = p.forth j v (rw unchanged at e) in
              let (s, es, same) = touch_reverse_forth bpf t now k _ r er in
              (
                s,
                es,
                record {
                  client_ip = same.client_ip ∙ n.client_ip;
                  client_port = same.client_port ∙ n.client_port;
                  client_mac = same.client_mac ∙ n.client_mac;
                },
              );
          back = λ j r e.
              let (s, old, same) = touch_reverse_back bpf t now k j r e in
              elim (p.back j s old) [
                | inl (v, ev, port) ↦
                    inl (v, rw (unchanged, same.client_ip, same.client_port) ev, port)
                | inr i ↦ inr i
              ];
          doomed_live = λ j i. let (v, e, later) = p.doomed_live j i in (v, rw unchanged e, later);
          pending_live = λ j i.
              let (r, e) = p.pending_live j i in
              let (s, es, same) = touch_reverse_forth bpf t now k j r e in (s, es);
          owned = λ j v e i. p.owned j v (rw unchanged at e) i;
          doomed_once = p.doomed_once;
          pending_once = p.pending_once;
        }

    pub track_target-Balanced :
        (t : Tables bpf) (fl : Flow) (v : RevSessionVal) (now : ℕ)
        → B t
        → B (track_target bpf t fl v now)
    unfolding track_target
    track_target-Balanced t fl v now p =
        touch_session-Balanced _ (replied_key fl v) now
          (touch_reverse-Balanced t (reply_key fl) now p)

    module _ (t : Tables bpf) (fl : Flow) (rule : ForwardVal) (port mac now : ℕ) where
      open_session-Balanced :
          (s : HashMap.Map session) (r : HashMap.Map reverse)
          → session.insert t.session_map (client_key fl rule) (session_val port mac now) ≡ some s
          → reverse.insert t.reverse_session_map
              (rev_key rule.forward_ip port rule.forward_port fl.proto)
              (rev_val fl mac now)
            ≡ some r
          → session.get t.session_map (client_key fl rule) ≡ none
          → reverse.get t.reverse_session_map
              (rev_key rule.forward_ip port rule.forward_port fl.proto)
            ≡ none
          → B t
          → B (record t { session_map = s; reverse_session_map = r })
      open_session-Balanced s r es er absent fresh p = record {
        padded = λ j v e. elim (get-insert_back session SessionKey-discrete _ s _ j _ v es e) [
          | inl (same, _) ↦ ap (λ (x : SessionKey). x.pad) same
          | inr (_, old) ↦ p.padded j v old
        ];
        rev_padded = λ j v e.
            elim (get-insert_back reverse RevSessionKey-discrete _ r _ j _ v er e) [
              | inl (same, _) ↦ ap (λ (x : RevSessionKey). x.pad) same
              | inr (_, old) ↦ p.rev_padded j v old
            ];
        forth = λ j v e. elim (get-insert_back session SessionKey-discrete _ s _ j _ v es e) [
          | inl (same, is) ↦
              rw (same, is)
                (
                  rev_val fl mac now,
                  reverse.get-insert_self _ r _ _ er,
                  record { client_ip = refl; client_port = refl; client_mac = refl },
                )
          | inr (other, old) ↦
              let (q, eq, n) = p.forth j v old in
              (q, reverse.get-insert_ne _ r _ _ _ er (λ same. cc) ∙ eq, n)
        ];
        back = λ j q e. elim (get-insert_back reverse RevSessionKey-discrete _ r _ j _ q er e) [
          | inl (same, is) ↦
              inl
                (rw (same, is) (session_val port mac now, session.get-insert_self _ s _ _ es, refl))
          | inr (other, old) ↦ elim (p.back j q old) [
            | inl (v, ev, is) ↦ inl (v, session.get-insert_ne _ s _ _ _ es (λ same. cc) ∙ ev, is)
            | inr i ↦ inr i
          ]
        ];
        doomed_live = λ j i.
            let (v, e, later) = p.doomed_live j i in
            (v, session.get-insert_ne _ s _ _ _ es (λ same. cc) ∙ e, later);
        pending_live = λ j i.
            let (q, e) = p.pending_live j i in
            (q, reverse.get-insert_ne _ r _ _ _ er (λ same. cc) ∙ e);
        owned = λ j v e i. elim (get-insert_back session SessionKey-discrete _ s _ j _ v es e) [
          | inl (same, is) ↦ let (q, there) = p.pending_live _ (rw (same, is) at i) in absurd (cc)
          | inr (other, old) ↦ p.owned j v old i
        ];
        doomed_once = p.doomed_once;
        pending_once = p.pending_once;
      }

    pub track_client-Balanced :
        (t t' : Tables bpf) (fl : Flow) (rule : ForwardVal) (mac now nat_port : ℕ)
        → B t
        → HasRoom bpf t
        → track_client bpf t fl rule mac now ≡ some (nat_port, t')
        → B t'
    unfolding open_session
    track_client-Balanced t t' fl rule mac now nat_port p room e =
        elim (track_client-cases bpf t t' fl rule mac now nat_port e) [
          | inl f ↦
              rw f.tables_are (
                touch_reverse-Balanced _ _ now
                  (touch_session-Balanced t (client_key fl rule) now p))
          | inr o ↦
              let (s, es) =
                some_of_ne_none
                  (room.session_room (client_key fl rule) (session_val (swap16 o.port) mac now)) in
              let (r, er) = some_of_ne_none (
                room.reverse_room
                  (rev_key rule.forward_ip (swap16 o.port) rule.forward_port fl.proto)
                  (rev_val fl mac now)) in
              rw (o.tables_are, es, er)
                (open_session-Balanced t fl rule (swap16 o.port) mac now s r es er o.absent
                  (allocate_nat_port-fresh bpf t _ _ _ _ _ o.port o.allocated) p)
        ]
