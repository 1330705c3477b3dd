-- ===== src/Datapath/Program/Verdict.antt =====
-- The ways in which `try_forward` ends.
use xdp_nat_forward.Base.{
  ℕ, ◌+◌, ◌≤◌, ◌≡◌, ◌≢◌, arith, ◌==◌, ==_iff, ltb, Bool-cases, Option-cases, inl, inr, ◌||◌, Option,
  none, some,
}
use xdp_nat_forward.Datapath.Packet.{Mem, ptr_at_mut, load, swap16}
use xdp_nat_forward.Datapath.Types.{ForwardVal, RevSessionVal}
use xdp_nat_forward.Datapath.Maps.{HashMap, Bpf, Tables}
use xdp_nat_forward.Datapath.Session.{Flow, reply_key, track_client, track_target}
use xdp_nat_forward.Datapath.Rewrite.{Target, read_flow, tcp_rewrite, udp_rewrite}
use xdp_nat_forward.Datapath.Program.{
  Action, xdp_aborted, xdp_pass, xdp_tx, forward_key, to_target, to_client, World, Outcome, send,
  client_to_target, target_to_client, translate, try_tcp, try_udp, ip_len, try_ip, try_forward,
}

pub data Proto : Type 0 where
  tcp udp : Proto

abbrev pub number : Proto → ℕ
number tcp = 6
number udp = 17

abbrev pub rewrite_of : Proto → ℕ → Flow → Target → Mem → Mem
rewrite_of tcp = tcp_rewrite
rewrite_of udp = udp_rewrite

-- Where the TCP or UDP header starts.
abbrev pub l4_offset : Mem → ℕ
l4_offset m = 14 + ip_len m

abbrev pub header_len : Proto → ℕ
header_len tcp = 20
header_len udp = 8

abbrev pub flow_of : Proto → Mem → Flow
flow_of p m = read_flow m (l4_offset m) (number p)

module _ (bpf : Bpf) where
  -- A packet of the protocol with both headers in bounds.
  pub record IsTranslatable (w : World bpf) (p : Proto) : Type 0 where
    pub is_ip : swap16 (load 2 12 w.packet.mem) ≡ 0x0800
    pub ihl : 20 ≤ ip_len w.packet.mem
    pub is_proto : load 1 23 w.packet.mem ≡ number p
    pub in_bounds : l4_offset w.packet.mem + header_len p ≤ w.packet.size

  pub data Verdict (w : World bpf) (now : ℕ) : Outcome bpf → Type 0 where
    kept : (a : Option Action) → a ≢ some xdp_tx → Verdict w now (a, w)
    sent_to_target :
        (p : Proto) (rule : ForwardVal) (nat_port : ℕ) (t : Tables bpf)
        → IsTranslatable w p
        → HashMap.get bpf.forward w.tables.forward_map (forward_key (flow_of p w.packet.mem))
          ≡ some rule
        → track_client bpf w.tables (flow_of p w.packet.mem) rule (load 6 6 w.packet.mem) now
          ≡ some (nat_port, t)
        → Verdict w now (
            send bpf
              (rewrite_of p
                (l4_offset w.packet.mem)
                (flow_of p w.packet.mem)
                (to_target (flow_of p w.packet.mem) rule nat_port))
              w
              t)
    sent_to_client :
        (p : Proto) (v : RevSessionVal)
        → IsTranslatable w p
        → HashMap.get bpf.forward w.tables.forward_map (forward_key (flow_of p w.packet.mem)) ≡ none
        → HashMap.get bpf.reverse w.tables.reverse_session_map (reply_key (flow_of p w.packet.mem))
          ≡ some v
        → Verdict w now (
            send bpf
              (rewrite_of p
                (l4_offset w.packet.mem)
                (flow_of p w.packet.mem)
                (to_client (flow_of p w.packet.mem) v))
              w
              (track_target bpf w.tables (flow_of p w.packet.mem) v now))

  module _ (w : World bpf) (now : ℕ) where
    translate-Verdict :
        (p : Proto)
        → IsTranslatable w p
        → Verdict w now
            (translate bpf (rewrite_of p (l4_offset w.packet.mem)) w (flow_of p w.packet.mem) now)
    unfolding translate client_to_target target_to_client
    translate-Verdict p ok =
        let fl = flow_of p w.packet.mem in
        elim (Option-cases (HashMap.get bpf.forward w.tables.forward_map (forward_key fl))) [
          | inr (rule, is_rule) ↦
              elim (Option-cases (track_client bpf w.tables fl rule (load 6 6 w.packet.mem) now)) [
                | inr ((nat_port, t), tracked) ↦
                    rw (is_rule, translate, tracked, client_to_target)
                      (sent_to_target p rule nat_port t ok is_rule tracked)
                | inl full ↦
                    rw (is_rule, translate, full, client_to_target)
                      (kept (some xdp_aborted) (λ e. cc))
              ]
          | inl no_rule ↦
              elim (Option-cases
                (HashMap.get bpf.reverse w.tables.reverse_session_map (reply_key fl))) [
                  | inr (v, found) ↦
                      rw (no_rule, translate, found) (sent_to_client p v ok no_rule found)
                  | inl unknown ↦ rw (no_rule, translate, unknown) (kept (some xdp_pass) (λ e. cc))
                ]
        ]

    try_ip-Verdict : swap16 (load 2 12 w.packet.mem) ≡ 0x0800 → Verdict w now (try_ip bpf w now)
    unfolding try_ip try_tcp try_udp
    try_ip-Verdict is_ip =
        let m = w.packet.mem in
        elim (Bool-cases (ltb (ip_len m) 20 || ltb 60 (ip_len m))) [
          | inl bad ↦ rw (bad, try_ip) (kept (some xdp_pass) (λ e. cc))
          | inr good ↦ elim (Bool-cases (load 1 23 m == 6)) [
            | inl six ↦ elim (Bool-cases (ptr_at_mut w.packet (l4_offset m) 20)) [
              | inl fits ↦
                  rw (good, try_ip, six, try_tcp, fits)
                    (translate-Verdict tcp (record {
                      is_ip = is_ip;
                      ihl = ground arith;
                      is_proto = ground arith;
                      in_bounds = ground arith;
                    }))
              | inr short ↦ rw (good, try_ip, six, try_tcp, short) (kept none (λ e. cc))
            ]
            | inr not_six ↦ elim (Bool-cases (load 1 23 m == 17)) [
              | inl seventeen ↦ elim (Bool-cases (ptr_at_mut w.packet (l4_offset m) 8)) [
                | inl fits ↦
                    rw (good, try_ip, not_six, seventeen, try_udp, fits)
                      (translate-Verdict udp (record {
                        is_ip = is_ip;
                        ihl = ground arith;
                        is_proto = ground arith;
                        in_bounds = ground arith;
                      }))
                | inr short ↦
                    rw (good, try_ip, not_six, seventeen, try_udp, short) (kept none (λ e. cc))
              ]
              | inr other ↦ rw (good, try_ip, not_six, other) (kept (some xdp_pass) (λ e. cc))
            ]
          ]
        ]

    -- Every packet is left as it is, or sent on to a rule's target, or back to a client.
    pub try_forward-Verdict : Verdict w now (try_forward bpf w now)
    unfolding try_forward
    try_forward-Verdict =
        let m = w.packet.mem in
        elim (Bool-cases (ptr_at_mut w.packet 0 14)) [
          | inr short ↦ rw short (kept none (λ e. cc))
          | inl eth ↦ elim (Bool-cases (swap16 (load 2 12 m) == 0x0800)) [
            | inr other ↦ rw (eth, other) (kept (some xdp_pass) (λ e. cc))
            | inl is_ip ↦ elim (Bool-cases (ptr_at_mut w.packet 14 20)) [
              | inr short ↦ rw (eth, is_ip, short) (kept none (λ e. cc))
              | inl ip ↦ rw (eth, is_ip, ip) (try_ip-Verdict ((==_iff _ _).0 is_ip))
            ]
          ]
        ]
