-- ===== src/Daemon/Client/Queries.antt =====
-- forward/src/manager_client.rs, `query_bpf_sessions` and the map that it walks.
use xdp_nat_forward.Base.{
  ℕ, ◌^◌, ◌==◌, if◌then◌else◌, ◌<◌, ◌≡◌, ◌↔◌, refl, none, some, List, [], ◌∷◌, inl, inr, IsIn,
  IsIn-map, map-IsIn,
}
use xdp_nat_forward.Console.Text.{codes}
use xdp_nat_forward.Datapath.Packet.{swap16, swap32}
use xdp_nat_forward.Datapath.Types.{ForwardKey, ForwardVal, SessionKey, SessionVal}
use xdp_nat_forward.Datapath.Maps.{HashMap}
use xdp_nat_forward.Datapath.Maps.Iteration.{Iteration}
use xdp_nat_forward.Daemon.Words.{show_ipv4}
use xdp_nat_forward.Daemon.Words.Addresses.{parse_ipv4-show_ipv4}
use xdp_nat_forward.Daemon.Rules.{RulesFile}
use xdp_nat_forward.Daemon.Service.{State}
use xdp_nat_forward.Daemon.Sessions.{
  SessionInfo, session_info, query_sessions, found_back, found_forth,
}
use xdp_nat_forward.Daemon.Client.{
  query_session, query_reply, Identity, Surroundings, handle_node_command,
}

module _ (session : HashMap SessionKey SessionVal) (walks : Iteration session) where
  -- The map has a session from the one address to the other that is reported so: its protocol, and in the
  -- host's byte order the client's port, the target's port and the NAT port.
  abbrev pub IsReported : ℕ → ℕ → session.Map → SessionInfo → Type 0
  IsReported src dst m i =
      (k : SessionKey) × (v : SessionVal) × (session.get m k ≡ some v)
      × (k.client_ip ≡ swap32 src)
      × (k.target_ip ≡ swap32 dst)
      × (i ≡ record {
        proto = if k.proto == 6 then codes "tcp" else codes "udp";
        src_port = swap16 k.client_port;
        dst_port = swap16 k.target_port;
        nat_port = swap16 v.nat_port;
      })

  query_sessions-IsReported :
      (src dst : ℕ) (m : session.Map) (i : SessionInfo)
      → (IsIn none (walks.iter m) → ⊥)
      → IsIn i (query_sessions src dst (walks.iter m)) ↔ IsReported src dst m i
  unfolding query_sessions
  query_sessions-IsReported src dst m i readable = (
    λ h.
        let (r, (w, e)) = IsIn-map session_info i _ h in
        let (listed, a, b) = found_back (swap32 src) (swap32 dst) (walks.iter m) r w in
        (r.0, r.1, walks.iter_sound m r.0 r.1 listed, a, b, e),
    λ h.
        let (k, v, stored, a, b, e) = h in
        let listed : IsIn (some (k, v)) (walks.iter m) = elim (walks.iter_complete m k v stored) [
          | inl w ↦ w
          | inr w ↦ absurd (readable w)
        ] in
        rw e (
          map-IsIn session_info (k, v) _
            (found_forth (swap32 src) (swap32 dst) (walks.iter m) (k, v) listed a b)),
  )

  module _ (forward_map : HashMap ForwardKey ForwardVal) (iteration : Iteration forward_map)
      (file : RulesFile) where
    -- The manager's query for two printed addresses is answered with success and a list of exactly the
    -- sessions that the map has from the first address to the second, with their protocol, the client's
    -- port as the source, the target's as the destination and the NAT port, when the walk over the map fails nowhere; the daemon's state is unchanged.
    pub query_session-exact :
        (self : Identity) (around : Surroundings) (command_id : List ℕ) (src dst : ℕ)
        (s : State forward_map iteration file) (m : session.Map)
        → src < 2 ^ 32
        → dst < 2 ^ 32
        → around.session_items ≡ walks.iter m
        → (IsIn none (walks.iter m) → ⊥)
        → (infos : List SessionInfo) × (handle_node_command forward_map iteration file self around
              (query_session command_id (show_ipv4 src) (show_ipv4 dst))
              s
            ≡ (query_reply command_id (codes "success") infos none ∷ [], s))
          × ((i : SessionInfo) → IsIn i infos ↔ IsReported src dst m i)
    unfolding handle_node_command
    query_session-exact self around command_id src dst s m hs hd walked readable = (
      query_sessions src dst (walks.iter m),
      rw (parse_ipv4-show_ipv4 src hs, parse_ipv4-show_ipv4 dst hd, walked) refl,
      λ i. query_sessions-IsReported src dst m i readable,
    )
