-- ===== src/Datapath/Program/Sessions.antt =====
-- The session maps over a run of the program.
use xdp_nat_forward.Base.{ℕ, ◌≡◌, ◌≢◌, refl, some, List, []}
use xdp_nat_forward.Datapath.Types.{SessionKey, RevSessionKey}
use xdp_nat_forward.Datapath.Packet.{load}
use xdp_nat_forward.Datapath.Maps.{Bpf}
use xdp_nat_forward.Datapath.Session.Paired.{Paired, HasRoom}
use xdp_nat_forward.Datapath.Session.Balanced.{Balanced, Paired-Balanced, Balanced-Paired}
use xdp_nat_forward.Datapath.Session.Balanced.Kept.{track_client-Balanced, track_target-Balanced}
use xdp_nat_forward.Datapath.Program.{xdp_tx, World, Outcome, try_forward, forward}
use xdp_nat_forward.Datapath.Program.Verdict.{
  flow_of, Verdict, kept, sent_to_target, sent_to_client, try_forward-Verdict,
}

module _ (bpf : Bpf) where
  Verdict-Balanced :
      (doomed : List SessionKey) (pending : List RevSessionKey) (w : World bpf) (now : ℕ)
      (r : Outcome bpf)
      → Balanced bpf w.tables doomed pending
      → HasRoom bpf w.tables
      → Verdict bpf w now r
      → Balanced bpf r.1.tables doomed pending
  Verdict-Balanced doomed pending w now r p room (kept a h) = p
  Verdict-Balanced doomed pending w now r p room
        (sent_to_target q rule nat_port t ok is_rule tracked) =
      track_client-Balanced bpf doomed pending w.tables t (flow_of q w.packet.mem) rule
        (load 6 6 w.packet.mem) now nat_port p room tracked
  Verdict-Balanced doomed pending w now r p room (sent_to_client q v ok no_rule found) =
      track_target-Balanced bpf doomed pending w.tables (flow_of q w.packet.mem) v now p

  -- A packet in the middle of a cleanup.
  pub forward-Balanced :
      (doomed : List SessionKey) (pending : List RevSessionKey) (w : World bpf) (now : ℕ)
      → Balanced bpf w.tables doomed pending
      → HasRoom bpf w.tables
      → Balanced bpf (forward bpf w now).1.tables doomed pending
  unfolding forward
  forward-Balanced doomed pending w now p room =
      Verdict-Balanced doomed pending w now (try_forward bpf w now) p room
        (try_forward-Verdict bpf w now)

  -- While neither session map is full, the program keeps sessions and reverse entries in one-to-one
  -- correspondence: each session has the reverse entry of its client, and each reverse entry its
  -- session.
  pub forward-Paired :
      (w : World bpf) (now : ℕ)
      → Paired bpf w.tables
      → HasRoom bpf w.tables
      → Paired bpf (forward bpf w now).1.tables
  forward-Paired w now p room =
      Balanced-Paired bpf _ (forward-Balanced [] [] w now (Paired-Balanced bpf w.tables p) room)

  Verdict-kept :
      (w : World bpf) (now : ℕ) (r : Outcome bpf)
      → Verdict bpf w now r
      → r.0 ≢ some xdp_tx
      → r.1 ≡ w
  Verdict-kept w now r (kept a h) unsent = refl
  Verdict-kept w now r (sent_to_target q rule nat_port t ok is_rule tracked) unsent =
      absurd (unsent refl)
  Verdict-kept w now r (sent_to_client q v ok no_rule found) unsent = absurd (unsent refl)

  -- A packet that is not sent out, because it is passed on to the kernel or aborted, is unchanged,
  -- and so are the maps.
  pub forward-kept :
      (w : World bpf) (now : ℕ) → (forward bpf w now).0 ≢ xdp_tx → (forward bpf w now).1 ≡ w
  unfolding forward
  forward-kept w now unsent =
      Verdict-kept w now (try_forward bpf w now) (try_forward-Verdict bpf w now)
        (λ e. unsent (rw e))
