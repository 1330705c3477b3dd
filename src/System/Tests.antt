-- ===== src/System/Tests.antt =====
-- The daemon and the XDP program at work on one rule: a client opens a session, and the cleanup removes it.
use xdp_nat_forward.Base.{◌<◌, ◌≤◌, ◌≡◌, ◌≢◌, refl, arith, ◌⊎◌, some, [], ◌∷◌}
use xdp_nat_forward.Datapath.Types.{SessionVal}
use xdp_nat_forward.Datapath.Maps.{Tables}
use xdp_nat_forward.Datapath.Maps.Listed.{listed_maps}
use xdp_nat_forward.Datapath.Samples.{
  syn, syn_bytes, web_key, web_rule, bytes_at-IsBytes, reply, fresh_tables, fresh-Typed, program,
}
use xdp_nat_forward.Datapath.Session.Paired.{Paired, HasRoom, reverse_of}
use xdp_nat_forward.Datapath.Program.Widths.{IsTyped}
use xdp_nat_forward.Daemon.Rules.Table.{delete, perform}
use xdp_nat_forward.Daemon.Rules.{delete_forward_rule, delete_values}
use xdp_nat_forward.Daemon.Samples.{open_key, open_val, one_open, web_HasRules, daemon}
use xdp_nat_forward.Console.Text.{codes}
use xdp_nat_forward.System.{
  walking, removing_sessions, System, Task, packet_step, op_step, session_step, sessions_end,
  reverse_step, reverses_end, removing_reverses, after_packet, after_op, remove_session,
  remove_reverse, IsStart, Reachable, start, by_other,
}
use xdp_nat_forward.System.Reach.{Reachable-Paired, Reachable-injective}
use xdp_nat_forward.System.Fits.{InTime, Reachable-IsTyped}
use xdp_nat_forward.System.Lasting.{Meanwhile, at_once, task_goes}
use xdp_nat_forward.Datapath.Session.{reply_key}
use xdp_nat_forward.System.{walk_ends}
use xdp_nat_forward.System.Replies.{meets, Reachable-ReachesClient}
use xdp_nat_forward.Datapath.Maps.Total.{total_maps}
use xdp_nat_forward.Datapath.Program.{forward, xdp_tx}
use xdp_nat_forward.Datapath.Program.Verdict.{tcp, flow_of}
use xdp_nat_forward.Datapath.Program.Reply.{ReachesClient}
use xdp_nat_forward.Datapath.Tests.{exchange}
use xdp_nat_forward.System.Ending.{Run, nothing, with_task, HasPacket, Cleared, Run-ends}

abbrev idle : System listed_maps
idle = record {
  tables = record {
    forward_map = (web_key, web_rule) ∷ [];
    session_map = [];
    reverse_session_map = [];
  };
  phase = walking;
  doomed = [];
  pending = [];
}

idle-IsStart : IsStart listed_maps idle
idle-IsStart = record {
  no_session = λ k. refl;
  no_reverse = λ j. refl;
  phase_is = refl;
  none_doomed = refl;
  none_pending = refl;
  rules_fit = λ k v e. (web_HasRules k v e).fits;
}

listed-HasRoom : (t : Tables listed_maps) → HasRoom listed_maps t
listed-HasRoom t = record { session_room = λ k v e. cc; reverse_room = λ k v e. cc }

-- A packet after a rule change.
abbrev at_work : System listed_maps
at_work = after_packet listed_maps syn 7 (after_op listed_maps (delete (codes "udp") 53) idle)

abbrev at_work-Reachable : Reachable listed_maps at_work
at_work-Reachable =
    by_other _ _ (by_other _ _ (start idle idle-IsStart) (op_step (delete (codes "udp") 53) tt))
      (packet_step syn 7 (bytes_at-IsBytes syn_bytes (omega arith)) (listed-HasRoom _))

Reachable-Paired_example : Paired listed_maps at_work.tables
unfolding after_packet after_op
Reachable-Paired_example = Reachable-Paired listed_maps at_work at_work-Reachable refl refl

Reachable-IsTyped_example : IsTyped listed_maps (record { packet = syn; tables = at_work.tables })
unfolding InTime
Reachable-IsTyped_example =
    Reachable-IsTyped listed_maps at_work syn at_work-Reachable (omega arith, tt)
      (bytes_at-IsBytes syn_bytes (omega arith))

-- The cleanup has collected the open session.
abbrev collected : System listed_maps
collected = record {
  tables = one_open;
  phase = removing_sessions;
  doomed = open_key ∷ [];
  pending = reverse_of open_key open_val ∷ [];
}

abbrev removed : System listed_maps
removed = remove_session listed_maps open_key [] collected

abbrev between : System listed_maps
between = record removed { phase = removing_reverses }

abbrev all_removed : System listed_maps
all_removed = remove_reverse listed_maps (reverse_of open_key open_val) [] between

abbrev done : System listed_maps
done = record all_removed { phase = walking }

reverses_ne_walking : removing_reverses ≢ walking
reverses_ne_walking e = absurd (cc)

sessions_ne_walking : removing_sessions ≢ walking
sessions_ne_walking e = absurd (cc)

one_removal : Run listed_maps collected 1 removed
one_removal =
    with_task 0 collected removed nothing sessions_ne_walking (session_step open_key [] refl refl)

all_steps : Run listed_maps collected 4 done
unfolding remove_session remove_reverse
all_steps =
    with_task 3 all_removed done
      (with_task 2 between all_removed
        (with_task 1 removed between one_removal sessions_ne_walking (sessions_end refl refl))
        reverses_ne_walking (reverse_step (reverse_of open_key open_val) [] refl refl))
      reverses_ne_walking (reverses_end refl refl)

Run-ends_example :
    (4 ≤ 4)
    × (((done.phase ≡ walking)
          × (HasPacket listed_maps all_steps ⊎ Cleared listed_maps collected done))
        ⊎ ((4 < 4) × (u : System listed_maps) × Task listed_maps done u))
Run-ends_example = Run-ends listed_maps collected done 4 all_steps refl

-- The session that the client's packet opened.
abbrev opened : SessionVal
opened = record { nat_port = 22212; client_mac = 0x0500_0000_0002; last_seen = 7 }

at_work-opened : listed_maps.session.get at_work.tables.session_map open_key ≡ some opened
unfolding program daemon after_packet after_op perform delete_forward_rule delete_values
at_work-opened = refl

Reachable-injective_example : open_key ≡ open_key
Reachable-injective_example =
    Reachable-injective listed_maps at_work open_key open_key opened opened at_work-Reachable
      at_work-opened at_work-opened refl refl refl refl

-- A daemon that has just started, with one rule.
abbrev fresh_start : System total_maps
fresh_start = record { tables = fresh_tables; phase = walking; doomed = []; pending = [] }

fresh_start-Reachable : Reachable total_maps fresh_start
fresh_start-Reachable = start fresh_start (record {
  no_session = λ k. refl;
  no_reverse = λ j. refl;
  phase_is = refl;
  none_doomed = refl;
  none_pending = refl;
  rules_fit = fresh-Typed.rules;
})

-- The cleanup's walk ends between the packet and the reply.
abbrev replied_in : System total_maps
replied_in = record (after_packet total_maps syn 7 fresh_start) { phase = removing_sessions }

walk_over :
    Meanwhile total_maps
      (reply_key (flow_of tcp reply.mem))
      (after_packet total_maps syn 7 fresh_start)
      replied_in
unfolding after_packet
walk_over =
    task_goes (after_packet total_maps syn 7 fresh_start) replied_in at_once (λ i. i)
      (walk_ends refl)

Reachable-ReachesClient_example :
    ((forward total_maps (meets total_maps reply replied_in) 9).0 ≡ xdp_tx)
    × ReachesClient syn.mem (forward total_maps (meets total_maps reply replied_in) 9).1.packet.mem
unfolding after_packet
Reachable-ReachesClient_example =
    Reachable-ReachesClient total_maps fresh_start replied_in syn tcp web_rule 7 9 reply
      fresh_start-Reachable
      (record {
        bytes = bytes_at-IsBytes syn_bytes (omega arith);
        room = exchange.room;
        ok = exchange.ok;
        is_rule = exchange.is_rule;
        sent = exchange.sent;
        answers = exchange.answers;
        meanwhile = walk_over;
        reply_bytes = exchange.reply_bytes;
        reply_ok = exchange.reply_ok;
        no_rule = exchange.no_rule;
      })
