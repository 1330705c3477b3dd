-- ===== src/Datapath/Tests.antt =====
-- The theorems of the datapath at a concrete packet.
use xdp_nat_forward.Base.{◌^◌, ℕ, ◌+◌, ◌/◌, ◌%◌, ◌≤◌, ◌<◌, ◌≡◌, ◌≢◌, refl, arith, none, some}
use xdp_nat_forward.Datapath.Checksum.{update_csum_16}
use xdp_nat_forward.Datapath.Packet.{load, store, swap16}
use xdp_nat_forward.Datapath.Packet.Laws.{store-IsBytes}
use xdp_nat_forward.Datapath.Maps.Total.{total_maps}
use xdp_nat_forward.Datapath.Program.{xdp_tx, World, forward}
use xdp_nat_forward.Datapath.Checksum.Laws.{update_csum_16_lem}
use xdp_nat_forward.Datapath.Session.{candidate, flow_hash, port_is_free}
use xdp_nat_forward.Datapath.Session.Allocate.{IsFirstFree, allocate_nat_port-some}
use xdp_nat_forward.Datapath.Session.Paired.{Paired}
use xdp_nat_forward.Datapath.Rewrite.Sums.{word, word_sum}
use xdp_nat_forward.Datapath.Program.{forward_key, ip_len}
use xdp_nat_forward.Datapath.Program.Verdict.{tcp, l4_offset, flow_of, IsTranslatable}
use xdp_nat_forward.Datapath.Program.Integrity.{IsValid}
use xdp_nat_forward.Datapath.Program.Sums.{
  segment_sum_of, forward-header_sum, forward-tcp_sum, forward-udp_sum,
}
use xdp_nat_forward.Datapath.Program.Sessions.{forward-Paired, forward-kept}
use xdp_nat_forward.Datapath.Program.Reply.{Answers, ReachesClient}
use xdp_nat_forward.Datapath.Program.Widths.{IsTyped, forward-IsTyped}
use xdp_nat_forward.Datapath.Program.RoundTrip.{
  Exchange, reply-ReachesClient, reply_from_local_port, forward_to_target,
}
use xdp_nat_forward.Datapath.Samples.{
  fresh, syn, reply, reply_bytes, fresh_tables, web_rule, ip_of, query, query-IsValid,
  fresh-IsValid, fresh-Paired, fresh-HasRoom, bytes_at-IsBytes, program,
}

syn_sent : (forward total_maps fresh 7).0 ≡ xdp_tx
unfolding program
syn_sent = refl

-- The packet that the target receives goes to 10.0.0.2.
syn_target : load 4 30 (forward total_maps fresh 7).1.packet.mem ≡ 33554442
unfolding program
syn_target = refl

abbrev after_syn : World total_maps
after_syn = (forward total_maps fresh 7).1

abbrev answer : World total_maps
answer = record { packet = reply; tables = after_syn.tables }

-- The client's address is 192.168.1.5, its port 40000.
reply_test :
    ((forward total_maps answer 9).0 ≡ xdp_tx)
    × (load 4 30 (forward total_maps answer 9).1.packet.mem ≡ ip_of 192 168 1 5)
    × (load 2 36 (forward total_maps answer 9).1.packet.mem ≡ swap16 40000)
unfolding program
reply_test = (refl, refl, refl)

syn-IsTranslatable : IsTranslatable total_maps fresh tcp
unfolding program
syn-IsTranslatable = record {
  is_ip = refl;
  ihl = omega arith;
  is_proto = refl;
  in_bounds = omega arith;
}

answer-IsTranslatable : IsTranslatable total_maps answer tcp
unfolding program
answer-IsTranslatable = record {
  is_ip = refl;
  ihl = omega arith;
  is_proto = refl;
  in_bounds = omega arith;
}

answer-Answers : Answers after_syn.packet.mem reply.mem
unfolding program
answer-Answers = record { src_ip = refl; dst_ip = refl; src_port = refl; dst_port = refl }

answer_no_rule : after_syn.tables.forward_map (forward_key (flow_of tcp reply.mem)) ≡ none
unfolding program
answer_no_rule = refl

syn_rule : fresh_tables.forward_map (forward_key (flow_of tcp syn.mem)) ≡ some web_rule
unfolding program
syn_rule = refl

update_csum_16_lem_example :
    (update_csum_16 0x1234 0xc0a8 0x0a00 < 65536)
    × ((update_csum_16 0x1234 0xc0a8 0x0a00 + 0x0a00) % 65535 ≡ (0x1234 + 0xc0a8) % 65535)
update_csum_16_lem_example =
    update_csum_16_lem 0x1234 0xc0a8 0x0a00 (omega arith) (omega arith) (omega arith)

pub exchange : Exchange total_maps fresh tcp web_rule 7 reply
exchange = record {
  valid = fresh-IsValid;
  reversed = fresh-Paired.forth;
  room = fresh-HasRoom;
  ok = syn-IsTranslatable;
  is_rule = syn_rule;
  sent = syn_sent;
  reply_bytes = bytes_at-IsBytes reply_bytes (omega arith);
  reply_ok = answer-IsTranslatable;
  answers = answer-Answers;
  no_rule = answer_no_rule;
}

reply-ReachesClient_example :
    ((forward total_maps answer 9).0 ≡ xdp_tx)
    × ReachesClient syn.mem (forward total_maps answer 9).1.packet.mem
reply-ReachesClient_example = reply-ReachesClient total_maps fresh tcp web_rule 7 9 reply exchange

reply_from_local_port_example :
    let back = (forward total_maps answer 9).1.packet.mem in
    (load 2 (l4_offset back) back ≡ load 2 (l4_offset syn.mem + 2) syn.mem)
    × (load 6 0 back ≡ load 6 6 syn.mem)
reply_from_local_port_example =
    reply_from_local_port total_maps fresh tcp web_rule 7 9 reply exchange refl

forward_to_target_example :
    let out = after_syn.packet.mem in
    (nat_port : ℕ) × (load 6 0 out ≡ web_rule.forward_mac)
    × (load 6 6 out ≡ load 6 0 syn.mem)
    × (load 4 26 out ≡ load 4 30 syn.mem)
    × (load 4 30 out ≡ web_rule.forward_ip)
    × (load 2 (l4_offset out) out ≡ nat_port)
    × (nat_port < 2 ^ 16)
    × (load 2 (l4_offset out + 2) out ≡ web_rule.forward_port)
forward_to_target_example =
    forward_to_target total_maps fresh tcp web_rule 7 fresh-IsValid syn-IsTranslatable syn_rule
      syn_sent

forward-IsTyped_example : IsTyped total_maps after_syn
forward-IsTyped_example = forward-IsTyped total_maps fresh 7 (omega arith) (record {
  valid = fresh-IsValid;
  clocked = record { sessions = λ k v e. absurd (cc); reverses = λ k v e. absurd (cc) };
})

forward-Paired_example : Paired total_maps after_syn.tables
forward-Paired_example = forward-Paired total_maps fresh 7 fresh-Paired fresh-HasRoom

-- A cut-off packet.
abbrev runt : World total_maps
runt = record fresh { packet = record { size = 20; mem = syn.mem } }

runt_kept : (forward total_maps runt 7).0 ≢ xdp_tx
unfolding program
runt_kept e = cc

forward-kept_example : (forward total_maps runt 7).1 ≡ runt
forward-kept_example = forward-kept total_maps runt 7 runt_kept

forward-header_sum_example :
    word_sum (ip_len syn.mem / 2) 14 after_syn.packet.mem % 65535
    ≡ word_sum (ip_len syn.mem / 2) 14 syn.mem % 65535
forward-header_sum_example = forward-header_sum total_maps fresh 7 fresh-IsValid

forward-tcp_sum_example :
    segment_sum_of 10 (l4_offset syn.mem) after_syn.packet.mem % 65535
    ≡ segment_sum_of 10 (l4_offset syn.mem) syn.mem % 65535
unfolding load
forward-tcp_sum_example = forward-tcp_sum total_maps fresh 7 fresh-IsValid 10 (omega arith) refl

abbrev after_query : World total_maps
after_query = (forward total_maps query 7).1

query_checked : word (l4_offset query.packet.mem + 6) query.packet.mem ≢ 0
unfolding program
query_checked = omega arith

forward-udp_sum_example :
    let l4 = l4_offset query.packet.mem in
    (segment_sum_of 4 l4 after_query.packet.mem % 65535
      ≡ segment_sum_of 4 l4 query.packet.mem % 65535)
    × (word (l4 + 6) after_query.packet.mem ≢ 0)
unfolding load
forward-udp_sum_example =
    forward-udp_sum total_maps query 7 query-IsValid 4 (omega arith) refl query_checked

-- The same datagram without a checksum.
abbrev bare : World total_maps
bare = record query { packet = record { size = 42; mem = store 2 40 0 query.packet.mem } }

bare-IsValid : IsValid total_maps bare
bare-IsValid = record {
  bytes = store-IsBytes 2 40 0 query.packet.mem query-IsValid.bytes;
  typed = query-IsValid.typed;
}

bare_proto : load 1 23 bare.packet.mem ≡ 17
unfolding program
bare_proto = refl

bare_check : word (l4_offset bare.packet.mem + 6) bare.packet.mem ≡ 0
unfolding program
bare_check = refl

query_sent : (forward total_maps query 7).0 ≡ xdp_tx
unfolding program
query_sent = refl

-- The first candidate is free.
allocate_nat_port-some_example :
    (j : ℕ) × IsFirstFree
      (port_is_free total_maps fresh_tables 33554442 20480 6)
      (flow_hash 83994816 33554442 16540 20480)
      5
      0
      j
    × (50262 ≡ candidate (flow_hash 83994816 33554442 16540 20480) j)
    × (1024 ≤ 50262)
    × (50262 < 65024)
unfolding program
allocate_nat_port-some_example =
    allocate_nat_port-some total_maps fresh_tables 83994816 33554442 16540 20480 6 50262 refl
