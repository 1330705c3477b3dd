-- ===== src/Console/Tests.antt =====
-- The theorems of the console at concrete states.
use xdp_nat_forward.Base.{◌≡◌, refl, true, false, [], ◌∷◌, map, some, ◌⊎◌}
use xdp_nat_forward.Console.Text.{
  codes, show, show_digits, parse_int, trim_start, read_signed, read_unsigned, read_number,
  read_digits, digit_value, with_sign,
}
use xdp_nat_forward.Console.Sets.{includes, set_add, add_all}
use xdp_nat_forward.Console.State.{
  ForwardRule, App, groups, valid_group, first_node, nodes_in_group, node_ids, toggle,
  effects_of_nodes, pick_group, pick_node, init_targets, handle_target_node_checkbox_change,
}
use xdp_nat_forward.Console.State.Laws.{effects_of_nodes_lem}
use xdp_nat_forward.Console.Audit.{
  key_of, proto_str, ensure, mark, audit_rule, audit_rules, audit_nodes, is_present, audit_row,
  audit_group, diff_audit_list,
}
use xdp_nat_forward.Console.Audit.Exact.{Finding, finding_of, diff_audit_list-expected}
use xdp_nat_forward.Console.Audit.Signature.{rule_key_injective}
use xdp_nat_forward.Console.Handlers.{
  ok, AddRequest, fetch_nodes, query_request, submit_query, query_result, show_answer, settle_query,
  add_payload, add_request, submit_add, settle_add, js_integer,
}
use xdp_nat_forward.Console.Handlers.Laws.{querying, IsAnswered, settle_query-IsAnswered}
use xdp_nat_forward.Console.Steps.{
  initial, Reachable, start, after, fetched, changed_checkbox, chose_targets, typed_local_port,
  typed_forward_port, typed_forward_ip,
}
use xdp_nat_forward.Console.Steps.Laws.{is_within, Reachable-add_request}
use xdp_nat_forward.Console.View.{
  sidebar_node, sidebar_group, sidebar, audit_line, byte_text, hex_digits, join_colon,
}
use xdp_nat_forward.Console.Samples.{web_rule, two_nodes, polled, no_answer}

-- What a run of the console unfolds.
unfoldable pub console : Unit {0}
unfolding show_digits show trim_start digit_value read_digits read_number read_unsigned with_sign
    read_signed parse_int set_add add_all groups valid_group first_node nodes_in_group toggle
    pick_group pick_node init_targets effects_of_nodes handle_target_node_checkbox_change key_of
    ensure mark audit_rule audit_rules audit_nodes is_present audit_row audit_group diff_audit_list
    fetch_nodes query_request submit_query query_result show_answer settle_query add_payload
    add_request submit_add settle_add sidebar_node sidebar_group sidebar audit_line
console = tt

abbrev missing_on_b : Finding
missing_on_b = record {
  signature = codes "tcp:80:10.0.0.2:8080";
  is_consistent = false;
  missing = codes "b" ∷ [];
}

-- Node b lacks the rule of node a.
diff_audit_list-expected_example :
    map finding_of (diff_audit_list two_nodes (codes "edge")) ≡ missing_on_b ∷ []
unfolding console
diff_audit_list-expected_example = diff_audit_list-expected two_nodes (codes "edge")

-- The rule on a node that resolved another MAC address.
abbrev other_mac : ForwardRule
other_mac = record web_rule { forward_mac = 2 ∷ 0 ∷ 0 ∷ 0 ∷ 0 ∷ 1 ∷ [] }

rule_key_injective_example :
    (proto_str web_rule ≡ proto_str other_mac)
    × (web_rule.local_port ≡ other_mac.local_port)
    × (web_rule.forward_ip ≡ other_mac.forward_ip)
    × (web_rule.forward_port ≡ other_mac.forward_port)
rule_key_injective_example = rule_key_injective web_rule other_mac refl

-- No node is in the group "default" that the console starts with.
effects_of_nodes_lem_example :
    (includes (groups two_nodes) (effects_of_nodes polled).target_group ≡ true)
    × (((effects_of_nodes polled).target_group ≡ codes "default")
        ⊎ (includes (groups two_nodes) (codes "default") ≡ false))
    × ((effects_of_nodes polled).selected_node_targets ≡ codes "a" ∷ (codes "b" ∷ []))
unfolding console
effects_of_nodes_lem_example = effects_of_nodes_lem polled refl

settle_query-IsAnswered_example : IsAnswered (settle_query (ok no_answer) (querying polled))
settle_query-IsAnswered_example = settle_query-IsAnswered (ok no_answer) polled

-- A poll, the choice of single nodes, one check box, and a filled form.
abbrev chosen : App
chosen =
    handle_target_node_checkbox_change (codes "a")
      (record (fetch_nodes (ok two_nodes) initial) { custom_targets = true })

abbrev ready : App
ready = record chosen {
  form_local_port = show 80;
  form_forward_port = show 8080;
  form_forward_ip = codes "10.0.0.2";
}

ready-Reachable : Reachable ready
unfolding console
ready-Reachable =
    after
      (after
        (after
          (after (after (after start (fetched (ok two_nodes))) (chose_targets true))
            (changed_checkbox (codes "a") refl))
          (typed_local_port (show 80)))
        (typed_forward_port (show 8080)))
      (typed_forward_ip (codes "10.0.0.2"))

abbrev ready_request : AddRequest
ready_request = record {
  group = codes "edge";
  node_ids = some (codes "b" ∷ []);
  proto = codes "tcp";
  local_port = js_integer 80;
  forward_ip = codes "10.0.0.2";
  forward_port = js_integer 8080;
}

Reachable-add_request_example :
    is_within (codes "b" ∷ []) (node_ids (nodes_in_group two_nodes (codes "edge"))) ≡ true
unfolding console
Reachable-add_request_example =
    Reachable-add_request ready ready_request (codes "b" ∷ []) ready-Reachable refl refl

-- A row of the rules table.
mac_shown : join_colon (map byte_text web_rule.forward_mac) ≡ codes "02:00:00:00:00:ff"
unfolding join_colon byte_text hex_digits
mac_shown = refl
