-- ===== src/Console/Samples.antt =====
-- Two nodes of one group, of which one has a rule.
use xdp_nat_forward.Base.{List, [], ◌∷◌, none, true}
use xdp_nat_forward.Console.Text.{codes, show}
use xdp_nat_forward.Console.State.{ForwardRule, ConnectedNodeInfo, App, SessionResults}
use xdp_nat_forward.Console.Steps.{initial}

abbrev pub web_rule : ForwardRule
web_rule = record {
  proto = 6;
  local_port = 80;
  forward_ip = codes "10.0.0.2";
  forward_port = 8080;
  forward_mac = 2 ∷ 0 ∷ 0 ∷ 0 ∷ 0 ∷ 255 ∷ [];
}

abbrev pub node_a : ConnectedNodeInfo
node_a = record {
  node_id = codes "a";
  group = codes "edge";
  hostname = codes "host-a";
  rules = web_rule ∷ [];
}

abbrev pub node_b : ConnectedNodeInfo
node_b = record { node_id = codes "b"; group = codes "edge"; hostname = codes "host-b"; rules = [] }

abbrev pub two_nodes : List ConnectedNodeInfo
two_nodes = node_a ∷ (node_b ∷ [])

-- The console after the first poll, before the effects.
abbrev pub polled : App
polled = record initial { nodes = two_nodes }

-- The form filled in for the chosen nodes.
abbrev pub filled : App
filled = record polled {
  form_local_port = show 80;
  form_forward_port = show 8080;
  form_forward_ip = codes "10.0.0.2";
  custom_targets = true;
}

abbrev pub no_answer : SessionResults
no_answer = record { status = codes "success"; sessions = []; error_message = none }
