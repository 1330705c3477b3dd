-- ===== src/Daemon/InterfaceTests.antt =====
-- The theorems of http.rs and cmd.rs of forward/src at concrete requests and lines.
use xdp_nat_forward.Base.{ℕ, ◌≡◌, ◌≢◌, ◌↔◌, arith, ap, refl, true, false, some, List, [], ◌++◌}
use xdp_nat_forward.Console.Text.{codes}
use xdp_nat_forward.Daemon.Words.{parse_u64}
use xdp_nat_forward.Daemon.Http.{
  Crypto, verify_signature, Call, get_rules, add_rule, Request, rules_body, unauthorized, run_call,
  handle,
}
use xdp_nat_forward.Daemon.Http.Laws.{
  IsSigned, verify_signature_iff, handle-IsSigned, handle-any_body,
}
use xdp_nat_forward.Daemon.Command as Line
use xdp_nat_forward.Daemon.Command.{Command, Action, do_add, cmd_str}
use xdp_nat_forward.Daemon.Command.Replies as Replies
use xdp_nat_forward.Daemon.Command.Replies.{carry_out, serve}
use xdp_nat_forward.Daemon.Command.Laws.{Means, means_add}
use xdp_nat_forward.Daemon.Command.Served.{answered, serve-cmd_str}
use xdp_nat_forward.Daemon.Samples.{
  daemon, gateway_network, memory_file, idle, rules_map, rules_iteration,
}

-- A hash that is the key and the text themselves, and the identity as hexadecimal digits.
abbrev plain_crypto : Crypto
plain_crypto = record { hex_decode = λ s. some s; hmac = λ key text. some (key ++ text) }

verify_signature_iff_example :
    (verify_signature plain_crypto
        (some 1000)
        (codes "key")
        (codes "800")
        (codes "GET")
        (codes "/rules")
        (codes "key800.GET./rules")
      ≡ true)
    ↔ IsSigned plain_crypto
        (some 1000)
        (codes "key")
        (codes "800")
        (codes "GET")
        (codes "/rules")
        (codes "key800.GET./rules")
verify_signature_iff_example =
    verify_signature_iff plain_crypto (some 1000) (codes "key") (codes "800") (codes "GET")
      (codes "/rules") (codes "key800.GET./rules")

abbrev signed_request : Request
signed_request = record {
  timestamp = some (codes "800");
  signature = some (codes "key800.GET./rules");
  method = codes "GET";
  path = codes "/rules";
  call = get_rules;
}

parse_800 : parse_u64 (codes "800") ≡ some 800
unfolding daemon
parse_800 = refl

answered_request :
    handle rules_map rules_iteration memory_file plain_crypto
      (some 1000)
      (codes "key")
      false
      signed_request
      idle
    ≢ (unauthorized, idle)
unfolding daemon
answered_request e = let w : rules_body [] ≡ unauthorized = ap (λ r. r.0) e in cc

handle-IsSigned_example :
    (timestamp : List ℕ) × (signature : List ℕ) × (signed_request.timestamp ≡ some timestamp)
    × (signed_request.signature ≡ some signature)
    × IsSigned plain_crypto
        (some 1000)
        (codes "key")
        timestamp
        signed_request.method
        signed_request.path
        signature
handle-IsSigned_example =
    handle-IsSigned rules_map rules_iteration memory_file plain_crypto (codes "key") false
      (some 1000) signed_request idle answered_request

-- A signed request for a rule, and another rule for port 22.
abbrev web_call : Call
web_call = add_rule gateway_network (codes "tcp") 8080 (codes "10.0.0.2") 80

abbrev other_call : Call
other_call = add_rule gateway_network (codes "tcp") 22 (codes "10.0.0.9") 22

abbrev posted_request : Request
posted_request = record {
  timestamp = some (codes "800");
  signature = some (codes "key800.POST./rules");
  method = codes "POST";
  path = codes "/rules";
  call = web_call;
}

abbrev posted_request-IsSigned :
    IsSigned plain_crypto
      (some 1000)
      (codes "key")
      (codes "800")
      (codes "POST")
      (codes "/rules")
      (codes "key800.POST./rules")
posted_request-IsSigned = record {
  ts = 800;
  now = 1000;
  mac = codes "key800.POST./rules";
  timestamp_is = parse_800;
  clock_is = refl;
  not_old = omega arith;
  not_early = omega arith;
  signature_is = refl;
  hmac_is = refl;
}

handle-any_body_example :
    handle rules_map rules_iteration memory_file plain_crypto
      (some 1100)
      (codes "key")
      false
      (record posted_request { call = other_call })
      idle
    ≡ run_call rules_map rules_iteration memory_file false other_call idle
handle-any_body_example =
    handle-any_body rules_map rules_iteration memory_file plain_crypto (codes "key") false
      (some 1000) 1100 posted_request (codes "800") (codes "key800.POST./rules") other_call idle tt
      refl refl posted_request-IsSigned (omega arith) (omega arith)

around : Replies.Surroundings
around = record { network = gateway_network; session_items = []; error_text = λ e. codes "failed" }

add_web :
    Means
      (Line.add (codes "tcp") 8080 (codes "10.0.0.2") 80)
      (do_add (codes "tcp") 8080 (codes "10.0.0.2") 80)
unfolding daemon
add_web =
    means_add (codes "tcp") 8080 (codes "10.0.0.2") 80
      (record { plain = (refl, (refl, (refl, tt))); nonempty = refl })
      (record {
        plain = (refl, (refl, (refl, (refl, (refl, (refl, (refl, (refl, tt))))))));
        nonempty = refl;
      })
      (omega arith) (omega arith)

serve-cmd_str_example :
    serve rules_map rules_iteration memory_file false around
      (cmd_str (Line.add (codes "tcp") 8080 (codes "10.0.0.2") 80))
      idle
    ≡ answered (
        carry_out rules_map rules_iteration memory_file false around
          (do_add (codes "tcp") 8080 (codes "10.0.0.2") 80)
          idle)
serve-cmd_str_example =
    serve-cmd_str rules_map rules_iteration memory_file
      (Line.add (codes "tcp") 8080 (codes "10.0.0.2") 80)
      (do_add (codes "tcp") 8080 (codes "10.0.0.2") 80) false around idle add_web
