-- ===== src/Daemon/Http.antt =====
-- forward/src/http.rs: the signed requests of the HTTP API.
pub mod Laws
use xdp_nat_forward.Base.{
  ℕ, ◌+◌, ◌-◌, ◌==◌, ltb, leb, Bool, true, false, not, ◌&&◌, Option, none, some, List, [], ◌∷◌,
  ◌++◌, map, length, bit_xor, bit_or, if◌then◌else◌,
}
use xdp_nat_forward.Console.Text.{codes}
use xdp_nat_forward.Datapath.Types.{ForwardKey, ForwardVal}
use xdp_nat_forward.Datapath.Maps.{HashMap}
use xdp_nat_forward.Datapath.Maps.Iteration.{Iteration}
use xdp_nat_forward.Daemon.Words.{parse_u64, show_ipv4, show_mac}
use xdp_nat_forward.Daemon.Host.{Network}
use xdp_nat_forward.Daemon.Rules.{
  ForwardRule, RuleError, Result, ok, err, RulesFile, list_forward_rules,
}
use xdp_nat_forward.Daemon.Service.{State, add_and_save, delete_and_save, update_timeout}

-- `result |= x ^ y` over the pairs of the two slices.
abbrev pub differences : ℕ → List ℕ → List ℕ → ℕ
differences acc [] b = acc
differences acc (x ∷ a) [] = acc
differences acc (x ∷ a) (y ∷ b) = differences (bit_or acc (bit_xor x y)) a b

unfoldable pub constant_time_eq : List ℕ → List ℕ → Bool
constant_time_eq a b = if not (length a == length b) then false else differences 0 a b == 0

abbrev pub distance : ℕ → ℕ → ℕ
distance now ts = if leb ts now then now - ts else ts - now

-- `{}.{}.{}` of the timestamp, the method and the path.
abbrev pub signed_data : List ℕ → List ℕ → List ℕ → List ℕ
signed_data timestamp method path = timestamp ++ (b'.' ∷ (method ++ (b'.' ∷ path)))

-- `hex::decode`, and the HMAC-SHA256 of a text under a secret.
pub record Crypto : Type 0 where
  pub hex_decode : List ℕ → Option (List ℕ)
  pub hmac : List ℕ → List ℕ → Option (List ℕ)

abbrev pub compare_signature : Option (List ℕ) → Option (List ℕ) → Bool
compare_signature none expected = false
compare_signature (some sig_bytes) none = false
compare_signature (some sig_bytes) (some expected) = constant_time_eq sig_bytes expected

-- The clock's reading in seconds; `none` when it is before 1970.
abbrev pub check_time : Option ℕ → Option ℕ → Bool → Bool
check_time none now valid = false
check_time (some ts) none valid = false
check_time (some ts) (some now) valid = if ltb 300 (distance now ts) then false else valid

unfoldable pub verify_signature :
    Crypto → Option ℕ → List ℕ → List ℕ → List ℕ → List ℕ → List ℕ → Bool
verify_signature crypto now secret timestamp method path signature =
    check_time (parse_u64 timestamp) now (
      compare_signature (crypto.hex_decode signature)
        (crypto.hmac secret (signed_data timestamp method path)))

-- The handler that the router has chosen, with the decoded body or path.
pub data Call : Type 0 where
  get_rules : Call
  add_rule : Network → List ℕ → ℕ → List ℕ → ℕ → Call
  delete_rule : List ℕ → ℕ → Call
  post_timeout : List ℕ → ℕ → Call

pub record Request : Type 0 where
  pub timestamp : Option (List ℕ)
  pub signature : Option (List ℕ)
  pub method : List ℕ
  pub path : List ℕ
  pub call : Call

pub record RuleResponse : Type 0 where
  pub proto : List ℕ
  pub local_port : ℕ
  pub forward_ip : List ℕ
  pub forward_port : ℕ
  pub forward_mac : List ℕ

pub data Response : Type 0 where
  unauthorized : Response
  internal_error : RuleError → Response
  bad_request : RuleError → Response
  bad_protocol : Response
  rules_body : List RuleResponse → Response
  added_body : List ℕ → Response
  ok_body : Response

abbrev pub rule_response : ForwardRule → RuleResponse
rule_response r = record {
  proto = if r.proto == 6 then codes "tcp" else codes "udp";
  local_port = r.local_port;
  forward_ip = show_ipv4 r.forward_ip;
  forward_port = r.forward_port;
  forward_mac = show_mac r.forward_mac;
}

abbrev pub listed_response : Result (List ForwardRule) → Response
listed_response (ok rules) = rules_body (map rule_response rules)
listed_response (err e) = internal_error e

abbrev pub added_response : Result (List ℕ) → Response
added_response (ok mac) = added_body (show_mac mac)
added_response (err e) = bad_request e

abbrev pub deleted_response : Result (Unit {0}) → Response
deleted_response (ok u) = ok_body
deleted_response (err e) = bad_request e

-- The headers are there and the signature is right.
abbrev pub signed_by :
    Crypto → Option ℕ → List ℕ → List ℕ → List ℕ → Option (List ℕ) → Option (List ℕ) → Bool
signed_by crypto now secret method path none signature = false
signed_by crypto now secret method path (some timestamp) none = false
signed_by crypto now secret method path (some timestamp) (some signature) =
    verify_signature crypto now secret timestamp method path signature

abbrev pub is_authorized : Crypto → Option ℕ → List ℕ → Request → Bool
is_authorized crypto now secret req =
    signed_by crypto now secret req.method req.path req.timestamp req.signature

module _ (forward_map : HashMap ForwardKey ForwardVal) (iteration : Iteration forward_map)
    (file : RulesFile) where
  -- The four handlers.
  unfoldable pub run_call :
      Bool → Call → State forward_map iteration file → Response × State forward_map iteration file
  run_call has_path get_rules s =
      (listed_response (list_forward_rules forward_map iteration s.rules), s)
  run_call has_path (add_rule net proto local_port forward_ip forward_port) s =
      let r =
        add_and_save forward_map iteration file has_path net proto local_port forward_ip
          forward_port s in
      (added_response r.0, r.1)
  run_call has_path (delete_rule proto local_port) s =
      let r = delete_and_save forward_map iteration file has_path proto local_port s in
      (deleted_response r.0, r.1)
  run_call has_path (post_timeout proto seconds) s =
      let r = update_timeout forward_map iteration file proto seconds s in
      ((if r.0 then ok_body else bad_protocol), r.1)

  -- `auth_middleware` in front of every route.
  unfoldable pub handle :
      Crypto
      → Option ℕ
      → List ℕ
      → Bool
      → Request
      → State forward_map iteration file
      → Response × State forward_map iteration file
  handle crypto now secret has_path req s =
      if is_authorized crypto now secret req
      then run_call has_path req.call s
      else (unauthorized, s)
