-- ===== src/Daemon/Rules/Table.antt =====
-- forward/src/rule.rs: the rules as a function from protocol and port to targets, and runs of
-- additions and deletions.
use xdp_nat_forward.Base.{ℕ, ◌≡◌, ◌≢◌, refl, Option, none, some, List, [], ◌∷◌, ◌⊎◌, inl, inr}
use xdp_nat_forward.Datapath.Types.{ForwardKey, ForwardVal}
use xdp_nat_forward.Datapath.Maps.{HashMap}
use xdp_nat_forward.Daemon.Words.{parse_ipv4}
use xdp_nat_forward.Daemon.Host.{Network, resolve_ip_mac}
use xdp_nat_forward.Daemon.Rules.{
  RuleError, invalid_protocol, invalid_forward_ip, unresolved_mac, insert_failed, Result, ok, err,
  parse_proto, rule_val, inserted, add_values, add_forward_rule, removed, delete_values,
  delete_forward_rule,
}

abbrev pub key_at : ℕ → ℕ → ForwardKey
key_at proto local_port = record { proto = proto; local_port = local_port }

-- A command on the rules; an addition has the network in which its target is resolved.
pub data Op : Type 0 where
  add : Network → List ℕ → ℕ → List ℕ → ℕ → Op
  delete : List ℕ → ℕ → Op

-- The rules that a map holds, as a function.
abbrev pub Rules : Type 0
Rules = ForwardKey → Option ForwardVal

-- The two functions differ at most at the key.
abbrev pub IsSameBut : ForwardKey → Rules → Rules → Type 0
IsSameBut k f g = (j : ForwardKey) → j ≢ k → g j ≡ f j

-- What a command does to the rules: the change at its key that it asks for, or nothing, for one of the
-- reasons named. `IsFull` tells when the map takes no more rules.
pub data Change (IsFull : Rules → Type 0) (f : Rules) : Op → Rules → Type 0 where
  refused_add :
      (net : Network) (proto_str : List ℕ) (port : ℕ) (ip_str : List ℕ) (forward_port : ℕ)
      → (parse_proto proto_str ≡ none)
        ⊎ ((parse_ipv4 ip_str ≡ none) ⊎ ((resolve_ip_mac net ip_str ≡ none) ⊎ IsFull f))
      → Change IsFull f (add net proto_str port ip_str forward_port) f
  set_rule :
      (net : Network) (proto_str : List ℕ) (port : ℕ) (ip_str : List ℕ) (forward_port proto ip : ℕ)
      (mac : List ℕ) (g : Rules)
      → parse_proto proto_str ≡ some proto
      → parse_ipv4 ip_str ≡ some ip
      → resolve_ip_mac net ip_str ≡ some mac
      → g (key_at proto port) ≡ some (rule_val ip forward_port mac)
      → IsSameBut (key_at proto port) f g
      → Change IsFull f (add net proto_str port ip_str forward_port) g
  unknown_proto :
      (proto_str : List ℕ) (port : ℕ)
      → parse_proto proto_str ≡ none
      → Change IsFull f (delete proto_str port) f
  no_rule :
      (proto_str : List ℕ) (port proto : ℕ)
      → parse_proto proto_str ≡ some proto
      → f (key_at proto port) ≡ none
      → Change IsFull f (delete proto_str port) f
  unset_rule :
      (proto_str : List ℕ) (port proto : ℕ) (g : Rules)
      → parse_proto proto_str ≡ some proto
      → g (key_at proto port) ≡ none
      → IsSameBut (key_at proto port) f g
      → Change IsFull f (delete proto_str port) g

-- A sequence of changes.
pub data Changes (IsFull : Rules → Type 0) : Rules → List Op → Rules → Type 0 where
  done : (f : Rules) → Changes IsFull f [] f
  step_by :
      (f g h : Rules) (op : Op) (ops : List Op)
      → Change IsFull f op g
      → Changes IsFull g ops h
      → Changes IsFull f (op ∷ ops) h

module _ (forward_map : HashMap ForwardKey ForwardVal) where
  open forward_map use {Map, get, insert, remove}

  -- One command on the map, and a run of them.
  unfoldable pub perform : Op → Map → Map
  perform (add net proto_str port ip_str forward_port) m =
      (add_forward_rule forward_map net proto_str port ip_str forward_port m).1
  perform (delete proto_str port) m = (delete_forward_rule forward_map proto_str port m).1

  unfoldable pub perform_all : List Op → Map → Map
  perform_all [] m = m
  perform_all (op ∷ ops) m = perform_all ops (perform op m)

  -- An addition stores the rule and answers with the MAC address, or answers with an error and
  -- changes nothing.
  pub data Addition (net : Network) (proto_str : List ℕ) (port : ℕ) (ip_str : List ℕ)
      (forward_port : ℕ) (m : Map) : Result (List ℕ) × Map → Type 0 where
    rejected :
        (e : RuleError)
        → (parse_proto proto_str ≡ none)
          ⊎ ((parse_ipv4 ip_str ≡ none)
              ⊎ ((resolve_ip_mac net ip_str ≡ none)
                  ⊎ ((k : ForwardKey) × (v : ForwardVal) × (insert m k v ≡ none))))
        → Addition net proto_str port ip_str forward_port m (err e, m)
    stored :
        (proto ip : ℕ) (mac : List ℕ) (m' : Map)
        → parse_proto proto_str ≡ some proto
        → parse_ipv4 ip_str ≡ some ip
        → resolve_ip_mac net ip_str ≡ some mac
        → insert m (key_at proto port) (rule_val ip forward_port mac) ≡ some m'
        → Addition net proto_str port ip_str forward_port m (ok mac, m')

  pub add_forward_rule-Addition :
      (net : Network) (proto_str : List ℕ) (port : ℕ) (ip_str : List ℕ) (forward_port : ℕ) (m : Map)
      → Addition net proto_str port ip_str forward_port m
          (add_forward_rule forward_map net proto_str port ip_str forward_port m)
  unfolding add_forward_rule add_values
  add_forward_rule-Addition net proto_str port ip_str forward_port m =
      go (parse_proto proto_str) (parse_ipv4 ip_str) (resolve_ip_mac net ip_str) refl refl refl
    where
      fill :
          (proto ip : ℕ) (mac : List ℕ) (o : Option Map)
          → parse_proto proto_str ≡ some proto
          → parse_ipv4 ip_str ≡ some ip
          → resolve_ip_mac net ip_str ≡ some mac
          → insert m (key_at proto port) (rule_val ip forward_port mac) ≡ o
          → Addition net proto_str port ip_str forward_port m (inserted forward_map mac m o)
      fill proto ip mac none a b c d = rejected insert_failed (inr (inr (inr (_, _, d))))
      fill proto ip mac (some m') a b c d = stored proto ip mac m' a b c d

      go :
          (p i : Option ℕ) (r : Option (List ℕ))
          → parse_proto proto_str ≡ p
          → parse_ipv4 ip_str ≡ i
          → resolve_ip_mac net ip_str ≡ r
          → Addition net proto_str port ip_str forward_port m
              (add_values forward_map m port forward_port p i r)
      go none i r a b c = rejected invalid_protocol (inl a)
      go (some proto) none r a b c = rejected invalid_forward_ip (inr (inl b))
      go (some proto) (some ip) none a b c = rejected unresolved_mac (inr (inr (inl c)))
      go (some proto) (some ip) (some mac) a b c = fill proto ip mac _ a b c refl

  -- An insertion that fails tells that the map is full.
  module _ (IsFull : Rules → Type 0)
      (full_lem : (m : Map) (k : ForwardKey) (v : ForwardVal)
        → insert m k v ≡ none
        → IsFull (get m)) where
    add-Change :
        (net : Network) (proto_str : List ℕ) (port : ℕ) (ip_str : List ℕ) (forward_port : ℕ)
        (m : Map) (r : Result (List ℕ) × Map)
        → Addition net proto_str port ip_str forward_port m r
        → Change IsFull (get m) (add net proto_str port ip_str forward_port) (get r.1)
    add-Change net proto_str port ip_str forward_port m r (rejected e why) =
        refused_add _ _ _ _ _ (elim why [
          | inl a ↦ inl a
          | inr (inl b) ↦ inr (inl b)
          | inr (inr (inl c)) ↦ inr (inr (inl c))
          | inr (inr (inr (k, v, d))) ↦ inr (inr (inr (full_lem m k v d)))
        ])
    add-Change net proto_str port ip_str forward_port m r (stored proto ip mac m' a b c d) =
        set_rule net proto_str port ip_str forward_port proto ip mac (get m') a b c
          (forward_map.get-insert_self m m' _ _ d) (λ j n. forward_map.get-insert_ne m m' _ j _ d n)

    delete-Change :
        (proto_str : List ℕ) (port : ℕ) (m : Map)
        → Change IsFull
            (get m)
            (delete proto_str port)
            (get (delete_forward_rule forward_map proto_str port m).1)
    unfolding delete_forward_rule delete_values
    delete-Change proto_str port m = go (parse_proto proto_str) refl
      where
        drop :
            (proto : ℕ) (o : Option Map)
            → parse_proto proto_str ≡ some proto
            → remove m (key_at proto port) ≡ o
            → Change IsFull (get m) (delete proto_str port) (get (removed forward_map m o).1)
        drop proto none a d = no_rule proto_str port proto a (forward_map.remove_absent m _ d)
        drop proto (some m') a d =
            unset_rule proto_str port proto (get m') a (forward_map.get-remove_self m m' _ d)
              (λ j n. forward_map.get-remove_ne m m' _ j d n)

        go :
            (p : Option ℕ)
            → parse_proto proto_str ≡ p
            → Change IsFull
                (get m)
                (delete proto_str port)
                (get (delete_values forward_map m port p).1)
        go none a = unknown_proto proto_str port a
        go (some proto) a = drop proto _ a refl

    pub perform-Change : (op : Op) (m : Map) → Change IsFull (get m) op (get (perform op m))
    unfolding perform
    perform-Change (add net proto_str port ip_str forward_port) m =
        add-Change net proto_str port ip_str forward_port m _
          (add_forward_rule-Addition net proto_str port ip_str forward_port m)
    perform-Change (delete proto_str port) m = delete-Change proto_str port m

    -- Any run of additions and deletions reads as a sequence of changes to the rules as a function:
    -- each does nothing or exactly the change at its key that it asks for.
    pub perform_all-Changes :
        (ops : List Op) (m : Map) → Changes IsFull (get m) ops (get (perform_all ops m))
    unfolding perform_all
    perform_all-Changes [] m = done (get m)
    perform_all-Changes (op ∷ ops) m =
        step_by (get m) (get (perform op m)) _ op ops (perform-Change op m)
          (perform_all-Changes ops (perform op m))
