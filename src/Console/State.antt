-- ===== src/Console/State.antt =====
-- App.tsx: the types of the console's data, the state that `useState` holds, the values that
-- `useMemo` derives from it, and the effects that run when those change.
pub mod Laws
use mathlib.Core.Option
use xdp_nat_forward.Base.{
  ℕ, Bool, true, false, not, ◌&&◌, List, [], ◌∷◌, ◌++◌, map, Option, none, some, if◌then◌else◌,
}
use xdp_nat_forward.Console.Text.{text_eq, is_empty}
use xdp_nat_forward.Console.Sets.{includes, filter, add_all}

pub record ForwardRule : Type 0 where
  pub proto : ℕ
  pub local_port : ℕ
  pub forward_ip : List ℕ
  pub forward_port : ℕ
  pub forward_mac : List ℕ

pub record ConnectedNodeInfo : Type 0 where
  pub node_id : List ℕ
  pub group : List ℕ
  pub hostname : List ℕ
  pub rules : List ForwardRule

pub data Tab : Type 0 where
  rules_tab : Tab
  diff_tab : Tab
  sessions_tab : Tab

pub data Proto : Type 0 where
  tcp : Proto
  udp : Proto

-- One session of the manager's answer to a query.
pub record SessionInfo : Type 0 where
  pub proto : List ℕ
  pub src_port : ℕ
  pub dst_port : ℕ
  pub nat_port : ℕ

pub record SessionResults : Type 0 where
  pub status : List ℕ
  pub sessions : List SessionInfo
  pub error_message : Option (List ℕ)

pub record App : Type 0 where
  pub nodes : List ConnectedNodeInfo
  pub selected_node_id : Option (List ℕ)
  pub error : Option (List ℕ)
  pub active_tab : Tab
  pub form_proto : Proto
  pub form_local_port : List ℕ
  pub form_forward_ip : List ℕ
  pub form_forward_port : List ℕ
  pub target_group : List ℕ
  pub custom_targets : Bool
  pub selected_node_targets : List (List ℕ)
  pub form_error : Option (List ℕ)
  pub form_success : Option (List ℕ)
  pub query_src_ip : List ℕ
  pub query_dst_ip : List ℕ
  pub session_results : Option SessionResults
  pub query_loading : Bool
  pub query_error : Option (List ℕ)

-- `!s` of a string or null.
abbrev pub is_falsy : Option (List ℕ) → Bool
is_falsy none = true
is_falsy (some s) = is_empty s

unfoldable pub groups : List ConnectedNodeInfo → List (List ℕ)
groups nodes = add_all [] (map (λ n. n.group) nodes)

-- `xs.find(p) || null`
abbrev pub find {ℓ} : {A : Type ℓ} → (A → Bool) → List A → Option A
find p [] = none
find p (x ∷ xs) = let rest = find p xs in if p x then some x else rest

-- A node's id is compared with the selected one, which may be null.
abbrev pub is_selected : Option (List ℕ) → List ℕ → Bool
is_selected none id = false
is_selected (some s) id = text_eq id s

unfoldable pub selected_node : App → Option ConnectedNodeInfo
selected_node s = find (λ n. is_selected s.selected_node_id n.node_id) s.nodes

abbrev pub in_group : List ℕ → ConnectedNodeInfo → Bool
in_group g n = text_eq n.group g

unfoldable pub nodes_in_group : List ConnectedNodeInfo → List ℕ → List ConnectedNodeInfo
nodes_in_group nodes g = filter (in_group g) nodes

abbrev pub node_ids : List ConnectedNodeInfo → List (List ℕ)
node_ids = map (λ n. n.node_id)

-- The group that the effect on `groups` leaves.
unfoldable pub valid_group : List (List ℕ) → List ℕ → List ℕ
valid_group [] g = g
valid_group (h ∷ gs) g = if includes (h ∷ gs) g then g else h

-- The effect on `groups`.
unfoldable pub pick_group : App → App
pick_group s = record s { target_group = valid_group (groups s.nodes) s.target_group }

unfoldable pub first_node : List ConnectedNodeInfo → Option (List ℕ) → Option (List ℕ)
first_node [] id = id
first_node (n ∷ ns) id = if is_falsy id then some n.node_id else id

-- The effect on `nodes`.
unfoldable pub pick_node : App → App
pick_node s = record s { selected_node_id = first_node s.nodes s.selected_node_id }

-- The effect on `nodesInTargetGroup`.
unfoldable pub init_targets : App → App
init_targets s = record s {
  selected_node_targets = node_ids (nodes_in_group s.nodes s.target_group);
}

-- The effects after `nodes` is a new array, in the order of the source. Where the first changes the
-- target group, the last runs again after the next rendering and overwrites what it set before.
unfoldable pub effects_of_nodes : App → App
effects_of_nodes s = init_targets (pick_node (pick_group s))

-- The target group's selector: `setTargetGroup` of another group and the effect on
-- `nodesInTargetGroup`. With the same group nothing is rendered.
unfoldable pub choose_group : List ℕ → App → App
choose_group g s =
    if text_eq g s.target_group then s else init_targets (record s { target_group = g })

unfoldable pub toggle : List ℕ → List (List ℕ) → List (List ℕ)
toggle node_id prev =
    if includes prev node_id
    then filter (λ id. not (text_eq id node_id)) prev
    else prev ++ (node_id ∷ [])

unfoldable pub handle_target_node_checkbox_change : List ℕ → App → App
handle_target_node_checkbox_change node_id s = record s {
  selected_node_targets = toggle node_id s.selected_node_targets;
}
