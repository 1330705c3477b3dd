-- ===== src/Console/Elements.antt =====
-- App.tsx, what the returned tree is made of: texts and controls with their handlers, in the order of the
-- document. Styles, pictograms, placeholders and the elements that only arrange others are left out.
use mathlib.Core.Option
use xdp_nat_forward.Base.{
  ℕ, ◌≡◌, Bool, false, List, [], ◌∷◌, ◌++◌, IsIn, Option, none, some, if◌then◌else◌,
}
use xdp_nat_forward.Console.Text.{codes, is_empty, or_default}
use xdp_nat_forward.Console.State.{App}
use xdp_nat_forward.Console.Handlers.{
  AddRequest, DeleteRequest, QueryRequest, query_request, submit_query, add_request, submit_add,
  delete_request,
}

pub data Request : Type 0 where
  add : AddRequest → Request
  delete : DeleteRequest → Request
  query : QueryRequest → Request

-- What a handler does at once: the state after it, and the request that it sends.
pub record Effect : Type 0 where
  pub state : App
  pub sent : Option Request

-- A handler that only sets the state.
abbrev pub quiet : App → Effect
quiet s = record { state = s; sent = none }

pub data Control : Type 0 where
  -- A label, whether it is highlighted, and `onClick`.
  tab_button : List ℕ → Bool → (App → App) → Control
  -- A node's id and host, whether it is highlighted, and `onClick`.
  node_entry : List ℕ → List ℕ → Bool → (App → App) → Control
  -- A label, the value shown, and `onChange`.
  text_input : List ℕ → List ℕ → (List ℕ → App → App) → Control
  -- A label, the value, the options, and `onChange`.
  selector : List ℕ → List ℕ → List (List ℕ) → (List ℕ → App → App) → Control
  -- A radio button or a check box: a label, whether it is checked, and `onChange`.
  check_box : List ℕ → Bool → (App → App) → Control
  -- The button that submits a form: a label, whether it is disabled, and `onSubmit`.
  submit_button : List ℕ → Bool → (App → Effect) → Control
  -- A label and `onClick`.
  plain_button : List ℕ → (App → Effect) → Control
  -- A label and `onClick`, which first asks the user to confirm.
  confirm_button : List ℕ → (Bool → App → Effect) → Control

pub data Element : Type 0 where
  text : List ℕ → Element
  control : Control → Element

-- What the user can do with a control.
pub data Fires (s : App) : Control → Effect → Type 0 where
  clicks_tab :
      (label : List ℕ) (active : Bool) (f : App → App)
      → Fires s (tab_button label active f) (quiet (f s))
  clicks_node :
      (id host : List ℕ) (active : Bool) (f : App → App)
      → Fires s (node_entry id host active f) (quiet (f s))
  -- An input of the type number passes on fewer texts than these.
  types :
      (label value : List ℕ) (f : List ℕ → App → App) (entered : List ℕ)
      → Fires s (text_input label value f) (quiet (f entered s))
  chooses :
      (label value : List ℕ) (options : List (List ℕ)) (f : List ℕ → App → App) (o : List ℕ)
      → IsIn o options
      → Fires s (selector label value options f) (quiet (f o s))
  checks :
      (label : List ℕ) (checked : Bool) (f : App → App)
      → Fires s (check_box label checked f) (quiet (f s))
  submits :
      (label : List ℕ) (disabled : Bool) (f : App → Effect)
      → disabled ≡ false
      → Fires s (submit_button label disabled f) (f s)
  clicks : (label : List ℕ) (f : App → Effect) → Fires s (plain_button label f) (f s)
  answers :
      (label : List ℕ) (f : Bool → App → Effect) (confirmed : Bool)
      → Fires s (confirm_button label f) (f confirmed s)

unfoldable pub handle_query_sessions : App → Effect
handle_query_sessions s = record {
  state = submit_query s;
  sent = Option.map query (query_request s);
}

unfoldable pub handle_add_rule : App → Effect
handle_add_rule s = record { state = submit_add s; sent = Option.map add (add_request s) }

unfoldable pub handle_delete_rule : List ℕ → ℕ → Option (List (List ℕ)) → Bool → App → Effect
handle_delete_rule proto local_port node_ids confirmed s = record {
  state = s;
  sent = Option.map delete (delete_request confirmed proto local_port node_ids s);
}

-- `{message && ...}`: an empty message is not shown.
abbrev pub message_or_null : Option (List ℕ) → List Element
message_or_null none = []
message_or_null (some message) = if is_empty message then [] else text message ∷ []

-- `id || 'NoneSelected'`
abbrev pub id_or_none_selected : Option (List ℕ) → List ℕ
id_or_none_selected none = codes "NoneSelected"
id_or_none_selected (some id) = or_default id (codes "NoneSelected")

-- Elements that stand one after the other.
abbrev pub concat : List (List Element) → List Element
concat [] = []
concat (es ∷ rest) = es ++ concat rest
