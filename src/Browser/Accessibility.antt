-- ===== src/Browser/Accessibility.antt =====
-- The accessibility properties of a node in src/cdp.rs: `ax_semantics` and what it reads.
use Prim.Native.Char.{Char, code}
use praefectus.Prelude.{
  ℕ, zero, suc, Bool, false, not, ◌&&◌, ◌||◌, String, Option, none, some, List, [], ◌∷◌, any,
  str_eq, is_some, is_some_and, is_control, is_whitespace, unwrap_or, and_then, keep_if, ◌==◌,
  if◌then◌else◌,
}
use praefectus.Prelude.Try.{Try, ok, err}
use praefectus.Json
use praefectus.Json.{Value, as_array, as_bool, as_str, get, is_true_in}
use praefectus.Protocol.{DispatchError, EffectKnowledge, FailureCode}
use praefectus.Browser.Page.{CdpError}

pub record AxSemantics : Type 0 where
  pub role : String
  pub name : Option String
  pub protected : Bool
  pub visible : Bool
  pub enabled : Bool
  pub invokable : Bool
  pub editable : Bool

-- Texts by their characters: `trim`, and `filter(..).take(..)`.
abbrev pub trim_start : String → String
trim_start String.[] = ""
trim_start (String.◌∷◌ c s) = if is_whitespace (code c) then trim_start s else String.◌∷◌ c s

abbrev pub push_trimmed : Char → String → String
push_trimmed c String.[] = if is_whitespace (code c) then "" else String.◌∷◌ c ""
push_trimmed c (String.◌∷◌ d s) = String.◌∷◌ c (String.◌∷◌ d s)

abbrev pub trim_end : String → String
trim_end String.[] = ""
trim_end (String.◌∷◌ c s) = push_trimmed c (trim_end s)

abbrev pub without_controls : ℕ → String → String
without_controls zero s = ""
without_controls (suc n) String.[] = ""
without_controls (suc n) (String.◌∷◌ c s) =
    let kept = String.◌∷◌ c (without_controls n s) in
    let dropped = without_controls (suc n) s in if is_control (code c) then dropped else kept

abbrev pub non_empty : String → Option String
non_empty s = keep_if (λ t. not (str_eq t "")) (some s)

unfoldable pub redacted_name : String → Option String
redacted_name value =
    and_then (non_empty (trim_end (trim_start value))) (λ s. non_empty (without_controls 1024 s))

unfoldable pub ax_value : Option Value → Option String
unfolding redacted_name
ax_value value = and_then (as_str (and_then value (get "value"))) redacted_name

-- One property of the list; `find_map` takes the first that has the name and a value.
abbrev pub named_property : String → Value → Option Value
named_property name property =
    and_then (as_str (get "name" property))
      (λ n. if str_eq n name then get "value" property else none)

abbrev pub find_property : String → List Value → Option Value
find_property name [] = none
find_property name (p ∷ ps) = elim (named_property name p) [
  | some v ↦ some v
  | none ↦ find_property name ps
]

unfoldable pub ax_property : Value → String → Option Value
ax_property node name = and_then (and_then (get "properties" node) as_array) (find_property name)

unfoldable pub ax_bool_property : Value → String → Option Bool
unfolding ax_property
ax_bool_property node name = and_then (and_then (ax_property node name) (get "value")) as_bool

abbrev pub invokable_roles : List String
invokable_roles =
    "button" ∷ "checkbox" ∷ "link" ∷ "menuitem" ∷ "menuitemcheckbox" ∷ "menuitemradio" ∷ "option"
    ∷ "radio" ∷ "switch" ∷ "tab" ∷ "treeitem" ∷ []

abbrev pub name_of : Value → Bool → Option String
name_of node protected = if protected then some "[redacted]" else ax_value (get "name" node)

abbrev pub is_editable : Value → String → Bool
is_editable node role =
    not (unwrap_or (ax_bool_property node "readonly") false)
    && (is_some (ax_property node "editable") || (str_eq role "textbox" || str_eq role "searchbox"))

abbrev pub semantics_of : Value → String → AxSemantics
semantics_of node role = record {
  role = role;
  name = name_of node (unwrap_or (ax_bool_property node "protected") false);
  protected = unwrap_or (ax_bool_property node "protected") false;
  visible = not (unwrap_or (ax_bool_property node "hidden") false);
  enabled = not (unwrap_or (ax_bool_property node "disabled") false);
  invokable = any (λ r. str_eq role r) invokable_roles;
  editable = is_editable node role;
}

abbrev pub with_role : Value → Option String → Try CdpError AxSemantics
with_role node none = err CdpError.protocol
with_role node (some role) =
    if str_eq role "" || str_eq role "none"
    then err CdpError.protocol
    else ok (semantics_of node role)

unfoldable pub ax_semantics : Value → Try CdpError AxSemantics
unfolding ax_value ax_property ax_bool_property
ax_semantics node = with_role node (ax_value (get "role" node))

abbrev pub no_effect : String → DispatchError
no_effect message = record {
  message = message;
  effect = EffectKnowledge.no_effect;
  code = FailureCode.stale_target;
}

abbrev pub as_u64 : (String → Option ℕ) → Option Value → Option ℕ
as_u64 number_u64 v = and_then (and_then v Json.as_number) number_u64

abbrev pub is_live_node : (String → Option ℕ) → ℕ → Value → Bool
is_live_node number_u64 id node =
    is_some_and (as_u64 number_u64 (get "backendDOMNodeId" node)) (λ n. n == id)
    && not (is_true_in "ignored" node)

abbrev pub live_nodes : (String → Option ℕ) → ℕ → List Value → List Value
live_nodes number_u64 id [] = []
live_nodes number_u64 id (v ∷ vs) =
    if is_live_node number_u64 id v
    then v ∷ live_nodes number_u64 id vs
    else live_nodes number_u64 id vs

abbrev pub only_node : List Value → Try DispatchError AxSemantics
only_node [] = err (no_effect "browser target changed")
only_node (v ∷ []) = elim (ax_semantics v) [
  | ok a ↦ ok a
  | err e ↦ err (no_effect "browser target changed")
]
only_node (v ∷ w ∷ vs) = err (no_effect "browser target is ambiguous")

abbrev pub semantics_in :
    (String → Option ℕ) → ℕ → Option (List Value) → Try DispatchError AxSemantics
semantics_in number_u64 id none = err (no_effect "browser target changed")
semantics_in number_u64 id (some nodes) = only_node (live_nodes number_u64 id nodes)

unfoldable pub live_ax_semantics : (String → Option ℕ) → Value → ℕ → Try DispatchError AxSemantics
unfolding ax_semantics
live_ax_semantics number_u64 tree backend_node_id =
    semantics_in number_u64 backend_node_id (and_then (get "nodes" tree) as_array)
