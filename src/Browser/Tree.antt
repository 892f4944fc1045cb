-- ===== src/Browser/Tree.antt =====
-- `parse_ax_tree` of src/cdp.rs: the elements and the nodes of an accessibility tree. A map is a list of
-- its entries, newest first. The search for the parent of an element follows the tree for as long as
-- the parents are not selected; the model gives each search `fuel` steps, and answers `none` when one
-- has used them all.
pub mod Climb
pub mod Keyed
use Prim.Native.Char.{Char}
use Prim.Native.String.{char_at}
use praefectus.Prelude.{
  ℕ, zero, suc, ◌/◌, ◌%◌, Bool, true, false, not, ◌&&◌, ◌||◌, String, Option, none, some, List, [],
  ◌∷◌, ◌++◌, any, and_then, length, ltb, map, str_eq, ◌==◌, if◌then◌else◌,
}
use praefectus.Prelude.Try.{Try, ok, err, ◌>>=◌, map_err, ok_or, refuse_if}
use praefectus.Json.{Value, as_array, as_str, get, is_true_in}
use praefectus.Semantic.Observation.{
  Actionability, SemanticElement, SemanticError, invalid_observation, max_semantic_elements,
}
use praefectus.Semantic.Resolve.{Hashing, opaque_element_id}
use praefectus.Browser.Page.{CdpError, CdpNode, protocol}
use praefectus.Browser.Accessibility.{AxSemantics, as_u64, ax_semantics, ax_value}
use praefectus.Browser.Query.{required_string}

abbrev digit : ℕ → Char
digit n = char_at "0123456789" n

abbrev show_digits : ℕ → ℕ → String → String
show_digits zero n shown = shown
show_digits (suc rounds) n shown =
    let last = String.◌∷◌ (digit (n % 10)) shown in
    let more = show_digits rounds (n / 10) last in if ltb n 10 then last else more

-- `to_string` of a `u64` or `usize`, which has at most 20 digits.
abbrev pub show_u64 : ℕ → String
show_u64 n = show_digits 20 n ""

unfoldable pub semantic_tag : ℕ → Try SemanticError String
semantic_tag index =
    if ltb index max_semantic_elements
    then ok (String.◌∷◌ "e" (show_u64 index))
    else err invalid_observation

pub record Selected : Type 0 where
  pub raw_id : String
  pub backend_node_id : ℕ
  pub semantics : AxSemantics

pub record Scan : Type 0 where
  pub parents : List (String × String)
  pub selected : List Selected
  pub backend_ids : List ℕ

abbrev pub find_text : String → List (String × String) → Option String
find_text key [] = none
find_text key ((k, v) ∷ entries) = if str_eq k key then some v else find_text key entries

abbrev pub has_number : ℕ → List ℕ → Bool
has_number n ns = any (λ m. m == n) ns

abbrev pub has_text : String → List String → Bool
has_text s ss = any (λ t. str_eq t s) ss

-- The loop `while parent.is_some_and(..)`.
abbrev pub climb : ℕ → List (String × String) → List String → Option String → Option (Option String)
climb fuel parents selected_ids none = some none
climb zero parents selected_ids (some id) =
    if has_text id selected_ids then some (some id) else none
climb (suc fuel) parents selected_ids (some id) =
    let further = climb fuel parents selected_ids (find_text id parents) in
    if has_text id selected_ids then some (some id) else further

module _ (number_u64 : String → Option ℕ) (roots : List ℕ) where
  abbrev with_parent : String → Option String → Scan → Scan
  with_parent raw_id none s = s
  with_parent raw_id (some parent) s = record s { parents = (raw_id, parent) ∷ s.parents }

  abbrev select : Value → String → ℕ → Scan → Try CdpError Scan
  select raw raw_id id s = do
    semantics ← ax_semantics raw
    ok (record s {
      selected =
          s.selected
          ++ (record { raw_id = raw_id; backend_node_id = id; semantics = semantics } ∷ []);
    })

  abbrev select_role : Value → String → ℕ → Option String → Scan → Try CdpError Scan
  select_role raw raw_id id none s = err protocol
  select_role raw raw_id id (some role) s =
      if str_eq role "" || str_eq role "none" then ok s else select raw raw_id id s

  abbrev select_node : Value → String → Option ℕ → Scan → Try CdpError Scan
  select_node raw raw_id none s = ok s
  select_node raw raw_id (some id) s =
      if not (has_number id roots)
      then ok s
      else if id == 0 || has_number id s.backend_ids
      then err protocol
      else select_role raw raw_id id (ax_value (get "role" raw))
          (record s { backend_ids = id ∷ s.backend_ids })

  -- The body of the first loop.
  unfoldable pub visit : Value → Scan → Try CdpError Scan
  visit raw s = do
    raw_id ← ok_or (required_string "nodeId" raw) protocol
    let seen = with_parent raw_id (as_str (get "parentId" raw)) s
    if is_true_in "ignored" raw
        then ok seen
        else select_node raw raw_id (as_u64 number_u64 (get "backendDOMNodeId" raw)) seen

  unfoldable pub scan_nodes : List Value → Scan → Try CdpError Scan
  unfolding visit
  scan_nodes [] s = ok s
  scan_nodes (raw ∷ nodes) s = do next ← visit raw s; scan_nodes nodes next

module _ (h : Hashing) (observation_id : String) where
  abbrev pub opaque_ids :
      List (String × String) → List Selected → Try CdpError (List (String × String))
  opaque_ids ids [] = ok ids
  opaque_ids ids (s ∷ rest) = do
    element_id ←
        map_err (opaque_element_id h observation_id (show_u64 s.backend_node_id)) (λ e. protocol)
    opaque_ids ((s.raw_id, element_id) ∷ ids) rest

-- A result that may not come.
abbrev Ending : Type 0 → Type 0
Ending A = Option (Try CdpError A)

abbrev pub ended : {A : Type 0} → Option A → Ending A
ended none = none
ended (some a) = some (ok a)

abbrev pub proceed : {A B : Type 0} → Ending A → (A → Ending B) → Ending B
proceed none next = none
proceed (some (err e)) next = some (err e)
proceed (some (ok a)) next = next a

module _ (fingerprint : ℕ → String → Option String → Option String) where
  abbrev pub element_of : ℕ → Selected → String → Option String → Try CdpError SemanticElement
  element_of index s element_id parent_id = do
    hash ← ok_or (fingerprint s.backend_node_id s.semantics.role s.semantics.name) protocol
    tag ← map_err (semantic_tag index) (λ e. protocol)
    ok (record {
      tag = tag;
      element_id = element_id;
      parent_id = parent_id;
      fingerprint_hash = hash;
      role = s.semantics.role;
      name = s.semantics.name;
      bounds = none;
      actionability = record {
        visible = s.semantics.visible;
        enabled = s.semantics.enabled;
        unambiguous = true;
        stable = false;
        receives_events = false;
        invokable = s.semantics.invokable;
        editable = s.semantics.editable;
      };
    })

  abbrev pub node_of : Selected → SemanticElement → CdpNode
  node_of s element = record {
    backend_node_id = s.backend_node_id;
    protected = s.semantics.protected;
    element = element;
  }

  -- The last loop, with the nodes that it has collected.
  abbrev pub elements_of :
      ℕ
      → List (String × String)
      → List String
      → List (String × String)
      → ℕ
      → List (String × CdpNode)
      → List Selected
      → Ending (List SemanticElement × List (String × CdpNode))
  elements_of fuel parents selected_ids ids index nodes [] = some (ok ([], nodes))
  elements_of fuel parents selected_ids ids index nodes (s ∷ rest) =
      proceed (ended (climb fuel parents selected_ids (find_text s.raw_id parents))) λ parent.
        proceed (some (ok_or (find_text s.raw_id ids) protocol)) λ element_id.
          proceed (some (element_of index s element_id (and_then parent (λ id. find_text id ids))))
            λ element.
              proceed
                (elements_of fuel parents selected_ids ids (suc index)
                  ((element_id, node_of s element) ∷ nodes) rest)
                λ found. some (ok (element ∷ found.0, found.1))

abbrev pub nothing_seen : Scan
nothing_seen = record { parents = []; selected = []; backend_ids = [] }

abbrev pub raw_nodes_of : Value → Try CdpError (List Value)
raw_nodes_of tree = do
  raw_nodes ← ok_or (and_then (get "nodes" tree) as_array) protocol
  u ← refuse_if (ltb max_semantic_elements (length raw_nodes)) protocol
  ok raw_nodes

unfoldable pub parse_ax_tree :
    Hashing
    → (String → Option ℕ)
    → (ℕ → String → Option String → Option String)
    → ℕ
    → Value
    → String
    → List ℕ
    → Ending (List SemanticElement × List (String × CdpNode))
unfolding scan_nodes semantic_tag
parse_ax_tree h number_u64 fingerprint fuel tree observation_id roots =
    proceed (some (raw_nodes_of tree >>= λ nodes. scan_nodes number_u64 roots nodes nothing_seen))
      λ found. proceed (some (opaque_ids h observation_id [] found.selected)) λ ids.
        elements_of fingerprint fuel found.parents (map (λ s. s.raw_id) found.selected) ids 0 []
          found.selected
