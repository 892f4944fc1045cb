-- ===== src/Tests/Trees.antt =====
-- Witnesses for the search for parents: a tree that is parsed, and one where the search does not end.
use praefectus.Prelude.{
  ℕ, ◌<◌, ◌≡◌, refl, sym, ap, ◌∙◌, subst, and_then, unwrap_or, true, false, String, none, some,
  is_some, List, [], ◌∷◌, arith, str_eq, str_eq_iff, Bool-cases, inl, inr, if◌then◌else◌,
}
use praefectus.Prelude.Try.{Try, ok, err}
use praefectus.Json.{
  Value, as_array, get, array, boolean, cons, end, field, nil, number, object, string,
}
use praefectus.Browser.Page.{CdpError}
use praefectus.Browser.Accessibility.{ax_semantics, ax_value}
use praefectus.Browser.Query.{required_string}
use praefectus.Browser.Tree.{
  Scan, climb, find_text, has_text, nothing_seen, parse_ax_tree, raw_nodes_of, scan_nodes,
}
use praefectus.Browser.Tree.Climb.{IsRanked, IsTrap, climb-loops, parse_ax_tree-ends}
use praefectus.Semantic.Observation.{SemanticElement}
use praefectus.Tests.Page.{element, hash, hashing, parse_seven}

-- A button below an ignored node.
abbrev nested : Value
nested = object (
    field "nodes"
      (array (
        cons
          (object (
            field "backendDOMNodeId" (number "7") (
              field "nodeId" (string "1") (
                field "parentId" (string "0")
                  (field "role" (object (field "value" (string "button") end)) end)))))
          (cons (object (field "ignored" (boolean true) (field "nodeId" (string "0") end))) nil)))
      end)

abbrev depth : String → ℕ
depth id = if str_eq id "1" then 1 else 0

abbrev parent_of_one : List (String × String)
parent_of_one = ("1", "0") ∷ []

depth-IsRanked : IsRanked depth parent_of_one
depth-IsRanked = record { below = λ id parent h. below id parent h }
  where
    some_injective : (a b : String) → some a ≡ some b → a ≡ b
    some_injective a b e = cc

    none_differs : (a : String) → none ≡ some a → ⊥
    none_differs a e = cc

    below :
        (id parent : String)
        → (if str_eq "1" id then some "0" else none) ≡ some parent
        → depth parent < depth id
    below id parent h = elim (Bool-cases (str_eq "1" id)) [
      | inl e ↦
          let same = (str_eq_iff "1" id).0 e in
          let parent_is : some "0" ≡ some parent =
            sym (ap (λ b. if b then some "0" else none) e) ∙ h in
          subst (λ x. depth parent < depth x) same
            (subst (λ x. depth x < 1) (some_injective "0" parent parent_is) (ground arith))
      | inr e ↦ absurd (none_differs parent (sym (ap (λ b. if b then some "0" else none) e) ∙ h))
    ]

abbrev nested_nodes : List Value
nested_nodes = unwrap_or (and_then (get "nodes" nested) as_array) []

abbrev parents_of : Try CdpError Scan → List (String × String)
parents_of (ok s) = s.parents
parents_of (err e) = []

abbrev nodes_of : Try CdpError (List Value) → List Value
nodes_of (ok vs) = vs
nodes_of (err e) = []

scanned_parents :
    (found : Scan)
    → scan_nodes parse_seven (7 ∷ []) nested_nodes nothing_seen ≡ ok found
    → found.parents ≡ parent_of_one
unfolding scan_nodes required_string ax_value ax_semantics
scanned_parents found h = ap parents_of (sym h)

nested-IsRanked :
    (nodes : List Value) (found : Scan)
    → raw_nodes_of nested ≡ ok nodes
    → scan_nodes parse_seven (7 ∷ []) nodes nothing_seen ≡ ok found
    → IsRanked depth found.parents
nested-IsRanked nodes found p h =
    let same : nodes ≡ nested_nodes = ap nodes_of (sym p) in
    subst (IsRanked depth)
      (sym (
        scanned_parents found
          (subst (λ l. scan_nodes parse_seven (7 ∷ []) l nothing_seen ≡ ok found) same h)))
      depth-IsRanked

parse_ax_tree-ends_example :
    is_some (parse_ax_tree hashing parse_seven (λ n r m. some hash) 2 nested hash (7 ∷ [])) ≡ true
parse_ax_tree-ends_example =
    parse_ax_tree-ends hashing parse_seven (λ n r m. some hash) 2 nested hash (7 ∷ []) depth
      nested-IsRanked (λ id. ground arith)

abbrev own_parent : List (String × String)
own_parent = ("a", "a") ∷ []

own_parent-IsTrap : IsTrap (λ id. str_eq id "a") own_parent ("1" ∷ [])
own_parent-IsTrap = record {
  unselected =
      λ id h. subst (λ x. has_text x ("1" ∷ []) ≡ false) (sym ((str_eq_iff id "a").0 h)) refl;
  onward = λ id h. (
    "a",
    subst (λ x. find_text x own_parent ≡ some "a") (sym ((str_eq_iff id "a").0 h)) refl,
    refl,
  );
}

climb-loops_example : climb 1000 own_parent ("1" ∷ []) (some "a") ≡ none
climb-loops_example =
    climb-loops (λ id. str_eq id "a") own_parent ("1" ∷ []) 1000 "a" own_parent-IsTrap refl

abbrev nested_button : SemanticElement
nested_button = record element { name = none }
