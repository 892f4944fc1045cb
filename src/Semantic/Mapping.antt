-- ===== src/Semantic/Mapping.antt =====
-- `build_mapping` of src/semantic.rs. The map from element IDs is the list of the elements inserted so
-- far. The walk along the parents takes rounds; `walk-ends` in Forest shows that those given suffice.
use praefectus.Prelude.{
  ℕ, zero, suc, ◌+◌, Bool, true, false, not, ◌||◌, String, Option, none, some, List, [], ◌∷◌, any,
  length, str_eq, is_some_and, unwrap_or, if◌then◌else◌,
}
use praefectus.Prelude.Try.{Try, ok, err, ◌>>=◌, ◌>>◌}
use praefectus.Semantic.Observation.{
  SemanticElement, SemanticError, ambiguous_target, invalid_observation, valid_element,
}

abbrev pub has_text : String → List String → Bool
has_text s seen = any (λ t. str_eq t s) seen

abbrev pub has_id : String → List SemanticElement → Bool
has_id id elements = any (λ e. str_eq e.element_id id) elements

abbrev pub find_id : String → List SemanticElement → Option SemanticElement
find_id id [] = none
find_id id (e ∷ es) = if str_eq e.element_id id then some e else find_id id es

-- The first loop: every element is valid, and no tag and no ID comes twice.
unfoldable pub collect :
    List String
    → List SemanticElement
    → List SemanticElement
    → Try SemanticError (List SemanticElement)
unfolding valid_element
collect tags elements [] = ok elements
collect tags elements (e ∷ rest) =
    let more = collect (e.tag ∷ tags) (e ∷ elements) rest in
    if not (valid_element e)
    then err invalid_observation
    else if has_text e.tag tags
    then err ambiguous_target
    else if has_id e.element_id elements
    then err ambiguous_target
    else more

abbrev pub parent_in : Option SemanticElement → Option String
parent_in none = none
parent_in (some e) = e.parent_id

abbrev pub parent_of_id : List SemanticElement → String → Option String
parent_of_id elements id = parent_in (find_id id elements)

-- `successors(..).any(|id| !ancestors.insert(id))`; `none` when the rounds run out.
unfoldable pub walk : ℕ → List SemanticElement → List String → Option String → Option Bool
walk rounds elements ancestors none = some false
walk zero elements ancestors (some id) = none
walk (suc rounds) elements ancestors (some id) =
    let rest = walk rounds elements (id ∷ ancestors) (parent_of_id elements id) in
    if has_text id ancestors then some true else rest

abbrev pub rounds_for : List SemanticElement → ℕ
rounds_for elements = length elements + 2

abbrev pub repeats : List SemanticElement → Option String → Bool
repeats elements parent = unwrap_or (walk (rounds_for elements) elements [] parent) true

abbrev pub parent_is_invalid : List SemanticElement → SemanticElement → Bool
parent_is_invalid elements e =
    is_some_and e.parent_id (λ parent. str_eq parent e.element_id || not (has_id parent elements))

-- The second loop.
unfoldable pub check_parents :
    List SemanticElement → List SemanticElement → Try SemanticError (Unit {0})
unfolding walk
check_parents elements [] = ok tt
check_parents elements (e ∷ rest) =
    let more = check_parents elements rest in
    if parent_is_invalid elements e
    then err invalid_observation
    else if repeats elements e.parent_id
    then err invalid_observation
    else more

unfoldable pub build_mapping : List SemanticElement → Try SemanticError (List SemanticElement)
unfolding collect check_parents
build_mapping elements_slice = do
  elements ← collect [] [] elements_slice
  check_parents elements elements_slice
  ok elements
