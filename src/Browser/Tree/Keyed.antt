-- ===== src/Browser/Tree/Keyed.antt =====
-- The nodes that `parse_ax_tree` of src/cdp.rs collects.
use praefectus.Prelude.{String, Option, some, List, [], ◌∷◌, map}
use praefectus.Prelude.Try.{Try, ok}
use praefectus.Semantic.Observation.{SemanticElement}
use praefectus.Browser.Page.{CdpError, CdpNode}

-- The elements under their IDs, newest first, before those that came earlier.
abbrev pub newest_first :
    List SemanticElement → List (String × SemanticElement) → List (String × SemanticElement)
newest_first [] earlier = earlier
newest_first (e ∷ es) earlier = newest_first es ((e.element_id, e) ∷ earlier)

-- What the nodes hold under each ID.
abbrev pub shown : List (String × CdpNode) → List (String × SemanticElement)
shown nodes = map (λ entry. (entry.0, entry.1.element)) nodes

abbrev ended_ok : {A : Type 0} → A → Option (Try CdpError A)
ended_ok a = some (ok a)
