-- ===== src/Tests/Targets.antt =====
-- Witnesses on the observation of the page's button.
use praefectus.Prelude.{ℕ, String, ◌≡◌, refl, All, Bool, pos, some, List, [], ◌∷◌}
use praefectus.Prelude.Try.{ok}
use praefectus.Protocol.{SemanticTargetRef}
use praefectus.Semantic.Observation.{SemanticElement, SemanticObservation}
use praefectus.Semantic.Mapping.{build_mapping, rounds_for, walk}
use praefectus.Semantic.Resolve.{resolve, target, validate}
use praefectus.Semantic.Forest.{Rooted, walk-ends}
use praefectus.Semantic.Roundtrip.{resolve-named, resolve-target, valid-Rooted}
use praefectus.Semantic.Unique.{In}
use praefectus.Validate.Identifiers.{semantic_hash}
use praefectus.Semantic.Observation.{valid_element, valid_provenance, valid_tag, valid_text}
use praefectus.Tests.Page.{element, hash, hashing, observation}

abbrev other_hash : String
other_hash = "bbbbbbbbbbbbbbbbbbbbbbbbbbbbbbbbbbbbbbbbbbbbbbbbbbbbbbbbbbbbbbbb"

-- A button within the button.
abbrev child : SemanticElement
child = record element { tag = "e1"; element_id = other_hash; parent_id = some hash }

abbrev pair : SemanticObservation
pair = record observation { elements = element ∷ child ∷ [] }

button-valid : validate hashing pair (pos 1) ≡ ok tt
unfolding validate semantic_hash valid_provenance valid_element valid_text valid_tag
button-valid = refl

valid-Rooted_example :
    (m : List SemanticElement) × ((build_mapping pair.elements ≡ ok m)
      × All (λ e. Rooted m e.parent_id) pair.elements)
valid-Rooted_example = valid-Rooted hashing pair (pos 1) button-valid

walk-ends_example :
    (b : Bool) × (walk
        (rounds_for (element ∷ child ∷ []))
        (element ∷ child ∷ [])
        []
        (some other_hash)
      ≡ some b)
walk-ends_example = walk-ends (element ∷ child ∷ []) (some other_hash)

abbrev button_reference : SemanticTargetRef
button_reference = record {
  observation_id = hash;
  generation = 1;
  provenance_hash = hash;
  element_id = other_hash;
  fingerprint_hash = hash;
}

resolve-target_example :
    (t : SemanticTargetRef) × ((target hashing pair "e1" ≡ ok t)
      × (resolve hashing pair t (pos 1) ≡ ok child))
resolve-target_example =
    resolve-target hashing pair (pos 1) child hash button-valid refl
      (In.there element _ (In.here []))

button_resolves : resolve hashing pair button_reference (pos 1) ≡ ok child
unfolding resolve semantic_hash valid_provenance valid_element valid_text valid_tag
button_resolves = refl

resolve-named_example :
    (validate hashing pair (pos 1) ≡ ok tt)
    × (In child pair.elements
        × ((hash ≡ hash) × ((◌≡◌ {A = ℕ} 1 1) × ((other_hash ≡ other_hash) × (hash ≡ hash)))))
resolve-named_example = resolve-named hashing pair button_reference (pos 1) child button_resolves
