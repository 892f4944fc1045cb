-- ===== src/Semantic/Observation.antt =====
-- The records of src/semantic.rs, their limits, and the checks of one element and one provenance.
use Prim.Native.Nat.{Ordering}
use Prim.Native.String.{compare}
use praefectus.Prelude.{
  ℕ, ℤ, Bool, true, false, not, ◌&&◌, ◌||◌, ◌*◌, String, len, codes, Option, List, [], ◌∷◌, all,
  any, length, leb, ltb, ltb_ℤ, pos, ◌==◌, is_some, is_none_or, is_some_and, is_control,
  is_whitespace, is_ascii_digit, is_ascii_alphanumeric,
}
use praefectus.Protocol.{Rect}
use praefectus.Validate.Identifiers.{semantic_hash}

abbrev pub max_semantic_elements : ℕ
max_semantic_elements = 4096

abbrev pub max_semantic_snapshot_bytes : ℕ
max_semantic_snapshot_bytes = 2 * 1024 * 1024

abbrev pub max_semantic_observation_age_ms : ℤ
max_semantic_observation_age_ms = pos 30000

abbrev pub max_host_opt_ins : ℕ
max_host_opt_ins = 8

pub data SemanticBackend : Type 0 where
  accessibility dom : SemanticBackend

pub record SemanticProvenance : Type 0 where
  pub backend : SemanticBackend
  pub backend_name : String
  pub process_id : ℕ
  pub process_generation : String
  pub window_id : String
  pub document_id : Option String
  pub display_geometry_hash : String
  pub host_opt_ins : List String

pub record Actionability : Type 0 where
  pub visible : Bool
  pub enabled : Bool
  pub unambiguous : Bool
  pub stable : Bool
  pub receives_events : Bool
  pub invokable : Bool
  pub editable : Bool

pub record SemanticElement : Type 0 where
  pub tag : String
  pub element_id : String
  pub parent_id : Option String
  pub fingerprint_hash : String
  pub role : String
  pub name : Option String
  pub bounds : Option Rect
  pub actionability : Actionability

pub record SemanticObservation : Type 0 where
  pub protocol_version : ℕ
  pub observation_id : String
  pub generation : ℕ
  pub provenance : SemanticProvenance
  pub observed_at_ms : ℤ
  pub expires_at_ms : ℤ
  pub truncated : Bool
  pub elements : List SemanticElement

pub data SemanticError : Type 0 where
  invalid_observation stale_observation target_not_found ambiguous_target : SemanticError
  stale_target target_not_actionable unsupported_action : SemanticError

-- `is_hash` of src/semantic.rs: 64 lower-case hexadecimal digits.
abbrev pub is_hash : String → Bool
is_hash value = semantic_hash value

-- `value.trim().is_empty()` holds when every character is white space.
unfoldable pub valid_text : String → ℕ → ℕ → Bool
valid_text value minimum maximum =
    (leb minimum (len value) && leb (len value) maximum)
    && (not (any is_control (codes value)) && not (all is_whitespace (codes value)))

abbrev tag_index_is_valid : List ℕ → Bool
tag_index_is_valid index =
    ltb 0 (length index) && (leb (length index) 4 && all is_ascii_digit index)

abbrev is_tag : List ℕ → Bool
is_tag [] = false
is_tag (c ∷ index) = c == b'e' && tag_index_is_valid index

unfoldable pub valid_tag : String → Bool
valid_tag value = is_tag (codes value)

abbrev bounds_are_valid : Rect → Bool
bounds_are_valid bounds = ltb_ℤ (pos 0) bounds.width && ltb_ℤ (pos 0) bounds.height

unfoldable pub valid_element : SemanticElement → Bool
unfolding valid_text valid_tag
valid_element e =
    valid_tag e.tag
    && (is_hash e.element_id
        && (is_hash e.fingerprint_hash
            && (is_none_or e.parent_id is_hash
                && (valid_text e.role 1 128
                    && (is_none_or e.name (λ value. valid_text value 0 1024)
                        && is_none_or e.bounds bounds_are_valid)))))

-- The order of texts is that of their UTF-8 bytes, which is that of their code points.
abbrev text_lt : String → String → Bool
text_lt s t = elim (compare s t) [ Ordering.lt ↦ true | _ ↦ false ]

-- `windows(2).all(|pair| pair[0] < pair[1])`.
abbrev increasing : List String → Bool
increasing [] = true
increasing (s ∷ []) = true
increasing (s ∷ t ∷ rest) = text_lt s t && increasing (t ∷ rest)

abbrev opt_in_is_valid : String → Bool
opt_in_is_valid opt_in =
    valid_text opt_in 1 128 && all (λ c. is_ascii_alphanumeric c || c == b'_') (codes opt_in)

unfoldable pub valid_host_opt_ins : List String → Bool
unfolding valid_text
valid_host_opt_ins opt_ins =
    leb (length opt_ins) max_host_opt_ins && (increasing opt_ins && all opt_in_is_valid opt_ins)

abbrev document_is_valid : SemanticBackend → Option String → Bool
document_is_valid SemanticBackend.accessibility document_id = not (is_some document_id)
document_is_valid SemanticBackend.dom document_id =
    is_some_and document_id (λ value. valid_text value 1 512)

unfoldable pub valid_provenance : SemanticProvenance → Bool
unfolding valid_text valid_host_opt_ins
valid_provenance p =
    ltb 0 p.process_id
    && (valid_text p.backend_name 1 128
        && (valid_text p.process_generation 1 256
            && (valid_text p.window_id 1 512
                && (is_hash p.display_geometry_hash
                    && (valid_host_opt_ins p.host_opt_ins
                        && document_is_valid p.backend p.document_id)))))
