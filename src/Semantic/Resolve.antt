-- ===== src/Semantic/Resolve.antt =====
-- `SemanticObservation`'s methods and `route_action` of src/semantic.rs.
use praefectus.Prelude.{
  ℕ, ℤ, pos, Bool, not, ◌&&◌, ◌||◌, String, Option, List, [], ◌∷◌, length, ltb, ltb_ℤ, leb_ℤ, ◌==◌,
  str_eq, sat_sub_i64, if◌then◌else◌, ◌++◌, utf8_bytes,
}
use praefectus.Prelude.Try.{Try, ok, err, ◌>>=◌, ◌>>◌, refuse_if, ok_or}
use praefectus.Protocol.{Action, SemanticTargetRef, protocol_version, invoke, set_value}
use praefectus.Semantic.Observation.{
  Actionability, SemanticElement, SemanticError, SemanticObservation, SemanticProvenance,
  ambiguous_target, invalid_observation, is_hash, max_semantic_elements,
  max_semantic_observation_age_ms, max_semantic_snapshot_bytes, stale_observation, stale_target,
  target_not_actionable, target_not_found, unsupported_action, valid_provenance, valid_text,
}
use praefectus.Semantic.Mapping.{build_mapping}

-- The tuple of which `provenance_hash` takes the hash.
pub record ProvenanceKey : Type 0 where
  pub protocol_version : ℕ
  pub observation_id : String
  pub generation : ℕ
  pub provenance : SemanticProvenance
  pub observed_at_ms : ℤ
  pub expires_at_ms : ℤ

-- What JSON and SHA-256 answer; `none` is a failure to serialise.
pub record Hashing : Type 0 where
  pub hash_provenance : ProvenanceKey → Option String
  pub encoded_len : SemanticObservation → Option ℕ
  pub hash_bytes : List ℕ → String

abbrev pub key_of : SemanticObservation → ProvenanceKey
key_of o = record {
  protocol_version = o.protocol_version;
  observation_id = o.observation_id;
  generation = o.generation;
  provenance = o.provenance;
  observed_at_ms = o.observed_at_ms;
  expires_at_ms = o.expires_at_ms;
}

-- The conditions before the length of the snapshot is taken.
abbrev header_is_invalid : SemanticObservation → ℤ → Bool
header_is_invalid o now_ms =
    not (o.protocol_version == protocol_version)
    || (not (is_hash o.observation_id)
        || (o.generation == 0
            || (leb_ℤ o.observed_at_ms (pos 0)
                || (leb_ℤ o.expires_at_ms o.observed_at_ms
                    || (ltb_ℤ max_semantic_observation_age_ms
                          (sat_sub_i64 o.expires_at_ms o.observed_at_ms)
                        || (ltb_ℤ now_ms o.observed_at_ms
                            || (ltb max_semantic_elements (length o.elements)
                                || not (valid_provenance o.provenance))))))))

-- `iter().filter(|element| element.key == wanted)`.
abbrev pub matching :
    (SemanticElement → String) → String → List SemanticElement → List SemanticElement
matching key wanted [] = []
matching key wanted (e ∷ es) =
    if str_eq (key e) wanted then e ∷ matching key wanted es else matching key wanted es

abbrev pub with_tag : String → List SemanticElement → List SemanticElement
with_tag = matching (λ e. e.tag)

abbrev pub with_id : String → List SemanticElement → List SemanticElement
with_id = matching (λ e. e.element_id)

-- The first match, an error if there is none or a second one.
abbrev pub only : List SemanticElement → Try SemanticError SemanticElement
only [] = err target_not_found
only (e ∷ []) = ok e
only (e ∷ f ∷ es) = err ambiguous_target

abbrev base_actionable : Actionability → Bool
base_actionable a = a.visible && (a.enabled && (a.unambiguous && a.stable))

unfoldable pub semantic_actionable : Action → Actionability → Try SemanticError Bool
semantic_actionable invoke a = ok (base_actionable a && a.invokable)
semantic_actionable (set_value value) a = ok (base_actionable a && a.editable)
semantic_actionable _ a = err unsupported_action

module _ (h : Hashing) where
  unfoldable pub validate : SemanticObservation → ℤ → Try SemanticError (Unit {0})
  unfolding build_mapping
  validate o now_ms = do
    refuse_if (header_is_invalid o now_ms) invalid_observation
    size ← ok_or (h.encoded_len o) invalid_observation
    refuse_if (ltb max_semantic_snapshot_bytes size) invalid_observation
    refuse_if (leb_ℤ o.expires_at_ms now_ms) stale_observation
    elements ← build_mapping o.elements
    ok tt

  abbrev pub provenance_hash : SemanticObservation → Try SemanticError String
  provenance_hash o = ok_or (h.hash_provenance (key_of o)) invalid_observation

  unfoldable pub target : SemanticObservation → String → Try SemanticError SemanticTargetRef
  target o tag = do
    element ← only (with_tag tag o.elements)
    hash ← provenance_hash o
    ok (record {
      observation_id = o.observation_id;
      generation = o.generation;
      provenance_hash = hash;
      element_id = element.element_id;
      fingerprint_hash = element.fingerprint_hash;
    })

  abbrev pub same_observation : SemanticObservation → SemanticTargetRef → Bool
  same_observation o t = str_eq t.observation_id o.observation_id && t.generation == o.generation

  abbrev pub same_provenance : SemanticTargetRef → String → Bool
  same_provenance t hash =
      str_eq t.provenance_hash hash && (is_hash t.element_id && is_hash t.fingerprint_hash)

  unfoldable pub resolve :
      SemanticObservation → SemanticTargetRef → ℤ → Try SemanticError SemanticElement
  unfolding validate
  resolve o t now_ms = do
    validate o now_ms
    refuse_if (not (same_observation o t)) stale_target
    hash ← provenance_hash o
    refuse_if (not (same_provenance t hash)) stale_target
    element ← only (with_id t.element_id o.elements)
    refuse_if (not (str_eq element.fingerprint_hash t.fingerprint_hash)) stale_target
    ok element

  unfoldable pub route_action :
      Action → SemanticObservation → SemanticTargetRef → ℤ → Try SemanticError SemanticElement
  unfolding resolve semantic_actionable
  route_action action o t now_ms = do
    element ← resolve o t now_ms
    actionable ← semantic_actionable action element.actionability
    if actionable then ok element else err target_not_actionable

  unfoldable pub opaque_element_id : String → String → Try SemanticError String
  opaque_element_id observation_id backend_element_id =
      if not (is_hash observation_id) || not (valid_text backend_element_id 1 2048)
      then err invalid_observation
      else ok (h.hash_bytes (utf8_bytes observation_id ++ 0 ∷ utf8_bytes backend_element_id))
