-- ===== src/Tests/Browsing.antt =====
-- The browser's witnesses: an observation of the page, and a dispatch to its button.
use praefectus.Prelude.{◌≡◌, ◌≢◌, refl, pos, true, false, none, some, [], ◌∷◌, arith}
use praefectus.Prelude.Try.{ok}
use praefectus.Json.{null}
use praefectus.Protocol.{ResolvedTarget, SemanticTargetRef, invoke, native_element, unverified}
use praefectus.Validate.Identifiers.{semantic_hash}
use praefectus.Semantic.Observation.{valid_provenance, valid_text}
use praefectus.Semantic.Resolve.{opaque_element_id, resolve, validate}
use praefectus.Browser.Session.{Session, ask, attempt, gets, lift, pure, send, ◌>>=◌}
use praefectus.Browser.Accessibility.{ax_semantics, ax_value, live_ax_semantics}
use praefectus.Browser.Effect.{dispatch_invoke}
use praefectus.Browser.Boundary.{
  boundary, check_effect_boundary, success_receipt, verify_process, verify_process_for_effect,
}
use praefectus.Browser.Query.{
  current_document_id_for_effect, probe_object_for_effect, required_string,
  resolve_object_for_effect, verify_live_target_for_effect,
}
use praefectus.Browser.Executor.{dispatch}
use praefectus.Browser.Honest.{honest}
use praefectus.Browser.Honest.Dispatch.{dispatch-IsHonest}
use praefectus.Browser.Observe.{semantic_observation}
use praefectus.Browser.Observe.Fresh.{stale_reference-refused}
use praefectus.Browser.Observe.Stored.{Stored, semantic_observation-Stored}
use praefectus.Tests.Page.{element, hash, hashing, observation, opened, page}

-- The executor after the observation.
abbrev observed : Session page
observed = record opened {
  generation = 1;
  latest = some (record {
    observation = observation;
    execution_context_id = 7;
    nodes = (hash, record { backend_node_id = 7; protected = false; element = element }) ∷ [];
  });
}

observes : semantic_observation hashing 1 (pos 100) opened ≡ some (ok observation, observed)
unfolding semantic_observation ◌>>=◌ boundary ask pure verify_process gets send required_string lift
    ax_value ax_semantics opaque_element_id semantic_hash valid_text validate valid_provenance
observes = refl

semantic_observation-Stored_example : Stored hashing (pos 100) (ok observation) opened observed
semantic_observation-Stored_example =
    semantic_observation-Stored hashing 1 (pos 100) (ok observation) opened observed observes

-- A reference from before the observation.
abbrev earlier : SemanticTargetRef
earlier = record {
  observation_id = hash;
  generation = 0;
  provenance_hash = hash;
  element_id = hash;
  fingerprint_hash = hash;
}

stale_reference-refused_example :
    (observation.generation ≡ 1)
    × (observed.generation ≡ 1)
    × (resolve hashing observation earlier (pos 50) ≢ ok element)
stale_reference-refused_example =
    stale_reference-refused hashing 1 (pos 100) (pos 50) observation opened observed earlier element
      observes (ground arith) (ground arith)

abbrev button_target : ResolvedTarget
button_target = native_element (record {
  backend = "praefectus-chromium-cdp";
  id = hash;
  app = "";
  process_id = none;
  window = none;
  role = "button";
  label = none;
  title = none;
  bounds = none;
  state = null;
  enabled = some true;
})

dispatch-IsHonest_example :
    honest
      (dispatch invoke button_target unverified (pos 100) observed).0
      (dispatch invoke button_target unverified (pos 100) observed).1.effects
    ≡ true
dispatch-IsHonest_example =
    dispatch-IsHonest invoke button_target unverified (pos 100) observed refl

-- The dispatch sends its function, and succeeds.
invokes : (dispatch invoke button_target unverified (pos 100) observed).0 ≡ ok success_receipt
unfolding dispatch ◌>>=◌ check_effect_boundary ask pure gets current_document_id_for_effect attempt
    send dispatch_invoke verify_process_for_effect resolve_object_for_effect probe_object_for_effect
    verify_live_target_for_effect lift live_ax_semantics
invokes = refl
