-- ===== src/Validate/Request.antt =====
-- `validate_request` and `normalized_action_hash` of src/lib.rs, in the order of the source.
pub mod Fences
use praefectus.Prelude.{
  ℕ, Bool, true, false, not, ◌&&◌, ◌||◌, String, len, codes, all, ◌==◌, str_eq, leb_ℤ, pos, ◌++◌,
  is_ascii_hexdigit, if◌then◌else◌,
}
use praefectus.Protocol.{
  Action, ActionRequest, TargetRef, VerificationPolicy, Result, ok, err, invalid_request, ◌>>◌,
  ◌>>=◌, protocol_version, mode_is_unknown, is_untargeted, is_coordinates, is_element,
  is_unverified, coordinates, element, untargeted, click, move, drag, select_text,
  perform_secondary_action, set_value, screenshot, application, window, open_target,
  clipboard_write, target_value_hash,
}
use praefectus.Host.{Env, NormalizedRequest}
use praefectus.Validate.Identifiers.{
  valid_identifier, semantic_hash, valid_protocol_snapshot_id, target_provenance_is_valid,
}
use praefectus.Validate.Json.{validate_verification}
use praefectus.Validate.Parameters.{validate_action}

abbrev reject_if : Bool → String → Result (Unit {0})
reject_if true message = err (invalid_request message)
reject_if false message = ok tt

abbrev versions_differ : ActionRequest → Bool
versions_differ r =
    not (r.protocol_version == protocol_version)
    || (not (r.action_version == protocol_version)
        || (not (r.target_version == protocol_version)
            || (not (r.verification_version == protocol_version)
                || mode_is_unknown r.interaction_mode)))

abbrev pub is_auxiliary : Action → Bool
is_auxiliary (screenshot _) = true
is_auxiliary (application _ _) = true
is_auxiliary (window _ _ _) = true
is_auxiliary (open_target _ _ _) = true
is_auxiliary (clipboard_write _) = true
is_auxiliary _ = false

abbrev pub takes_coordinates : Action → Bool
takes_coordinates (click _ _ _) = true
takes_coordinates move = true
takes_coordinates (drag _ _) = true
takes_coordinates _ = false

abbrev pub is_drag : Action → Bool
is_drag (drag _ _) = true
is_drag _ = false

abbrev pub needs_element : Action → Bool
needs_element (select_text _ _) = true
needs_element (perform_secondary_action _) = true
needs_element _ = false

abbrev snapshot_id_is_invalid : TargetRef → Bool
snapshot_id_is_invalid (coordinates c) = not (valid_protocol_snapshot_id c.snapshot_id)
snapshot_id_is_invalid (element t) = not (valid_protocol_snapshot_id t.observation_id)
snapshot_id_is_invalid untargeted = false

-- The check of a drag's destination.
abbrev validate_destination : Action → Result (Unit {0})
validate_destination (drag (coordinates c) button) = do
  reject_if (not (target_provenance_is_valid (coordinates c))) "invalid drag destination provenance"
  reject_if (not (valid_protocol_snapshot_id c.snapshot_id)) "invalid drag destination snapshot ID"
validate_destination (drag to button) = do
  reject_if (not (target_provenance_is_valid to)) "invalid drag destination provenance"
  err (invalid_request "drag requires a fenced coordinate destination")
validate_destination _ = ok tt

module _ (env : Env) where
  abbrev value_hash_mismatch : Action → VerificationPolicy → Bool
  value_hash_mismatch (set_value value) (target_value_hash sha256) =
      not (semantic_hash sha256 && str_eq (env.sha256_hex value) sha256)
  value_hash_mismatch (set_value value) _ = true
  value_hash_mismatch _ (target_value_hash sha256) = true
  value_hash_mismatch _ _ = false

  unfoldable pub validate_request : ActionRequest → Result (Unit {0})
  validate_request r = do
    reject_if (versions_differ r) "unsupported protocol version"
    reject_if (not (valid_identifier r.operation_id)) "invalid operation_id"
    reject_if (not (valid_identifier r.subject)) "invalid subject"
    reject_if (not (valid_identifier r.session_id)) "invalid session_id"
    reject_if (is_untargeted r.target && not (is_auxiliary r.action)) "action requires a target"
    reject_if
        (is_auxiliary r.action
          && (not (is_untargeted r.target) || not (is_unverified r.verification)))
        "desktop action requires no target and no target verification"
    validate_action env r.action
    reject_if (is_coordinates r.target && not (takes_coordinates r.action))
        "coordinate targets support only click, move, and drag"
    reject_if (is_drag r.action && not (is_coordinates r.target))
        "drag requires a fenced coordinate target"
    reject_if (needs_element r.action && not (is_element r.target))
        "action requires a fenced semantic element target"
    validate_verification r.verification
    reject_if (value_hash_mismatch r.action r.verification) "invalid target value verification"
    reject_if
        (leb_ℤ r.deadline_at_ms (pos 0)
          || (not (len r.authority.signature == 128)
              || not (all is_ascii_hexdigit (codes r.authority.signature))))
        "invalid deadline or authority signature"
    reject_if (not (target_provenance_is_valid r.target)) "invalid target provenance"
    validate_destination r.action
    reject_if (snapshot_id_is_invalid r.target) "invalid snapshot ID"

  -- What `normalized_action_hash` serialises; the operation ID and the authority are left out.
  abbrev pub normalized : ActionRequest → NormalizedRequest
  normalized r = record {
    protocol_version = r.protocol_version;
    action_version = r.action_version;
    target_version = r.target_version;
    verification_version = r.verification_version;
    subject = r.subject;
    session_id = r.session_id;
    action = r.action;
    target = r.target;
    interaction_mode = r.interaction_mode;
    deadline_at_ms = r.deadline_at_ms;
    verification = r.verification;
    safety = r.safety;
  }

  unfoldable pub normalized_action_hash : ActionRequest → Result String
  normalized_action_hash r = do
    validate_verification r.verification
    env.canonical_hash (normalized r)
