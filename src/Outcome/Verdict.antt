-- ===== src/Outcome/Verdict.antt =====
-- `verify`, `protocol_failure` and `dispatch_message` of src/lib.rs.
pub mod Laws
use praefectus.Prelude.{
  Bool, true, false, not, ◌&&◌, String, Option, none, some, List, [], ◌∷◌, str_eq, if◌then◌else◌,
}
use praefectus.Json.{Value, get, as_str}
use praefectus.Json.Equality.{value_eq}
use praefectus.Protocol.{
  DispatchError, Effect, EffectKnowledge, Evidence, FailureCode, Observation, ProtocolError,
  Terminal, VerificationPolicy, executed_unverified, verified, unverified, snapshot_changed,
  target_state, target_value_hash, cancelled_before_effect, expired_before_effect, rejected, failed,
  invalid_request, authority_denied, stale_target, target_not_found, observation_cancelled,
  observation_expired,
}

abbrev pub option_str_eq : Option String → Option String → Bool
option_str_eq none none = true
option_str_eq (some s) (some t) = str_eq s t
option_str_eq _ _ = false

abbrev is_present : Option String → Bool
is_present none = false
is_present (some _) = true

-- The evidence before and after is of the expected target, on one display geometry.
abbrev pub same_target : Evidence → Evidence → Option String → Bool
same_target before after expected =
    is_present before.target_fingerprint_hash
    && (option_str_eq before.target_fingerprint_hash after.target_fingerprint_hash
        && (option_str_eq before.target_fingerprint_hash expected
            && str_eq before.display_geometry_hash after.display_geometry_hash))

abbrev unproven : String → Effect × List String
unproven warning = (executed_unverified, warning ∷ [])

unfoldable pub verify :
    VerificationPolicy → Observation → Option Observation → Option String → Effect × List String
verify unverified before after expected = unproven "post-action verification was not requested"
verify snapshot_changed before none expected = unproven "post-action observation failed"
verify (target_state value) before none expected = unproven "post-action observation failed"
verify (target_value_hash sha256) before none expected = unproven "post-action observation failed"
verify snapshot_changed before (some after) expected =
    if not (str_eq before.evidence.observation_hash after.evidence.observation_hash)
    then unproven "post-action observation changed but does not verify the requested effect"
    else unproven "post-action observation did not change"
verify (target_value_hash sha256) before (some after) expected =
    if option_str_eq (as_str (get "value_hash" after.state)) (some sha256)
      && same_target before.evidence after.evidence expected
    then (verified, [])
    else unproven "target value hash did not match the expected value"
verify (target_state value) before (some after) expected =
    if value_eq after.state value && same_target before.evidence after.evidence expected
    then (verified, [])
    else unproven "target state did not match the expected value"

unfoldable pub protocol_failure : ProtocolError → Terminal
protocol_failure observation_cancelled = cancelled_before_effect
protocol_failure observation_expired = expired_before_effect
protocol_failure (stale_target _) = rejected FailureCode.stale_target "stale target"
protocol_failure (target_not_found _) = rejected FailureCode.target_not_found "target not found"
protocol_failure (invalid_request _) = rejected FailureCode.invalid_request "invalid request"
protocol_failure authority_denied = failed FailureCode.dispatch_failed "authority denied"
protocol_failure _ = failed FailureCode.dispatch_failed "executor failed"

unfoldable pub dispatch_message : EffectKnowledge → String
dispatch_message EffectKnowledge.unknown = "the action outcome is unknown"
dispatch_message EffectKnowledge.no_effect = "the action was not dispatched"
dispatch_message EffectKnowledge.cancelled_before_effect =
    "the action was cancelled before dispatch"
dispatch_message EffectKnowledge.expired_before_effect = "the action expired before dispatch"
