-- ===== src/Engine/Gate.antt =====
-- What `Engine::execute` of src/lib.rs does between the grant of the outcome ledger and the dispatch:
-- capabilities, the observation before the effect, the resolution of the target, and the guard of the
-- shared desktop's context.
use praefectus.Prelude.{not, ◌&&◌, String, Option, none, some, if◌then◌else◌}
use praefectus.Protocol.{
  ActionCapability, Capabilities, DeliveryRoute, ExecuteReport, FailureCode, Observation,
  ProtocolError, ResolvedTarget, Result, Terminal, ok, err, isolation_is_shared,
  isolation_is_unknown, mode_is_background_only, observation_cancelled, observation_expired,
  rejected,
}
use praefectus.Protocol
use praefectus.Host.{Env, Exec, attempt, call, ◌>>=◌, ◌>>◌}
use praefectus.Ledger.{trajectory}
use praefectus.Outcome.Capability.{background_capability_is_authorized, strict_action_capability}
use praefectus.Outcome.Verdict.{protocol_failure}
use praefectus.Engine.Conclude.{Run, accepted_ack, executing_ack, finish_early, within_boundary}
use praefectus.Engine.Dispatch.{dispatch_now}

abbrev pub unsupported : String → Terminal
unsupported message = rejected FailureCode.unsupported message

abbrev pub isolation_message : String
isolation_message = "runtime session isolation is unknown"

abbrev pub facts_message : String
facts_message = "runtime action capability facts are missing or inconsistent"

abbrev pub background_message : String
background_message =
    "background action is unavailable for this delivery route and session isolation"

abbrev pub context_message : String
context_message = "shared desktop context cannot be guarded"

module _ {env : Env} where
  abbrev pub with_context :
      Run → DeliveryRoute → Observation → ResolvedTarget → Result String → Exec env ExecuteReport
  with_context run route before target (ok context) =
      dispatch_now run route before target (some context)
  with_context run route before target (err observation_cancelled) =
      finish_early run Protocol.cancelled_before_effect
  with_context run route before target (err observation_expired) =
      finish_early run Protocol.expired_before_effect
  with_context run route before target (err e) = finish_early run (unsupported context_message)

  unfoldable pub guard_context :
      Run → DeliveryRoute → Observation → ResolvedTarget → Exec env ExecuteReport
  guard_context run route before target =
      if mode_is_background_only run.request.interaction_mode
        && isolation_is_shared run.session_isolation
      then attempt (call (env.shared_desktop_context_hash run.effect_deadline_at_ms))
        >>= with_context run route before target
      else dispatch_now run route before target none

  unfoldable pub announce :
      Run → DeliveryRoute → Observation → ResolvedTarget → Exec env ExecuteReport
  unfolding guard_context
  announce run route before target = do
    attempt (trajectory (executing_ack run))
    within_boundary run (guard_context run route before target)

  abbrev pub with_target :
      Run → DeliveryRoute → Observation → Result ResolvedTarget → Exec env ExecuteReport
  with_target run route before (ok target) = announce run route before target
  with_target run route before (err e) = finish_early run (protocol_failure e)

  abbrev pub with_observation : Run → DeliveryRoute → Result Observation → Exec env ExecuteReport
  with_observation run route (ok before) =
      attempt (call (env.resolve run.request.target run.effect_deadline_at_ms))
      >>= with_target run route before
  with_observation run route (err e) = finish_early run (protocol_failure e)

  unfoldable pub observe_and_resolve : Run → DeliveryRoute → Exec env ExecuteReport
  unfolding announce
  observe_and_resolve run route =
      attempt (call (env.observe run.request.target run.effect_deadline_at_ms))
      >>= with_observation run route

  abbrev pub with_capability : Run → Option ActionCapability → Exec env ExecuteReport
  with_capability run none = finish_early run (unsupported facts_message)
  with_capability run (some capability) =
      if mode_is_background_only run.request.interaction_mode
        && not (background_capability_is_authorized capability run.session_isolation)
      then finish_early run (unsupported background_message)
      else observe_and_resolve run capability.delivery_route

  abbrev pub with_capabilities : Run → Result Capabilities → Exec env ExecuteReport
  with_capabilities run (ok capabilities) =
      with_capability run (strict_action_capability capabilities run.request.action)
  with_capabilities run (err e) = finish_early run (protocol_failure e)

  abbrev pub check_capabilities : Run → Exec env ExecuteReport
  check_capabilities run =
      if isolation_is_unknown run.session_isolation
      then finish_early run (unsupported isolation_message)
      else attempt (call env.capabilities) >>= λ capabilities.
          within_boundary run (with_capabilities run capabilities)

  unfoldable pub attempt_action : Run → Exec env ExecuteReport
  unfolding observe_and_resolve
  attempt_action run = do
    attempt (trajectory (accepted_ack run))
    within_boundary run (check_capabilities run)
