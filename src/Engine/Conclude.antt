-- ===== src/Engine/Conclude.antt =====
-- The ends of `Engine::execute` in src/lib.rs: `finish_early`, `record_outcome`,
-- `context_preservation`, the tests of the cancellation and the deadline, and the last lines.
use praefectus.Prelude.{
  ℤ, Bool, true, false, String, Option, none, some, List, [], ◌∷◌, str_eq, leb_ℤ, not,
  if◌then◌else◌,
}
use praefectus.Protocol.{
  ActionAck, ActionRequest, AckState, ContextPreservation, ExecuteReport, InteractionMode,
  OutcomeKey, Result, SessionIsolation, Terminal, ok, err, accepted, executing, isolation_is_host,
  mode_is_background_only,
}
use praefectus.Protocol
use praefectus.Host.{Env, Exec, attempt, call, is_cancelled, now_ms, pure, ◌>>=◌, ◌>>◌}
use praefectus.Ledger.{finish, finish_after_effect}
use praefectus.Outcome.Acks.{ack, persistence_unknown_ack, terminal_ack}

-- What every later step of one run shares.
pub record Run : Type 0 where
  pub request : ActionRequest
  pub action_hash : String
  pub effect_deadline_at_ms : ℤ
  pub session_isolation : SessionIsolation

abbrev pub outcome_key : Run → OutcomeKey
outcome_key run = record { operation_id = run.request.operation_id; action_hash = run.action_hash }

abbrev pub accepted_ack : Run → ActionAck
accepted_ack run = ack run.request run.action_hash 0 accepted false

abbrev pub executing_ack : Run → ActionAck
executing_ack run = ack run.request run.action_hash 1 executing false

abbrev pub ended : Run → Terminal → ActionAck
ended run t = terminal_ack run.request run.action_hash t false

abbrev pub report : List ActionAck → ExecuteReport
report acks = record { acknowledgements = acks }

abbrev pub compare_context : String → Result String → ContextPreservation
compare_context before (ok after) =
    if str_eq after before
    then ContextPreservation.unchanged_at_boundaries
    else ContextPreservation.changed
compare_context before (err e) = ContextPreservation.unavailable

abbrev pub recorded_or_unknown : ActionAck → Result (Unit {0}) → ActionAck
recorded_or_unknown a (ok done) = a
recorded_or_unknown a (err e) = persistence_unknown_ack a

module _ {env : Env} where
  abbrev pub record_state : OutcomeKey → AckState → Exec env (Unit {0})
  record_state key (Protocol.terminal t) = call (env.record_terminal key t)
  record_state key _ = pure tt

  unfoldable pub record_outcome : OutcomeKey → ActionAck → Exec env (Unit {0})
  record_outcome key a = record_state key a.state

  unfoldable pub finish_early : Run → Terminal → Exec env ExecuteReport
  unfolding record_outcome
  finish_early run t = do
    record_outcome (outcome_key run) (ended run t)
    finish (ended run t)
    pure (report (accepted_ack run ∷ ended run t ∷ []))

  -- `cancellation.is_cancelled() || now_ms() >= deadline`.
  abbrev pub or_late : Bool → ℤ → Exec env Bool
  or_late true deadline = pure true
  or_late false deadline = do now ← now_ms; pure (leb_ℤ deadline now)

  unfoldable pub past_boundary : ℤ → Exec env Bool
  past_boundary deadline = do cancelled ← is_cancelled; or_late cancelled deadline

  -- The two early returns before the effect.
  abbrev pub unless_late : Run → Exec env ExecuteReport → Bool → Exec env ExecuteReport
  unless_late run next true = finish_early run Protocol.expired_before_effect
  unless_late run next false = next

  abbrev pub unless_cancelled : Run → Exec env ExecuteReport → Bool → Exec env ExecuteReport
  unless_cancelled run next true = finish_early run Protocol.cancelled_before_effect
  unless_cancelled run next false = do
    now ← now_ms
    unless_late run next (leb_ℤ run.effect_deadline_at_ms now)

  unfoldable pub within_boundary : Run → Exec env ExecuteReport → Exec env ExecuteReport
  unfolding finish_early
  within_boundary run next = is_cancelled >>= unless_cancelled run next

  abbrev pub preserved_from : ℤ → Option String → Exec env ContextPreservation
  preserved_from deadline none = pure ContextPreservation.unavailable
  preserved_from deadline (some before) = do
    after ← attempt (call (env.shared_desktop_context_hash deadline))
    pure (compare_context before after)

  unfoldable pub context_preservation : Run → Option String → Exec env ContextPreservation
  context_preservation run before =
      if not (mode_is_background_only run.request.interaction_mode)
      then pure ContextPreservation.not_applicable
      else if isolation_is_host run.session_isolation
      then pure ContextPreservation.host_isolated
      else preserved_from run.effect_deadline_at_ms before

  -- The second part says that the effect may have occurred.
  abbrev pub conclude_with : Run → Terminal → Bool → Exec env ActionAck
  conclude_with run t true = do
    recorded ← attempt (record_outcome (outcome_key run) (ended run t))
    finish_after_effect (recorded_or_unknown (ended run t) recorded)
  conclude_with run t false = do
    record_outcome (outcome_key run) (ended run t)
    finish (ended run t)
    pure (ended run t)

  unfoldable pub conclude : Run → Terminal × Bool → Exec env ExecuteReport
  conclude run (t, effect_may_have_occurred) = do
    a ← conclude_with run t effect_may_have_occurred
    pure (report (accepted_ack run ∷ executing_ack run ∷ a ∷ []))
