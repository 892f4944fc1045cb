-- ===== src/Engine/Dispatch.antt =====
-- The dispatch in `Engine::execute` of src/lib.rs, and the terminal that its result leads to.
pub mod Judged
pub mod Refused
pub mod Success
use praefectus.Prelude.{
  ℤ, Bool, true, false, not, ◌&&◌, ◌||◌, String, Option, none, some, List, [], ◌∷◌, ◌++◌, leb_ℤ,
  if◌then◌else◌,
}
use praefectus.Protocol.{
  Action, ContextPreservation, DeliveryRoute, DispatchError, DispatchReceipt, Effect,
  EffectKnowledge, Evidence, ExecuteReport, Observation, ProtocolError, Receipt, ResolvedTarget,
  Result, TargetRef, Terminal, ok, err, element, observation_cancelled, observation_expired,
  outcome_unknown, protocol_version, rejected, succeeded, effect_is_unknown, effect_is_verified,
  is_unverified,
}
use praefectus.Protocol
use praefectus.Protocol.Route.{name}
use praefectus.Host.{
  Dispatched, Env, Exec, attempt, call, done, is_cancelled, now_ms, pure, refused, ◌>>=◌,
}
use praefectus.Outcome.Acks.{empty_receipt}
use praefectus.Outcome.Verdict.{dispatch_message, verify}
use praefectus.Engine.Conclude.{Run, conclude, context_preservation, past_boundary}

abbrev pub boundary_message : String
boundary_message = "action completed at the cancellation or deadline boundary"

abbrev pub expected_fingerprint : TargetRef → Option String
expected_fingerprint (element t) = some t.fingerprint_hash
expected_fingerprint _ = none

abbrev pub ok_of : Result Observation → Option Observation
ok_of (ok o) = some o
ok_of (err e) = none

abbrev pub evidence_of : Result Observation → Option Evidence
evidence_of (ok o) = some o.evidence
evidence_of (err e) = none

abbrev pub is_boundary_error : Result Observation → Bool
is_boundary_error (err observation_cancelled) = true
is_boundary_error (err observation_expired) = true
is_boundary_error _ = false

abbrev pub context_is_lost : ContextPreservation → Bool
context_is_lost ContextPreservation.changed = true
context_is_lost ContextPreservation.unavailable = true
context_is_lost _ = false

-- The effect and the warnings, lowered at a boundary and where the context is lost.
abbrev pub lower : Bool → String → Effect × List String → Effect × List String
lower true warning (effect, warnings) = (Effect.unknown, warnings ++ warning ∷ [])
lower false warning found = found

unfoldable pub judged : Bool → ContextPreservation → Effect × List String → Effect × List String
judged at_boundary context found =
    lower (context_is_lost context) "shared desktop context preservation is unknown"
      (lower at_boundary boundary_message found)

abbrev pub unknown_reason : Bool → ContextPreservation → String
unknown_reason at_boundary context =
    if at_boundary
    then boundary_message
    else if context_is_lost context
    then "action result or shared desktop context preservation could not be proven"
    else "action dispatched but requested verification failed"

unfoldable pub terminal_of : Run → Bool → Receipt → Terminal
terminal_of run at_boundary receipt =
    if not (effect_is_unknown receipt.effect)
      && (is_unverified run.request.verification || effect_is_verified receipt.effect)
    then succeeded receipt
    else outcome_unknown receipt (unknown_reason at_boundary receipt.context_preservation)

abbrev pub full_receipt :
    Run
    → DeliveryRoute
    → ℤ
    → ℤ
    → DispatchReceipt
    → ContextPreservation
    → Observation
    → Result Observation
    → Effect × List String
    → Receipt
full_receipt run route started finished d context before after (effect, warnings) = record {
  protocol_version = protocol_version;
  action_name = name run.request.action;
  action_hash = run.action_hash;
  started_at_ms = started;
  finished_at_ms = finished;
  backend = d.backend;
  fallback_chain = d.fallback_chain;
  delivery_route = route;
  session_isolation = run.session_isolation;
  interaction_mode = run.request.interaction_mode;
  context_preservation = context;
  effect = effect;
  before = some before.evidence;
  after = evidence_of after;
  warnings = warnings;
}

-- The verdict on what was observed, its receipt and its terminal. `boundary` says that the run went
-- past its boundary after the dispatch.
unfoldable pub outcome_of :
    Run
    → DeliveryRoute
    → ℤ
    → ℤ
    → DispatchReceipt
    → ContextPreservation
    → Observation
    → Result Observation
    → Bool
    → Terminal
unfolding judged terminal_of
outcome_of run route started finished d context before after boundary = terminal_of run boundary (
    full_receipt run route started finished d context before after (
      judged boundary context (
        verify run.request.verification before (ok_of after)
          (expected_fingerprint run.request.target))))

module _ {env : Env} where
  -- The receipt of an effect that is not known, as far as the two branches share it.
  unfoldable pub unknown_receipt : Run → ℤ → Observation → Option String → Exec env Receipt
  unknown_receipt run started before context_before = do
    t ← now_ms
    u ← now_ms
    finished ← now_ms
    context ← context_preservation run context_before
    pure
        (record (empty_receipt env.macos run.request run.action_hash Effect.unknown
          run.session_isolation t u) {
            started_at_ms = started;
            finished_at_ms = finished;
            before = some before.evidence;
            context_preservation = context;
          })

  unfoldable pub at_boundary :
      Run → ℤ → Observation → Option String → DispatchReceipt → Exec env (Terminal × Bool)
  unfolding unknown_receipt
  at_boundary run started before context_before d = do
    receipt ← unknown_receipt run started before context_before
    pure (
      outcome_unknown (record receipt { backend = d.backend; fallback_chain = d.fallback_chain })
          boundary_message,
      true,
    )

  unfoldable pub completed :
      Run
      → DeliveryRoute
      → ℤ
      → Observation
      → Option String
      → DispatchReceipt
      → Exec env (Terminal × Bool)
  unfolding outcome_of
  completed run route started before context_before d = do
    context ← context_preservation run context_before
    after ← attempt (call (env.observe run.request.target run.effect_deadline_at_ms))
    late ← past_boundary run.effect_deadline_at_ms
    finished ← now_ms
    pure (
      outcome_of run route started finished d context before after
          (late || is_boundary_error after),
      true,
    )

  abbrev pub unless_late : Run → DispatchError → Exec env (Terminal × Bool)
  unless_late run e = do
    now ← now_ms
    if leb_ℤ run.effect_deadline_at_ms now
        then pure (Protocol.expired_before_effect, false)
        else pure (rejected e.code (dispatch_message e.effect), false)

  abbrev pub unless_cancelled : Run → DispatchError → Bool → Exec env (Terminal × Bool)
  unless_cancelled run e true = pure (Protocol.cancelled_before_effect, false)
  unless_cancelled run e false = unless_late run e

  abbrev pub refusal :
      Run
      → ℤ
      → Observation
      → Option String
      → DispatchError
      → EffectKnowledge
      → Exec env (Terminal × Bool)
  refusal run started before context_before e EffectKnowledge.unknown = do
    receipt ← unknown_receipt run started before context_before
    pure (outcome_unknown receipt (dispatch_message e.effect), true)
  refusal run started before context_before e EffectKnowledge.cancelled_before_effect =
      pure (Protocol.cancelled_before_effect, false)
  refusal run started before context_before e EffectKnowledge.expired_before_effect =
      pure (Protocol.expired_before_effect, false)
  refusal run started before context_before e EffectKnowledge.no_effect =
      is_cancelled >>= unless_cancelled run e

  abbrev pub receipt_of :
      Run
      → DeliveryRoute
      → ℤ
      → Observation
      → Option String
      → DispatchReceipt
      → Bool
      → Exec env (Terminal × Bool)
  receipt_of run route started before context_before d true =
      at_boundary run started before context_before d
  receipt_of run route started before context_before d false =
      completed run route started before context_before d

  -- The match on the result of the dispatch: the terminal, and whether an effect may have occurred.
  unfoldable pub classify :
      Run
      → DeliveryRoute
      → ℤ
      → Observation
      → Option String
      → Dispatched
      → Exec env (Terminal × Bool)
  unfolding at_boundary completed
  classify run route started before context_before (done d) =
      past_boundary run.effect_deadline_at_ms
      >>= receipt_of run route started before context_before d
  classify run route started before context_before (refused e) =
      refusal run started before context_before e e.effect

  -- The only call of `Executor::dispatch`.
  unfoldable pub dispatch_effect : Run → ResolvedTarget → Exec env Dispatched
  dispatch_effect run target s =
      let (d, w) =
        env.dispatch run.request.action target run.request.verification run.effect_deadline_at_ms
          s.world in
      (ok d, record s { world = w; dispatches = run.request.operation_id ∷ s.dispatches })

  unfoldable pub dispatch_now :
      Run → DeliveryRoute → Observation → ResolvedTarget → Option String → Exec env ExecuteReport
  unfolding classify
  dispatch_now run route before target context_before = do
    started ← now_ms
    d ← dispatch_effect run target
    found ← classify run route started before context_before d
    conclude run found
