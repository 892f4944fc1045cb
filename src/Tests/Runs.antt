-- ===== src/Tests/Runs.antt =====
-- The witnesses, and runs of the engine in the scripted environment.
use praefectus.Prelude.{◌≤◌, ◌≡◌, refl, true, false, none, some, pos, List, [], ◌∷◌}
use praefectus.Json.{null}
use praefectus.Json.Equality.{unsigned, value_eq}
use praefectus.Protocol.{
  ContextPreservation, DeliveryRoute, Observation, Receipt, ok, screenshot, target_state,
  unverified,
}
use praefectus.Journal.{complete, durable_len, last_newline, tail_of}
use praefectus.Journal.Lines.{IsCut, durable-IsCut}
use praefectus.Journal.Repair.{repair-torn}
use praefectus.Outcome.Verdict.{same_target}
use praefectus.Outcome.Verdict.Laws.{verified_same_target}
use praefectus.Outcome.Capability.Laws.{auxiliary_unavailable, granted-valid}
use praefectus.Validate.Request.Fences.{IsFenced, accepted-IsFenced}
use praefectus.Engine.Execute.{execute_batch}
use praefectus.Engine.Execute.Batch.{IsBatch, execute_batch-IsBatch}
use praefectus.Engine.Calls.{Call, after_calls, dispatches_once, execute_request}
use praefectus.Engine.Execute.{execute, run_request}
use praefectus.Engine.Gate.{announce, attempt_action, guard_context, observe_and_resolve}
use praefectus.Engine.Dispatch.{
  classify, completed, dispatch_effect, dispatch_now, full_receipt, judged, outcome_of, terminal_of,
}
use praefectus.Engine.Conclude.{
  conclude, context_preservation, finish_early, past_boundary, record_outcome, within_boundary,
}
use praefectus.Outcome.Capability.{find_fact, route_is_valid, strict_action_capability}
use praefectus.Outcome.Verdict.{verify}
use praefectus.Validate.Request.{normalized_action_hash, validate_request}
use praefectus.Validate.Identifiers.{target_provenance_is_valid, valid_identifier}
use praefectus.Validate.Parameters.{validate_action}
use praefectus.Validate.Json.{validate_verification}
use praefectus.Host.{
  ◌>>=◌, ask, attempt, call, gets, is_cancelled, lift, now_ms, perform, pure, raise,
}
use praefectus.Journal.{repair_jsonl_tail}
use praefectus.Protocol.Route.{name}
use praefectus.Host.Files.{
  change_file, acquire_ledger_lock, append_line, append_opened, records, repair_file, write_line,
}
use praefectus.Ledger.{
  append, claim_operation, finish, finish_after_effect, repair_tail, scan, trajectory,
}
use praefectus.Tests.Codec.{encode}
use praefectus.Engine.Once.{count}
use praefectus.Tests.Script.{
  delivered, desktop, focused, launch_run, launching, offered, launch, script, script-IsCodec,
  start,
}

abbrev twice : List Call
twice = execute_request launch ∷ execute_request launch ∷ []

-- The first of the two calls does dispatch.
launch_dispatches : (after_calls (execute_request launch ∷ []) start).dispatches ≡ "op" ∷ []
unfolding after_calls execute run_request attempt_action observe_and_resolve announce guard_context
    dispatch_now dispatch_effect classify completed outcome_of judged terminal_of verify conclude
    record_outcome finish_early within_boundary past_boundary context_preservation
    strict_action_capability find_fact route_is_valid validate_request valid_identifier
    validate_action validate_verification target_provenance_is_valid normalized_action_hash ◌>>=◌
    lift call ask perform gets pure attempt now_ms is_cancelled raise acquire_ledger_lock
    repair_tail repair_file claim_operation records scan append append_line append_opened write_line
    finish trajectory encode change_file name finish_after_effect repair_jsonl_tail
launch_dispatches = refl

dispatches_once_example : count "op" (after_calls twice start).dispatches ≤ 1
dispatches_once_example = dispatches_once script-IsCodec twice start "op" refl

abbrev launched : Receipt
launched =
    full_receipt launch_run DeliveryRoute.pointer (pos 1) (pos 1) delivered
      ContextPreservation.not_applicable desktop (ok desktop)
      (judged false ContextPreservation.not_applicable
        (verify unverified desktop (some desktop) none))

repair-torn_example :
    repair_jsonl_tail (λ l. true) "bad" (some (b'{' ∷ b'\n' ∷ b'{' ∷ []))
    ≡ ok (some (b'{' ∷ b'\n' ∷ []))
unfolding tail_of complete
repair-torn_example = repair-torn (λ l. true) "bad" (b'{' ∷ b'\n' ∷ []) (b'{' ∷ []) refl refl refl

durable-IsCut_example : IsCut (b'{' ∷ b'\n' ∷ b'{' ∷ []) (b'{' ∷ b'\n' ∷ [])
unfolding durable_len last_newline
durable-IsCut_example = durable-IsCut (b'{' ∷ b'\n' ∷ b'{' ∷ [])

accepted-IsFenced_example : (valid_identifier "op" ≡ true) × IsFenced launch
unfolding validate_request valid_identifier validate_action validate_verification
    target_provenance_is_valid
accepted-IsFenced_example = accepted-IsFenced script launch refl

verified_same_target_example :
    (o : Observation) × ((some focused ≡ some o)
      × ((unsigned o.state ≡ unsigned null)
          × (same_target focused.evidence o.evidence (some "f") ≡ true)))
unfolding verify value_eq
verified_same_target_example =
    verified_same_target (target_state null) focused (some focused) (some "f") refl

granted-valid_example : (route_is_valid launching ≡ true) × ("application" ≡ name launch.action)
unfolding strict_action_capability name route_is_valid find_fact
granted-valid_example = granted-valid offered launch.action launching refl

auxiliary_unavailable_example : strict_action_capability offered (screenshot "out.png") ≡ none
auxiliary_unavailable_example = auxiliary_unavailable offered (screenshot "out.png") refl refl

execute_batch-IsBatch_example :
    IsBatch (launch ∷ launch ∷ []) start (execute_batch (launch ∷ launch ∷ []) start)
execute_batch-IsBatch_example = execute_batch-IsBatch (launch ∷ launch ∷ []) start
