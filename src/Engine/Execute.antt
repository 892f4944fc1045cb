-- ===== src/Engine/Execute.antt =====
-- `Engine::execute`, `Engine::execute_batch` and `Engine::status` of src/lib.rs.
pub mod Batch
use praefectus.Prelude.{
  Bool, true, false, String, Option, some, List, [], ◌∷◌, min_ℤ, unwrap_or, if◌then◌else◌,
}
use praefectus.Protocol.{
  ActionAck, ActionRequest, AckState, DeliveryRoute, Effect, ExecuteReport, InteractionMode,
  LedgerDecision, Receipt, Result, SessionIsolation, Terminal, ok, err, dispatch, recorded,
  interrupted, invalid_request, outcome_unknown, succeeded, terminal, effect_is_verified,
}
use praefectus.Host.{Env, Exec, State, ask, call, lift, now_ms, pure, raise, ◌>>=◌, ◌>>◌}
use praefectus.Host.Files.{acquire_ledger_lock}
use praefectus.Validate.Identifiers.{valid_identifier}
use praefectus.Validate.Request.{normalized_action_hash, validate_request}
use praefectus.Ledger
use praefectus.Ledger.{
  ClaimResult, claim_operation, finish, new, reconcile_interrupted, recovered_unknown, repair_tail,
  replay,
}
use praefectus.Outcome.Acks.{empty_receipt, interrupted_outcome_message}
use praefectus.Engine.Conclude.{Run, accepted_ack, ended, outcome_key, report}
use praefectus.Engine.Gate.{attempt_action}

-- A recovered claim asks the outcome ledger, and is never dispatched.
abbrev pub recovered_terminal : Receipt → LedgerDecision → Terminal
recovered_terminal receipt (recorded t) = t
recovered_terminal receipt _ = outcome_unknown receipt interrupted_outcome_message

module _ {env : Env} where
  -- The receipt of an interrupted operation, with two readings of the clock.
  abbrev pub interrupted_receipt : Run → SessionIsolation → Exec env Receipt
  interrupted_receipt run isolation = do
    started ← now_ms
    finished ← now_ms
    pure (
        empty_receipt env.macos run.request run.action_hash Effect.unknown isolation started
          finished)

  abbrev pub settle : Run → Terminal → Exec env ExecuteReport
  settle run t = do finish (ended run t); pure (report (accepted_ack run ∷ ended run t ∷ []))

  abbrev pub after_begin : Run → LedgerDecision → Exec env ExecuteReport
  after_begin run dispatch = attempt_action run
  after_begin run (recorded t) = settle run t
  after_begin run interrupted = do
    receipt ← interrupted_receipt run run.session_isolation
    settle run (outcome_unknown receipt interrupted_outcome_message)

  abbrev pub after_claim : Run → ClaimResult → Exec env ExecuteReport
  after_claim run (replay a) = do
    b ← reconcile_interrupted a
    pure (report (record b { replayed = true } ∷ []))
  after_claim run (recovered_unknown action_name route isolation mode) = do
    r ← interrupted_receipt run (unwrap_or isolation SessionIsolation.unknown)
    let receipt = record r {
      action_name = unwrap_or action_name "unknown";
      delivery_route = unwrap_or route DeliveryRoute.unknown;
      interaction_mode = unwrap_or mode InteractionMode.unknown;
    }
    d ← call (env.begin (outcome_key run))
    finish (ended run (recovered_terminal receipt d))
    pure (report (ended run (recovered_terminal receipt d) ∷ []))
  after_claim run new = call (env.begin (outcome_key run)) >>= after_begin run

  unfoldable pub run_request : Run → Exec env ExecuteReport
  run_request run = do
    acquire_ledger_lock (some run.effect_deadline_at_ms)
    repair_tail
    found ← claim_operation run.request run.action_hash run.session_isolation
    after_claim run found

  unfoldable pub execute : ActionRequest → Exec env ExecuteReport
  unfolding run_request
  execute request = do
    lift (validate_request env request)
    action_hash ← lift (normalized_action_hash env request)
    authority ← call (env.verify_authority request action_hash)
    isolation ← ask env.session_isolation
    run_request (record {
      request = request;
      action_hash = action_hash;
      effect_deadline_at_ms = min_ℤ request.deadline_at_ms authority.expires_at_ms;
      session_isolation = isolation;
    })

-- The test of `execute_batch` on the last acknowledgement.
abbrev pub is_verified : AckState → Bool
is_verified (terminal (succeeded receipt)) = effect_is_verified receipt.effect
is_verified _ = false

abbrev pub last_is_verified : List ActionAck → Bool
last_is_verified [] = false
last_is_verified (a ∷ []) = is_verified a.state
last_is_verified (a ∷ b ∷ acks) = last_is_verified (b ∷ acks)

abbrev pub result_is_verified : Result ExecuteReport → Bool
result_is_verified (ok r) = last_is_verified r.acknowledgements
result_is_verified (err e) = false

module _ {env : Env} where
  -- An error of one request is an entry of the result.
  unfoldable pub execute_batch :
      List ActionRequest → State env → List (Result ExecuteReport) × State env
  unfolding execute
  execute_batch [] s = ([], s)
  execute_batch (request ∷ requests) s =
      let (r, t) = execute request s in
      let (rest, u) = execute_batch requests t in
      if result_is_verified r then (r ∷ rest, u) else (r ∷ [], t)

  unfoldable pub status : String → Exec env (Option ActionAck)
  unfolding Ledger.status
  status operation_id =
      if valid_identifier operation_id
      then Ledger.status operation_id
      else raise (invalid_request "invalid operation_id")
