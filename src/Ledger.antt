-- ===== src/Ledger.antt =====
-- `OperationLedger` of src/lib.rs over the ledger file: claiming an operation, recording terminals
-- and their trajectory, and reconciling what a host's outcome ledger knows.
pub mod Frame
pub mod Claims
pub mod Durable
use praefectus.Prelude.{
  ℤ, Bool, true, false, not, String, Option, none, some, List, [], ◌∷◌, str_eq, is_some,
  if◌then◌else◌,
}
use praefectus.Journal.{Bytes}
use praefectus.Protocol.{
  ActionAck, ActionRequest, AckState, DeliveryRoute, InteractionMode, LedgerDecision, OutcomeKey,
  Result, SessionIsolation, ok, err, conflict, invalid_request, recorded,
}
use praefectus.Protocol
use praefectus.Protocol.Route.{name, claim_delivery_route}
use praefectus.Host.{
  Claim, Env, Exec, LedgerRecord, claim, terminal, pure, raise, lift, attempt, call, perform,
  now_ms, private_storage, ensure_directory, TrajectoryLine, ◌>>=◌, ◌>>◌,
}
use praefectus.Host.Files.{
  operations, trajectory_log, acquire_ledger_lock, append_line, append_opened, records, repair_file,
}
use praefectus.Outcome.Acks.{
  generate_interrupted_ack, is_interrupted, persistence_unknown_ack, terminal_kind,
}

pub data ClaimResult : Type 0 where
  new : ClaimResult
  replay : ActionAck → ClaimResult
  recovered_unknown :
      Option String
      → Option DeliveryRoute
      → Option SessionIsolation
      → Option InteractionMode
      → ClaimResult

-- The last claim and the last terminal of one operation.
abbrev scan_step :
    String → LedgerRecord → Option Claim × Option ActionAck → Option Claim × Option ActionAck
scan_step op (claim c) (claimed, ended) =
    (if str_eq c.operation_id op then some c else claimed, ended)
scan_step op (terminal a) (claimed, ended) =
    (claimed, if str_eq a.operation_id op then some a else ended)

unfoldable pub scan :
    String → Option Claim × Option ActionAck → List LedgerRecord → Option Claim × Option ActionAck
scan op found [] = found
scan op found (r ∷ rs) = scan op (scan_step op r found) rs

abbrev pub parses : (env : Env) → Bytes → Bool
parses env line = is_some (env.decode_record line)

abbrev trajectory_line : Env → ActionAck → ℤ → TrajectoryLine
trajectory_line env a now = record {
  protocol_version = a.protocol_version;
  operation_id_hash = env.sha256_hex a.operation_id;
  action_hash = a.action_hash;
  sequence = a.sequence;
  state = terminal_kind a.state;
  recorded_at_ms = now;
}

abbrev new_claim : Env → ActionRequest → String → SessionIsolation → ℤ → Claim
new_claim env r action_hash isolation now = record {
  operation_id = r.operation_id;
  action_hash = action_hash;
  claimed_at_ms = now;
  action_name = some (name r.action);
  delivery_route = some (claim_delivery_route env.macos r.action r.target);
  session_isolation = some isolation;
  interaction_mode = some r.interaction_mode;
}

abbrev known_claim : Claim → Option ActionAck → ClaimResult
known_claim c none =
    recovered_unknown c.action_name c.delivery_route c.session_isolation c.interaction_mode
known_claim c (some a) = replay a

abbrev key_of : ActionAck → OutcomeKey
key_of a = record { operation_id = a.operation_id; action_hash = a.action_hash }

abbrev resolve_recorded : ActionAck → LedgerDecision → ActionAck
resolve_recorded a (recorded t) = record a { state = Protocol.terminal t }
resolve_recorded a _ = a

module _ {env : Env} where
  unfoldable pub repair_tail : Exec env (Unit {0})
  repair_tail = repair_file operations (parses env) "ledger contains an invalid non-terminal record"

  unfoldable pub append : LedgerRecord → Exec env (Unit {0})
  append r = append_line operations (env.encode_record r)

  unfoldable pub trajectory : ActionAck → Exec env (Unit {0})
  trajectory a = do
    perform private_storage
    acquire_ledger_lock none
    perform ensure_directory
    repair_file trajectory_log env.is_json "trajectory contains an invalid non-terminal record"
    now ← now_ms
    append_opened trajectory_log (env.encode_trajectory (trajectory_line env a now))

  -- A failure of the trajectory is ignored.
  unfoldable pub finish : ActionAck → Exec env (Unit {0})
  unfolding append trajectory
  finish a = do append (terminal a); attempt (trajectory a); pure tt

  abbrev settle_claim :
      ActionRequest
      → String
      → SessionIsolation
      → Option Claim × Option ActionAck
      → Exec env ClaimResult
  settle_claim r action_hash isolation (none, ended) = do
    now ← now_ms
    append (claim (new_claim env r action_hash isolation now))
    pure new
  settle_claim r action_hash isolation (some c, ended) =
      if not (str_eq c.action_hash action_hash) then raise conflict else pure (known_claim c ended)

  unfoldable pub claim_operation : ActionRequest → String → SessionIsolation → Exec env ClaimResult
  unfolding append
  claim_operation r action_hash isolation = do
    rs ← records
    settle_claim r action_hash isolation (scan r.operation_id (none, none) rs)

  abbrev finish_again : ActionAck → Result (Unit {0}) → Exec env ActionAck
  finish_again a (ok done) = pure a
  finish_again a (err e) = do
    attempt (do repair_tail; finish (persistence_unknown_ack a))
    pure (persistence_unknown_ack a)

  unfoldable pub finish_after_effect : ActionAck → Exec env ActionAck
  unfolding finish repair_tail
  finish_after_effect a = attempt (finish a) >>= finish_again a

  abbrev take_recorded : ActionAck → LedgerDecision → Exec env ActionAck
  take_recorded a (recorded t) = do
    let b = record a { state = Protocol.terminal t }
    finish b
    pure b
  take_recorded a _ = pure a

  -- The acknowledgement after the reconciliation.
  unfoldable pub reconcile_interrupted : ActionAck → Exec env ActionAck
  unfolding finish
  reconcile_interrupted a =
      if is_interrupted a.state then call (env.begin (key_of a)) >>= take_recorded a else pure a

  abbrev report_status : String → Option Claim × Option ActionAck → Exec env (Option ActionAck)
  report_status op (claimed, some a) = do b ← reconcile_interrupted a; pure (some b)
  report_status op (none, none) = pure none
  report_status op (some c, none) = do
    finished ← now_ms
    let a = generate_interrupted_ack op c finished
    d ← call (env.begin (record { operation_id = op; action_hash = c.action_hash }))
    finish (resolve_recorded a d)
    pure (some (resolve_recorded a d))

  unfoldable pub status : String → Exec env (Option ActionAck)
  unfolding repair_tail reconcile_interrupted
  status operation_id = do
    acquire_ledger_lock none
    repair_tail
    rs ← records
    report_status operation_id (scan operation_id (none, none) rs)
