-- ===== src/Ledger/Frame.antt =====
-- The ledger's operations keep the complete lines of its file and dispatch nothing.
use praefectus.Prelude.{Option, none, some, String}
use praefectus.Protocol.{
  ActionAck, ActionRequest, LedgerDecision, Result, SessionIsolation, ok, err, dispatch, recorded,
  interrupted,
}
use praefectus.Host.{Claim, Env, LedgerRecord}
use praefectus.Host.Frame.{IsFrame, frame_rules}
use praefectus.Host.Files.Laws.{
  IsFrame-acquire_ledger_lock, IsFrame-append_line, IsFrame-append_opened, IsFrame-records,
  IsFrame-repair_file,
}
use praefectus.Ledger.{
  append, claim_operation, finish, finish_after_effect, finish_again, reconcile_interrupted,
  repair_tail, report_status, settle_claim, status, take_recorded, trajectory,
}

module _ {env : Env} where
  pub IsFrame-repair_tail : IsFrame {env = env} repair_tail
  unfolding repair_tail
  IsFrame-repair_tail = search IsFrame-repair_file

  pub IsFrame-append : (r : LedgerRecord) → IsFrame {env = env} (append r)
  unfolding append
  IsFrame-append r = search IsFrame-append_line

  pub IsFrame-trajectory : (a : ActionAck) → IsFrame {env = env} (trajectory a)
  unfolding trajectory
  IsFrame-trajectory a =
      search (frame_rules, IsFrame-acquire_ledger_lock, IsFrame-repair_file, IsFrame-append_opened)
        depth 16

  pub IsFrame-finish : (a : ActionAck) → IsFrame {env = env} (finish a)
  unfolding finish
  IsFrame-finish a = search (frame_rules, IsFrame-append, IsFrame-trajectory) depth 8

  IsFrame-settle_claim :
      (r : ActionRequest) (h : String) (i : SessionIsolation)
      (found : Option Claim × Option ActionAck)
      → IsFrame {env = env} (settle_claim r h i found)
  IsFrame-settle_claim r h i (none, ended) = search (frame_rules, IsFrame-append) depth 8
  IsFrame-settle_claim r h i (some c, ended) = search frame_rules

  pub IsFrame-claim_operation :
      (r : ActionRequest) (h : String) (i : SessionIsolation)
      → IsFrame {env = env} (claim_operation r h i)
  unfolding claim_operation
  IsFrame-claim_operation r h i =
      search (frame_rules, IsFrame-records, IsFrame-settle_claim) depth 8

  IsFrame-finish_again :
      (a : ActionAck) (r : Result (Unit {0})) → IsFrame {env = env} (finish_again a r)
  IsFrame-finish_again a (ok done) = search frame_rules
  IsFrame-finish_again a (err e) = search (frame_rules, IsFrame-repair_tail, IsFrame-finish) depth 8

  pub IsFrame-finish_after_effect : (a : ActionAck) → IsFrame {env = env} (finish_after_effect a)
  unfolding finish_after_effect
  IsFrame-finish_after_effect a = search (frame_rules, IsFrame-finish, IsFrame-finish_again) depth 8

  IsFrame-take_recorded :
      (a : ActionAck) (d : LedgerDecision) → IsFrame {env = env} (take_recorded a d)
  IsFrame-take_recorded a dispatch = search frame_rules
  IsFrame-take_recorded a (recorded t) = search (frame_rules, IsFrame-finish) depth 8
  IsFrame-take_recorded a interrupted = search frame_rules

  pub IsFrame-reconcile_interrupted :
      (a : ActionAck) → IsFrame {env = env} (reconcile_interrupted a)
  unfolding reconcile_interrupted
  IsFrame-reconcile_interrupted a = search (frame_rules, IsFrame-take_recorded) depth 8

  IsFrame-report_status :
      (op : String) (found : Option Claim × Option ActionAck)
      → IsFrame {env = env} (report_status op found)
  IsFrame-report_status op (claimed, some a) =
      search (frame_rules, IsFrame-reconcile_interrupted) depth 8
  IsFrame-report_status op (none, none) = search frame_rules
  IsFrame-report_status op (some c, none) = search (frame_rules, IsFrame-finish) depth 12

  pub IsFrame-status : (op : String) → IsFrame {env = env} (status op)
  unfolding status
  IsFrame-status op =
      search
        (
          frame_rules, IsFrame-acquire_ledger_lock, IsFrame-repair_tail, IsFrame-records,
          IsFrame-report_status,
        )
        depth 12
