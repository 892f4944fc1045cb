-- ===== src/Engine/Once/Execute.antt =====
-- `Engine::execute`, `Engine::execute_batch` and `Engine::status` keep the count of the dispatches
-- within what the ledger claims: the dispatch is reached only with a new claim.
use praefectus.Prelude.{◌≡◌, refl, ap, Bool, true, false, Option, String, arith, any}
use praefectus.Protocol.{
  ActionAck, ActionRequest, DeliveryRoute, InteractionMode, LedgerDecision, Result,
  SessionIsolation, ok, err, dispatch, recorded, interrupted,
}
use praefectus.Host.{Env, IsCodec, State, lift, ◌>>=◌}
use praefectus.Host.Frame.{
  Grows, IsFrame, IsFrame-bind, IsFrame-call, IsFrame-pure, IsFrame-lift, IsFrame-ask, IsFrame-if,
  IsFrame-raise, lines_of,
}
use praefectus.Host.Files.Laws.{IsFrame-acquire_ledger_lock}
use praefectus.Host.Files.Append.{IsWhole, Yields-repair_file}
use praefectus.Ledger.{ClaimResult, claim_operation, new, recovered_unknown, repair_tail, replay}
use praefectus.Ledger.Frame.{
  IsFrame-claim_operation, IsFrame-finish, IsFrame-reconcile_interrupted, IsFrame-repair_tail,
  IsFrame-status,
}
use praefectus.Ledger.Claims.{claimed_by}
use praefectus.Ledger.Claims.New.{Yields-claim_operation}
use praefectus.Engine.Conclude.{Run}
use praefectus.Engine.Execute.{after_begin, after_claim, execute, run_request, status}
use praefectus.Engine.Frame.{IsFrame-interrupted_receipt, IsFrame-settle}
use praefectus.Engine.Once.{
  AtMostOnce, AtMostOnce-Grows, IsFresh, IsOnce, IsOnce-bind, IsOnce-frame, KeepsOnce,
  KeepsOnce-bind, KeepsOnce-frame, count,
}
use praefectus.Engine.Once.Dispatch.{IsOnce-attempt_action, op_of}

module _ {env : Env} (run : Run) where
  IsOnce-after_begin : (d : LedgerDecision) → IsOnce {env = env} (op_of run) (after_begin run d)
  IsOnce-after_begin dispatch = IsOnce-attempt_action run
  IsOnce-after_begin (recorded t) = IsOnce-frame _ _ (IsFrame-settle run t)
  IsOnce-after_begin interrupted =
      IsOnce-frame _ _
        (IsFrame-bind _ _ (IsFrame-interrupted_receipt run _) λ r. IsFrame-settle run _)

  IsOnce-new : IsOnce {env = env} (op_of run) (after_claim run new)
  IsOnce-new = IsOnce-bind _ _ _ (IsFrame-call _) λ d. IsOnce-after_begin d

  IsFrame-replay : (a : ActionAck) → IsFrame {env = env} (after_claim run (replay a))
  IsFrame-replay a = IsFrame-bind _ _ (IsFrame-reconcile_interrupted a) λ b. IsFrame-pure _

  IsFrame-recovered :
      (n : Option String) (route : Option DeliveryRoute) (i : Option SessionIsolation)
      (mode : Option InteractionMode)
      → IsFrame {env = env} (after_claim run (recovered_unknown n route i mode))
  IsFrame-recovered n route i mode = IsFrame-bind _ _ (IsFrame-interrupted_receipt run _) λ r.
      IsFrame-bind _ _ (IsFrame-call _) λ d. IsFrame-bind _ _ (IsFrame-finish _) λ u. IsFrame-pure _

  -- A state after `claim_operation` answered `found`.
  after_claim_once :
      (spent : String → Bool) (found : ClaimResult) (t : State env)
      → AtMostOnce spent t
      → (found ≡ new → IsFresh spent (op_of run) t)
      → AtMostOnce spent (after_claim run found t).1
  after_claim_once spent new t h fresh = IsOnce-new.at spent t (fresh refl)
  after_claim_once spent (replay a) t h fresh = (KeepsOnce-frame _ (IsFrame-replay a)).at spent t h
  after_claim_once spent (recovered_unknown n r i m) t h fresh =
      (KeepsOnce-frame _ (IsFrame-recovered n r i m)).at spent t h

  -- What `claim_operation` says of a new claim makes the operation fresh.
  IsFresh-after_claim :
      (spent : String → Bool) (s t : State env)
      → Grows s t
      → AtMostOnce spent s
      → (any (claimed_by env (op_of run)) (lines_of s.ledger) ≡ false)
        × (any (claimed_by env (op_of run)) (lines_of t.ledger) ≡ true)
      → IsFresh spent (op_of run) t
  IsFresh-after_claim spent s t g h (before, after) =
      let same : count (op_of run) t.dispatches ≡ count (op_of run) s.dispatches =
        ap (count (op_of run)) g.same_dispatches in
      record {
        once = AtMostOnce-Grows g h;
        claimed = after;
        undone = ground (arith, same, before, h.at (op_of run));
        unspent = ground (arith, before, h.spent_claimed (op_of run));
      }

  claimed_then :
      (spent : String → Bool) (s t : State env) (r : Result ClaimResult)
      → Grows s t
      → AtMostOnce spent s
      → ((found : ClaimResult)
          → r ≡ ok found
          → found ≡ new
          → (any (claimed_by env (op_of run)) (lines_of s.ledger) ≡ false)
            × (any (claimed_by env (op_of run)) (lines_of t.ledger) ≡ true))
      → AtMostOnce spent ((lift r >>= after_claim run) t).1
  unfolding ◌>>=◌ lift
  claimed_then spent s t (err e) g h k = AtMostOnce-Grows g h
  claimed_then spent s t (ok found) g h k =
      after_claim_once spent found t (AtMostOnce-Grows g h)
        λ e. IsFresh-after_claim spent s t g h (k found refl e)

module _ {env : Env} (codec : IsCodec env) where
  claim_then :
      (spent : String → Bool) (run : Run) (s : State env)
      → AtMostOnce spent s
      → IsWhole s.ledger
      → AtMostOnce spent
          ((claim_operation run.request run.action_hash run.session_isolation >>= after_claim run)
            s).1
  unfolding ◌>>=◌ lift
  claim_then spent run s h whole =
      let m = claim_operation run.request run.action_hash run.session_isolation in
      claimed_then run spent s (m s).1 (m s).0
        ((IsFrame-claim_operation run.request run.action_hash run.session_isolation).at s) h
        ((Yields-claim_operation codec run.request run.action_hash run.session_isolation s.ledger
            whole).at
          s refl)

  repaired_then :
      (spent : String → Bool) (run : Run) (t : State env) (r : Result (Unit {0}))
      → AtMostOnce spent t
      → ((a : Unit {0}) → r ≡ ok a → IsWhole t.ledger)
      → AtMostOnce spent
          ((lift r >>= λ u.
              claim_operation run.request run.action_hash run.session_isolation >>= after_claim run)
            t).1
  unfolding ◌>>=◌ lift
  repaired_then spent run t (err e) h k = h
  repaired_then spent run t (ok u) h k = claim_then spent run t h (k u refl)

  KeepsOnce-run_request : (run : Run) → KeepsOnce {env = env} (run_request run)
  unfolding run_request ◌>>=◌ lift repair_tail
  KeepsOnce-run_request run =
      KeepsOnce-bind _ _ (KeepsOnce-frame _ (IsFrame-acquire_ledger_lock _)) λ u. record {
        at = λ spent s h.
            repaired_then spent run (repair_tail s).1 (repair_tail s).0
              ((KeepsOnce-frame _ IsFrame-repair_tail).at spent s h)
              ((Yields-repair_file _ _).at s tt);
      }

  pub KeepsOnce-execute : (request : ActionRequest) → KeepsOnce {env = env} (execute request)
  unfolding execute
  KeepsOnce-execute request = KeepsOnce-bind _ _ (KeepsOnce-frame _ (IsFrame-lift _)) λ u.
      KeepsOnce-bind _ _ (KeepsOnce-frame _ (IsFrame-lift _)) λ h.
        KeepsOnce-bind _ _ (KeepsOnce-frame _ (IsFrame-call _))
          λ a. KeepsOnce-bind _ _ (KeepsOnce-frame _ (IsFrame-ask _)) λ i. KeepsOnce-run_request _

pub KeepsOnce-status : {env : Env} (op : String) → KeepsOnce {env = env} (status op)
unfolding status
KeepsOnce-status op = KeepsOnce-frame _ (IsFrame-if _ _ _ (IsFrame-status op) (IsFrame-raise _))
