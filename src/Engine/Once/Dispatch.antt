-- ===== src/Engine/Once/Dispatch.antt =====
-- From the grant of the outcome ledger to the end of the run, a claimed operation that was not
-- dispatched yet is dispatched at most once.
use praefectus.Prelude.{
  ◌≡◌, ◌≤◌, ◌∷◌, ◌∙◌, ap, subst, Bool-cases, inl, inr, if◌then◌else◌, refl, Bool, true, false,
  Option, none, some, String, arith, str_eq_iff, any, str_eq,
}
use praefectus.Protocol.{
  ActionCapability, Capabilities, DeliveryRoute, ExecuteReport, Observation, ResolvedTarget, Result,
  Terminal, ok, err, observation_cancelled, observation_expired, invalid_request, conflict,
  authority_denied, stale_target, target_not_found, io, json, executor, ledger,
}
use praefectus.Host.{Env, Exec, State}
use praefectus.Journal.{Bytes}
use praefectus.Ledger.Claims.{claimed_by, is_claimed}
use praefectus.Host.Frame.{
  IsFrame-attempt, IsFrame-bind, IsFrame-call, IsFrame-is_cancelled, IsFrame-now_ms, lines_of,
}
use praefectus.Ledger.Frame.{IsFrame-trajectory}
use praefectus.Engine.Conclude.{Run, finish_early, unless_cancelled, unless_late, within_boundary}
use praefectus.Engine.Dispatch.{dispatch_effect, dispatch_now}
use praefectus.Engine.Frame.{IsFrame-classify, IsFrame-conclude, IsFrame-finish_early}
use praefectus.Engine.Gate.{
  announce, attempt_action, check_capabilities, guard_context, observe_and_resolve,
  with_capabilities, with_capability, with_context, with_observation, with_target,
}
use praefectus.Engine.Once.{
  IsFresh, IsOnce, IsOnce-bind, IsOnce-frame, IsOnce-if, IsOnce-then, count,
}

abbrev pub op_of : Run → String
op_of run = run.request.operation_id

-- One more dispatch of a claimed operation that had none.
dispatched_once :
    {env : Env} (spent : String → Bool) (op other : String) (s t : State env)
    → IsFresh spent op s
    → t.ledger ≡ s.ledger
    → t.dispatches ≡ op ∷ s.dispatches
    → count other t.dispatches ≤ (if spent other then 0 else if is_claimed other t then 1 else 0)
dispatched_once {env} spent op other s t f same_ledger more = elim (Bool-cases (str_eq op other)) [
  | inl e ↦
      let same = (str_eq_iff op other).0 e in
      let claimed : is_claimed other s ≡ true =
        subst (λ (o : String). is_claimed o s ≡ true) same f.claimed in
      let undone : count other s.dispatches ≡ 0 =
        subst (λ (o : String). count o s.dispatches ≡ 0) same f.undone in
      let kept : is_claimed other t ≡ true =
        ap (λ (l : Option Bytes). any (claimed_by env other) (lines_of l)) same_ledger ∙ claimed in
      let counted : count other t.dispatches ≡ count other (op ∷ s.dispatches) =
        ap (count other) more in
      let unspent : spent other ≡ false = subst (λ (o : String). spent o ≡ false) same f.unspent in
      ground (arith, e, kept, undone, counted, unspent)
  | inr e ↦
      let kept : is_claimed other t ≡ is_claimed other s =
        ap (λ (l : Option Bytes). any (claimed_by env other) (lines_of l)) same_ledger in
      let counted : count other t.dispatches ≡ count other (op ∷ s.dispatches) =
        ap (count other) more in
      ground (arith, e, kept, counted, f.once.at other)
]

module _ {env : Env} (run : Run) where
  IsOnce-dispatch_effect :
      (target : ResolvedTarget) → IsOnce {env = env} (op_of run) (dispatch_effect run target)
  unfolding dispatch_effect
  IsOnce-dispatch_effect target = record {
    at = λ spent s f. record {
      at = λ other.
          dispatched_once spent (op_of run) other s (dispatch_effect run target s).1 f refl refl;
      spent_claimed = f.once.spent_claimed;
    };
  }

  IsOnce-dispatch_now :
      (route : DeliveryRoute) (before : Observation) (target : ResolvedTarget) (c : Option String)
      → IsOnce {env = env} (op_of run) (dispatch_now run route before target c)
  unfolding dispatch_now
  IsOnce-dispatch_now route before target c = IsOnce-bind _ _ _ IsFrame-now_ms λ started.
      IsOnce-then _ _ _ (IsOnce-dispatch_effect target) λ d.
        IsFrame-bind _ _ (IsFrame-classify run route started before c d)
          λ found. IsFrame-conclude run found

  IsOnce-finish_early : (t : Terminal) → IsOnce {env = env} (op_of run) (finish_early run t)
  IsOnce-finish_early t = IsOnce-frame _ _ (IsFrame-finish_early run t)

  IsOnce-unless_late :
      (next : Exec env ExecuteReport) (late : Bool)
      → IsOnce (op_of run) next
      → IsOnce (op_of run) (unless_late run next late)
  IsOnce-unless_late next true h = IsOnce-finish_early _
  IsOnce-unless_late next false h = h

  IsOnce-unless_cancelled :
      (next : Exec env ExecuteReport) (cancelled : Bool)
      → IsOnce (op_of run) next
      → IsOnce (op_of run) (unless_cancelled run next cancelled)
  IsOnce-unless_cancelled next true h = IsOnce-finish_early _
  IsOnce-unless_cancelled next false h =
      IsOnce-bind _ _ _ IsFrame-now_ms λ now. IsOnce-unless_late next _ h

  IsOnce-within_boundary :
      (next : Exec env ExecuteReport)
      → IsOnce (op_of run) next
      → IsOnce (op_of run) (within_boundary run next)
  unfolding within_boundary
  IsOnce-within_boundary next h =
      IsOnce-bind _ _ _ IsFrame-is_cancelled λ c. IsOnce-unless_cancelled next c h

  IsOnce-with_context :
      (route : DeliveryRoute) (before : Observation) (target : ResolvedTarget) (r : Result String)
      → IsOnce {env = env} (op_of run) (with_context run route before target r)
  IsOnce-with_context route before target (ok h) = IsOnce-dispatch_now _ _ _ _
  IsOnce-with_context route before target (err (invalid_request m)) = IsOnce-finish_early _
  IsOnce-with_context route before target (err conflict) = IsOnce-finish_early _
  IsOnce-with_context route before target (err authority_denied) = IsOnce-finish_early _
  IsOnce-with_context route before target (err (stale_target m)) = IsOnce-finish_early _
  IsOnce-with_context route before target (err (target_not_found m)) = IsOnce-finish_early _
  IsOnce-with_context route before target (err observation_cancelled) = IsOnce-finish_early _
  IsOnce-with_context route before target (err observation_expired) = IsOnce-finish_early _
  IsOnce-with_context route before target (err (io m)) = IsOnce-finish_early _
  IsOnce-with_context route before target (err (json m)) = IsOnce-finish_early _
  IsOnce-with_context route before target (err (executor m)) = IsOnce-finish_early _
  IsOnce-with_context route before target (err (ledger m)) = IsOnce-finish_early _

  IsOnce-guard_context :
      (route : DeliveryRoute) (before : Observation) (target : ResolvedTarget)
      → IsOnce {env = env} (op_of run) (guard_context run route before target)
  unfolding guard_context
  IsOnce-guard_context route before target =
      IsOnce-if _ _ _ _
        (IsOnce-bind _ _ _ (IsFrame-attempt _ (IsFrame-call _))
          λ r. IsOnce-with_context route before target r)
        (IsOnce-dispatch_now _ _ _ _)

  IsOnce-announce :
      (route : DeliveryRoute) (before : Observation) (target : ResolvedTarget)
      → IsOnce {env = env} (op_of run) (announce run route before target)
  unfolding announce
  IsOnce-announce route before target =
      IsOnce-bind _ _ _ (IsFrame-attempt _ (IsFrame-trajectory _))
        λ done. IsOnce-within_boundary _ (IsOnce-guard_context route before target)

  IsOnce-with_target :
      (route : DeliveryRoute) (before : Observation) (r : Result ResolvedTarget)
      → IsOnce {env = env} (op_of run) (with_target run route before r)
  IsOnce-with_target route before (ok target) = IsOnce-announce route before target
  IsOnce-with_target route before (err e) = IsOnce-finish_early _

  IsOnce-with_observation :
      (route : DeliveryRoute) (r : Result Observation)
      → IsOnce {env = env} (op_of run) (with_observation run route r)
  IsOnce-with_observation route (ok before) =
      IsOnce-bind _ _ _ (IsFrame-attempt _ (IsFrame-call _)) λ r. IsOnce-with_target route before r
  IsOnce-with_observation route (err e) = IsOnce-finish_early _

  IsOnce-observe_and_resolve :
      (route : DeliveryRoute) → IsOnce {env = env} (op_of run) (observe_and_resolve run route)
  unfolding observe_and_resolve
  IsOnce-observe_and_resolve route =
      IsOnce-bind _ _ _ (IsFrame-attempt _ (IsFrame-call _)) λ r. IsOnce-with_observation route r

  IsOnce-with_capability :
      (c : Option ActionCapability) → IsOnce {env = env} (op_of run) (with_capability run c)
  IsOnce-with_capability none = IsOnce-finish_early _
  IsOnce-with_capability (some c) =
      IsOnce-if _ _ _ _ (IsOnce-finish_early _) (IsOnce-observe_and_resolve _)

  IsOnce-with_capabilities :
      (r : Result Capabilities) → IsOnce {env = env} (op_of run) (with_capabilities run r)
  IsOnce-with_capabilities (ok cs) = IsOnce-with_capability _
  IsOnce-with_capabilities (err e) = IsOnce-finish_early _

  IsOnce-check_capabilities : IsOnce {env = env} (op_of run) (check_capabilities run)
  IsOnce-check_capabilities = IsOnce-if _ _ _ _ (IsOnce-finish_early _) (
      IsOnce-bind _ _ _ (IsFrame-attempt _ (IsFrame-call _))
        λ r. IsOnce-within_boundary _ (IsOnce-with_capabilities r))

  pub IsOnce-attempt_action : IsOnce {env = env} (op_of run) (attempt_action run)
  unfolding attempt_action
  IsOnce-attempt_action =
      IsOnce-bind _ _ _ (IsFrame-attempt _ (IsFrame-trajectory _))
        λ done. IsOnce-within_boundary _ IsOnce-check_capabilities
