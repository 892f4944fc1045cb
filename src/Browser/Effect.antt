-- ===== src/Browser/Effect.antt =====
-- `dispatch_invoke` and `dispatch_set_value` of src/cdp.rs: the checks before the effect, the one
-- command that has it, and the judgement of what came back.
use praefectus.Prelude.{
  ℤ, Bool, true, false, not, ◌&&◌, String, len, Option, none, some, [], ◌∷◌, str_eq, and_then,
  is_some, is_some_and, ltb, ◌==◌,
}
use praefectus.Json.{Value, as_bool, as_str, get, is_true_in, pointer}
use praefectus.Protocol.{DispatchError, DispatchReceipt}
use praefectus.Prelude.Try.{Try, ok, err}
use praefectus.Browser.Page.{
  NodeIdentity, Page, call_function_on, invoke_effect, max_edit_bytes, set_value_effect,
}
use praefectus.Browser.Session.{Exec, attempt, pure, raise, ◌>>=◌, ◌>>◌}
use praefectus.Browser.Accessibility.{as_u64, no_effect}
use praefectus.Browser.Boundary.{
  check_after_effect_boundary, check_effect_boundary, raise_if, success_receipt, unknown,
  verify_process, verify_process_for_effect,
}
use praefectus.Browser.Query.{
  effect_command, probe_object_for_effect, resolve_object_for_effect, verify_live_target_for_effect,
}

-- What the page says of itself: whether it ran the effect.
abbrev pub eligible : Value → Option Bool
eligible response = and_then (pointer ("result" ∷ "value" ∷ "eligible" ∷ []) response) as_bool

abbrev pub is_actionable : Value → Bool
is_actionable v = is_true_in "connected" v && (is_true_in "visible" v && is_true_in "enabled" v)

-- `u64::try_from(value.len()).ok()` is always the length.
abbrev pub value_is_set : Page → String → Value → Bool
value_is_set page value after =
    is_some_and (as_str (get "valueHash" after)) (λ h. str_eq h (page.sha256_hex value))
    && (is_some_and (as_u64 page.number_u64 (get "valueLength" after)) (λ n. n == len value)
        && is_some_and (and_then (get "valueTooLarge" after) as_bool) not)

module _ {page : Page} where
  abbrev pub invoke_verdict : Option Bool → Exec page DispatchError DispatchReceipt
  invoke_verdict (some true) = pure success_receipt
  invoke_verdict (some false) = raise (no_effect "browser target is not invokable")
  invoke_verdict none = raise (unknown "browser invoke outcome is unknown")

  -- After the answer to the effect.
  unfoldable pub judge_invoke : ℤ → Value → Exec page DispatchError DispatchReceipt
  judge_invoke deadline response = do
    check_after_effect_boundary deadline
    raise_if (unknown "browser invoke outcome is unknown")
        (is_some (get "exceptionDetails" response))
    invoke_verdict (eligible response)

  unfoldable pub dispatch_invoke : NodeIdentity → ℤ → Exec page DispatchError DispatchReceipt
  unfolding judge_invoke
  dispatch_invoke target deadline = do
    check_effect_boundary deadline
    verify_process_for_effect deadline
    object ← resolve_object_for_effect target.backend_node_id target.execution_context_id deadline
    probe ← probe_object_for_effect object target.protected false false deadline
    raise_if (no_effect "browser target is not actionable") (not (is_actionable probe))
    check_effect_boundary deadline
    verify_process_for_effect deadline
    verify_live_target_for_effect target true false deadline
    check_effect_boundary deadline
    verify_process_for_effect deadline
    response ← effect_command (call_function_on object invoke_effect) deadline false
    judge_invoke deadline response

  abbrev pub or_unknown : {D A : Type 0} → Try D A → Exec page DispatchError A
  or_unknown (ok a) = pure a
  or_unknown (err e) = raise (unknown "browser effect outcome is unknown")

  -- The second probe, of a page that ran the effect.
  unfoldable pub verify_set_value :
      NodeIdentity → String → String → ℤ → Exec page DispatchError DispatchReceipt
  unfolding verify_process
  verify_set_value target object value deadline = do
    live ← attempt verify_process
    or_unknown live
    after ← probe_object_for_effect object target.protected true true deadline
    raise_if (unknown "browser value verification failed") (not (value_is_set page value after))
    pure success_receipt

  abbrev pub set_value_verdict :
      NodeIdentity → String → String → ℤ → Option Bool → Exec page DispatchError DispatchReceipt
  set_value_verdict target object value deadline (some true) =
      verify_set_value target object value deadline
  set_value_verdict target object value deadline (some false) =
      raise (no_effect "browser target is not editable")
  set_value_verdict target object value deadline none =
      raise (unknown "browser value outcome is unknown")

  unfoldable pub judge_set_value :
      NodeIdentity → String → String → ℤ → Value → Exec page DispatchError DispatchReceipt
  unfolding verify_set_value
  judge_set_value target object value deadline response = do
    check_after_effect_boundary deadline
    raise_if (unknown "browser value outcome is unknown")
        (is_some (get "exceptionDetails" response))
    set_value_verdict target object value deadline (eligible response)

  unfoldable pub dispatch_set_value :
      NodeIdentity → String → ℤ → Exec page DispatchError DispatchReceipt
  unfolding judge_set_value
  dispatch_set_value target value deadline = do
    check_effect_boundary deadline
    raise_if (no_effect "browser value is too large") (ltb max_edit_bytes (len value))
    verify_process_for_effect deadline
    object ← resolve_object_for_effect target.backend_node_id target.execution_context_id deadline
    probe ← probe_object_for_effect object target.protected false false deadline
    raise_if (no_effect "browser target is not actionable")
        (not (is_actionable probe && is_true_in "editable" probe))
    verify_live_target_for_effect target false true deadline
    check_effect_boundary deadline
    verify_process_for_effect deadline
    response ← effect_command (call_function_on object (set_value_effect value)) deadline false
    judge_set_value target object value deadline response
