-- ===== src/Browser/Scroll.antt =====
-- `dispatch_scroll` of src/cdp.rs: the box of the target has to be still, its centre has to hit the
-- target, and the page reports how far it scrolled.
use praefectus.Prelude.{
  Bool, true, false, not, ◌&&◌, ◌||◌, ℤ, String, Option, none, some, [], ◌∷◌, is_some, is_some_and,
  ◌==◌,
}
use praefectus.Json.{Value, get, is_true_in, pointer}
use praefectus.Protocol.{Direction, DispatchError, DispatchReceipt}
use praefectus.Browser.Page.{
  NodeIdentity, Page, call_function_on, get_box_model, get_layout_metrics, get_node_for_location,
  scroll_effect, scroll_probe,
}
use praefectus.Browser.Session.{Exec, lift, pure, raise, ◌>>=◌, ◌>>◌}
use praefectus.Browser.Accessibility.{as_u64, no_effect}
use praefectus.Browser.Boundary.{
  check_after_effect_boundary, check_effect_boundary, raise_if, success_receipt, unknown,
  verify_process_for_effect, wait_for_stability_sample,
}
use praefectus.Browser.Query.{
  effect_command, need, query_for_effect, resolve_object_for_effect, verify_live_target_for_effect,
}
use praefectus.Browser.Effect.{eligible, is_actionable}
use praefectus.Browser.Geometry.{
  border_quad, moved, moved_in_direction, reported, scroll_axis_delta, scroll_direction_name,
  viewport_point,
}

abbrev pub scroll_unknown : DispatchError
scroll_unknown = unknown "browser scroll outcome is unknown"

abbrev pub not_scrollable : DispatchError
not_scrollable = no_effect "browser target is not scrollable"

abbrev pub deaf : DispatchError
deaf = no_effect "browser target does not receive events"

abbrev pub can_scroll : Direction → Value → Bool
can_scroll direction probe =
    is_actionable probe
    && (is_true_in "receives" probe && is_true_in (scroll_direction_name direction) probe)

abbrev pub still_scrollable : Direction → Value → Bool
still_scrollable direction response =
    is_some_and (pointer ("result" ∷ "value" ∷ []) response)
      (is_true_in (scroll_direction_name direction))

module _ {page : Page} where
  -- Every scroll that the page ran and that is not confirmed leaves the outcome unknown.
  abbrev pub confirm_scroll : Direction → Value → Exec page DispatchError DispatchReceipt
  confirm_scroll direction result = do
    before ← need scroll_unknown (reported page "before" result)
    intended ← need scroll_unknown (reported page "intended" result)
    after ← need scroll_unknown (reported page "after" result)
    raise_if (unknown "browser scroll verification failed")
        (not (page.float_eq after intended) || not (moved_in_direction page direction before after))
    pure success_receipt

  abbrev pub scroll_verdict :
      Direction → Value → Option Bool → Exec page DispatchError DispatchReceipt
  scroll_verdict direction result (some true) = confirm_scroll direction result
  scroll_verdict direction result (some false) = raise not_scrollable
  scroll_verdict direction result none = raise scroll_unknown

  unfoldable pub judge_scroll : Direction → ℤ → Value → Exec page DispatchError DispatchReceipt
  judge_scroll direction deadline response = do
    check_after_effect_boundary deadline
    raise_if scroll_unknown (is_some (get "exceptionDetails" response))
    result ← need scroll_unknown (pointer ("result" ∷ "value" ∷ []) response)
    scroll_verdict direction result (eligible response)

  -- From the first probe to the hit test.
  unfoldable pub aim_scroll :
      NodeIdentity → Direction → String → ℤ → Exec page DispatchError (Unit {0})
  unfolding border_quad viewport_point
  aim_scroll target direction object deadline = do
    response ← query_for_effect (call_function_on object scroll_probe) deadline
    probe ← need (no_effect "browser target changed") (pointer ("result" ∷ "value" ∷ []) response)
    raise_if not_scrollable (not (can_scroll direction probe))
    first_box ← query_for_effect (get_box_model target.backend_node_id) deadline
    wait_for_stability_sample deadline
    second_box ← query_for_effect (get_box_model target.backend_node_id) deadline
    first_quad ← lift (border_quad page first_box)
    second_quad ← lift (border_quad page second_box)
    raise_if (no_effect "browser target is not stable") (moved page first_quad second_quad)
    layout ← query_for_effect get_layout_metrics deadline
    point ← lift (viewport_point page second_quad layout)
    hit ← query_for_effect (get_node_for_location point.0 point.1) deadline
    node ← need deaf (as_u64 page.number_u64 (get "backendNodeId" hit))
    raise_if deaf (not (node == target.backend_node_id))

  unfoldable pub dispatch_scroll :
      NodeIdentity → Direction → ℤ → Exec page DispatchError DispatchReceipt
  unfolding judge_scroll aim_scroll
  dispatch_scroll target direction deadline = do
    check_effect_boundary deadline
    verify_process_for_effect deadline
    object ← resolve_object_for_effect target.backend_node_id target.execution_context_id deadline
    aim_scroll target direction object deadline
    check_effect_boundary deadline
    verify_process_for_effect deadline
    verify_live_target_for_effect target false false deadline
    response ← query_for_effect (call_function_on object scroll_probe) deadline
    raise_if not_scrollable (not (still_scrollable direction response))
    check_effect_boundary deadline
    verify_process_for_effect deadline
    let way = scroll_axis_delta direction
    answered ← effect_command (call_function_on object (scroll_effect way.0 way.1)) deadline false
    judge_scroll direction deadline answered
