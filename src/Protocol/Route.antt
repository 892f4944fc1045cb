-- ===== src/Protocol/Route.antt =====
-- `Action::name` and the delivery routes of src/lib.rs. `macos` is `cfg!(target_os = "macos")`.
use praefectus.Prelude.{Bool, String, if◌then◌else◌}
use praefectus.Protocol.Request.{
  Action, TargetRef, invoke, click, type_text, press, paste, hotkey, scroll, move, drag,
  select_text, perform_secondary_action, set_value, screenshot, application, window, open_target,
  clipboard_write, element,
}
use praefectus.Protocol.Report.{DeliveryRoute}

unfoldable pub name : Action → String
name invoke = "invoke"
name (click _ _ _) = "click"
name (type_text _ _ _ _) = "type_text"
name (press _ _ _) = "press"
name (paste _) = "paste"
name (hotkey _) = "hotkey"
name (scroll _ _) = "scroll"
name move = "move"
name (drag _ _) = "drag"
name (select_text _ _) = "select_text"
name (perform_secondary_action _) = "perform_secondary_action"
name (set_value _) = "set_value"
name (screenshot _) = "screenshot"
name (application _ _) = "application"
name (window _ _ _) = "window"
name (open_target _ _ _) = "open"
name (clipboard_write _) = "clipboard_write"

unfoldable pub action_delivery_route : Action → DeliveryRoute
action_delivery_route invoke = DeliveryRoute.target_addressed
action_delivery_route (set_value _) = DeliveryRoute.target_addressed
action_delivery_route (select_text _ _) = DeliveryRoute.target_addressed
action_delivery_route (perform_secondary_action _) = DeliveryRoute.target_addressed
action_delivery_route (scroll _ _) = DeliveryRoute.unknown
action_delivery_route _ = DeliveryRoute.pointer

unfoldable pub native_pointer_delivery_route : Bool → DeliveryRoute
native_pointer_delivery_route macos =
    if macos then DeliveryRoute.per_process_event else DeliveryRoute.pointer

unfoldable pub request_delivery_route : Bool → Action → TargetRef → DeliveryRoute
unfolding native_pointer_delivery_route
request_delivery_route macos invoke (element _) = DeliveryRoute.target_addressed
request_delivery_route macos (set_value _) (element _) = DeliveryRoute.target_addressed
request_delivery_route macos (select_text _ _) (element _) = DeliveryRoute.target_addressed
request_delivery_route macos (perform_secondary_action _) (element _) =
    DeliveryRoute.target_addressed
request_delivery_route macos (scroll _ _) (element _) =
    if macos then native_pointer_delivery_route macos else DeliveryRoute.target_addressed
request_delivery_route macos _ (element _) = native_pointer_delivery_route macos
request_delivery_route macos _ _ = DeliveryRoute.pointer

unfoldable pub claim_delivery_route : Bool → Action → TargetRef → DeliveryRoute
unfolding request_delivery_route
claim_delivery_route macos (scroll _ _) target = DeliveryRoute.unknown
claim_delivery_route macos action target = request_delivery_route macos action target
