-- ===== src/Browser/Query.antt =====
-- The commands of src/cdp.rs that read the page: the current document, the object of a node, the probe
-- of an object, and the check that the live target is still the one observed.
use praefectus.Prelude.{
  ℕ, ℤ, Bool, true, false, not, ◌&&◌, ◌||◌, String, Option, none, some, [], ◌∷◌, str_eq, and_then,
  keep_if, or_else, is_some, if◌then◌else◌,
}
use praefectus.Prelude.Try.{Try, ok, err}
use praefectus.Json.{Value, as_str, get, pointer}
use praefectus.Protocol.{DispatchError, ProtocolError}
use praefectus.Protocol
use praefectus.Browser.Page.{
  CdpChannelError, Command, NodeIdentity, Page, PageFunction, backend_name, after_send, before_send,
  call_function_on, get_frame_tree, get_layout_metrics, get_partial_ax_tree, resolve_node, probe,
  protected_probe,
}
use praefectus.Browser.Session.{Exec, ask, attempt, gets, lift, pure, raise, send, ◌>>=◌, ◌>>◌}
use praefectus.Browser.Accessibility.{AxSemantics, live_ax_semantics, no_effect}
use praefectus.Browser.Boundary.{
  backend_error, check_after_effect_boundary, check_effect_boundary, raise_if, unknown,
}

unfoldable pub required_string : String → Value → Option String
required_string key v = keep_if (λ s. not (str_eq s "")) (as_str (get key v))

abbrev pub viewport_of : Value → Option Value
viewport_of layout = or_else (get "cssVisualViewport" layout) (get "visualViewport" layout)

-- The frame and the loader of the page, which name its document.
abbrev pub ids_of_frame : Value → Option (String × String)
ids_of_frame frame = and_then (required_string "id" frame) (λ frame_id.
    and_then (required_string "loaderId" frame) (λ loader_id. some (frame_id, loader_id)))

unfoldable pub frame_ids : Value → Option (String × String)
unfolding required_string
frame_ids frame_tree = and_then (pointer ("frameTree" ∷ "frame" ∷ []) frame_tree) ids_of_frame

-- `ok_or_else`.
abbrev pub need : {page : Page} {E A : Type 0} → E → Option A → Exec page E A
need e none = raise e
need e (some a) = pure a

abbrev pub channel_lost : Bool → DispatchError
channel_lost true = unknown "browser effect outcome is unknown"
channel_lost false = no_effect "browser channel is unavailable"

abbrev pub changed_error : Bool → DispatchError
changed_error true = unknown "browser effect outcome is unknown"
changed_error false = no_effect "browser target changed"

abbrev pub probe_function : Bool → Bool → PageFunction
probe_function protected reveal_value =
    if protected && not reveal_value then protected_probe else probe

-- The comparison of the live target with the one observed.
abbrev pub target_changed : NodeIdentity → Bool → Bool → AxSemantics → String → Bool
target_changed target invokable editable semantics fingerprint_hash =
    not (str_eq fingerprint_hash target.fingerprint_hash)
    || (not semantics.visible
        || (not semantics.enabled
            || ((invokable && not semantics.invokable) || (editable && not semantics.editable))))

module _ {page : Page} where
  -- `map_err(|_| e)?` on an answer of the channel.
  abbrev pub answer : {E : Type 0} → E → Try CdpChannelError Value → Exec page E Value
  answer e (ok v) = pure v
  answer e (err x) = raise e

  unfoldable pub current_document_id : ℤ → Exec page ProtocolError String
  unfolding frame_ids
  current_document_id deadline = do
    locked ← ask page.lock
    raise_if backend_error (not locked)
    reply ← send get_frame_tree deadline
    frame_tree ← answer backend_error reply
    found ← need backend_error (frame_ids frame_tree)
    config ← gets (λ s. s.config)
    need backend_error (page.hash_document backend_name config.target_id found.0 found.1)

  unfoldable pub resolve_object : ℕ → ℕ → ℤ → Exec page ProtocolError String
  resolve_object node context deadline = do
    locked ← ask page.lock
    raise_if backend_error (not locked)
    reply ← send (resolve_node node context) deadline
    response ← answer backend_error reply
    need (Protocol.stale_target "browser target changed")
        (keep_if (λ s. not (str_eq s "")) (as_str (pointer ("object" ∷ "objectId" ∷ []) response)))

  abbrev pub or_no_effect : {D A : Type 0} → String → Try D A → Exec page DispatchError A
  or_no_effect message (ok a) = pure a
  or_no_effect message (err e) = raise (no_effect message)

  unfoldable pub current_document_id_for_effect : ℤ → Exec page DispatchError String
  unfolding current_document_id
  current_document_id_for_effect deadline = do
    check_effect_boundary deadline
    found ← attempt (current_document_id deadline)
    check_effect_boundary deadline
    or_no_effect "browser document is unavailable" found

  unfoldable pub resolve_object_for_effect : ℕ → ℕ → ℤ → Exec page DispatchError String
  unfolding resolve_object
  resolve_object_for_effect node context deadline = do
    check_effect_boundary deadline
    found ← attempt (resolve_object node context deadline)
    check_effect_boundary deadline
    or_no_effect "browser target changed" found

  unfoldable pub query_for_effect : Command → ℤ → Exec page DispatchError Value
  query_for_effect c deadline = do
    check_effect_boundary deadline
    locked ← ask page.lock
    raise_if (no_effect "browser channel is unavailable") (not locked)
    reply ← send c deadline
    check_effect_boundary deadline
    answer (no_effect "browser target is unavailable") reply

  abbrev pub start_check : Bool → ℤ → Exec page DispatchError (Unit {0})
  start_check true deadline = check_after_effect_boundary deadline
  start_check false deadline = check_effect_boundary deadline

  abbrev pub effect_answer : Bool → ℤ → Try CdpChannelError Value → Exec page DispatchError Value
  effect_answer started deadline (ok v) = pure v
  effect_answer true deadline (err e) = raise (unknown "browser effect outcome is unknown")
  effect_answer false deadline (err after_send) =
      raise (unknown "browser effect outcome is unknown")
  effect_answer false deadline (err before_send) = do
    check_effect_boundary deadline
    raise (no_effect "browser effect was not dispatched")

  unfoldable pub effect_command : Command → ℤ → Bool → Exec page DispatchError Value
  unfolding check_effect_boundary check_after_effect_boundary
  effect_command c deadline started = do
    start_check started deadline
    locked ← ask page.lock
    raise_if (channel_lost started) (not locked)
    reply ← send c deadline
    effect_answer started deadline reply

  abbrev pub probe_command : Bool → Command → ℤ → Exec page DispatchError Value
  probe_command true c deadline = effect_command c deadline true
  probe_command false c deadline = query_for_effect c deadline

  unfoldable pub probe_object_for_effect :
      String → Bool → Bool → Bool → ℤ → Exec page DispatchError Value
  unfolding effect_command query_for_effect
  probe_object_for_effect object protected reveal_value effect_started deadline = do
    response ←
        probe_command effect_started
          (call_function_on object (probe_function protected reveal_value)) deadline
    raise_if (changed_error effect_started) (is_some (get "exceptionDetails" response))
    need (changed_error effect_started) (pointer ("result" ∷ "value" ∷ []) response)

  unfoldable pub verify_live_target_for_effect :
      NodeIdentity → Bool → Bool → ℤ → Exec page DispatchError (Unit {0})
  unfolding query_for_effect current_document_id_for_effect
  verify_live_target_for_effect target invokable editable deadline = do
    layout ← query_for_effect get_layout_metrics deadline
    viewport ← need (no_effect "browser viewport is unavailable") (viewport_of layout)
    geometry ← need (no_effect "browser viewport changed") (page.hash_value viewport)
    raise_if (no_effect "browser viewport changed")
        (not (str_eq geometry target.display_geometry_hash))
    document_id ← current_document_id_for_effect deadline
    tree ← query_for_effect (get_partial_ax_tree target.backend_node_id) deadline
    semantics ← lift (live_ax_semantics page.number_u64 tree target.backend_node_id)
    fingerprint_hash ←
        need (no_effect "browser target changed")
          (page.hash_node document_id target.backend_node_id semantics.role semantics.name)
    raise_if (no_effect "browser target changed")
        (target_changed target invokable editable semantics fingerprint_hash)
