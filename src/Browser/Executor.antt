-- ===== src/Browser/Executor.antt =====
-- `CdpExecutor` of src/cdp.rs as an `Executor`: the nodes that the latest observation stored, the
-- resolution of a target, the capabilities, and `dispatch`.
use praefectus.Prelude.{
  ℤ, Bool, true, false, not, ◌&&◌, ◌||◌, String, Option, none, some, List, [], ◌∷◌, ◌==◌, str_eq,
  unwrap_or, if◌then◌else◌,
}
use praefectus.Prelude.Try.{Try, ok, err}
use praefectus.Protocol.{
  Action, ActionCapability, BackgroundSupport, DeliveryRoute, DispatchError, DispatchReceipt,
  NativeElement, ResolvedTarget, SemanticTargetRef, VerificationPolicy, invoke, click, scroll,
  set_value, is_unverified, native_element,
}
use praefectus.Semantic.Resolve.{Hashing, resolve}
use praefectus.Browser.Page.{
  CdpError, CdpNode, NodeIdentity, Page, StoredObservation, backend_name, target_not_found,
}
use praefectus.Browser.Session.{Exec, ask, gets, raise, ◌>>=◌, ◌>>◌}
use praefectus.Browser.Accessibility.{no_effect}
use praefectus.Browser.Boundary.{check_effect_boundary, map_semantic_error, raise_if, unsupported}
use praefectus.Browser.Query.{current_document_id_for_effect, need}
use praefectus.Browser.Effect.{dispatch_invoke, dispatch_set_value}
use praefectus.Browser.Scroll.{dispatch_scroll}

abbrev pub find_node : String → List (String × CdpNode) → Option CdpNode
find_node id [] = none
find_node id ((key, node) ∷ nodes) = if str_eq key id then some node else find_node id nodes

unfoldable pub identity_of : CdpNode → StoredObservation → NodeIdentity
identity_of node stored = record {
  backend_node_id = node.backend_node_id;
  execution_context_id = stored.execution_context_id;
  protected = node.protected;
  fingerprint_hash = node.element.fingerprint_hash;
  display_geometry_hash = stored.observation.provenance.display_geometry_hash;
  document_id = unwrap_or stored.observation.provenance.document_id "";
}

-- `stored_node`, before the conversion.
unfoldable pub stored_node :
    Hashing
    → Option StoredObservation
    → SemanticTargetRef
    → ℤ
    → Try CdpError (CdpNode × StoredObservation)
unfolding map_semantic_error
stored_node h none target now_ms = err target_not_found
stored_node h (some stored) target now_ms = elim (resolve h stored.observation target now_ms) [
  | err e ↦ err (map_semantic_error e)
  | ok element ↦ elim (find_node target.element_id stored.nodes) [
    | none ↦ err target_not_found
    | some node ↦ ok (node, stored)
  ]
]

abbrev pub fact : String → ActionCapability
fact action = record {
  action = action;
  delivery_route = DeliveryRoute.target_addressed;
  background_support = BackgroundSupport.host_isolated_only;
}

-- The actions of `capabilities`, which are offered for an observation that is valid and a backend that
-- the configured process alone owns.
abbrev pub supported_actions : Bool → List String
supported_actions available = if available then "invoke" ∷ "scroll" ∷ "set_value" ∷ [] else []

abbrev pub action_capabilities : Bool → List ActionCapability
action_capabilities available =
    if available then fact "invoke" ∷ fact "scroll" ∷ fact "set_value" ∷ [] else []

abbrev pub is_scroll : Action → Bool
is_scroll (scroll direction amount) = true
is_scroll _ = false

abbrev pub is_click : Action → Bool
is_click (click button count strict) = true
is_click _ = false

abbrev pub scrolls_further : Action → Bool
scrolls_further (scroll direction amount) = not (amount == 1)
scrolls_further _ = false

abbrev pub action_is_refused : Action → VerificationPolicy → Bool
action_is_refused action verification =
    (scrolls_further action || (is_scroll action && not (is_unverified verification)))
    || is_click action

module _ {page : Page} where
  -- The match on the action, for a node that is visible and enabled.
  abbrev pub run_action :
      CdpNode → NodeIdentity → ℤ → Action → Exec page DispatchError DispatchReceipt
  run_action node identity deadline invoke =
      if node.element.actionability.invokable
      then dispatch_invoke identity deadline
      else raise unsupported
  run_action node identity deadline (set_value value) =
      if node.element.actionability.editable
      then dispatch_set_value identity value deadline
      else raise unsupported
  run_action node identity deadline (scroll direction amount) =
      if amount == 1 then dispatch_scroll identity direction deadline else raise unsupported
  run_action node identity deadline _ = raise unsupported

  abbrev pub dispatch_node :
      Action → ℤ → CdpNode → NodeIdentity → Exec page DispatchError DispatchReceipt
  dispatch_node action deadline node identity = do
    document_id ← current_document_id_for_effect deadline
    raise_if (no_effect "browser document changed") (not (str_eq document_id identity.document_id))
    check_effect_boundary deadline
    raise_if (no_effect "browser target is not actionable")
        (not node.element.actionability.visible || not node.element.actionability.enabled)
    run_action node identity deadline action

  abbrev pub dispatch_element :
      Action → VerificationPolicy → ℤ → NativeElement → Exec page DispatchError DispatchReceipt
  dispatch_element action verification deadline element = do
    raise_if (no_effect "browser semantic target changed")
        (not (str_eq element.backend backend_name))
    raise_if unsupported (action_is_refused action verification)
    readable ← ask page.read_latest
    raise_if (no_effect "browser target is unavailable") (not readable)
    latest ← gets (λ s. s.latest)
    stored ← need (no_effect "browser target is unavailable") latest
    node ← need (no_effect "browser target changed") (find_node element.id stored.nodes)
    dispatch_node action deadline node (identity_of node stored)

  abbrev pub dispatch_target :
      Action → VerificationPolicy → ℤ → ResolvedTarget → Exec page DispatchError DispatchReceipt
  dispatch_target action verification deadline (native_element element) =
      dispatch_element action verification deadline element
  dispatch_target action verification deadline _ =
      raise (no_effect "browser semantic target required")

  unfoldable pub dispatch :
      Action → ResolvedTarget → VerificationPolicy → ℤ → Exec page DispatchError DispatchReceipt
  unfolding identity_of
  dispatch action target verification deadline = do
    check_effect_boundary deadline
    dispatch_target action verification deadline target
