-- ===== src/Validate/Request/Fences.antt =====
-- What a request that `validate_request` of src/lib.rs accepts says of its target.
use praefectus.Prelude.{◌≡◌, refl, Bool, true, false, String, arith, not, ◌&&◌, ◌||◌}
use praefectus.Protocol.{
  ActionRequest, Result, ok, err, ◌>>◌, is_coordinates, is_element, is_untargeted, is_unverified,
}
use praefectus.Host.{Env}
use praefectus.Validate.Identifiers.{valid_identifier}
use praefectus.Validate.Request.{
  is_auxiliary, is_drag, needs_element, reject_if, takes_coordinates, validate_request,
  versions_differ,
}
use praefectus.Validate.Parameters.{validate_action}

reject-passes :
    (b : Bool) (m : String) (rest : Result (Unit {0}))
    → (reject_if b m >> rest) ≡ ok tt
    → (b ≡ false) × (rest ≡ ok tt)
reject-passes true m rest h = cc
reject-passes false m rest h = (refl, h)

seq-passes : (m rest : Result (Unit {0})) → (m >> rest) ≡ ok tt → rest ≡ ok tt
seq-passes (ok u) rest h = h
seq-passes (err e) rest h = cc

-- The fences between the action and the target of a request.
pub record IsFenced (r : ActionRequest) : Type 0 where
  pub targeted : is_untargeted r.target ≡ is_auxiliary r.action
  pub auxiliary_unverified : is_auxiliary r.action ≡ true → is_unverified r.verification ≡ true
  pub by_coordinates : is_coordinates r.target ≡ true → takes_coordinates r.action ≡ true
  pub drag_by_coordinates : is_drag r.action ≡ true → is_coordinates r.target ≡ true
  pub by_element : needs_element r.action ≡ true → is_element r.target ≡ true

-- A request that is accepted has a valid operation ID, has a target exactly when its action is not
-- auxiliary, has no verification when it is, points by coordinates only for a click, a move or a
-- drag, always so for a drag, and names an element for a text selection or a secondary action.
pub accepted-IsFenced :
    (env : Env) (r : ActionRequest)
    → validate_request env r ≡ ok tt
    → (valid_identifier r.operation_id ≡ true) × IsFenced r
unfolding validate_request
accepted-IsFenced env r h =
    let a = reject-passes (versions_differ r) "unsupported protocol version" _ h in
    let b = reject-passes (not (valid_identifier r.operation_id)) "invalid operation_id" _ a.1 in
    let c = reject-passes (not (valid_identifier r.subject)) "invalid subject" _ b.1 in
    let d = reject-passes (not (valid_identifier r.session_id)) "invalid session_id" _ c.1 in
    let e =
      reject-passes (is_untargeted r.target && not (is_auxiliary r.action))
        "action requires a target" _ d.1 in
    let f =
      reject-passes
        (is_auxiliary r.action
          && (not (is_untargeted r.target) || not (is_unverified r.verification)))
        "desktop action requires no target and no target verification" _ e.1 in
    let g =
      reject-passes (is_coordinates r.target && not (takes_coordinates r.action))
        "coordinate targets support only click, move, and drag" _
        (seq-passes (validate_action env r.action) _ f.1) in
    let i =
      reject-passes (is_drag r.action && not (is_coordinates r.target))
        "drag requires a fenced coordinate target" _ g.1 in
    let j =
      reject-passes (needs_element r.action && not (is_element r.target))
        "action requires a fenced semantic element target" _ i.1 in
    (
      ground (arith, b.0),
      record {
        targeted = ground (arith, e.0, f.0);
        auxiliary_unverified = λ x. ground (arith, f.0, x);
        by_coordinates = λ x. ground (arith, g.0, x);
        drag_by_coordinates = λ x. ground (arith, i.0, x);
        by_element = λ x. ground (arith, j.0, x);
      },
    )
