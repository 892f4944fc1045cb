-- ===== src/Browser/Honest/Dispatch.antt =====
-- `CdpExecutor::dispatch` is honest about its effect, which it sends at most once.
use praefectus.Prelude.{ℤ, ◌≡◌, refl, true, String, []}
use praefectus.Protocol.{Action, Direction, NativeElement, ResolvedTarget, VerificationPolicy}
use praefectus.Browser.Page.{
  CdpNode, NodeIdentity, Page, invoke_effect, scroll_effect, set_value_effect,
}
use praefectus.Browser.Session.{Session}
use praefectus.Browser.Effect.{dispatch_invoke, dispatch_set_value}
use praefectus.Browser.Scroll.{aim_scroll, dispatch_scroll}
use praefectus.Browser.Executor.{
  dispatch, dispatch_element, dispatch_node, dispatch_target, run_action,
}
use praefectus.Browser.Honest.{
  IsQuiet, IsQuiet-ask, IsQuiet-bind, IsQuiet-gets, IsQuiet-lift, IsQuiet-need, IsQuiet-raise_if,
  honest,
}
use praefectus.Browser.Honest.Queries.{
  IsQuiet-check_effect_boundary, IsQuiet-current_document_id_for_effect,
  IsQuiet-probe_object_for_effect, IsQuiet-query_for_effect, IsQuiet-resolve_object_for_effect,
  IsQuiet-verify_live_target_for_effect, IsQuiet-verify_process_for_effect,
  IsQuiet-wait_for_stability_sample,
}
use praefectus.Browser.Honest.Geometry.{settled-border_quad, settled-viewport_point}
use praefectus.Browser.Honest.Judges.{
  IsJudge-judge_invoke, IsJudge-judge_scroll, IsJudge-judge_set_value,
}
use praefectus.Browser.Honest.Fire.{
  IsHonest, IsHonest-bind, IsHonest-fire, IsHonest-if, IsHonest-raise,
}

module _ {page : Page} where
  IsHonest-dispatch_invoke :
      (target : NodeIdentity) (deadline : ℤ)
      → IsHonest {page = page} (dispatch_invoke target deadline)
  unfolding dispatch_invoke
  IsHonest-dispatch_invoke target deadline =
      IsHonest-bind _ _ (IsQuiet-check_effect_boundary deadline) λ a.
        IsHonest-bind _ _ (IsQuiet-verify_process_for_effect deadline) λ b.
          IsHonest-bind _ _ (IsQuiet-resolve_object_for_effect _ _ deadline) λ object.
            IsHonest-bind _ _ (IsQuiet-probe_object_for_effect object _ _ deadline) λ seen.
              IsHonest-bind _ _ (IsQuiet-raise_if _ _ refl) λ c.
                IsHonest-bind _ _ (IsQuiet-check_effect_boundary deadline) λ d.
                  IsHonest-bind _ _ (IsQuiet-verify_process_for_effect deadline) λ e.
                    IsHonest-bind _ _ (IsQuiet-verify_live_target_for_effect target _ _ deadline)
                      λ f. IsHonest-bind _ _ (IsQuiet-check_effect_boundary deadline) λ g.
                        IsHonest-bind _ _ (IsQuiet-verify_process_for_effect deadline) λ h.
                          IsHonest-fire invoke_effect object deadline _ refl
                            (λ v. IsJudge-judge_invoke invoke_effect v deadline)

  IsHonest-dispatch_set_value :
      (target : NodeIdentity) (value : String) (deadline : ℤ)
      → IsHonest {page = page} (dispatch_set_value target value deadline)
  unfolding dispatch_set_value
  IsHonest-dispatch_set_value target value deadline =
      IsHonest-bind _ _ (IsQuiet-check_effect_boundary deadline) λ a.
        IsHonest-bind _ _ (IsQuiet-raise_if _ _ refl) λ b.
          IsHonest-bind _ _ (IsQuiet-verify_process_for_effect deadline) λ c.
            IsHonest-bind _ _ (IsQuiet-resolve_object_for_effect _ _ deadline) λ object.
              IsHonest-bind _ _ (IsQuiet-probe_object_for_effect object _ _ deadline) λ seen.
                IsHonest-bind _ _ (IsQuiet-raise_if _ _ refl) λ d.
                  IsHonest-bind _ _ (IsQuiet-verify_live_target_for_effect target _ _ deadline) λ e.
                    IsHonest-bind _ _ (IsQuiet-check_effect_boundary deadline) λ f.
                      IsHonest-bind _ _ (IsQuiet-verify_process_for_effect deadline) λ g.
                        IsHonest-fire (set_value_effect value) object deadline _ refl (λ v.
                          IsJudge-judge_set_value (set_value_effect value) v target object value
                            deadline)

  IsQuiet-aim_scroll :
      (target : NodeIdentity) (direction : Direction) (object : String) (deadline : ℤ)
      → IsQuiet {page = page} (aim_scroll target direction object deadline)
  unfolding aim_scroll
  IsQuiet-aim_scroll target direction object deadline =
      IsQuiet-bind _ _ (IsQuiet-query_for_effect _ deadline refl) λ response.
        IsQuiet-bind _ _ (IsQuiet-need _ _ refl) λ seen.
          IsQuiet-bind _ _ (IsQuiet-raise_if _ _ refl) λ a.
            IsQuiet-bind _ _ (IsQuiet-query_for_effect _ deadline refl) λ first_box.
              IsQuiet-bind _ _ (IsQuiet-wait_for_stability_sample deadline) λ b.
                IsQuiet-bind _ _ (IsQuiet-query_for_effect _ deadline refl) λ second_box.
                  IsQuiet-bind _ _ (IsQuiet-lift _ (settled-border_quad page first_box))
                    λ first_quad.
                      IsQuiet-bind _ _ (IsQuiet-lift _ (settled-border_quad page second_box))
                        λ second_quad. IsQuiet-bind _ _ (IsQuiet-raise_if _ _ refl) λ c.
                          IsQuiet-bind _ _ (IsQuiet-query_for_effect _ deadline refl) λ layout.
                            IsQuiet-bind _ _
                              (IsQuiet-lift _ (settled-viewport_point page second_quad layout))
                              λ point.
                                IsQuiet-bind _ _ (IsQuiet-query_for_effect _ deadline refl) λ hit.
                                  IsQuiet-bind _ _ (IsQuiet-need _ _ refl)
                                    λ node. IsQuiet-raise_if _ _ refl

  IsHonest-dispatch_scroll :
      (target : NodeIdentity) (direction : Direction) (deadline : ℤ)
      → IsHonest {page = page} (dispatch_scroll target direction deadline)
  unfolding dispatch_scroll
  IsHonest-dispatch_scroll target direction deadline =
      IsHonest-bind _ _ (IsQuiet-check_effect_boundary deadline) λ a.
        IsHonest-bind _ _ (IsQuiet-verify_process_for_effect deadline) λ b.
          IsHonest-bind _ _ (IsQuiet-resolve_object_for_effect _ _ deadline) λ object.
            IsHonest-bind _ _ (IsQuiet-aim_scroll target direction object deadline) λ c.
              IsHonest-bind _ _ (IsQuiet-check_effect_boundary deadline) λ d.
                IsHonest-bind _ _ (IsQuiet-verify_process_for_effect deadline) λ e.
                  IsHonest-bind _ _ (IsQuiet-verify_live_target_for_effect target _ _ deadline) λ f.
                    IsHonest-bind _ _ (IsQuiet-query_for_effect _ deadline refl) λ response.
                      IsHonest-bind _ _ (IsQuiet-raise_if _ _ refl) λ g.
                        IsHonest-bind _ _ (IsQuiet-check_effect_boundary deadline) λ h.
                          IsHonest-bind _ _ (IsQuiet-verify_process_for_effect deadline) λ i.
                            IsHonest-fire (scroll_effect _ _) object deadline _ refl
                              (λ v. IsJudge-judge_scroll (scroll_effect _ _) v direction deadline)

  IsHonest-run_action :
      (action : Action) (node : CdpNode) (identity : NodeIdentity) (deadline : ℤ)
      → IsHonest {page = page} (run_action node identity deadline action)
  IsHonest-run_action action node identity deadline =
      elim action as (λ k. IsHonest {page = page} (run_action node identity deadline k)) [
        | Action.invoke ↦
            IsHonest-if _ _ _ (IsHonest-dispatch_invoke identity deadline) (IsHonest-raise _ refl)
        | Action.set_value v ↦
            IsHonest-if _ _ _ (IsHonest-dispatch_set_value identity v deadline)
              (IsHonest-raise _ refl)
        | Action.scroll d n ↦
            IsHonest-if _ _ _ (IsHonest-dispatch_scroll identity d deadline) (IsHonest-raise _ refl)
        | _ ↦ IsHonest-raise _ refl
      ]

  IsHonest-dispatch_node :
      (action : Action) (deadline : ℤ) (node : CdpNode) (identity : NodeIdentity)
      → IsHonest {page = page} (dispatch_node action deadline node identity)
  IsHonest-dispatch_node action deadline node identity =
      IsHonest-bind _ _ (IsQuiet-current_document_id_for_effect deadline) λ document.
        IsHonest-bind _ _ (IsQuiet-raise_if _ _ refl) λ a.
          IsHonest-bind _ _ (IsQuiet-check_effect_boundary deadline) λ b.
            IsHonest-bind _ _ (IsQuiet-raise_if _ _ refl)
              λ c. IsHonest-run_action action node identity deadline

  IsHonest-dispatch_element :
      (action : Action) (verification : VerificationPolicy) (deadline : ℤ) (element : NativeElement)
      → IsHonest {page = page} (dispatch_element action verification deadline element)
  IsHonest-dispatch_element action verification deadline element =
      IsHonest-bind _ _ (IsQuiet-raise_if _ _ refl) λ a.
        IsHonest-bind _ _ (IsQuiet-raise_if _ _ refl) λ b.
          IsHonest-bind _ _ (IsQuiet-ask _) λ readable.
            IsHonest-bind _ _ (IsQuiet-raise_if _ _ refl) λ c.
              IsHonest-bind _ _ (IsQuiet-gets _) λ latest.
                IsHonest-bind _ _ (IsQuiet-need _ _ refl) λ stored.
                  IsHonest-bind _ _ (IsQuiet-need _ _ refl)
                    λ node. IsHonest-dispatch_node action deadline node _

  IsHonest-dispatch_target :
      (action : Action) (verification : VerificationPolicy) (deadline : ℤ) (target : ResolvedTarget)
      → IsHonest {page = page} (dispatch_target action verification deadline target)
  IsHonest-dispatch_target action verification deadline target =
      elim target
        as (λ t. IsHonest {page = page} (dispatch_target action verification deadline t)) [
          | ResolvedTarget.native_element element ↦
              IsHonest-dispatch_element action verification deadline element
          | _ ↦ IsHonest-raise _ refl
        ]

  -- A dispatch to the browser, from a session that has sent no effect, sends at most one function
  -- with an effect. If it reports success, it sent one and the page said that it ran it. If it reports
  -- an error that does not call the effect unknown, it sent none, or the channel failed before it was
  -- sent, or the page said that it did not run it. If it sent none, the error does not call the effect
  -- unknown.
  pub dispatch-IsHonest :
      (action : Action) (target : ResolvedTarget) (verification : VerificationPolicy) (deadline : ℤ)
      (s : Session page)
      → s.effects ≡ []
      → honest
          (dispatch action target verification deadline s).0
          (dispatch action target verification deadline s).1.effects
        ≡ true
  unfolding dispatch
  dispatch-IsHonest action target verification deadline s p =
      (IsHonest-bind _ _ (IsQuiet-check_effect_boundary deadline)
          λ a. IsHonest-dispatch_target action verification deadline target).at
        s p
