-- ===== src/Browser/Boundary.antt =====
-- The checks of the cancellation, the deadline and the process in src/cdp.rs.
use praefectus.Prelude.{
  ℕ, zero, suc, ℤ, pos, Bool, true, false, not, String, leb_ℤ, sat_sub_i64, str_eq, is_some_and,
  if◌then◌else◌, [],
}
use praefectus.Prelude.Try.{Try, ok, err}
use praefectus.Protocol.{
  DispatchError, EffectKnowledge, FailureCode, ProtocolError, DispatchReceipt,
}
use praefectus.Protocol
use praefectus.Semantic.Observation.{SemanticError}
use praefectus.Browser.Page.{CdpError, Page, backend_name}
use praefectus.Browser.Session.{Exec, ask, attempt, gets, pure, raise, ◌>>=◌, ◌>>◌}
use praefectus.Browser.Accessibility.{no_effect}

abbrev pub unknown : String → DispatchError
unknown message = record {
  message = message;
  effect = EffectKnowledge.unknown;
  code = FailureCode.dispatch_failed;
}

abbrev pub unsupported : DispatchError
unsupported = record {
  message = "browser action is unsupported";
  effect = EffectKnowledge.no_effect;
  code = FailureCode.unsupported;
}

abbrev pub cancelled_error : DispatchError
cancelled_error = record {
  message = "browser effect cancelled before dispatch";
  effect = EffectKnowledge.cancelled_before_effect;
  code = FailureCode.dispatch_failed;
}

abbrev pub expired_error : DispatchError
expired_error = record {
  message = "browser effect expired before dispatch";
  effect = EffectKnowledge.expired_before_effect;
  code = FailureCode.dispatch_failed;
}

abbrev pub success_receipt : DispatchReceipt
success_receipt = record { backend = backend_name; fallback_chain = [] }

abbrev pub backend_error : ProtocolError
backend_error = Protocol.executor "browser backend operation failed"

unfoldable pub map_semantic_error : SemanticError → CdpError
map_semantic_error SemanticError.target_not_found = CdpError.target_not_found
map_semantic_error SemanticError.stale_observation = CdpError.stale_target
map_semantic_error SemanticError.stale_target = CdpError.stale_target
map_semantic_error _ = CdpError.protocol

unfoldable pub map_cdp_protocol_error : CdpError → ProtocolError
map_cdp_protocol_error CdpError.cancelled = Protocol.observation_cancelled
map_cdp_protocol_error CdpError.expired = Protocol.observation_expired
map_cdp_protocol_error CdpError.stale_target = Protocol.stale_target "browser target changed"
map_cdp_protocol_error CdpError.target_not_found =
    Protocol.target_not_found "browser target was not found"
map_cdp_protocol_error _ = backend_error

module _ {page : Page} where
  abbrev pub is_late : {E : Type 0} → ℤ → Exec page E Bool
  is_late deadline = do now ← ask page.now_ms; pure (leb_ℤ deadline now)

  abbrev pub raise_if : {E : Type 0} → E → Bool → Exec page E (Unit {0})
  raise_if e true = raise e
  raise_if e false = pure tt

  -- The two tests of a boundary, with the error of each.
  abbrev pub check : {E : Type 0} → E → E → ℤ → Bool → Exec page E (Unit {0})
  check at_cancel at_deadline deadline true = raise at_cancel
  check at_cancel at_deadline deadline false = is_late deadline >>= raise_if at_deadline

  unfoldable pub boundary : ℤ → Exec page CdpError (Unit {0})
  boundary deadline = ask page.is_cancelled >>= check CdpError.cancelled CdpError.expired deadline

  unfoldable pub check_effect_boundary : ℤ → Exec page DispatchError (Unit {0})
  check_effect_boundary deadline =
      ask page.is_cancelled >>= check cancelled_error expired_error deadline

  unfoldable pub check_after_effect_boundary : ℤ → Exec page DispatchError (Unit {0})
  check_after_effect_boundary deadline =
      ask page.is_cancelled
      >>= check (unknown "browser effect completed at the cancellation or deadline boundary")
          (unknown "browser effect completed at the cancellation or deadline boundary") deadline

  -- The sleep of one round is no step of its own. With no rounds left the delay has passed.
  unfoldable pub wait_rounds : ℕ → ℤ → Exec page DispatchError (Unit {0})
  unfolding check_effect_boundary
  wait_rounds zero deadline = check_effect_boundary deadline
  wait_rounds (suc n) deadline = do
    check_effect_boundary deadline
    now ← ask page.now_ms
    if leb_ℤ (sat_sub_i64 deadline now) (pos 0)
        then check_effect_boundary deadline
        else wait_rounds n deadline

  unfoldable pub wait_for_stability_sample : ℤ → Exec page DispatchError (Unit {0})
  unfolding wait_rounds
  wait_for_stability_sample deadline = do rounds ← ask page.samples; wait_rounds rounds deadline

  -- Whether the process that the configuration names is live.
  unfoldable pub verify_process : Exec page CdpError (Unit {0})
  verify_process = do
    config ← gets (λ s. s.config)
    live ← ask (page.live_process_generation config.browser_process_id)
    raise_if CdpError.stale_target
        (not (is_some_and live (λ g. str_eq g config.process_generation)))

  abbrev pub no_effect_on_error :
      String → {A : Type 0} → {E : Type 0} → Try E A → Exec page DispatchError A
  no_effect_on_error message (ok a) = pure a
  no_effect_on_error message (err e) = raise (no_effect message)

  unfoldable pub verify_process_for_effect : ℤ → Exec page DispatchError (Unit {0})
  unfolding check_effect_boundary verify_process
  verify_process_for_effect deadline = do
    check_effect_boundary deadline
    found ← attempt verify_process
    check_effect_boundary deadline
    no_effect_on_error "browser process changed" found
