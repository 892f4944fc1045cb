-- ===== src/Engine/Dispatch/Judged.antt =====
-- How `Engine::execute` of src/lib.rs judges a completed dispatch, whose context and observation it
-- has.
use praefectus.Prelude.{
  ℤ, ◌≡◌, refl, Bool, true, false, String, List, arith, ◌||◌, ◌&&◌, not, ap, subst, Bool-cases, inl,
  inr,
}
use praefectus.Protocol.{
  ContextPreservation, DeliveryRoute, DispatchReceipt, Effect, Observation, Receipt, Result,
  Terminal, effect_is_verified, effect_is_unknown, is_unverified, succeeded,
}
use praefectus.Outcome.Verdict.{verify}
use praefectus.Engine.Conclude.{Run}
use praefectus.Engine.Dispatch.{
  context_is_lost, expected_fingerprint, full_receipt, ok_of, judged, outcome_of, terminal_of,
}

abbrev pub is_success : Terminal → Bool
is_success (succeeded r) = true
is_success _ = false

effect_lowered :
    (boundary : Bool) (context : ContextPreservation) (found : Effect × List String)
    → (boundary || context_is_lost context) ≡ true
    → (judged boundary context found).0 ≡ Effect.unknown
unfolding judged
effect_lowered true ContextPreservation.not_applicable (effect, warnings) h = refl
effect_lowered true ContextPreservation.unchanged_at_boundaries (effect, warnings) h = refl
effect_lowered true ContextPreservation.changed (effect, warnings) h = refl
effect_lowered true ContextPreservation.unavailable (effect, warnings) h = refl
effect_lowered true ContextPreservation.host_isolated (effect, warnings) h = refl
effect_lowered false ContextPreservation.not_applicable (effect, warnings) h = cc
effect_lowered false ContextPreservation.unchanged_at_boundaries (effect, warnings) h = cc
effect_lowered false ContextPreservation.changed (effect, warnings) h = refl
effect_lowered false ContextPreservation.unavailable (effect, warnings) h = refl
effect_lowered false ContextPreservation.host_isolated (effect, warnings) h = cc

effect_kept :
    (context : ContextPreservation) (found : Effect × List String)
    → context_is_lost context ≡ false
    → judged false context found ≡ found
unfolding judged
effect_kept ContextPreservation.not_applicable (effect, warnings) h = refl
effect_kept ContextPreservation.unchanged_at_boundaries (effect, warnings) h = refl
effect_kept ContextPreservation.changed (effect, warnings) h = cc
effect_kept ContextPreservation.unavailable (effect, warnings) h = cc
effect_kept ContextPreservation.host_isolated (effect, warnings) h = refl

known_effect :
    (run : Run) (boundary : Bool) (receipt : Receipt)
    → is_success (terminal_of run boundary receipt) ≡ true
    → (effect_is_unknown receipt.effect ≡ false)
      × ((is_unverified run.request.verification || effect_is_verified receipt.effect) ≡ true)
unfolding terminal_of
known_effect run boundary receipt h =
    elim (Bool-cases (
      not (effect_is_unknown receipt.effect)
      && (is_unverified run.request.verification || effect_is_verified receipt.effect))) [
        | inl e ↦ ground (arith, e)
        | inr e ↦ absurd (ground (arith, e, h))
      ]

success-cases :
    (run : Run) (boundary : Bool) (context : ContextPreservation) (found : Effect × List String)
    → (effect_is_unknown (judged boundary context found).0 ≡ false)
      × ((is_unverified run.request.verification
            || effect_is_verified (judged boundary context found).0)
          ≡ true)
    → (boundary ≡ false)
      × ((context_is_lost context ≡ false)
          × ((is_unverified run.request.verification || effect_is_verified found.0) ≡ true))
success-cases run boundary context found (known, good) =
    elim (Bool-cases (boundary || context_is_lost context)) [
      | inl e ↦
          let bad = ap effect_is_unknown (effect_lowered boundary context found e) in
          absurd (ground (arith, bad, known))
      | inr e ↦
          let early : boundary ≡ false = ground (arith, e) in
          let kept : context_is_lost context ≡ false = ground (arith, e) in
          let same : judged boundary context found ≡ found =
            rw early (effect_kept context found kept) in
          (
            early,
            (
              kept,
              subst
                  (λ (x : Effect × List String).
                    (is_unverified run.request.verification || effect_is_verified x.0) ≡ true)
                  same good,
            ),
          )
    ]

-- What is judged a success was not past its boundary, lost no context of the desktop, and its effect
-- was verified unless the request asked for no verification.
pub outcome_of-success :
    (run : Run) (route : DeliveryRoute) (started finished : ℤ) (d : DispatchReceipt)
    (context : ContextPreservation) (before : Observation) (after : Result Observation)
    (boundary : Bool)
    → is_success (outcome_of run route started finished d context before after boundary) ≡ true
    → (boundary ≡ false)
      × ((context_is_lost context ≡ false)
          × ((is_unverified run.request.verification
                || effect_is_verified
                    (verify run.request.verification before
                      (ok_of after)
                      (expected_fingerprint run.request.target)).0)
              ≡ true))
unfolding outcome_of
outcome_of-success run route started finished d context before after boundary h =
    let found =
      verify run.request.verification before (ok_of after)
        (expected_fingerprint run.request.target) in
    let receipt =
      full_receipt run route started finished d context before after
        (judged boundary context found) in
    let known = known_effect run boundary receipt h in
    success-cases run boundary context found (known.0, known.1)
