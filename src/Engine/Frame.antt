-- ===== src/Engine/Frame.antt =====
-- Every step of `Engine::execute` but the dispatch keeps the ledger's lines and dispatches nothing.
use praefectus.Prelude.{ℤ, Bool, true, false, Option, none, some, String}
use praefectus.Protocol.{
  ActionAck, AckState, DeliveryRoute, DispatchError, DispatchReceipt, EffectKnowledge, Observation,
  OutcomeKey, SessionIsolation, Terminal, accepted, executing, terminal,
}
use praefectus.Host.{Dispatched, Env, done, refused}
use praefectus.Host.Frame.{
  IsFrame-attempt, IsFrame-bind, IsFrame-call, IsFrame-now_ms, IsFrame-pure, IsFrame, frame_rules,
}
use praefectus.Ledger.Frame.{IsFrame-finish, IsFrame-finish_after_effect}
use praefectus.Engine.Conclude.{
  Run, conclude, conclude_with, context_preservation, finish_early, or_late, past_boundary,
  preserved_from, record_outcome, record_state,
}
use praefectus.Engine.Dispatch
use praefectus.Engine.Dispatch.{
  at_boundary, classify, completed, receipt_of, refusal, unknown_receipt,
}
use praefectus.Engine.Execute.{interrupted_receipt, settle}

module _ {env : Env} where
  IsFrame-record_state :
      (key : OutcomeKey) (s : AckState) → IsFrame {env = env} (record_state key s)
  IsFrame-record_state key accepted = search frame_rules
  IsFrame-record_state key executing = search frame_rules
  IsFrame-record_state key (terminal t) = search frame_rules

  IsFrame-record_outcome :
      (key : OutcomeKey) (a : ActionAck) → IsFrame {env = env} (record_outcome key a)
  unfolding record_outcome
  IsFrame-record_outcome key a = IsFrame-record_state key a.state

  pub IsFrame-finish_early : (run : Run) (t : Terminal) → IsFrame {env = env} (finish_early run t)
  unfolding finish_early
  IsFrame-finish_early run t = search (frame_rules, IsFrame-finish) depth 8

  IsFrame-or_late : (late : Bool) (deadline : ℤ) → IsFrame {env = env} (or_late late deadline)
  IsFrame-or_late true deadline = search frame_rules
  IsFrame-or_late false deadline = search frame_rules

  IsFrame-past_boundary : (deadline : ℤ) → IsFrame {env = env} (past_boundary deadline)
  unfolding past_boundary
  IsFrame-past_boundary deadline = search (frame_rules, IsFrame-or_late)

  IsFrame-preserved_from :
      (deadline : ℤ) (before : Option String) → IsFrame {env = env} (preserved_from deadline before)
  IsFrame-preserved_from deadline none = search frame_rules
  IsFrame-preserved_from deadline (some before) = search frame_rules depth 8

  IsFrame-context_preservation :
      (run : Run) (before : Option String) → IsFrame {env = env} (context_preservation run before)
  unfolding context_preservation
  IsFrame-context_preservation run before = search (frame_rules, IsFrame-preserved_from) depth 8

  IsFrame-unknown_receipt :
      (run : Run) (started : ℤ) (before : Observation) (c : Option String)
      → IsFrame {env = env} (unknown_receipt run started before c)
  unfolding unknown_receipt
  IsFrame-unknown_receipt run started before c =
      search (frame_rules, IsFrame-context_preservation) depth 12

  IsFrame-at_boundary :
      (run : Run) (started : ℤ) (before : Observation) (c : Option String) (d : DispatchReceipt)
      → IsFrame {env = env} (at_boundary run started before c d)
  unfolding at_boundary
  IsFrame-at_boundary run started before c d = search (frame_rules, IsFrame-unknown_receipt) depth 8

  IsFrame-completed :
      (run : Run) (route : DeliveryRoute) (started : ℤ) (before : Observation) (c : Option String)
      (d : DispatchReceipt)
      → IsFrame {env = env} (completed run route started before c d)
  unfolding completed
  IsFrame-completed run route started before c d =
      IsFrame-bind _ _ (IsFrame-context_preservation run c) λ context.
        IsFrame-bind _ _ (IsFrame-attempt _ (IsFrame-call _)) λ after.
          IsFrame-bind _ _ (IsFrame-past_boundary _)
            λ late. IsFrame-bind _ _ IsFrame-now_ms λ finished. IsFrame-pure _

  IsFrame-unless_late :
      (run : Run) (e : DispatchError) → IsFrame {env = env} (Dispatch.unless_late run e)
  IsFrame-unless_late run e = search frame_rules depth 8

  IsFrame-unless_cancelled :
      (run : Run) (e : DispatchError) (c : Bool)
      → IsFrame {env = env} (Dispatch.unless_cancelled run e c)
  IsFrame-unless_cancelled run e true = search frame_rules
  IsFrame-unless_cancelled run e false = IsFrame-unless_late run e

  IsFrame-refusal :
      (run : Run) (started : ℤ) (before : Observation) (c : Option String) (e : DispatchError)
      (k : EffectKnowledge)
      → IsFrame {env = env} (refusal run started before c e k)
  IsFrame-refusal run started before c e EffectKnowledge.unknown =
      search (frame_rules, IsFrame-unknown_receipt) depth 8
  IsFrame-refusal run started before c e EffectKnowledge.cancelled_before_effect =
      search frame_rules
  IsFrame-refusal run started before c e EffectKnowledge.expired_before_effect = search frame_rules
  IsFrame-refusal run started before c e EffectKnowledge.no_effect =
      search (frame_rules, IsFrame-unless_cancelled)

  IsFrame-receipt_of :
      (run : Run) (route : DeliveryRoute) (started : ℤ) (before : Observation) (c : Option String)
      (d : DispatchReceipt) (late : Bool)
      → IsFrame {env = env} (receipt_of run route started before c d late)
  IsFrame-receipt_of run route started before c d true = IsFrame-at_boundary run started before c d
  IsFrame-receipt_of run route started before c d false =
      IsFrame-completed run route started before c d

  pub IsFrame-classify :
      (run : Run) (route : DeliveryRoute) (started : ℤ) (before : Observation) (c : Option String)
      (d : Dispatched)
      → IsFrame {env = env} (classify run route started before c d)
  unfolding classify
  IsFrame-classify run route started before c (done d) =
      search (frame_rules, IsFrame-past_boundary, IsFrame-receipt_of)
  IsFrame-classify run route started before c (refused e) =
      IsFrame-refusal run started before c e e.effect

  IsFrame-conclude_with :
      (run : Run) (t : Terminal) (may : Bool) → IsFrame {env = env} (conclude_with run t may)
  IsFrame-conclude_with run t true =
      search (frame_rules, IsFrame-record_outcome, IsFrame-finish_after_effect) depth 8
  IsFrame-conclude_with run t false =
      search (frame_rules, IsFrame-record_outcome, IsFrame-finish) depth 8

  pub IsFrame-conclude : (run : Run) (r : Terminal × Bool) → IsFrame {env = env} (conclude run r)
  unfolding conclude
  IsFrame-conclude run (t, may) = search (frame_rules, IsFrame-conclude_with)

  pub IsFrame-settle : (run : Run) (t : Terminal) → IsFrame {env = env} (settle run t)
  IsFrame-settle run t = search (frame_rules, IsFrame-finish)

  pub IsFrame-interrupted_receipt :
      (run : Run) (i : SessionIsolation) → IsFrame {env = env} (interrupted_receipt run i)
  IsFrame-interrupted_receipt run i = search frame_rules depth 8
