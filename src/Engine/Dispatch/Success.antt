-- ===== src/Engine/Dispatch/Success.antt =====
-- When a dispatch of `Engine::execute` in src/lib.rs ends in a success.
use praefectus.Prelude.{ℤ, ◌≡◌, true, false, leb_ℤ, ◌||◌, String, Option}
use praefectus.Protocol.{
  ContextPreservation, DispatchReceipt, Observation, Result, ok, effect_is_verified, is_unverified,
}
use praefectus.Host.{Dispatched, Env, State, done, is_cancelled, now_ms}
use praefectus.Outcome.Verdict.{verify}
use praefectus.Engine.Conclude.{Run, context_preservation}
use praefectus.Engine.Dispatch.{context_is_lost, expected_fingerprint, is_boundary_error, ok_of}

module _ {env : Env} where
  -- Neither the flag nor the clock stops a run that asks for them in this state.
  abbrev pub Continues : ℤ → State env → Type 0
  Continues deadline s =
      ((env.is_cancelled s.world).0 ≡ false)
      × (leb_ℤ deadline (env.now_ms (env.is_cancelled s.world).1).0 ≡ false)

  abbrev pub after_checks : State env → State env
  after_checks s = record s { world = (env.now_ms (env.is_cancelled s.world).1).1 }

  -- The observation after the effect, and the state in which it leaves the run.
  abbrev pub observed : Run → State env → Result Observation
  observed run s = (env.observe run.request.target run.effect_deadline_at_ms s.world).0

  abbrev pub after_observation : Run → State env → State env
  after_observation run s = record s {
    world = (env.observe run.request.target run.effect_deadline_at_ms s.world).1;
  }

  -- A dispatch that was done: the run is in time when it returns; the context of the desktop, which is
  -- asked for next, is kept; the observation that follows does not end at the boundary, and the run is
  -- still in time after it; and the observation verifies the effect, unless no verification is asked
  -- for.
  pub record IsProven (run : Run) (before : Observation) (context_before : Option String)
      (d : Dispatched) (s : State env) : Type 0 where
    pub receipt : DispatchReceipt
    pub dispatched : d ≡ done receipt
    pub in_time : Continues run.effect_deadline_at_ms s
    pub context : ContextPreservation
    pub preserved : (context_preservation run context_before (after_checks s)).0 ≡ ok context
    pub kept : context_is_lost context ≡ false
    pub seen_in_time :
        is_boundary_error
          (observed run (context_preservation run context_before (after_checks s)).1)
        ≡ false
    pub still_in_time :
        Continues run.effect_deadline_at_ms
          (after_observation run (context_preservation run context_before (after_checks s)).1)
    pub shown :
        (is_unverified run.request.verification
          || effect_is_verified
              (verify run.request.verification before
                (ok_of (observed run (context_preservation run context_before (after_checks s)).1))
                (expected_fingerprint run.request.target)).0)
        ≡ true
