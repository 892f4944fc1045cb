-- ===== src/Engine/Dispatch/Refused.antt =====
-- A refused dispatch of `Engine::execute` in src/lib.rs does not end in a success.
use praefectus.Prelude.{ℤ, ◌≡◌, refl, Bool, true, false, leb_ℤ, String, Option, if◌then◌else◌}
use praefectus.Protocol.{
  ContextPreservation, DeliveryRoute, DispatchError, DispatchReceipt, EffectKnowledge, Observation,
  Receipt, Result, Terminal, ok, err, effect_is_verified, is_unverified, rejected, succeeded,
}
use praefectus.Protocol
use praefectus.Host.{Env, Exec, State, ◌>>=◌, continue, is_cancelled, now_ms, pure}
use praefectus.Outcome.Verdict.{dispatch_message}
use praefectus.Engine.Conclude.{Run}
use praefectus.Engine.Dispatch.{refusal, unknown_receipt, unless_cancelled, unless_late}
use praefectus.Engine.Dispatch.Judged.{is_success}

abbrev settled_to : Terminal → Bool → Result (Terminal × Bool)
settled_to t x = ok (t, x)

pub success_of_ok :
    (t : Terminal) (x : Bool) (receipt : Receipt) (b : Bool)
    → settled_to t x ≡ settled_to (succeeded receipt) b
    → is_success t ≡ true
success_of_ok t x receipt b h = same t (succeeded receipt) x b h
  where
    same :
        (t u : Terminal) (x y : Bool)
        → settled_to t x ≡ settled_to u y
        → is_success t ≡ is_success u
    same t u x y e = cc

module _ {env : Env} {A B : Type 0} where
  continue-ok :
      (r : Result A) (next : A → Exec env B) (s : State env) (b : B)
      → (continue r next s).0 ≡ ok b
      → (a : A) × (r ≡ ok a) × ((next a s).0 ≡ ok b)
  continue-ok (ok a) next s b h = (a, refl, h)
  continue-ok (err x) next s b h = cc

  pub bind-ok :
      (m : Exec env A) (next : A → Exec env B) (s : State env) (b : B)
      → ((m >>= next) s).0 ≡ ok b
      → (a : A) × ((m s).0 ≡ ok a) × ((next a (m s).1).0 ≡ ok b)
  unfolding ◌>>=◌
  bind-ok m next s b h = continue-ok (m s).0 next (m s).1 b h

module _ {env : Env} where
  pub unknown-fails :
      (m : Exec env Receipt) (next : Receipt → Exec env (Terminal × Bool)) (s : State env)
      (receipt : Receipt) (b : Bool)
      → ((r : Receipt) (s' : State env) → (next r s').0 ≡ ok (succeeded receipt, b) → ⊥)
      → ((m >>= next) s).0 ≡ ok (succeeded receipt, b)
      → ⊥
  unknown-fails m next s receipt b never h =
      let (r, e, h1) = bind-ok m next s (succeeded receipt, b) h in never r (m s).1 h1

  abbrev settled : Terminal → Bool → Exec env (Terminal × Bool)
  settled t x = pure (t, x)

  pub pure-fails :
      (t : Terminal) (x : Bool) (s : State env) (receipt : Receipt) (b : Bool)
      → is_success t ≡ false
      → (settled t x s).0 ≡ ok (succeeded receipt, b)
      → ⊥
  unfolding pure
  pure-fails t x s receipt b failed h = cc (failed, success_of_ok t x receipt b h)

  unless_late-fails :
      (run : Run) (e : DispatchError) (s : State env) (receipt : Receipt) (b : Bool)
      → (unless_late run e s).0 ≡ ok (succeeded receipt, b)
      → ⊥
  unless_late-fails run e s receipt b h =
      let (now, p, h1) = bind-ok now_ms _ s (succeeded receipt, b) h in
      by_clock (leb_ℤ run.effect_deadline_at_ms now) (now_ms s).1 h1
    where
      by_clock :
          (late : Bool) (s' : State env)
          → ((if late
                then settled Protocol.expired_before_effect false
                else settled (rejected e.code (dispatch_message e.effect)) false)
              s').0
            ≡ ok (succeeded receipt, b)
          → ⊥
      by_clock true s' h = pure-fails _ false s' receipt b refl h
      by_clock false s' h = pure-fails _ false s' receipt b refl h

  pub refusal-fails :
      (run : Run) (started : ℤ) (before : Observation) (context_before : Option String)
      (e : DispatchError) (k : EffectKnowledge) (s : State env) (receipt : Receipt) (b : Bool)
      → (refusal run started before context_before e k s).0 ≡ ok (succeeded receipt, b)
      → ⊥
  refusal-fails run started before context_before e EffectKnowledge.unknown s receipt b h =
      unknown-fails (unknown_receipt run started before context_before) _ s receipt b
        (λ r s' h1. pure-fails _ true s' receipt b refl h1) h
  refusal-fails run started before context_before e EffectKnowledge.cancelled_before_effect s
        receipt b h =
      pure-fails _ false s receipt b refl h
  refusal-fails run started before context_before e EffectKnowledge.expired_before_effect s receipt
        b h =
      pure-fails _ false s receipt b refl h
  refusal-fails run started before context_before e EffectKnowledge.no_effect s receipt b h =
      let (cancelled, p, h1) = bind-ok is_cancelled _ s (succeeded receipt, b) h in
      by_flag cancelled h1
    where
      by_flag :
          (cancelled : Bool)
          → (unless_cancelled run e cancelled (is_cancelled s).1).0 ≡ ok (succeeded receipt, b)
          → ⊥
      by_flag true h = pure-fails _ false (is_cancelled s).1 receipt b refl h
      by_flag false h = unless_late-fails run e (is_cancelled s).1 receipt b h
