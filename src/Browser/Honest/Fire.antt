-- ===== src/Browser/Honest/Fire.antt =====
-- One function with an effect, sent after checks and judged after its answer: rules for honest actions.
use praefectus.Prelude.{
  ℤ, ◌≡◌, refl, ap, ◌∙◌, Bool, true, false, String, List, [], ◌∷◌, arith, if◌then◌else◌,
}
use praefectus.Prelude.Try.{Try, ok, err}
use praefectus.Json.{Value}
use praefectus.Protocol.{DispatchError, DispatchReceipt}
use praefectus.Browser.Page.{
  CdpChannelError, Page, PageFunction, after_send, before_send, call_function_on, invoke_effect,
  probe, protected_probe, scroll_effect, scroll_probe, set_value_effect,
}
use praefectus.Browser.Session.{
  Exec, Sent, Session, lift, pure, raise, record_function, send, ◌>>=◌,
}
use praefectus.Browser.Accessibility.{no_effect}
use praefectus.Browser.Boundary.{check_effect_boundary}
use praefectus.Browser.Query.{effect_answer, effect_command}
use praefectus.Browser.Honest.{
  IsQuiet, IsQuiet-ask, IsQuiet-raise_if, IsStill, IsStill-bind, IsStill-raise, honest, is_unknown,
  settled,
}
use praefectus.Browser.Honest.Queries.{IsQuiet-check_effect_boundary}
use praefectus.Browser.Honest.Judges.{IsJudge}

abbrev is_effect : PageFunction → Bool
is_effect probe = false
is_effect protected_probe = false
is_effect scroll_probe = false
is_effect _ = true

recorded :
    (f : PageFunction) (reply : Try CdpChannelError Value) (sent : List Sent)
    → is_effect f ≡ true
    → record_function f reply sent ≡ record { function = f; reply = reply } ∷ sent
recorded probe reply sent h = cc
recorded protected_probe reply sent h = cc
recorded scroll_probe reply sent h = cc
recorded invoke_effect reply sent h = refl
recorded (set_value_effect v) reply sent h = refl
recorded (scroll_effect a d) reply sent h = refl

-- From a session that sent nothing.
pub record IsHonest {page : Page} (m : Exec page DispatchError DispatchReceipt) : Type 0 where
  pub at : (s : Session page) → s.effects ≡ [] → honest (m s).0 (m s).1.effects ≡ true

-- The answer to the function, if there is one, or an honest error.
abbrev Fired : PageFunction → Try DispatchError Value → List Sent → Type 0
Fired f (ok v) sent = sent ≡ record { function = f; reply = ok v } ∷ []
Fired f (err e) sent = honest (err e) sent ≡ true

record IsFire {page : Page} (f : PageFunction) (m : Exec page DispatchError Value) : Type 0 where
  at : (s : Session page) → s.effects ≡ [] → Fired f (m s).0 (m s).1.effects

-- An error after a function that was not sent.
unsent_is_honest :
    (f : PageFunction) (t : Try DispatchError Value) (sent : List Sent)
    → ((v : Value) → t ≡ ok v → ⊥)
    → sent ≡ record { function = f; reply = err before_send } ∷ []
    → Fired f t sent
unsent_is_honest f (ok v) sent n p = absurd (n v refl)
unsent_is_honest f (err e) sent n p = rw p (ground arith)

module _ {page : Page} where
  pub IsHonest-raise : (e : DispatchError) → is_unknown e ≡ false → IsHonest {page = page} (raise e)
  unfolding raise
  IsHonest-raise e h = record { at = λ s p. rw p (ground (arith, h)) }

  pub IsHonest-if :
      (b : Bool) (m n : Exec page DispatchError DispatchReceipt)
      → IsHonest m
      → IsHonest n
      → IsHonest (if b then m else n)
  IsHonest-if true m n h k = h
  IsHonest-if false m n h k = k

  continue-honest :
      {A : Type 0} (t : Try DispatchError A) (next : A → Exec page DispatchError DispatchReceipt)
      (s : Session page)
      → settled t ≡ true
      → s.effects ≡ []
      → ((a : A) → IsHonest (next a))
      → honest ((lift t >>= next) s).0 ((lift t >>= next) s).1.effects ≡ true
  unfolding ◌>>=◌ lift
  continue-honest (ok a) next s h p k = (k a).at s p
  continue-honest (err e) next s h p k = rw p h

  pub IsHonest-bind :
      {A : Type 0} (m : Exec page DispatchError A)
      (next : A → Exec page DispatchError DispatchReceipt)
      → IsQuiet m
      → ((a : A) → IsHonest (next a))
      → IsHonest (m >>= next)
  unfolding ◌>>=◌ lift
  IsHonest-bind m next h k = record {
    at = λ s p. continue-honest (m s).0 next (m s).1 (h.known s) (h.still.at s ∙ p) k;
  }

  continue-fire :
      {A : Type 0} (f : PageFunction) (t : Try DispatchError A)
      (next : A → Exec page DispatchError Value) (s : Session page)
      → settled t ≡ true
      → s.effects ≡ []
      → ((a : A) → IsFire f (next a))
      → Fired f ((lift t >>= next) s).0 ((lift t >>= next) s).1.effects
  unfolding ◌>>=◌ lift
  continue-fire f (ok a) next s h p k = (k a).at s p
  continue-fire f (err e) next s h p k = rw p h

  IsFire-bind :
      {A : Type 0} (f : PageFunction) (m : Exec page DispatchError A)
      (next : A → Exec page DispatchError Value)
      → IsQuiet m
      → ((a : A) → IsFire f (next a))
      → IsFire f (m >>= next)
  unfolding ◌>>=◌ lift
  IsFire-bind f m next h k = record {
    at = λ s p. continue-fire f (m s).0 next (m s).1 (h.known s) (h.still.at s ∙ p) k;
  }

  continue-fails :
      {A : Type 0} (t : Try DispatchError A) (e : DispatchError) (s : Session page) (v : Value)
      → ((lift t >>= λ u. raise e) s).0 ≡ ok v
      → ⊥
  unfolding ◌>>=◌ lift raise
  continue-fails (ok u) e s v h = cc
  continue-fails (err d) e s v h = cc

  unsent_fails :
      (deadline : ℤ) (s : Session page) (v : Value)
      → (effect_answer false deadline (err before_send) s).0 ≡ ok v
      → ⊥
  unfolding ◌>>=◌ lift
  unsent_fails deadline s v h =
      continue-fails (check_effect_boundary deadline s).0
        (no_effect "browser effect was not dispatched") (check_effect_boundary deadline s).1 v h

  IsStill-unsent :
      (deadline : ℤ) → IsStill {page = page} (effect_answer false deadline (err before_send))
  IsStill-unsent deadline =
      IsStill-bind _ _ (IsQuiet-check_effect_boundary deadline).still λ u. IsStill-raise _

  -- The answer of the channel to a function with an effect.
  answered :
      (f : PageFunction) (deadline : ℤ) (reply : Try CdpChannelError Value) (s : Session page)
      → s.effects ≡ record { function = f; reply = reply } ∷ []
      → Fired f
          (effect_answer false deadline reply s).0
          (effect_answer false deadline reply s).1.effects
  unfolding pure raise
  answered f deadline (ok v) s p = p
  answered f deadline (err after_send) s p = rw p refl
  answered f deadline (err before_send) s p =
      unsent_is_honest f (effect_answer false deadline (err before_send) s).0
        (effect_answer false deadline (err before_send) s).1.effects
        (λ v e. unsent_fails deadline s v e) ((IsStill-unsent deadline).at s ∙ p)

  IsFire-send :
      (f : PageFunction) (object : String) (deadline : ℤ)
      → is_effect f ≡ true
      → IsFire {page = page} f (
          send (call_function_on object f) deadline >>= λ reply. effect_answer false deadline reply)
  unfolding ◌>>=◌ send
  IsFire-send f object deadline h = record {
    at = λ s p.
        let reply = (page.command (call_function_on object f) deadline s.world).0 in
        answered f deadline reply
          (send {E = DispatchError} (call_function_on object f) deadline s).1
          (recorded f reply s.effects h
            ∙ ap (λ (l : List Sent). record { function = f; reply = reply } ∷ l) p);
  }

  IsFire-effect_command :
      (f : PageFunction) (object : String) (deadline : ℤ)
      → is_effect f ≡ true
      → IsFire {page = page} f (effect_command (call_function_on object f) deadline false)
  unfolding effect_command
  IsFire-effect_command f object deadline h =
      IsFire-bind f _ _ (IsQuiet-check_effect_boundary deadline) λ u.
        IsFire-bind f _ _ (IsQuiet-ask _) λ locked.
          IsFire-bind f _ _ (IsQuiet-raise_if _ _ refl) λ w. IsFire-send f object deadline h

  continue-judged :
      (f : PageFunction) (t : Try DispatchError Value)
      (next : Value → Exec page DispatchError DispatchReceipt) (s : Session page)
      → Fired f t s.effects
      → ((v : Value) → IsJudge f v (next v))
      → honest ((lift t >>= next) s).0 ((lift t >>= next) s).1.effects ≡ true
  unfolding ◌>>=◌ lift
  continue-judged f (ok v) next s h k = (k v).at s h
  continue-judged f (err e) next s h k = error_is_honest e s.effects h
    where
      error_is_honest :
          (e : DispatchError) (sent : List Sent)
          → honest (err e) sent ≡ true
          → honest (err e) sent ≡ true
      error_is_honest e sent h = h

  -- The effect, and then its judgement.
  pub IsHonest-fire :
      (f : PageFunction) (object : String) (deadline : ℤ)
      (next : Value → Exec page DispatchError DispatchReceipt)
      → is_effect f ≡ true
      → ((v : Value) → IsJudge f v (next v))
      → IsHonest (effect_command (call_function_on object f) deadline false >>= next)
  unfolding ◌>>=◌ lift
  IsHonest-fire f object deadline next h k = record {
    at = λ s p.
        let m = effect_command (call_function_on object f) deadline false in
        continue-judged f (m s).0 next (m s).1 ((IsFire-effect_command f object deadline h).at s p)
          k;
  }
