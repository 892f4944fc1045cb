-- ===== src/Browser/Honest/Judges.antt =====
-- The command with the effect, and the judgement of what the page answered to it.
use praefectus.Prelude.{
  ℤ, ◌≡◌, refl, ◌∙◌, Bool, true, false, String, Option, none, some, [], ◌∷◌, arith,
}
use praefectus.Prelude.Try.{Try, ok, err}
use praefectus.Json.{Value}
use praefectus.Protocol.{Direction, DispatchError, DispatchReceipt}
use praefectus.Browser.Page.{CdpChannelError, Command, NodeIdentity, Page, PageFunction}
use praefectus.Browser.Session.{Exec, Session, ask, attempt, lift, pure, raise, send, ◌>>=◌}
use praefectus.Browser.Boundary.{check, check_after_effect_boundary, raise_if}
use praefectus.Browser.Query.{effect_answer, effect_command, need, probe_object_for_effect}
use praefectus.Browser.Effect.{
  eligible, invoke_verdict, judge_invoke, judge_set_value, or_unknown, set_value_verdict,
  verify_set_value,
}
use praefectus.Browser.Scroll.{confirm_scroll, judge_scroll, scroll_verdict}
use praefectus.Browser.Honest.{
  IsLate, IsStill, IsStill-ask, IsStill-bind, IsStill-pure, IsStill-raise, IsStill-attempt,
  doubtful, honest, is_unknown,
}
use praefectus.Browser.Honest.Queries.{IsStill-send, IsStill-verify_process, probe-is_read}

module _ {page : Page} {A : Type 0} where
  IsLate-pure : (a : A) → IsLate {page = page} (pure a)
  unfolding pure
  IsLate-pure a = record { still = IsStill-pure a; unclear = λ s. refl }

  IsLate-raise : (e : DispatchError) → is_unknown e ≡ true → IsLate {page = page} {A = A} (raise e)
  unfolding raise
  IsLate-raise e h = record { still = IsStill-raise e; unclear = λ s. h }

  IsLate-ask : (f : page.World → A × page.World) → IsLate {page = page} (ask f)
  unfolding ask
  IsLate-ask f = record { still = IsStill-ask f; unclear = λ s. refl }

  IsLate-need :
      (e : DispatchError) (o : Option A) → is_unknown e ≡ true → IsLate {page = page} (need e o)
  IsLate-need e none h = IsLate-raise e h
  IsLate-need e (some a) h = IsLate-pure a

module _ {page : Page} {D A : Type 0} where
  IsLate-attempt : (m : Exec page D A) → IsStill m → IsLate (attempt m)
  unfolding attempt
  IsLate-attempt m h = record { still = IsStill-attempt m h; unclear = λ s. refl }

  IsLate-or_unknown : (t : Try D A) → IsLate {page = page} (or_unknown t)
  IsLate-or_unknown (ok a) = IsLate-pure a
  IsLate-or_unknown (err e) = IsLate-raise _ refl

module _ {page : Page} {A B : Type 0} where
  continue-unclear :
      (t : Try DispatchError A) (next : A → Exec page DispatchError B) (s : Session page)
      → doubtful t ≡ true
      → ((a : A) → IsLate (next a))
      → doubtful ((lift t >>= next) s).0 ≡ true
  unfolding ◌>>=◌ lift
  continue-unclear (ok a) next s h k = (k a).unclear s
  continue-unclear (err e) next s h k = h

  IsLate-bind :
      (m : Exec page DispatchError A) (next : A → Exec page DispatchError B)
      → IsLate m
      → ((a : A) → IsLate (next a))
      → IsLate (m >>= next)
  unfolding ◌>>=◌ lift
  IsLate-bind m next h k = record {
    still = IsStill-bind m next h.still (λ a. (k a).still);
    unclear = λ s. continue-unclear (m s).0 next (m s).1 (h.unclear s) k;
  }

-- `m` judges the answer `v` to the function `f` honestly.
pub record IsJudge {page : Page} (f : PageFunction) (v : Value)
    (m : Exec page DispatchError DispatchReceipt) : Type 0 where
  pub at :
      (s : Session page)
      → s.effects ≡ record { function = f; reply = ok v } ∷ []
      → honest (m s).0 (m s).1.effects ≡ true

module _ {page : Page} (f : PageFunction) (v : Value) where
  IsJudge-unclear : (e : DispatchError) → is_unknown e ≡ true → IsJudge {page = page} f v (raise e)
  unfolding raise
  IsJudge-unclear e h = record { at = λ s p. rw p (ground (arith, h)) }

  -- The page says that it did not run the function.
  IsJudge-refused :
      (e : DispatchError) → eligible v ≡ some false → IsJudge {page = page} f v (raise e)
  unfolding raise
  IsJudge-refused e h = record { at = λ s p. rw p (ground (arith, h)) }

  IsJudge-success :
      (r : DispatchReceipt) → eligible v ≡ some true → IsJudge {page = page} f v (pure r)
  unfolding pure
  IsJudge-success r h = record { at = λ s p. rw p (ground (arith, h)) }

  continue-judge :
      {A : Type 0} (t : Try DispatchError A) (next : A → Exec page DispatchError DispatchReceipt)
      (s : Session page)
      → doubtful t ≡ true
      → s.effects ≡ record { function = f; reply = ok v } ∷ []
      → ((a : A) → IsJudge f v (next a))
      → honest ((lift t >>= next) s).0 ((lift t >>= next) s).1.effects ≡ true
  unfolding ◌>>=◌ lift
  continue-judge (ok a) next s h p k = (k a).at s p
  continue-judge (err e) next s h p k = rw p (ground (arith, h))

  IsJudge-bind :
      {A : Type 0} (m : Exec page DispatchError A)
      (next : A → Exec page DispatchError DispatchReceipt)
      → IsLate m
      → ((a : A) → IsJudge f v (next a))
      → IsJudge f v (m >>= next)
  unfolding ◌>>=◌ lift
  IsJudge-bind m next h k = record {
    at = λ s p. continue-judge (m s).0 next (m s).1 (h.unclear s) (h.still.at s ∙ p) k;
  }

module _ {page : Page} where
  IsLate-raise_if :
      (e : DispatchError) (b : Bool) → is_unknown e ≡ true → IsLate {page = page} (raise_if e b)
  IsLate-raise_if e true h = IsLate-raise e h
  IsLate-raise_if e false h = IsLate-pure tt

  IsLate-check :
      (e : DispatchError) (deadline : ℤ) (cancelled : Bool)
      → is_unknown e ≡ true
      → IsLate {page = page} (check e e deadline cancelled)
  IsLate-check e deadline true h = IsLate-raise e h
  IsLate-check e deadline false h =
      IsLate-bind _ _ (IsLate-bind _ _ (IsLate-ask _) λ now. IsLate-pure _)
        λ late. IsLate-raise_if e late h

  IsLate-check_after_effect_boundary :
      (deadline : ℤ) → IsLate {page = page} (check_after_effect_boundary deadline)
  unfolding check_after_effect_boundary
  IsLate-check_after_effect_boundary deadline =
      IsLate-bind _ _ (IsLate-ask _) λ c. IsLate-check _ deadline c refl

  IsLate-send :
      (c : Command) (deadline : ℤ)
      → IsStill {page = page} {E = DispatchError} (send c deadline)
      → IsLate {page = page} (send c deadline)
  unfolding send
  IsLate-send c deadline h = record { still = h; unclear = λ s. refl }

  IsLate-effect_answer :
      (deadline : ℤ) (t : Try CdpChannelError Value)
      → IsLate {page = page} (effect_answer true deadline t)
  IsLate-effect_answer deadline (ok v) = IsLate-pure v
  IsLate-effect_answer deadline (err e) = IsLate-raise _ refl

  IsLate-probe_object_for_effect :
      (object : String) (protected reveal : Bool) (deadline : ℤ)
      → IsLate {page = page} (probe_object_for_effect object protected reveal true deadline)
  unfolding probe_object_for_effect effect_command
  IsLate-probe_object_for_effect object protected reveal deadline =
      IsLate-bind _ _
        (IsLate-bind _ _ (IsLate-check_after_effect_boundary deadline) λ u.
          IsLate-bind _ _ (IsLate-ask _) λ locked. IsLate-bind _ _ (IsLate-raise_if _ _ refl) λ w.
            IsLate-bind _ _
              (IsLate-send _ deadline
                (IsStill-send _ deadline (probe-is_read object protected reveal)))
              λ reply. IsLate-effect_answer deadline reply)
        λ response. IsLate-bind _ _ (IsLate-raise_if _ _ refl) λ u. IsLate-need _ _ refl

  IsJudge-invoke_verdict :
      (f : PageFunction) (v : Value) (o : Option Bool)
      → eligible v ≡ o
      → IsJudge {page = page} f v (invoke_verdict o)
  IsJudge-invoke_verdict f v (some true) e = IsJudge-success f v _ e
  IsJudge-invoke_verdict f v (some false) e = IsJudge-refused f v _ e
  IsJudge-invoke_verdict f v none e = IsJudge-unclear f v _ refl

  pub IsJudge-judge_invoke :
      (f : PageFunction) (v : Value) (deadline : ℤ)
      → IsJudge {page = page} f v (judge_invoke deadline v)
  unfolding judge_invoke
  IsJudge-judge_invoke f v deadline =
      IsJudge-bind f v _ _ (IsLate-check_after_effect_boundary deadline) λ u.
        IsJudge-bind f v _ _ (IsLate-raise_if _ _ refl)
          λ w. IsJudge-invoke_verdict f v (eligible v) refl

  IsJudge-verify_set_value :
      (f : PageFunction) (v : Value) (target : NodeIdentity) (object value : String) (deadline : ℤ)
      → eligible v ≡ some true
      → IsJudge {page = page} f v (verify_set_value target object value deadline)
  unfolding verify_set_value
  IsJudge-verify_set_value f v target object value deadline e =
      IsJudge-bind f v _ _ (IsLate-attempt _ IsStill-verify_process) λ live.
        IsJudge-bind f v _ _ (IsLate-or_unknown live) λ u.
          IsJudge-bind f v _ _
            (IsLate-probe_object_for_effect object target.protected true deadline)
            λ after. IsJudge-bind f v _ _ (IsLate-raise_if _ _ refl) λ w. IsJudge-success f v _ e

  IsJudge-set_value_verdict :
      (f : PageFunction) (v : Value) (target : NodeIdentity) (object value : String) (deadline : ℤ)
      (o : Option Bool)
      → eligible v ≡ o
      → IsJudge {page = page} f v (set_value_verdict target object value deadline o)
  IsJudge-set_value_verdict f v target object value deadline (some true) e =
      IsJudge-verify_set_value f v target object value deadline e
  IsJudge-set_value_verdict f v target object value deadline (some false) e =
      IsJudge-refused f v _ e
  IsJudge-set_value_verdict f v target object value deadline none e = IsJudge-unclear f v _ refl

  pub IsJudge-judge_set_value :
      (f : PageFunction) (v : Value) (target : NodeIdentity) (object value : String) (deadline : ℤ)
      → IsJudge {page = page} f v (judge_set_value target object value deadline v)
  unfolding judge_set_value
  IsJudge-judge_set_value f v target object value deadline =
      IsJudge-bind f v _ _ (IsLate-check_after_effect_boundary deadline) λ u.
        IsJudge-bind f v _ _ (IsLate-raise_if _ _ refl)
          λ w. IsJudge-set_value_verdict f v target object value deadline (eligible v) refl

  IsJudge-confirm_scroll :
      (f : PageFunction) (v : Value) (direction : Direction) (result : Value)
      → eligible v ≡ some true
      → IsJudge {page = page} f v (confirm_scroll direction result)
  IsJudge-confirm_scroll f v direction result e =
      IsJudge-bind f v _ _ (IsLate-need _ _ refl) λ before.
        IsJudge-bind f v _ _ (IsLate-need _ _ refl) λ intended.
          IsJudge-bind f v _ _ (IsLate-need _ _ refl)
            λ after. IsJudge-bind f v _ _ (IsLate-raise_if _ _ refl) λ u. IsJudge-success f v _ e

  IsJudge-scroll_verdict :
      (f : PageFunction) (v : Value) (direction : Direction) (result : Value) (o : Option Bool)
      → eligible v ≡ o
      → IsJudge {page = page} f v (scroll_verdict direction result o)
  IsJudge-scroll_verdict f v direction result (some true) e =
      IsJudge-confirm_scroll f v direction result e
  IsJudge-scroll_verdict f v direction result (some false) e = IsJudge-refused f v _ e
  IsJudge-scroll_verdict f v direction result none e = IsJudge-unclear f v _ refl

  pub IsJudge-judge_scroll :
      (f : PageFunction) (v : Value) (direction : Direction) (deadline : ℤ)
      → IsJudge {page = page} f v (judge_scroll direction deadline v)
  unfolding judge_scroll
  IsJudge-judge_scroll f v direction deadline =
      IsJudge-bind f v _ _ (IsLate-check_after_effect_boundary deadline) λ u.
        IsJudge-bind f v _ _ (IsLate-raise_if _ _ refl) λ w.
          IsJudge-bind f v _ _ (IsLate-need _ _ refl)
            λ result. IsJudge-scroll_verdict f v direction result (eligible v) refl
