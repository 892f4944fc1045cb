-- ===== src/Browser/Honest.antt =====
-- What `CdpExecutor::dispatch` may say of its effect: predicates on actions, and a rule for each way
-- to build one.
pub mod Queries
pub mod Judges
pub mod Geometry
pub mod Fire
pub mod Dispatch
use praefectus.Prelude.{
  ◌≡◌, refl, sym, ap, ◌∙◌, Bool, true, false, not, ◌&&◌, ◌||◌, Option, none, some, List, [], ◌∷◌,
  arith, is_some_and, if◌then◌else◌,
}
use praefectus.Prelude.Try.{Try, ok, err}
use praefectus.Json.{Value}
use praefectus.Protocol.{DispatchError, DispatchReceipt, EffectKnowledge}
use praefectus.Browser.Page.{CdpChannelError, Command, Page, PageFunction, after_send, before_send}
use praefectus.Browser.Session.{
  Exec, Sent, Session, ask, attempt, gets, lift, pure, raise, record_command, send, ◌>>=◌,
}
use praefectus.Browser.Effect.{eligible}
use praefectus.Browser.Boundary.{raise_if}
use praefectus.Browser.Query.{need}

abbrev pub is_unknown : DispatchError → Bool
is_unknown e = elim e.effect [ EffectKnowledge.unknown ↦ true | _ ↦ false ]

-- The channel did not send the function, or the page says that it did not run it.
abbrev pub inert : Try CdpChannelError Value → Bool
inert (ok v) = is_some_and (eligible v) not
inert (err before_send) = true
inert (err after_send) = false

-- The page says that it ran the function.
abbrev pub applied : Try CdpChannelError Value → Bool
applied (ok v) = is_some_and (eligible v) (λ b. b)
applied (err e) = false

-- A success comes from one function that the page ran. An error that does not call the effect unknown
-- comes from no function at all, or from one that did not run. Without a function sent the effect is
-- not called unknown.
abbrev pub honest : Try DispatchError DispatchReceipt → List Sent → Bool
honest (ok r) [] = false
honest (ok r) (x ∷ []) = applied x.reply
honest (ok r) (x ∷ y ∷ xs) = false
honest (err e) [] = not (is_unknown e)
honest (err e) (x ∷ []) = is_unknown e || inert x.reply
honest (err e) (x ∷ y ∷ xs) = false

-- No function with an effect is sent.
pub record IsStill {page : Page} {E A : Type 0} (m : Exec page E A) : Type 0 where
  pub at : (s : Session page) → (m s).1.effects ≡ s.effects

abbrev pub settled : {A : Type 0} → Try DispatchError A → Bool
settled (ok a) = true
settled (err e) = not (is_unknown e)

-- Besides, no error calls the effect unknown.
pub record IsQuiet {page : Page} {A : Type 0} (m : Exec page DispatchError A) : Type 0 where
  pub still : IsStill m
  pub known : (s : Session page) → settled (m s).0 ≡ true

abbrev pub doubtful : {A : Type 0} → Try DispatchError A → Bool
doubtful (ok a) = true
doubtful (err e) = is_unknown e

-- Besides, every error calls the effect unknown.
pub record IsLate {page : Page} {A : Type 0} (m : Exec page DispatchError A) : Type 0 where
  pub still : IsStill m
  pub unclear : (s : Session page) → doubtful (m s).0 ≡ true

module _ {page : Page} {E A : Type 0} where
  pub IsStill-pure : (a : A) → IsStill {page = page} {E = E} (pure a)
  unfolding pure
  IsStill-pure a = record { at = λ s. refl }

  pub IsStill-raise : (e : E) → IsStill {page = page} {A = A} (raise e)
  unfolding raise
  IsStill-raise e = record { at = λ s. refl }

  pub IsStill-lift : (t : Try E A) → IsStill {page = page} (lift t)
  unfolding lift
  IsStill-lift t = record { at = λ s. refl }

  pub IsStill-gets : (f : Session page → A) → IsStill {E = E} (gets f)
  unfolding gets
  IsStill-gets f = record { at = λ s. refl }

  pub IsStill-ask : (f : page.World → A × page.World) → IsStill {page = page} {E = E} (ask f)
  unfolding ask
  IsStill-ask f = record { at = λ s. refl }

  pub IsStill-if :
      (b : Bool) (m n : Exec page E A) → IsStill m → IsStill n → IsStill (if b then m else n)
  IsStill-if true m n h k = h
  IsStill-if false m n h k = k

  pub IsStill-need : (e : E) (o : Option A) → IsStill {page = page} (need e o)
  IsStill-need e none = IsStill-raise e
  IsStill-need e (some a) = IsStill-pure a

module _ {page : Page} {E : Type 0} where
  pub IsStill-raise_if : (e : E) (b : Bool) → IsStill {page = page} (raise_if e b)
  IsStill-raise_if e true = IsStill-raise e
  IsStill-raise_if e false = IsStill-pure tt

module _ {page : Page} {D E A : Type 0} where
  pub IsStill-attempt : (m : Exec page D A) → IsStill m → IsStill {E = E} (attempt m)
  unfolding attempt
  IsStill-attempt m h = record { at = λ s. h.at s }

module _ {page : Page} {E A B : Type 0} where
  continue-still :
      (t : Try E A) (next : A → Exec page E B) (s : Session page)
      → ((a : A) → IsStill (next a))
      → ((lift t >>= next) s).1.effects ≡ s.effects
  unfolding ◌>>=◌ lift
  continue-still (ok a) next s h = (h a).at s
  continue-still (err e) next s h = refl

  pub IsStill-bind :
      (m : Exec page E A) (next : A → Exec page E B)
      → IsStill m
      → ((a : A) → IsStill (next a))
      → IsStill (m >>= next)
  unfolding ◌>>=◌ lift
  IsStill-bind m next h k = record { at = λ s. continue-still (m s).0 next (m s).1 k ∙ h.at s }

pub ruleset still_rules = (
  IsStill-pure, IsStill-raise, IsStill-lift, IsStill-gets, IsStill-ask, IsStill-if, IsStill-need,
  IsStill-raise_if, IsStill-attempt, IsStill-bind,
)

module _ {page : Page} {A : Type 0} where
  pub IsQuiet-pure : (a : A) → IsQuiet {page = page} (pure a)
  unfolding pure
  IsQuiet-pure a = record { still = IsStill-pure a; known = λ s. refl }

  pub IsQuiet-raise :
      (e : DispatchError) → is_unknown e ≡ false → IsQuiet {page = page} {A = A} (raise e)
  unfolding raise
  IsQuiet-raise e h = record { still = IsStill-raise e; known = λ s. ground (arith, h) }

  pub IsQuiet-lift : (t : Try DispatchError A) → settled t ≡ true → IsQuiet {page = page} (lift t)
  unfolding lift
  IsQuiet-lift t h = record { still = IsStill-lift t; known = λ s. h }

  pub IsQuiet-gets : (f : Session page → A) → IsQuiet (gets f)
  unfolding gets
  IsQuiet-gets f = record { still = IsStill-gets f; known = λ s. refl }

  pub IsQuiet-ask : (f : page.World → A × page.World) → IsQuiet {page = page} (ask f)
  unfolding ask
  IsQuiet-ask f = record { still = IsStill-ask f; known = λ s. refl }

  pub IsQuiet-if :
      (b : Bool) (m n : Exec page DispatchError A)
      → IsQuiet m
      → IsQuiet n
      → IsQuiet (if b then m else n)
  IsQuiet-if true m n h k = h
  IsQuiet-if false m n h k = k

  pub IsQuiet-need :
      (e : DispatchError) (o : Option A) → is_unknown e ≡ false → IsQuiet {page = page} (need e o)
  IsQuiet-need e none h = IsQuiet-raise e h
  IsQuiet-need e (some a) h = IsQuiet-pure a

module _ {page : Page} where
  pub IsQuiet-raise_if :
      (e : DispatchError) (b : Bool) → is_unknown e ≡ false → IsQuiet {page = page} (raise_if e b)
  IsQuiet-raise_if e true h = IsQuiet-raise e h
  IsQuiet-raise_if e false h = IsQuiet-pure tt

module _ {page : Page} {D A : Type 0} where
  pub IsQuiet-attempt : (m : Exec page D A) → IsStill m → IsQuiet (attempt m)
  unfolding attempt
  IsQuiet-attempt m h = record { still = IsStill-attempt m h; known = λ s. refl }

module _ {page : Page} {A B : Type 0} where
  continue-known :
      (t : Try DispatchError A) (next : A → Exec page DispatchError B) (s : Session page)
      → settled t ≡ true
      → ((a : A) → IsQuiet (next a))
      → settled ((lift t >>= next) s).0 ≡ true
  unfolding ◌>>=◌ lift
  continue-known (ok a) next s h k = (k a).known s
  continue-known (err e) next s h k = h

  pub IsQuiet-bind :
      (m : Exec page DispatchError A) (next : A → Exec page DispatchError B)
      → IsQuiet m
      → ((a : A) → IsQuiet (next a))
      → IsQuiet (m >>= next)
  unfolding ◌>>=◌ lift
  IsQuiet-bind m next h k = record {
    still = IsStill-bind m next h.still (λ a. (k a).still);
    known = λ s. continue-known (m s).0 next (m s).1 (h.known s) k;
  }
