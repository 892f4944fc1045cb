-- ===== src/Browser/Observe/Reader.antt =====
-- What of `CdpExecutor::semantic_observation` in src/cdp.rs leaves the stored observation and the
-- generation alone.
use praefectus.Prelude.{ℤ, ◌≡◌, refl, ◌∙◌, Bool, true, false, Option, none, some}
use praefectus.Prelude.Try.{Try, ok, err}
use praefectus.Json.{Value}
use praefectus.Browser.Page.{CdpChannelError, CdpError, Command, Page}
use praefectus.Browser.Session.{Exec, Session, ask, gets, lift, pure, raise, send, ◌>>=◌}
use praefectus.Browser.Boundary.{boundary, check, raise_if, verify_process}
use praefectus.Browser.Query.{answer, need}
use praefectus.Browser.Observe.{command}

-- The stored observation and the generation stay.
pub record IsReader {page : Page} {A : Type 0} (m : Exec page CdpError A) : Type 0 where
  pub at : (s : Session page) → (m s).1.latest ≡ s.latest
  pub counted : (s : Session page) → (m s).1.generation ≡ s.generation

module _ {page : Page} {A : Type 0} where
  pub IsReader-pure : (a : A) → IsReader {page = page} (pure a)
  unfolding pure
  IsReader-pure a = record { at = λ s. refl; counted = λ s. refl }

  pub IsReader-raise : (e : CdpError) → IsReader {page = page} {A = A} (raise e)
  unfolding raise
  IsReader-raise e = record { at = λ s. refl; counted = λ s. refl }

  pub IsReader-lift : (t : Try CdpError A) → IsReader {page = page} (lift t)
  unfolding lift
  IsReader-lift t = record { at = λ s. refl; counted = λ s. refl }

  pub IsReader-gets : (f : Session page → A) → IsReader (gets f)
  unfolding gets
  IsReader-gets f = record { at = λ s. refl; counted = λ s. refl }

  pub IsReader-ask : (f : page.World → A × page.World) → IsReader {page = page} (ask f)
  unfolding ask
  IsReader-ask f = record { at = λ s. refl; counted = λ s. refl }

  pub IsReader-need : (e : CdpError) (o : Option A) → IsReader {page = page} (need e o)
  IsReader-need e none = IsReader-raise e
  IsReader-need e (some a) = IsReader-pure a

module _ {page : Page} {A B : Type 0} where
  continue-latest :
      (t : Try CdpError A) (next : A → Exec page CdpError B) (s : Session page)
      → ((a : A) → IsReader (next a))
      → ((lift t >>= next) s).1.latest ≡ s.latest
  unfolding ◌>>=◌ lift
  continue-latest (ok a) next s k = (k a).at s
  continue-latest (err e) next s k = refl

  continue-generation :
      (t : Try CdpError A) (next : A → Exec page CdpError B) (s : Session page)
      → ((a : A) → IsReader (next a))
      → ((lift t >>= next) s).1.generation ≡ s.generation
  unfolding ◌>>=◌ lift
  continue-generation (ok a) next s k = (k a).counted s
  continue-generation (err e) next s k = refl

  pub IsReader-bind :
      (m : Exec page CdpError A) (next : A → Exec page CdpError B)
      → IsReader m
      → ((a : A) → IsReader (next a))
      → IsReader (m >>= next)
  unfolding ◌>>=◌ lift
  IsReader-bind m next h k = record {
    at = λ s. continue-latest (m s).0 next (m s).1 k ∙ h.at s;
    counted = λ s. continue-generation (m s).0 next (m s).1 k ∙ h.counted s;
  }

module _ {page : Page} where
  pub IsReader-raise_if : (e : CdpError) (b : Bool) → IsReader {page = page} (raise_if e b)
  IsReader-raise_if e true = IsReader-raise e
  IsReader-raise_if e false = IsReader-pure tt

  pub IsReader-send : (c : Command) (deadline : ℤ) → IsReader {page = page} (send c deadline)
  unfolding send
  IsReader-send c deadline = record { at = λ s. refl; counted = λ s. refl }

  pub IsReader-answer :
      (e : CdpError) (t : Try CdpChannelError Value) → IsReader {page = page} (answer e t)
  IsReader-answer e (ok v) = IsReader-pure v
  IsReader-answer e (err x) = IsReader-raise e

  pub IsReader-check :
      (c d : CdpError) (deadline : ℤ) (cancelled : Bool)
      → IsReader {page = page} (check c d deadline cancelled)
  IsReader-check c d deadline true = IsReader-raise c
  IsReader-check c d deadline false =
      IsReader-bind _ _ (IsReader-bind _ _ (IsReader-ask _) λ now. IsReader-pure _)
        λ late. IsReader-raise_if d late

  pub IsReader-boundary : (deadline : ℤ) → IsReader {page = page} (boundary deadline)
  unfolding boundary
  IsReader-boundary deadline = IsReader-bind _ _ (IsReader-ask _) λ c. IsReader-check _ _ deadline c

  pub IsReader-verify_process : IsReader {page = page} verify_process
  unfolding verify_process
  IsReader-verify_process =
      IsReader-bind _ _ (IsReader-gets _)
        λ c. IsReader-bind _ _ (IsReader-ask _) λ live. IsReader-raise_if _ _

  pub IsReader-command : (c : Command) (deadline : ℤ) → IsReader {page = page} (command c deadline)
  unfolding command
  IsReader-command c deadline = IsReader-bind _ _ (IsReader-boundary deadline) λ a.
      IsReader-bind _ _ (IsReader-ask _) λ locked. IsReader-bind _ _ (IsReader-raise_if _ _) λ b.
        IsReader-bind _ _ (IsReader-send c deadline)
          λ reply. IsReader-bind _ _ (IsReader-boundary deadline) λ d. IsReader-answer _ reply
