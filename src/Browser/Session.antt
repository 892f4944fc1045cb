-- ===== src/Browser/Session.antt =====
-- The state of a `CdpExecutor` and the exceptions of its methods, over the errors of each. `effects`
-- records the functions with an effect that were sent to the page, newest first, each with what the
-- channel answered; the code does not keep it, and nothing reads it.
use praefectus.Prelude.{ℕ, ℤ, Option, List, ◌∷◌}
use praefectus.Prelude.Try.{Try, ok, err}
use praefectus.Json.{Value}
use praefectus.Browser.Page.{
  CdpChannelError, CdpConfig, Command, Page, PageFunction, StoredObservation, call_function_on,
  invoke_effect, scroll_effect, set_value_effect,
}

pub record Sent : Type 0 where
  pub function : PageFunction
  pub reply : Try CdpChannelError Value

pub record Session (page : Page) : Type 0 where
  pub world : page.World
  pub config : CdpConfig
  pub generation : ℕ
  pub latest : Option StoredObservation
  pub effects : List Sent

abbrev pub Exec : Page → Type 0 → Type 0 → Type 0
Exec page E A = Session page → Try E A × Session page

module _ {page : Page} {E A : Type 0} where
  unfoldable pub pure : A → Exec page E A
  pure a s = (ok a, s)

  unfoldable pub raise : E → Exec page E A
  raise e s = (err e, s)

  unfoldable pub lift : Try E A → Exec page E A
  lift t s = (t, s)

  unfoldable pub gets : (Session page → A) → Exec page E A
  gets f s = (ok (f s), s)

  unfoldable pub ask : (page.World → A × page.World) → Exec page E A
  ask f s = let (a, w) = f s.world in (ok a, record s { world = w })

module _ {page : Page} {D E A : Type 0} where
  -- A result with its error, as a value.
  unfoldable pub attempt : Exec page D A → Exec page E (Try D A)
  attempt m s = (ok (m s).0, (m s).1)

module _ {page : Page} {E A B : Type 0} where
  abbrev pub continue : Try E A → (A → Exec page E B) → Exec page E B
  continue (ok a) next s = next a s
  continue (err e) next s = (err e, s)

  infixl 5 ◌>>=◌ ◌>>◌
  unfoldable pub ◌>>=◌ : Exec page E A → (A → Exec page E B) → Exec page E B
  ◌>>=◌ m next s = continue (m s).0 next (m s).1

  abbrev pub ◌>>◌ : Exec page E A → Exec page E B → Exec page E B
  m >> k = m >>= λ _. k

-- Sending a function with an effect is recorded.
abbrev pub record_function : PageFunction → Try CdpChannelError Value → List Sent → List Sent
record_function invoke_effect reply sent = record { function = invoke_effect; reply = reply } ∷ sent
record_function (set_value_effect v) reply sent =
    record { function = set_value_effect v; reply = reply } ∷ sent
record_function (scroll_effect axis delta) reply sent =
    record { function = scroll_effect axis delta; reply = reply } ∷ sent
record_function _ reply sent = sent

abbrev pub record_command : Command → Try CdpChannelError Value → List Sent → List Sent
record_command (call_function_on object function) reply sent = record_function function reply sent
record_command _ reply sent = sent

module _ {page : Page} {E : Type 0} where
  -- `channel.command(..)`, with its error as a value.
  unfoldable pub send : Command → ℤ → Exec page E (Try CdpChannelError Value)
  send c deadline s =
      let (reply, w) = page.command c deadline s.world in
      (ok reply, record s { world = w; effects = record_command c reply s.effects })
