-- ===== src/Native/Honest.antt =====
-- What the input of `NativeExecutor` in src/lib.rs has sent when it returns, and what its errors say.
pub mod Typing
pub mod Repeats
use Prim.Native.Char.{Char}
use praefectus.Prelude.{
  ℕ, zero, suc, ◌+◌, ℤ, ◌≡◌, refl, sym, ap, ◌∙◌, subst, Bool, true, false, String, Option, none,
  some, List, [], ◌∷◌, ◌++◌, append_assoc, append-nil, arith, length, leb_ℤ, ltb, ◌==◌, Bool-cases,
  inl, inr, if◌then◌else◌,
}
use praefectus.Prelude.Try.{Try, ok, err}
use praefectus.Protocol.{DispatchError, Direction, EffectKnowledge}
use praefectus.Native.Session.{
  Desktop, Exec, Input, Session, ambiguous_dispatch, ask, press_key, pure, raise, scroll_once, send,
  sent, type_chunk, ◌>>=◌, ◌>>◌,
}
use praefectus.Native.{
  ambiguous, before_effect, chars, check_after_effect, check_before_effect, check_partial_dispatch,
  chunk_size, dispatch_press, dispatch_scroll, dispatch_type_text, interrupted, late_if, passed,
  pause_if, raise_cancelled, raise_if_late, refuse_if, repeat_input, stop, stop_error, stop_if,
  type_chars, type_clear, type_rest, type_return,
}

abbrev pub is_unknown : DispatchError → Bool
is_unknown e = elim e.effect [ EffectKnowledge.unknown ↦ true | _ ↦ false ]

-- The text that the inputs type.
abbrev pub typed : List Input → List Char
typed [] = []
typed (type_chunk text clear press_return delay ∷ inputs) = typed inputs ++ text
typed (_ ∷ inputs) = typed inputs

-- An error that does not call the effect unknown comes before any input.
abbrev pub Safe : {desktop : Desktop} → DispatchError → Session desktop → Type 0
Safe e s = is_unknown e ≡ false → s.inputs ≡ []

-- A result that satisfies `Holds`, or a safe error.
abbrev pub Ends :
    {desktop : Desktop} {A : Type 0}
    → (A → Session desktop → Type 0)
    → Try DispatchError A
    → Session desktop
    → Type 0
Ends Holds (ok a) s = Holds a s
Ends Holds (err e) s = Safe e s

-- No effect has started, or it is known.
abbrev pub Begun : {desktop : Desktop} → Bool → Session desktop → Type 0
Begun started s = started ≡ false → s.inputs ≡ []

module _ {desktop : Desktop} {A : Type 0} where
  Ends-weaken :
      (Holds Later : A → Session desktop → Type 0) (t : Try DispatchError A) (s : Session desktop)
      → ((a : A) (s' : Session desktop) → Holds a s' → Later a s')
      → Ends Holds t s
      → Ends Later t s
  Ends-weaken Holds Later (ok a) s k h = k a s h
  Ends-weaken Holds Later (err e) s k h = h

module _ {desktop : Desktop} {A B : Type 0} where
  continue-Ends :
      (t : Try DispatchError A) (next : A → Exec desktop B) (s : Session desktop)
      (Holds : B → Session desktop → Type 0)
      → Ends (λ a s'. Ends Holds (next a s').0 (next a s').1) t s
      → Ends Holds (((λ s'. (t, s')) >>= next) s).0 (((λ s'. (t, s')) >>= next) s).1
  unfolding ◌>>=◌
  continue-Ends (ok a) next s Holds h = h
  continue-Ends (err e) next s Holds h = h

  pub Ends-bind :
      (m : Exec desktop A) (next : A → Exec desktop B) (s : Session desktop)
      (Holds : B → Session desktop → Type 0)
      → Ends (λ a s'. Ends Holds (next a s').0 (next a s').1) (m s).0 (m s).1
      → Ends Holds ((m >>= next) s).0 ((m >>= next) s).1
  unfolding ◌>>=◌
  Ends-bind m next s Holds h = continue-Ends (m s).0 next (m s).1 Holds h

  -- By what holds after the first action.
  pub Ends-then :
      (Mid : A → Session desktop → Type 0) (m : Exec desktop A) (next : A → Exec desktop B)
      (s : Session desktop) (Holds : B → Session desktop → Type 0)
      → Ends Mid (m s).0 (m s).1
      → ((a : A) (s' : Session desktop) → Mid a s' → Ends Holds (next a s').0 (next a s').1)
      → Ends Holds ((m >>= next) s).0 ((m >>= next) s).1
  Ends-then Mid m next s Holds h k =
      Ends-bind m next s Holds
        (Ends-weaken Mid (λ a s'. Ends Holds (next a s').0 (next a s').1) (m s).0 (m s).1 k h)

module _ {desktop : Desktop} {A : Type 0} where
  pub Ends-ask :
      (f : desktop.World → A × desktop.World) (s : Session desktop)
      (Holds : A → Session desktop → Type 0)
      → ((a : A) (s' : Session desktop) → s'.inputs ≡ s.inputs → Holds a s')
      → Ends Holds (ask f s).0 (ask f s).1
  unfolding ask
  Ends-ask f s Holds h = h (f s.world).0 (record s { world = (f s.world).1 }) refl

  pub Ends-pure :
      (a : A) (s : Session desktop) (Holds : A → Session desktop → Type 0)
      → Holds a s
      → Ends Holds (pure a s).0 (pure a s).1
  unfolding pure
  Ends-pure a s Holds h = h

  pub Ends-raise :
      (e : DispatchError) (s : Session desktop) (Holds : A → Session desktop → Type 0)
      → Safe e s
      → Ends Holds (raise {A = A} e s).0 (raise {A = A} e s).1
  unfolding raise
  Ends-raise e s Holds h = h

module _ {desktop : Desktop} where
  sent-Ends :
      (done : Bool) (s : Session desktop) (Holds : Unit {0} → Session desktop → Type 0)
      → Holds tt s
      → Ends Holds (sent done) s
  sent-Ends true s Holds h = h
  sent-Ends false s Holds h = λ e. absurd (ground (arith, e))

  pub Ends-send :
      (i : Input) (s : Session desktop) (Holds : Unit {0} → Session desktop → Type 0)
      → ((s' : Session desktop) → s'.inputs ≡ i ∷ s.inputs → Holds tt s')
      → Ends Holds (send i s).0 (send i s).1
  unfolding send
  Ends-send i s Holds h = sent-Ends (desktop.input i s.world).0 _ Holds (h _ refl)

  Ends-late_if :
      (cancelled : Bool) (deadline : ℤ) (s : Session desktop)
      (Holds : Bool → Session desktop → Type 0)
      → ((late : Bool) (s' : Session desktop) → s'.inputs ≡ s.inputs → Holds late s')
      → Ends Holds (late_if cancelled deadline s).0 (late_if cancelled deadline s).1
  Ends-late_if true deadline s Holds h = Ends-pure true s Holds (h true s refl)
  Ends-late_if false deadline s Holds h =
      Ends-bind (ask desktop.now_ms) (λ now. pure (leb_ℤ deadline now)) s Holds
        (Ends-ask desktop.now_ms s _ λ now s1 p. Ends-pure (leb_ℤ deadline now) s1 Holds (h _ s1 p))

  pub Ends-passed :
      (deadline : ℤ) (s : Session desktop) (Holds : Bool → Session desktop → Type 0)
      → ((late : Bool) (s' : Session desktop) → s'.inputs ≡ s.inputs → Holds late s')
      → Ends Holds (passed deadline s).0 (passed deadline s).1
  unfolding passed
  Ends-passed deadline s Holds h =
      Ends-bind (ask desktop.is_cancelled) (λ c. late_if c deadline) s Holds
        (Ends-ask desktop.is_cancelled s _
          λ c s1 p. Ends-late_if c deadline s1 Holds λ late s2 q. h late s2 (q ∙ p))

  pub Ends-stop_if :
      (late started : Bool) (message : String) (s : Session desktop)
      (Holds : Unit {0} → Session desktop → Type 0)
      → Begun started s
      → Holds tt s
      → Ends Holds (stop_if late started message s).0 (stop_if late started message s).1
  Ends-stop_if false started message s Holds b h = Ends-pure tt s Holds h
  Ends-stop_if true true message s Holds b h =
      Ends-raise (ambiguous message) s Holds λ e. absurd (ground (arith, e))
  Ends-stop_if true false message s Holds b h =
      Ends-bind (ask desktop.is_cancelled) (λ c. raise (interrupted c)) s Holds
        (Ends-ask desktop.is_cancelled s _
          λ c s1 p. Ends-raise (interrupted c) s1 Holds λ e. p ∙ b refl)

  pub Ends-stop :
      (started : Bool) (message : String) (deadline : ℤ) (s : Session desktop)
      (Holds : Unit {0} → Session desktop → Type 0)
      → Begun started s
      → ((s' : Session desktop) → s'.inputs ≡ s.inputs → Holds tt s')
      → Ends Holds (stop started message deadline s).0 (stop started message deadline s).1
  unfolding stop
  Ends-stop started message deadline s Holds b h =
      Ends-bind (passed deadline) (λ late. stop_if late started message) s Holds
        (Ends-passed deadline s _
          λ late s1 p. Ends-stop_if late started message s1 Holds (λ e. p ∙ b e) (h s1 p))
