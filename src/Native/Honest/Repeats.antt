-- ===== src/Native/Honest/Repeats.antt =====
-- The repeated inputs of `dispatch` in src/lib.rs: as many as asked for.
use praefectus.Prelude.{
  ℕ, zero, suc, ℤ, ◌≡◌, refl, ap, ◌∙◌, subst, Bool, true, false, String, Option, none, some, List,
  [], ◌∷◌, arith, leb_ℤ, ltb,
}
use praefectus.Protocol.{Direction}
use praefectus.Native.Session.{Desktop, Input, Session, ask, press_key, scroll_once, send, ◌>>=◌}
use praefectus.Native.{
  check_after_effect, check_before_effect, check_partial_dispatch, dispatch_press, dispatch_scroll,
  interrupted, passed, pause_if, raise_cancelled, raise_if_late, repeat_input, stop_if,
}
use praefectus.Native.Honest.{
  Ends, Ends-ask, Ends-bind, Ends-passed, Ends-pure, Ends-raise, Ends-send, Ends-stop_if, Ends-then,
}

abbrev pub copies : ℕ → Input → List Input → List Input
copies zero i inputs = inputs
copies (suc n) i inputs = copies n i (i ∷ inputs)

module _ {desktop : Desktop} where
  Ends-raise_cancelled :
      (cancelled : Bool) (deadline : ℤ) (s : Session desktop)
      (Holds : Unit {0} → Session desktop → Type 0)
      → s.inputs ≡ []
      → ((s' : Session desktop) → s'.inputs ≡ s.inputs → Holds tt s')
      → Ends Holds (raise_cancelled cancelled deadline s).0 (raise_cancelled cancelled deadline s).1
  Ends-raise_cancelled true deadline s Holds b h = Ends-raise (interrupted true) s Holds λ e. b
  Ends-raise_cancelled false deadline s Holds b h =
      Ends-bind (ask desktop.now_ms) (λ now. raise_if_late (leb_ℤ deadline now)) s Holds
        (Ends-ask desktop.now_ms s _ λ now s1 p. decided (leb_ℤ deadline now) s1 p)
    where
      decided :
          (late : Bool) (s1 : Session desktop)
          → s1.inputs ≡ s.inputs
          → Ends Holds (raise_if_late late s1).0 (raise_if_late late s1).1
      decided true s1 p = Ends-raise (interrupted false) s1 Holds λ e. p ∙ b
      decided false s1 p = Ends-pure tt s1 Holds (h s1 p)

  Ends-check_partial_dispatch :
      (index : ℕ) (message : String) (deadline : ℤ) (s : Session desktop)
      (Holds : Unit {0} → Session desktop → Type 0)
      → (index ≡ 0 → s.inputs ≡ [])
      → ((s' : Session desktop) → s'.inputs ≡ s.inputs → Holds tt s')
      → Ends Holds
          (check_partial_dispatch index message deadline s).0
          (check_partial_dispatch index message deadline s).1
  unfolding check_partial_dispatch check_before_effect
  Ends-check_partial_dispatch zero message deadline s Holds b h =
      Ends-bind (ask desktop.is_cancelled) (λ c. raise_cancelled c deadline) s Holds
        (Ends-ask desktop.is_cancelled s _
          λ c s1 p. Ends-raise_cancelled c deadline s1 Holds (p ∙ b refl) λ s2 q. h s2 (q ∙ p))
  Ends-check_partial_dispatch (suc index) message deadline s Holds b h =
      Ends-bind (passed deadline) (λ late. stop_if late true message) s Holds
        (Ends-passed deadline s _ λ late s1 p.
          Ends-stop_if late true message s1 Holds (λ e. absurd (ground (arith, e))) (h s1 p))

  Ends-pause_if :
      (more : Bool) (delay : Option ℕ) (s : Session desktop)
      (Holds : Unit {0} → Session desktop → Type 0)
      → ((s' : Session desktop) → s'.inputs ≡ s.inputs → Holds tt s')
      → Ends Holds (pause_if more delay s).0 (pause_if more delay s).1
  Ends-pause_if true (some d) s Holds h = Ends-ask (desktop.sleep d) s Holds λ u s1 p. h s1 p
  Ends-pause_if true none s Holds h = Ends-pure tt s Holds (h s refl)
  Ends-pause_if false delay s Holds h = Ends-pure tt s Holds (h s refl)

  Ends-repeat_input :
      (left index : ℕ) (input : Input) (delay : Option ℕ) (message : String) (deadline : ℤ)
      (s : Session desktop)
      → (index ≡ 0 → s.inputs ≡ [])
      → Ends
          (λ u s'. s'.inputs ≡ copies left input s.inputs)
          (repeat_input left index input delay message deadline s).0
          (repeat_input left index input delay message deadline s).1
  unfolding repeat_input
  Ends-repeat_input zero index input delay message deadline s b = Ends-pure tt s _ refl
  Ends-repeat_input (suc left) index input delay message deadline s b =
      Ends-bind (check_partial_dispatch index message deadline) _ s _ (
        Ends-check_partial_dispatch index message deadline s _ b λ s1 p.
          Ends-bind (send input) _ s1 _ (
            Ends-send input s1 _ λ s2 q. Ends-bind (pause_if (ltb 0 left) delay) _ s2 _ (
              Ends-pause_if (ltb 0 left) delay s2 _ λ s3 r.
                subst
                  (λ l.
                    Ends (λ (u : Unit {0}) s'. s'.inputs ≡ copies left input l)
                      (repeat_input left (suc index) input delay message deadline s3).0
                      (repeat_input left (suc index) input delay message deadline s3).1)
                  (r ∙ (q ∙ ap (λ (l : List Input). input ∷ l) p))
                  (Ends-repeat_input left (suc index) input delay message deadline s3
                    (λ e. absurd (ground (arith, e)))))))

  Ends-check_after_effect :
      (deadline : ℤ) (inputs : List Input) (s : Session desktop)
      → s.inputs ≡ inputs
      → Ends
          (λ u s'. s'.inputs ≡ inputs)
          (check_after_effect deadline s).0
          (check_after_effect deadline s).1
  unfolding check_after_effect
  Ends-check_after_effect deadline inputs s h =
      Ends-bind (passed deadline) (λ late. stop_if late true _) s _
        (Ends-passed deadline s _
          λ late s1 p. Ends-stop_if late true _ s1 _ (λ e. absurd (ground (arith, e))) (p ∙ h))

  Ends-repeated :
      (count : ℕ) (input : Input) (delay : Option ℕ) (message : String) (deadline : ℤ)
      (s : Session desktop)
      → s.inputs ≡ []
      → Ends
          (λ u s'. s'.inputs ≡ copies count input [])
          ((repeat_input count 0 input delay message deadline >>= λ u. check_after_effect deadline)
            s).0
          ((repeat_input count 0 input delay message deadline >>= λ u. check_after_effect deadline)
            s).1
  Ends-repeated count input delay message deadline s p =
      Ends-then (λ u s'. s'.inputs ≡ copies count input s.inputs)
        (repeat_input count 0 input delay message deadline) (λ u. check_after_effect deadline) s _
        (Ends-repeat_input count 0 input delay message deadline s λ e. p)
        λ u s1 e. Ends-check_after_effect deadline _ s1 (e ∙ ap (λ l. copies count input l) p)

  -- From a session that sent no input, a key press or a scroll that succeeds has sent as many inputs as
  -- were asked for, all the same. If it fails with an error that does not call the effect unknown, no
  -- input was sent.
  pub dispatch_press-Ends :
      (key : String) (direction : Direction) (count : ℕ) (delay : Option ℕ) (deadline : ℤ)
      (s : Session desktop)
      → s.inputs ≡ []
      → Ends
          (λ u s'. s'.inputs ≡ copies count (press_key key) [])
          (dispatch_press key count delay deadline s).0
          (dispatch_press key count delay deadline s).1
        × Ends
            (λ u s'. s'.inputs ≡ copies count (scroll_once direction) [])
            (dispatch_scroll direction count deadline s).0
            (dispatch_scroll direction count deadline s).1
  unfolding dispatch_press dispatch_scroll
  dispatch_press-Ends key direction count delay deadline s p = (
    Ends-repeated count (press_key key) delay "press interrupted after partial dispatch" deadline s
        p,
    Ends-repeated count (scroll_once direction) none "scroll interrupted after partial dispatch"
        deadline s p,
  )
