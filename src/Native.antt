-- ===== src/Native.antt =====
-- The input of `NativeExecutor` of src/lib.rs: `dispatch_type_text`, and the arms of `dispatch` that
-- repeat a key press or a scroll, with the boundary checks between their steps.
pub mod Session
pub mod Honest
use Prim.Native.Char.{Char}
use praefectus.Prelude.{
  ℕ, zero, suc, ◌+◌, ◌*◌, ℤ, Bool, true, false, not, ◌&&◌, ◌||◌, String, len, Option, none, some,
  List, [], ◌∷◌, ◌++◌, length, leb_ℤ, ltb, str_eq, ◌==◌, is_some, is_some_and, if◌then◌else◌,
}
use praefectus.Protocol.{DispatchError, Direction, EffectKnowledge, FailureCode}
use praefectus.Native.Session.{
  Desktop, Exec, Input, ask, press_key, pure, raise, scroll_once, send, type_chunk, ◌>>=◌, ◌>>◌,
}

abbrev pub no_effect : String → DispatchError
no_effect message = record {
  message = message;
  effect = EffectKnowledge.no_effect;
  code = FailureCode.invalid_request;
}

abbrev pub interrupted : Bool → DispatchError
interrupted true = record {
  message = "cancelled before effect";
  effect = EffectKnowledge.cancelled_before_effect;
  code = FailureCode.dispatch_failed;
}
interrupted false = record {
  message = "expired before effect";
  effect = EffectKnowledge.expired_before_effect;
  code = FailureCode.dispatch_failed;
}

abbrev pub ambiguous : String → DispatchError
ambiguous message = record {
  message = message;
  effect = EffectKnowledge.unknown;
  code = FailureCode.dispatch_failed;
}

abbrev pub chars : String → List Char
chars String.[] = []
chars (String.◌∷◌ c s) = c ∷ chars s

abbrev pub type_failed : String
type_failed = "type action interrupted after partial dispatch"

abbrev pub type_is_invalid : String → Option ℕ → Bool
type_is_invalid text delay =
    str_eq text "" || (ltb (16 * 1024) (len text) || is_some_and delay (λ d. ltb 1000 d))

abbrev pub chunk_size : Option ℕ → ℕ
chunk_size delay = if is_some delay then 1 else 64

module _ {desktop : Desktop} where
  abbrev pub late_if : Bool → ℤ → Exec desktop Bool
  late_if true deadline = pure true
  late_if false deadline = ask desktop.now_ms >>= λ now. pure (leb_ℤ deadline now)

  -- `cancellation.is_cancelled() || now_ms() >= deadline_at_ms`.
  unfoldable pub passed : ℤ → Exec desktop Bool
  passed deadline = ask desktop.is_cancelled >>= λ cancelled. late_if cancelled deadline

  -- The token is read again to choose the error.
  abbrev pub before_effect : Exec desktop (Unit {0})
  before_effect = ask desktop.is_cancelled >>= λ cancelled. raise (interrupted cancelled)

  abbrev pub stop_error : Bool → String → Exec desktop (Unit {0})
  stop_error true message = raise (ambiguous message)
  stop_error false message = before_effect

  abbrev pub stop_if : Bool → Bool → String → Exec desktop (Unit {0})
  stop_if true started message = stop_error started message
  stop_if false started message = pure tt

  unfoldable pub stop : Bool → String → ℤ → Exec desktop (Unit {0})
  unfolding passed
  stop started message deadline = passed deadline >>= λ late. stop_if late started message

  abbrev pub raise_if_late : Bool → Exec desktop (Unit {0})
  raise_if_late true = raise (interrupted false)
  raise_if_late false = pure tt

  abbrev pub raise_cancelled : Bool → ℤ → Exec desktop (Unit {0})
  raise_cancelled true deadline = raise (interrupted true)
  raise_cancelled false deadline = ask desktop.now_ms >>= λ now. raise_if_late (leb_ℤ deadline now)

  unfoldable pub check_before_effect : ℤ → Exec desktop (Unit {0})
  check_before_effect deadline =
      ask desktop.is_cancelled >>= λ cancelled. raise_cancelled cancelled deadline

  unfoldable pub check_after_effect : ℤ → Exec desktop (Unit {0})
  unfolding passed
  check_after_effect deadline = passed deadline >>= λ late.
      stop_if late true "action completed at the cancellation or deadline boundary"

  unfoldable pub check_partial_dispatch : ℕ → String → ℤ → Exec desktop (Unit {0})
  unfolding check_before_effect passed
  check_partial_dispatch zero message deadline = check_before_effect deadline
  check_partial_dispatch (suc index) message deadline =
      passed deadline >>= λ late. stop_if late true message

  -- The loop over the characters, with the chunk and whether an effect has started.
  unfoldable pub type_chars :
      ℕ → Option ℕ → ℤ → List Char → List Char → Bool → Exec desktop (Bool × List Char)
  unfolding stop
  type_chars size delay deadline [] chunk started = pure (started, chunk)
  type_chars size delay deadline (c ∷ cs) chunk started = do
    let rest = type_chars size delay deadline cs
    let longer = chunk ++ (c ∷ [])
    stop started type_failed deadline
    if length longer == size
        then send (type_chunk longer false false delay) >> rest [] true
        else rest longer started

  abbrev pub type_clear : Bool → Exec desktop Bool
  type_clear true = send (type_chunk [] true false none) >> pure true
  type_clear false = pure false

  abbrev pub type_rest : Option ℕ → List Char → Bool → Exec desktop Bool
  type_rest delay [] started = pure started
  type_rest delay (c ∷ cs) started = send (type_chunk (c ∷ cs) false false delay) >> pure true

  abbrev pub type_return : Bool → Exec desktop (Unit {0})
  type_return true = send (type_chunk [] false true none)
  type_return false = pure tt

  abbrev pub refuse_if : Bool → String → Exec desktop (Unit {0})
  refuse_if true message = raise (no_effect message)
  refuse_if false message = pure tt

  unfoldable pub dispatch_type_text : String → Bool → Bool → Option ℕ → ℤ → Exec desktop (Unit {0})
  unfolding type_chars stop
  dispatch_type_text text clear press_return delay deadline = do
    refuse_if (type_is_invalid text delay) "type action parameters are invalid"
    cleared ← type_clear clear
    typed ← type_chars (chunk_size delay) delay deadline (chars text) [] cleared
    started ← type_rest delay typed.1 typed.0
    stop started type_failed deadline
    type_return press_return

  -- `for index in ..count`, with the rounds that are left.
  abbrev pub pause_if : Bool → Option ℕ → Exec desktop (Unit {0})
  pause_if true (some delay) = ask (desktop.sleep delay)
  pause_if _ _ = pure tt

  unfoldable pub repeat_input : ℕ → ℕ → Input → Option ℕ → String → ℤ → Exec desktop (Unit {0})
  unfolding check_partial_dispatch
  repeat_input zero index input delay message deadline = pure tt
  repeat_input (suc left) index input delay message deadline = do
    let rest = repeat_input left (suc index) input delay message deadline
    check_partial_dispatch index message deadline
    send input
    pause_if (ltb 0 left) delay
    rest

  -- The arms of `dispatch` for `Press` and `Scroll`.
  unfoldable pub dispatch_press : String → ℕ → Option ℕ → ℤ → Exec desktop (Unit {0})
  unfolding repeat_input check_after_effect
  dispatch_press key count delay deadline = do
    repeat_input count 0 (press_key key) delay "press interrupted after partial dispatch" deadline
    check_after_effect deadline

  unfoldable pub dispatch_scroll : Direction → ℕ → ℤ → Exec desktop (Unit {0})
  unfolding repeat_input check_after_effect
  dispatch_scroll direction amount deadline = do
    repeat_input amount 0 (scroll_once direction) none "scroll interrupted after partial dispatch"
        deadline
    check_after_effect deadline
