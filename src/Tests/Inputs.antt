-- ===== src/Tests/Inputs.antt =====
-- Witnesses for the input of the native executor.
use praefectus.Prelude.{◌≡◌, refl, pos, true, false, some, none, []}
use praefectus.Prelude.Try.{ok}
use praefectus.Protocol.{Direction}
use praefectus.Native.Session.{Desktop, Session, ask, press_key, pure, scroll_once, send, ◌>>=◌}
use praefectus.Native.{chars, dispatch_press, dispatch_scroll, dispatch_type_text}
use praefectus.Native.Honest.{Ends, typed}
use praefectus.Native.Honest.Typing.{dispatch_type_text-Ends}
use praefectus.Native.Honest.Repeats.{copies, dispatch_press-Ends}

abbrev desktop : Desktop
desktop = record {
  World = Unit {0};
  now_ms = λ w. (pos 1, w);
  is_cancelled = λ w. (false, w);
  sleep = λ d w. (tt, w);
  input = λ i w. (true, w);
}

abbrev idle : Session desktop
idle = record { world = tt; inputs = [] }

dispatch_type_text-Ends_example :
    Ends
      (λ u s. typed s.inputs ≡ chars "ab")
      (dispatch_type_text "ab" true true (some 5) (pos 100) idle).0
      (dispatch_type_text "ab" true true (some 5) (pos 100) idle).1
dispatch_type_text-Ends_example =
    dispatch_type_text-Ends "ab" true true (some 5) (pos 100) idle refl

-- The typing succeeds.
types : (dispatch_type_text "ab" true true (some 5) (pos 100) idle).0 ≡ ok tt
unfolding dispatch_type_text ◌>>=◌ pure send ask
types = refl

dispatch_press-Ends_example :
    Ends
      (λ u s. s.inputs ≡ copies 2 (press_key "a") [])
      (dispatch_press "a" 2 none (pos 100) idle).0
      (dispatch_press "a" 2 none (pos 100) idle).1
    × Ends
        (λ u s. s.inputs ≡ copies 2 (scroll_once Direction.up) [])
        (dispatch_scroll Direction.up 2 (pos 100) idle).0
        (dispatch_scroll Direction.up 2 (pos 100) idle).1
dispatch_press-Ends_example = dispatch_press-Ends "a" Direction.up 2 none (pos 100) idle refl

presses : (dispatch_press "a" 2 none (pos 100) idle).0 ≡ ok tt
unfolding dispatch_press ◌>>=◌ pure send ask
presses = refl
