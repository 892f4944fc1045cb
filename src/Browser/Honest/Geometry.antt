-- ===== src/Browser/Honest/Geometry.antt =====
-- The errors of the geometry of a scroll say that nothing was sent.
use praefectus.Prelude.{
  ◌≡◌, refl, Bool, true, false, Option, none, some, List, [], ◌∷◌, arith, and_then, not, length,
  ◌==◌,
}
use praefectus.Prelude.Try.{Try, ok, err, ◌>>=◌, ok_or, refuse_if}
use praefectus.Json.{Value, as_array, pointer}
use praefectus.Protocol.{DispatchError}
use praefectus.Browser.Page.{Page}
use praefectus.Browser.Geometry.{border_quad, no_box, finite_numbers, viewport_point}
use praefectus.Browser.Honest.{is_unknown, settled}

settled-bind :
    {A B : Type 0} (t : Try DispatchError A) (next : A → Try DispatchError B)
    → settled t ≡ true
    → ((a : A) → settled (next a) ≡ true)
    → settled (t >>= next) ≡ true
settled-bind (ok a) next h k = k a
settled-bind (err e) next h k = h

settled-ok_or :
    {A : Type 0} (o : Option A) (e : DispatchError)
    → is_unknown e ≡ false
    → settled (ok_or o e) ≡ true
settled-ok_or none e h = ground (arith, h)
settled-ok_or (some a) e h = refl

settled-refuse_if :
    (b : Bool) (e : DispatchError) → is_unknown e ≡ false → settled (refuse_if b e) ≡ true
settled-refuse_if true e h = ground (arith, h)
settled-refuse_if false e h = refl

settled-finite_numbers : (page : Page) (vs : List Value) → settled (finite_numbers page vs) ≡ true
settled-finite_numbers page [] = refl
settled-finite_numbers page (v ∷ vs) =
    settled-bind _ _ (settled-ok_or _ _ refl)
      λ number. settled-bind _ _ (settled-finite_numbers page vs) λ rest. refl

pub settled-border_quad : (page : Page) (v : Value) → settled (border_quad page v) ≡ true
unfolding border_quad
settled-border_quad page v =
    settled-bind {A = List Value} {B = List page.Float}
      (ok_or (and_then (pointer ("model" ∷ "border" ∷ []) v) as_array) no_box)
      (λ values. refuse_if (not (length values == 8)) no_box >>= λ u. finite_numbers page values)
      (settled-ok_or (and_then (pointer ("model" ∷ "border" ∷ []) v) as_array) no_box refl)
      λ values.
        settled-bind {A = Unit {0}} {B = List page.Float}
          (refuse_if (not (length values == 8)) no_box) (λ u. finite_numbers page values)
          (settled-refuse_if (not (length values == 8)) no_box refl)
          λ u. settled-finite_numbers page values

pub settled-viewport_point :
    (page : Page) (quad : List page.Float) (layout : Value)
    → settled (viewport_point page quad layout) ≡ true
unfolding viewport_point
settled-viewport_point page quad layout = ground arith
