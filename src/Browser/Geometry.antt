-- ===== src/Browser/Geometry.antt =====
-- The geometry of a scroll in src/cdp.rs: the box of the target, a point of the viewport, and the
-- direction. The arithmetic of `f64` is the parameter's.
use praefectus.Prelude.{
  ℤ, pos, negsuc, Bool, true, false, not, ◌&&◌, ◌||◌, String, Option, none, some, List, [], ◌∷◌,
  and_then, keep_if, unwrap_or, length, ◌==◌,
}
use praefectus.Prelude.Try.{Try, ok, ◌>>=◌, ◌>>◌, ok_or, refuse_if}
use praefectus.Json.{Value, as_array, as_number, get, pointer}
use praefectus.Protocol.{Direction, DispatchError}
use praefectus.Browser.Page.{Page}
use praefectus.Browser.Accessibility.{no_effect}
use praefectus.Browser.Query.{viewport_of}

abbrev pub scroll_direction_name : Direction → String
scroll_direction_name Direction.up = "up"
scroll_direction_name Direction.down = "down"
scroll_direction_name Direction.left = "left"
scroll_direction_name Direction.right = "right"

-- -100 is `negsuc 99`.
abbrev pub scroll_axis_delta : Direction → String × ℤ
scroll_axis_delta Direction.up = ("y", negsuc 99)
scroll_axis_delta Direction.down = ("y", pos 100)
scroll_axis_delta Direction.left = ("x", negsuc 99)
scroll_axis_delta Direction.right = ("x", pos 100)

abbrev pub no_box : DispatchError
no_box = no_effect "browser target has no stable box"

abbrev pub no_viewport : DispatchError
no_viewport = no_effect "browser viewport is unavailable"

abbrev pub outside : DispatchError
outside = no_effect "browser target is outside the viewport"

module _ (page : Page) where
  abbrev pub as_f64 : Option Value → Option page.Float
  as_f64 v = and_then (and_then v as_number) page.number_f64

  abbrev pub finite_numbers : List Value → Try DispatchError (List page.Float)
  finite_numbers [] = ok []
  finite_numbers (v ∷ vs) = do
    number ← ok_or (keep_if page.is_finite (as_f64 (some v))) no_box
    rest ← finite_numbers vs
    ok (number ∷ rest)

  unfoldable pub border_quad : Value → Try DispatchError (List page.Float)
  border_quad response = do
    values ← ok_or (and_then (pointer ("model" ∷ "border" ∷ []) response) as_array) no_box
    refuse_if (not (length values == 8)) no_box
    finite_numbers values

  -- `(0.0..limit).contains(&x)`.
  abbrev pub within : page.Float → page.Float → Bool
  within limit x = not (page.float_lt x page.float_zero) && page.float_lt x limit

  abbrev pub corners_within :
      page.Float → page.Float → page.Float → page.Float → List page.Float → Bool
  corners_within page_x page_y width height (x ∷ y ∷ rest) =
      (within width (page.float_sub x page_x) && within height (page.float_sub y page_y))
      && corners_within page_x page_y width height rest
  corners_within page_x page_y width height _ = true

  abbrev pub centre : List page.Float → page.Float → page.Float → Option (page.Float × page.Float)
  centre (a ∷ b ∷ c ∷ d ∷ e ∷ f ∷ g ∷ h ∷ []) page_x page_y = some (
    page.round (page.float_sub (page.mean_of_four a c e g) page_x),
    page.round (page.float_sub (page.mean_of_four b d f h) page_y),
  )
  centre _ page_x page_y = none

  abbrev pub size_of : String → Value → Try DispatchError page.Float
  size_of key viewport =
      ok_or
        (keep_if (λ n. page.is_finite n && page.float_lt page.float_zero n)
          (as_f64 (get key viewport)))
        no_viewport

  unfoldable pub viewport_point : List page.Float → Value → Try DispatchError (ℤ × ℤ)
  viewport_point quad layout = do
    viewport ← ok_or (viewport_of layout) no_viewport
    width ← size_of "clientWidth" viewport
    height ← size_of "clientHeight" viewport
    let page_x = unwrap_or (as_f64 (get "pageX" viewport)) page.float_zero
    let page_y = unwrap_or (as_f64 (get "pageY" viewport)) page.float_zero
    refuse_if (not (corners_within page_x page_y width height quad)) outside
    middle ← ok_or (centre quad page_x page_y) outside
    refuse_if (not (within width middle.0 && within height middle.1)) outside
    ok (page.to_i64 middle.0, page.to_i64 middle.1)

  -- `zip(..).any(..)`.
  abbrev pub moved : List page.Float → List page.Float → Bool
  moved (a ∷ as') (b ∷ bs) = page.differ_by_tolerance a b || moved as' bs
  moved _ _ = false

  abbrev pub reported : String → Value → Option page.Float
  reported key result = keep_if page.is_finite (as_f64 (get key result))

  abbrev pub moved_in_direction : Direction → page.Float → page.Float → Bool
  moved_in_direction Direction.up before after = page.float_lt after before
  moved_in_direction Direction.left before after = page.float_lt after before
  moved_in_direction Direction.down before after = page.float_lt before after
  moved_in_direction Direction.right before after = page.float_lt before after
