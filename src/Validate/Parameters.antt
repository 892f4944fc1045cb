-- ===== src/Validate/Parameters.antt =====
-- `secondary_action_allowed` and `validate_action` of src/lib.rs.
use praefectus.Prelude.{
  ℕ, ◌+◌, ◌*◌, ◌^◌, ◌-◌, min, Bool, true, false, not, ◌&&◌, ◌||◌, String, len, Option, List, [],
  ◌∷◌, length, leb, str_eq, all, any, is_none_or, is_some_and, is_some, if◌then◌else◌,
}
use praefectus.Protocol.{
  Action, Result, ok, err, invalid_request, WindowOperation, focus, invoke, click, type_text, press,
  paste, hotkey, scroll, move, drag, select_text, perform_secondary_action, set_value, screenshot,
  application, window, open_target, clipboard_write, is_coordinates,
}
use praefectus.Host.{Env}

abbrev pub secondary_actions : List String
secondary_actions =
    "AXShowMenu" ∷ "AXShowDefaultUI" ∷ "AXShowAlternateUI" ∷ "AXIncrement" ∷ "AXDecrement"
    ∷ "AXConfirm" ∷ "AXCancel" ∷ "AXPick" ∷ []

unfoldable pub secondary_action_allowed : String → Bool
secondary_action_allowed name = any (λ allowed. str_eq allowed name) secondary_actions

abbrev max_select_text_range : ℕ
max_select_text_range = 1048576

abbrev sat_add_u64 : ℕ → ℕ → ℕ
sat_add_u64 a b = min (a + b) (2 ^ 64 - 1)

-- Not empty and at most `limit` bytes.
abbrev within : ℕ → String → Bool
within limit text = not (str_eq text "") && leb (len text) limit

abbrev in_range : ℕ → ℕ → Bool
in_range limit count = leb 1 count && leb count limit

abbrev short_delay : Option ℕ → Bool
short_delay delay_ms = is_none_or delay_ms (λ delay. leb delay 1000)

abbrev is_focus : WindowOperation → Bool
is_focus focus = true
is_focus _ = false

module _ (env : Env) where
  unfoldable pub action_is_valid : Action → Bool
  unfolding secondary_action_allowed
  action_is_valid invoke = true
  action_is_valid (click button count fallback) = in_range 3 count
  action_is_valid (type_text text clear press_return delay_ms) =
      within (16 * 1024) text && short_delay delay_ms
  action_is_valid (press key count delay_ms) =
      within 64 key && (in_range 100 count && short_delay delay_ms)
  action_is_valid (paste text) = within (16 * 1024) text
  action_is_valid (hotkey keys) = in_range 8 (length keys) && all (within 64) keys
  action_is_valid (scroll direction amount) = in_range 100 amount
  action_is_valid move = true
  action_is_valid (drag to button) = is_coordinates to
  action_is_valid (select_text start count) = leb (sat_add_u64 start count) max_select_text_range
  action_is_valid (perform_secondary_action name) = secondary_action_allowed name
  action_is_valid (set_value value) = leb (len value) (16 * 1024)
  action_is_valid (screenshot path) =
      env.path_is_absolute path
      && (env.path_has_file_name path
          && (is_some_and (env.path_extension path) (λ e. str_eq e "png")
              && env.path_parent_is_dir path))
  action_is_valid (application operation name) = within 256 name
  action_is_valid (window operation app title) =
      is_some_and app (within 256)
      && (is_none_or title (within 1024) && (is_focus operation || is_some title))
  action_is_valid (open_target target app no_focus) =
      within (16 * 1024) target && is_none_or app (within 256)
  action_is_valid (clipboard_write text) = leb (len text) (1024 * 1024)

  unfoldable pub validate_action : Action → Result (Unit {0})
  unfolding action_is_valid
  validate_action action =
      if action_is_valid action then ok tt else err (invalid_request "invalid action parameters")
