-- ===== src/Outcome/Capability/Laws.antt =====
-- What `strict_action_capability` of src/lib.rs grants.
use praefectus.Prelude.{
  ◌≡◌, refl, subst, Bool, true, false, Option, none, some, List, [], ◌∷◌, String, arith, all,
  str_eq, str_eq_iff, Bool-cases, Option-cases, inl, inr,
}
use praefectus.Protocol.{
  Action, ActionCapability, Capabilities, application, screenshot, window, open_target,
  clipboard_write,
}
use praefectus.Protocol.Route.{name}
use praefectus.Validate.Request.{is_auxiliary}
use praefectus.Outcome.Capability.{
  collect_facts, find_fact, route_is_valid, strict_action_capability, distinct, select_from,
}

collect-valid :
    (facts rest out : List ActionCapability)
    → all route_is_valid facts ≡ true
    → collect_facts facts rest ≡ some out
    → all route_is_valid out ≡ true
collect-valid facts [] out h e = ground arith
collect-valid facts (c ∷ rest) out h e = ground (arith, collect-valid (c ∷ facts) rest out)

find-valid :
    (n : String) (facts : List ActionCapability) (c : ActionCapability)
    → all route_is_valid facts ≡ true
    → find_fact n facts ≡ some c
    → (route_is_valid c ≡ true) × (str_eq c.action n ≡ true)
unfolding find_fact
find-valid n [] c h e = cc
find-valid n (d ∷ facts) c h e = elim (Bool-cases (str_eq d.action n)) [
  | inl t ↦
      let same : d ≡ c = ground (arith, t) in
      subst (λ (x : ActionCapability). (route_is_valid x ≡ true) × (str_eq x.action n ≡ true)) same
        (ground arith, t)
  | inr f ↦ find-valid n facts c (ground arith) (ground (arith, f))
]

select_from-valid :
    (n : String) (names : Option (List String)) (facts : Option (List ActionCapability))
    (c : ActionCapability)
    → ((out : List ActionCapability) → facts ≡ some out → all route_is_valid out ≡ true)
    → select_from n names facts ≡ some c
    → (route_is_valid c ≡ true) × (str_eq c.action n ≡ true)
select_from-valid n none facts c h e = cc
select_from-valid n (some names) none c h e = cc
select_from-valid n (some names) (some facts) c h e =
    find-valid n facts c (h facts refl) (ground arith)

-- A capability that is granted for an action is the fact of that action's name, and its delivery
-- route is one that the action may have.
pub granted-valid :
    (cs : Capabilities) (a : Action) (c : ActionCapability)
    → strict_action_capability cs a ≡ some c
    → (route_is_valid c ≡ true) × (c.action ≡ name a)
unfolding strict_action_capability
granted-valid cs a c h =
    let found =
      select_from-valid (name a) (distinct [] cs.supported_actions)
        (collect_facts [] cs.action_capabilities) c
        (λ out e. collect-valid [] cs.action_capabilities out refl e) h in
    (found.0, (str_eq_iff c.action (name a)).0 found.1)

-- The routes of a name that no capability has.
no_route :
    (cs : Capabilities) (a : Action)
    → ((d : ActionCapability) → d.action ≡ name a → route_is_valid d ≡ false)
    → strict_action_capability cs a ≡ none
no_route cs a h = elim (Option-cases (strict_action_capability cs a)) [
  | inl n ↦ n
  | inr (c, e) ↦
      let found = granted-valid cs a c e in
      let wrong = h c found.1 in absurd (ground (arith, found.0, wrong))
]

screenshot_invalid : (d : ActionCapability) → d.action ≡ "screenshot" → route_is_valid d ≡ false
unfolding route_is_valid
screenshot_invalid d e = rw e refl

window_invalid : (d : ActionCapability) → d.action ≡ "window" → route_is_valid d ≡ false
unfolding route_is_valid
window_invalid d e = rw e refl

open_invalid : (d : ActionCapability) → d.action ≡ "open" → route_is_valid d ≡ false
unfolding route_is_valid
open_invalid d e = rw e refl

clipboard_write_invalid :
    (d : ActionCapability) → d.action ≡ "clipboard_write" → route_is_valid d ≡ false
unfolding route_is_valid
clipboard_write_invalid d e = rw e refl

abbrev pub is_application : Action → Bool
is_application (application _ _) = true
is_application _ = false

-- No list of capabilities grants a screenshot, a window operation, an opening or a clipboard write:
-- of the auxiliary actions only `application` is ever available to `Engine::execute`.
pub auxiliary_unavailable :
    (cs : Capabilities) (a : Action)
    → is_auxiliary a ≡ true
    → is_application a ≡ false
    → strict_action_capability cs a ≡ none
unfolding name
auxiliary_unavailable cs Action.invoke h k = cc
auxiliary_unavailable cs (Action.click b n d) h k = cc
auxiliary_unavailable cs (Action.type_text s x y z) h k = cc
auxiliary_unavailable cs (Action.press s n o) h k = cc
auxiliary_unavailable cs (Action.paste s) h k = cc
auxiliary_unavailable cs (Action.hotkey ks) h k = cc
auxiliary_unavailable cs (Action.scroll d n) h k = cc
auxiliary_unavailable cs Action.move h k = cc
auxiliary_unavailable cs (Action.drag t b) h k = cc
auxiliary_unavailable cs (Action.select_text m n) h k = cc
auxiliary_unavailable cs (Action.perform_secondary_action s) h k = cc
auxiliary_unavailable cs (Action.set_value s) h k = cc
auxiliary_unavailable cs (application o s) h k = cc
auxiliary_unavailable cs (screenshot s) h k = no_route cs (screenshot s) screenshot_invalid
auxiliary_unavailable cs (window o s t) h k = no_route cs (window o s t) window_invalid
auxiliary_unavailable cs (open_target s t b) h k = no_route cs (open_target s t b) open_invalid
auxiliary_unavailable cs (clipboard_write s) h k =
    no_route cs (clipboard_write s) clipboard_write_invalid
