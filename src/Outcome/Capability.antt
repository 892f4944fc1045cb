-- ===== src/Outcome/Capability.antt =====
-- `strict_action_capability` and `background_capability_is_authorized` of src/lib.rs. A set or a map
-- of names is the list of the entries inserted so far.
pub mod Laws
use praefectus.Prelude.{
  Bool, true, false, not, ◌&&◌, ◌||◌, String, Option, none, some, List, [], ◌∷◌, str_eq, any,
  length, ◌==◌, if◌then◌else◌,
}
use praefectus.Protocol.{
  Action, ActionCapability, Capabilities, DeliveryRoute, SessionIsolation,
  route_is_target_addressed, route_is_pointer, route_is_per_process, support_is_guarded,
  support_is_host_isolated_only, support_is_unavailable,
}
use praefectus.Protocol.Route.{name}

abbrev pub contains : String → List String → Bool
contains x names = any (λ n. str_eq n x) names

-- `BTreeSet::insert` of every name, or nothing if one was there before.
abbrev pub distinct : List String → List String → Option (List String)
distinct seen [] = some seen
distinct seen (n ∷ names) =
    let rest = distinct (n ∷ seen) names in if contains n seen then none else rest

abbrev is_addressed_action : String → Bool
is_addressed_action n =
    contains n ("invoke" ∷ "set_value" ∷ "select_text" ∷ "perform_secondary_action" ∷ [])

abbrev is_input_action : String → Bool
is_input_action n =
    contains n ("click" ∷ "drag" ∷ "type_text" ∷ "press" ∷ "paste" ∷ "hotkey" ∷ "move" ∷ [])

unfoldable pub route_is_valid : ActionCapability → Bool
route_is_valid c =
    if is_addressed_action c.action
    then route_is_target_addressed c.delivery_route
    else if str_eq "application" c.action
    then route_is_pointer c.delivery_route && support_is_unavailable c.background_support
    else if is_input_action c.action
    then route_is_pointer c.delivery_route || route_is_per_process c.delivery_route
    else if str_eq "scroll" c.action
    then route_is_pointer c.delivery_route
      || (route_is_target_addressed c.delivery_route || route_is_per_process c.delivery_route)
    else false

-- The entry of a map that is keyed by the action's name.
unfoldable pub find_fact : String → List ActionCapability → Option ActionCapability
find_fact n [] = none
find_fact n (c ∷ facts) = if str_eq c.action n then some c else find_fact n facts

abbrev pub has_fact : String → List ActionCapability → Bool
has_fact n facts = any (λ c. str_eq c.action n) facts

abbrev pub collect_facts :
    List ActionCapability → List ActionCapability → Option (List ActionCapability)
collect_facts facts [] = some facts
collect_facts facts (c ∷ rest) =
    let more = collect_facts (c ∷ facts) rest in
    if not (route_is_valid c) || has_fact c.action facts then none else more

abbrev missing : List String → List ActionCapability → Bool
missing [] facts = false
missing (n ∷ names) facts = not (has_fact n facts) || missing names facts

abbrev select : String → List String → List ActionCapability → Option ActionCapability
select n supported facts =
    if not (length supported == length facts) || missing supported facts
    then none
    else if contains n supported
    then find_fact n facts
    else none

abbrev select_from :
    String → Option (List String) → Option (List ActionCapability) → Option ActionCapability
select_from n none facts = none
select_from n (some supported) none = none
select_from n (some supported) (some facts) = select n supported facts

unfoldable pub strict_action_capability : Capabilities → Action → Option ActionCapability
unfolding route_is_valid find_fact
strict_action_capability c action =
    select_from (name action) (distinct [] c.supported_actions)
      (collect_facts [] c.action_capabilities)

unfoldable pub background_capability_is_authorized : ActionCapability → SessionIsolation → Bool
background_capability_is_authorized c SessionIsolation.shared_desktop =
    route_is_target_addressed c.delivery_route && support_is_guarded c.background_support
background_capability_is_authorized c SessionIsolation.host_isolated =
    support_is_guarded c.background_support || support_is_host_isolated_only c.background_support
background_capability_is_authorized c SessionIsolation.unknown = false
