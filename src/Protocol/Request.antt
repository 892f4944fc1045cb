-- ===== src/Protocol/Request.antt =====
-- The request types of src/lib.rs: actions, targets, verification policies, the signed authority
-- and the request itself; and the target reference of src/semantic.rs.
use praefectus.Prelude.{ℕ, ℤ, Bool, true, false, String, Option, List}
use praefectus.Json.{Value}

abbrev pub protocol_version : ℕ
protocol_version = 2

pub data InteractionMode : Type 0 where
  interactive background_only unknown : InteractionMode

pub data SafetyClass : Type 0 where
  reversible external destructive : SafetyClass

pub data MouseButton : Type 0 where
  left right middle : MouseButton

pub data Direction : Type 0 where
  up down left right : Direction

pub data ApplicationOperation : Type 0 where
  launch switch quit : ApplicationOperation

pub data WindowOperation : Type 0 where
  focus close minimize : WindowOperation

pub record SemanticTargetRef : Type 0 where
  pub observation_id : String
  pub generation : ℕ
  pub provenance_hash : String
  pub element_id : String
  pub fingerprint_hash : String

pub record CoordinateTarget : Type 0 where
  pub x : ℤ
  pub y : ℤ
  pub display_id : String
  pub display_geometry_hash : String
  pub snapshot_id : String
  pub snapshot_content_hash : String

pub data TargetRef : Type 0 where
  coordinates : CoordinateTarget → TargetRef
  element : SemanticTargetRef → TargetRef
  untargeted : TargetRef

-- The arguments stand in the order of the fields in the source.
pub data Action : Type 0 where
  invoke : Action
  click : MouseButton → ℕ → Bool → Action
  type_text : String → Bool → Bool → Option ℕ → Action
  press : String → ℕ → Option ℕ → Action
  paste : String → Action
  hotkey : List String → Action
  scroll : Direction → ℕ → Action
  move : Action
  drag : TargetRef → MouseButton → Action
  select_text : ℕ → ℕ → Action
  perform_secondary_action : String → Action
  set_value : String → Action
  screenshot : String → Action
  application : ApplicationOperation → String → Action
  window : WindowOperation → Option String → Option String → Action
  open_target : String → Option String → Bool → Action
  clipboard_write : String → Action

pub data VerificationPolicy : Type 0 where
  unverified : VerificationPolicy
  snapshot_changed : VerificationPolicy
  target_state : Value → VerificationPolicy
  target_value_hash : String → VerificationPolicy

pub record AuthorityGrant : Type 0 where
  pub protocol_version : ℕ
  pub issuer : String
  pub key_id : String
  pub operation_id : String
  pub subject : String
  pub session_id : String
  pub risk : SafetyClass
  pub expires_at_ms : ℤ
  pub policy_generation : String
  pub action_hash : String

pub record SignedAuthority : Type 0 where
  pub grant : AuthorityGrant
  pub signature : String

pub record ActionRequest : Type 0 where
  pub protocol_version : ℕ
  pub action_version : ℕ
  pub target_version : ℕ
  pub verification_version : ℕ
  pub operation_id : String
  pub subject : String
  pub session_id : String
  pub authority : SignedAuthority
  pub action : Action
  pub target : TargetRef
  pub interaction_mode : InteractionMode
  pub deadline_at_ms : ℤ
  pub verification : VerificationPolicy
  pub safety : SafetyClass

-- Derived equality on the fieldless types, and `matches!` on the others.
abbrev pub mode_is_background_only : InteractionMode → Bool
mode_is_background_only InteractionMode.background_only = true
mode_is_background_only _ = false

abbrev pub mode_is_unknown : InteractionMode → Bool
mode_is_unknown InteractionMode.unknown = true
mode_is_unknown _ = false

abbrev pub safety_eq : SafetyClass → SafetyClass → Bool
safety_eq SafetyClass.reversible SafetyClass.reversible = true
safety_eq SafetyClass.external SafetyClass.external = true
safety_eq SafetyClass.destructive SafetyClass.destructive = true
safety_eq _ _ = false

abbrev pub is_untargeted : TargetRef → Bool
is_untargeted untargeted = true
is_untargeted _ = false

abbrev pub is_coordinates : TargetRef → Bool
is_coordinates (coordinates _) = true
is_coordinates _ = false

abbrev pub is_element : TargetRef → Bool
is_element (element _) = true
is_element _ = false

abbrev pub is_unverified : VerificationPolicy → Bool
is_unverified unverified = true
is_unverified _ = false
