-- ===== src/Protocol/Report.antt =====
-- The result types of src/lib.rs: acknowledgements, terminals, receipts and evidence, what an
-- executor reports (capabilities, observations, dispatch results), and the error type.
use praefectus.Prelude.{ℕ, ℤ, Bool, true, false, String, Option, List}
use praefectus.Json.{Value}
use praefectus.Protocol.Request.{InteractionMode, SemanticTargetRef}

pub data SessionIsolation : Type 0 where
  shared_desktop host_isolated unknown : SessionIsolation

pub data DeliveryRoute : Type 0 where
  target_addressed pointer per_process_event unknown : DeliveryRoute

pub data BackgroundSupport : Type 0 where
  guarded host_isolated_only unavailable : BackgroundSupport

pub data ContextPreservation : Type 0 where
  not_applicable unchanged_at_boundaries changed unavailable host_isolated : ContextPreservation

pub data Effect : Type 0 where
  verified executed_unverified unknown : Effect

pub data FailureCode : Type 0 where
  invalid_request conflict stale_target target_not_found : FailureCode
  permission_denied unsupported dispatch_failed verification_failed : FailureCode

pub record Evidence : Type 0 where
  pub observation_hash : String
  pub target_fingerprint_hash : Option String
  pub display_geometry_hash : String
  pub observed_at_ms : ℤ

pub record Receipt : Type 0 where
  pub protocol_version : ℕ
  pub action_name : String
  pub action_hash : String
  pub started_at_ms : ℤ
  pub finished_at_ms : ℤ
  pub backend : String
  pub fallback_chain : List String
  pub delivery_route : DeliveryRoute
  pub session_isolation : SessionIsolation
  pub interaction_mode : InteractionMode
  pub context_preservation : ContextPreservation
  pub effect : Effect
  pub before : Option Evidence
  pub after : Option Evidence
  pub warnings : List String

pub data Terminal : Type 0 where
  succeeded : Receipt → Terminal
  rejected : FailureCode → String → Terminal
  failed : FailureCode → String → Terminal
  cancelled_before_effect : Terminal
  expired_before_effect : Terminal
  outcome_unknown : Receipt → String → Terminal

pub data AckState : Type 0 where
  accepted : AckState
  executing : AckState
  terminal : Terminal → AckState

pub record ActionAck : Type 0 where
  pub protocol_version : ℕ
  pub operation_id : String
  pub sequence : ℕ
  pub action_hash : String
  pub replayed : Bool
  pub state : AckState

pub record ExecuteReport : Type 0 where
  pub acknowledgements : List ActionAck

pub record ActionCapability : Type 0 where
  pub action : String
  pub delivery_route : DeliveryRoute
  pub background_support : BackgroundSupport

pub record Capabilities : Type 0 where
  pub platform : String
  pub backend : String
  pub session_isolation : SessionIsolation
  pub supported_actions : List String
  pub action_capabilities : List ActionCapability
  pub permissions : List (String × Bool)
  pub display_geometry_hash : String

pub record NativePoint : Type 0 where
  pub x : ℤ
  pub y : ℤ

pub record Rect : Type 0 where
  pub x : ℤ
  pub y : ℤ
  pub width : ℤ
  pub height : ℤ

pub record NativeElement : Type 0 where
  pub backend : String
  pub id : String
  pub app : String
  pub process_id : Option ℤ
  pub window : Option String
  pub role : String
  pub label : Option String
  pub title : Option String
  pub bounds : Option Rect
  pub state : Value
  pub enabled : Option Bool

pub record Observation : Type 0 where
  pub evidence : Evidence
  pub found : Option NativeElement
  pub state : Value

pub data ResolvedTarget : Type 0 where
  point : NativePoint → ResolvedTarget
  native_element : NativeElement → ResolvedTarget
  semantic : SemanticTargetRef → ResolvedTarget
  unresolved : ResolvedTarget

pub record DispatchReceipt : Type 0 where
  pub backend : String
  pub fallback_chain : List String

pub data EffectKnowledge : Type 0 where
  no_effect unknown cancelled_before_effect expired_before_effect : EffectKnowledge

pub record DispatchError : Type 0 where
  pub message : String
  pub effect : EffectKnowledge
  pub code : FailureCode

pub record VerifiedAuthority : Type 0 where
  pub expires_at_ms : ℤ

pub record OutcomeKey : Type 0 where
  pub operation_id : String
  pub action_hash : String

pub data LedgerDecision : Type 0 where
  dispatch : LedgerDecision
  recorded : Terminal → LedgerDecision
  interrupted : LedgerDecision

-- The messages of `io` and `json` are the foreign errors' own.
pub data ProtocolError : Type 0 where
  invalid_request : String → ProtocolError
  conflict : ProtocolError
  authority_denied : ProtocolError
  stale_target : String → ProtocolError
  target_not_found : String → ProtocolError
  observation_cancelled : ProtocolError
  observation_expired : ProtocolError
  io : String → ProtocolError
  json : String → ProtocolError
  executor : String → ProtocolError
  ledger : String → ProtocolError

pub data Result {ℓ} (A : Type ℓ) : Type ℓ where
  ok : A → Result A
  err : ProtocolError → Result A

-- `?` on a result, with no state: an error is passed on.
infixl 5 ◌>>=◌ ◌>>◌
abbrev pub ◌>>=◌ : {A B : Type 0} (found : Result A) (next : A → Result B) → Result B
err failure >>= next = err failure
ok value >>= next = next value

abbrev pub ◌>>◌ : {B : Type 0} (checked : Result (Unit {0})) (next : Result B) → Result B
checked >> next = checked >>= λ _. next

abbrev pub isolation_is_unknown : SessionIsolation → Bool
isolation_is_unknown SessionIsolation.unknown = true
isolation_is_unknown _ = false

abbrev pub isolation_is_shared : SessionIsolation → Bool
isolation_is_shared SessionIsolation.shared_desktop = true
isolation_is_shared _ = false

abbrev pub isolation_is_host : SessionIsolation → Bool
isolation_is_host SessionIsolation.host_isolated = true
isolation_is_host _ = false

abbrev pub route_is_target_addressed : DeliveryRoute → Bool
route_is_target_addressed DeliveryRoute.target_addressed = true
route_is_target_addressed _ = false

abbrev pub route_is_pointer : DeliveryRoute → Bool
route_is_pointer DeliveryRoute.pointer = true
route_is_pointer _ = false

abbrev pub route_is_per_process : DeliveryRoute → Bool
route_is_per_process DeliveryRoute.per_process_event = true
route_is_per_process _ = false

abbrev pub support_is_guarded : BackgroundSupport → Bool
support_is_guarded BackgroundSupport.guarded = true
support_is_guarded _ = false

abbrev pub support_is_host_isolated_only : BackgroundSupport → Bool
support_is_host_isolated_only BackgroundSupport.host_isolated_only = true
support_is_host_isolated_only _ = false

abbrev pub support_is_unavailable : BackgroundSupport → Bool
support_is_unavailable BackgroundSupport.unavailable = true
support_is_unavailable _ = false

abbrev pub effect_is_unknown : Effect → Bool
effect_is_unknown Effect.unknown = true
effect_is_unknown _ = false

abbrev pub effect_is_verified : Effect → Bool
effect_is_verified Effect.verified = true
effect_is_verified _ = false
