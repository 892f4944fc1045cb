-- ===== src/Browser/Page.antt =====
-- The commands that src/cdp.rs sends, what it keeps of an observation, and the browser as a parameter.
use praefectus.Prelude.{ℕ, ℤ, Bool, String, Option, List, ◌*◌}
use praefectus.Prelude.Try.{Try}
use praefectus.Json.{Value}
use praefectus.Protocol.{SessionIsolation}
use praefectus.Semantic.Observation.{SemanticElement, SemanticObservation}

abbrev pub backend_name : String
backend_name = "praefectus-chromium-cdp"

abbrev pub max_edit_bytes : ℕ
max_edit_bytes = 64 * 1024

pub record CdpConfig : Type 0 where
  pub port : ℕ
  pub target_id : String
  pub browser_process_id : ℕ
  pub process_generation : String
  pub session_isolation : SessionIsolation

pub data CdpChannelError : Type 0 where
  before_send after_send : CdpChannelError

pub data CdpError : Type 0 where
  invalid_config protocol stale_target target_not_found cancelled expired unsupported : CdpError

-- The function that `Runtime.callFunctionOn` runs in the page, with its arguments.
pub data PageFunction : Type 0 where
  probe protected_probe scroll_probe invoke_effect : PageFunction
  set_value_effect : String → PageFunction
  scroll_effect : String → ℤ → PageFunction

-- The methods, with those of their parameters that vary.
pub data Command : Type 0 where
  get_frame_tree get_layout_metrics : Command
  resolve_node : ℕ → ℕ → Command
  call_function_on : String → PageFunction → Command
  get_partial_ax_tree : ℕ → Command
  get_box_model : ℕ → Command
  get_node_for_location : ℤ → ℤ → Command
  get_target_info : String → Command
  create_isolated_world : String → Command
  capture_snapshot : Command
  get_full_ax_tree : String → Command

pub record CdpNode : Type 0 where
  pub backend_node_id : ℕ
  pub protected : Bool
  pub element : SemanticElement

pub record StoredObservation : Type 0 where
  pub observation : SemanticObservation
  pub execution_context_id : ℕ
  pub nodes : List (String × CdpNode)

pub record NodeIdentity : Type 0 where
  pub backend_node_id : ℕ
  pub execution_context_id : ℕ
  pub document_id : String
  pub protected : Bool
  pub fingerprint_hash : String
  pub display_geometry_hash : String

-- The browser, its channel, the clock, the locks and the cancellation token. `samples` is how often the
-- wait for a stability sample will sleep. The other fields are JSON's numbers, hashes, and the
-- arithmetic of `f64`.
pub record Page : Type 1 where
  pub World : Type 0
  pub now_ms : World → ℤ × World
  pub is_cancelled : World → Bool × World
  pub lock : World → Bool × World
  pub read_latest : World → Bool × World
  pub write_latest : World → Bool × World
  pub command : Command → ℤ → World → Try CdpChannelError Value × World
  pub live_process_generation : ℕ → World → Option String × World
  pub samples : World → ℕ × World
  pub hash_document : String → String → String → String → Option String
  pub hash_observation : String → String → String → ℕ → ℤ → Option String
  pub hash_node : String → ℕ → String → Option String → Option String
  pub hash_value : Value → Option String
  pub sha256_hex : String → String
  pub number_u64 : String → Option ℕ
  pub Float : Type 0
  pub number_f64 : String → Option Float
  pub is_finite : Float → Bool
  pub float_zero : Float
  pub float_lt : Float → Float → Bool
  pub float_eq : Float → Float → Bool
  pub float_sub : Float → Float → Float
  pub mean_of_four : Float → Float → Float → Float → Float
  pub round : Float → Float
  pub to_i64 : Float → ℤ
  pub differ_by_tolerance : Float → Float → Bool
