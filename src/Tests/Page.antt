-- ===== src/Tests/Page.antt =====
-- A page with one button, in a browser that answers every command; the clock stands still.
use praefectus.Prelude.{
  ℕ, ◌-◌, pos, true, false, not, String, Option, none, some, List, [], ◌∷◌, ltb, str_eq, ◌==◌,
  if◌then◌else◌,
}
use praefectus.Prelude.Try.{ok}
use praefectus.Json.{Value, Fields, array, boolean, cons, end, field, nil, number, object, string}
use praefectus.Protocol.{SessionIsolation}
use praefectus.Semantic.Observation.{SemanticBackend, SemanticElement, SemanticObservation}
use praefectus.Semantic.Resolve.{Hashing}
use praefectus.Browser.Page.{
  Command, Page, call_function_on, capture_snapshot, create_isolated_world, get_box_model,
  get_frame_tree, get_full_ax_tree, get_layout_metrics, get_node_for_location, get_partial_ax_tree,
  get_target_info, invoke_effect, resolve_node,
}
use praefectus.Browser.Session.{Session}

abbrev pub hash : String
hash = "aaaaaaaaaaaaaaaaaaaaaaaaaaaaaaaaaaaaaaaaaaaaaaaaaaaaaaaaaaaaaaaa"

abbrev one : String → Value → Value
one key v = object (field key v end)

abbrev fields : List (String × Value) → Fields
fields [] = end
fields ((k, v) ∷ rest) = field k v (fields rest)

abbrev list : Value → Value
list v = array (cons v nil)

abbrev frame_tree : Value
frame_tree =
    one "frameTree"
      (one "frame" (object (fields (("id", string "f") ∷ ("loaderId", string "l") ∷ []))))

abbrev button : Value
button = object (
    fields (
      ("backendDOMNodeId", number "7")
      ∷ ("name", one "value" (string "Go"))
      ∷ ("nodeId", string "1")
      ∷ ("role", one "value" (string "button"))
      ∷ []))

abbrev snapshot : Value
snapshot = one "documents" (
    list (
      object (
        fields
          (("frameId", string "f") ∷ ("nodes", one "backendNodeId" (list (number "7"))) ∷ []))))

abbrev probed : Value
probed = object (
    fields
      (("connected", boolean true) ∷ ("enabled", boolean true) ∷ ("visible", boolean true) ∷ []))

abbrev result_of : Value → Value
result_of v = one "result" (one "value" v)

abbrev reply : Command → Value
reply get_frame_tree = frame_tree
reply get_layout_metrics = one "cssVisualViewport" (object end)
reply (resolve_node n c) = one "object" (one "objectId" (string "o"))
reply (call_function_on o invoke_effect) = result_of (one "eligible" (boolean true))
reply (call_function_on o f) = result_of probed
reply (get_partial_ax_tree n) = one "nodes" (list button)
reply (get_box_model n) = object end
reply (get_node_for_location x y) = object end
reply (get_target_info t) =
    one "targetInfo" (object (fields (("targetId", string "t") ∷ ("type", string "page") ∷ [])))
reply (create_isolated_world f) = one "executionContextId" (number "7")
reply capture_snapshot = snapshot
reply (get_full_ax_tree f) = one "nodes" (list button)

abbrev pub parse_seven : String → Option ℕ
parse_seven s = if str_eq s "7" then some 7 else none

abbrev pub page : Page
page = record {
  World = Unit {0};
  now_ms = λ w. (pos 1, w);
  is_cancelled = λ w. (false, w);
  lock = λ w. (true, w);
  read_latest = λ w. (true, w);
  write_latest = λ w. (true, w);
  command = λ c d w. (ok (reply c), w);
  live_process_generation = λ p w. (some "g", w);
  samples = λ w. (0, w);
  hash_document = λ a b c d. some hash;
  hash_observation = λ a b c n t. some hash;
  hash_node = λ d n r m. some hash;
  hash_value = λ v. some hash;
  sha256_hex = λ s. hash;
  number_u64 = parse_seven;
  Float = ℕ;
  number_f64 = parse_seven;
  is_finite = λ x. true;
  float_zero = 0;
  float_lt = ltb;
  float_eq = λ x y. x == y;
  float_sub = λ x y. x - y;
  mean_of_four = λ a b c d. a;
  round = λ x. x;
  to_i64 = pos;
  differ_by_tolerance = λ x y. not (x == y);
}

abbrev pub hashing : Hashing
hashing = record {
  hash_provenance = λ k. some hash;
  encoded_len = λ o. some 1;
  hash_bytes = λ b. hash;
}

abbrev pub opened : Session page
opened = record {
  world = tt;
  config = record {
    port = 9222;
    target_id = "t";
    browser_process_id = 42;
    process_generation = "g";
    session_isolation = SessionIsolation.host_isolated;
  };
  generation = 0;
  latest = none;
  effects = [];
}

abbrev pub element : SemanticElement
element = record {
  tag = "e0";
  element_id = hash;
  parent_id = none;
  fingerprint_hash = hash;
  role = "button";
  name = some "Go";
  bounds = none;
  actionability = record {
    visible = true;
    enabled = true;
    unambiguous = true;
    stable = false;
    receives_events = false;
    invokable = true;
    editable = false;
  };
}

abbrev pub observation : SemanticObservation
observation = record {
  protocol_version = 2;
  observation_id = hash;
  generation = 1;
  provenance = record {
    backend = SemanticBackend.dom;
    backend_name = "praefectus-chromium-cdp";
    process_id = 42;
    process_generation = "g";
    window_id = "t";
    document_id = some hash;
    display_geometry_hash = hash;
    host_opt_ins = [];
  };
  observed_at_ms = pos 1;
  expires_at_ms = pos 100;
  truncated = false;
  elements = element ∷ [];
}
