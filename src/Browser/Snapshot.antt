-- ===== src/Browser/Snapshot.antt =====
-- The pure parts of `CdpExecutor::semantic_observation` of src/cdp.rs: the nodes of the root document,
-- the checks of the target and of the frame, and the observation that is made of a reading.
use praefectus.Prelude.{
  ℕ, zero, suc, ℤ, Bool, true, false, not, ◌||◌, String, Option, none, some, List, [], ◌∷◌,
  and_then, is_some_and, keep_if, min_ℤ, sat_add_i64, str_eq, ltb, if◌then◌else◌,
}
use praefectus.Prelude.Try.{Try, ok, err, ◌>>=◌, ok_or}
use praefectus.Json.{Value, as_array, as_number, as_str, get, pointer}
use praefectus.Protocol.{protocol_version}
use praefectus.Semantic.Observation.{
  SemanticBackend, SemanticElement, SemanticObservation, max_semantic_observation_age_ms,
}
use praefectus.Browser.Page.{CdpConfig, CdpError, backend_name, protocol}
use praefectus.Browser.Query.{required_string}

abbrev nth : ℕ → List Value → Option Value
nth n [] = none
nth zero (v ∷ vs) = some v
nth (suc n) (v ∷ vs) = nth n vs

abbrev is_text : String → Option Value → Bool
is_text text v = is_some_and (as_str v) (λ s. str_eq s text)

-- `usize` has 64 bits.
abbrev names_frame : (String → Option ℕ) → Option (List Value) → String → Value → Bool
names_frame number_u64 strings root_frame_id frame_id =
    is_text root_frame_id (some frame_id)
    || is_text root_frame_id (
        and_then (and_then (as_number frame_id) number_u64) (λ index. and_then strings (nth index)))

abbrev is_root_document : (String → Option ℕ) → Option (List Value) → String → Value → Bool
is_root_document number_u64 strings root_frame_id document =
    is_some_and (get "frameId" document) (names_frame number_u64 strings root_frame_id)

abbrev root_documents : (String → Option ℕ) → Option (List Value) → String → List Value → List Value
root_documents number_u64 strings root_frame_id [] = []
root_documents number_u64 strings root_frame_id (d ∷ ds) =
    let rest = root_documents number_u64 strings root_frame_id ds in
    if is_root_document number_u64 strings root_frame_id d then d ∷ rest else rest

abbrev only_document : List Value → Try CdpError Value
only_document [] = err protocol
only_document (d ∷ []) = ok d
only_document (d ∷ e ∷ ds) = err protocol

abbrev positive_ids : (String → Option ℕ) → List Value → Try CdpError (List ℕ)
positive_ids number_u64 [] = ok []
positive_ids number_u64 (v ∷ vs) = do
  id ← ok_or (keep_if (λ n. ltb 0 n) (and_then (as_number v) number_u64)) protocol
  rest ← positive_ids number_u64 vs
  ok (id ∷ rest)

unfoldable pub root_backend_node_ids : (String → Option ℕ) → Value → String → Try CdpError (List ℕ)
root_backend_node_ids number_u64 snapshot root_frame_id = do
  documents ← ok_or (and_then (get "documents" snapshot) as_array) protocol
  document ← only_document (
      root_documents number_u64 (and_then (get "strings" snapshot) as_array) root_frame_id
        documents)
  ids ← ok_or (and_then (pointer ("nodes" ∷ "backendNodeId" ∷ []) document) as_array) protocol
  positive_ids number_u64 ids

abbrev pub target_is_stale : Value → CdpConfig → Bool
target_is_stale info config =
    not (is_text config.target_id (get "targetId" info))
    || not (is_some_and (as_str (get "type" info)) (λ t. str_eq t "page" || str_eq t "webview"))

-- The comparison of the frame after the reading.
abbrev pub frame_changed : Value → String → String → Try CdpError Bool
frame_changed frame frame_id loader_id = do
  id ← ok_or (required_string "id" frame) protocol
  if not (str_eq id frame_id) then ok true else (do
    loader ← ok_or (required_string "loaderId" frame) protocol
    ok (not (str_eq loader loader_id)))

-- What has been read of the page before its tree is parsed.
pub record Reading : Type 0 where
  pub config : CdpConfig
  pub document_id : String
  pub execution_context_id : ℕ
  pub display_geometry_hash : String
  pub roots : List ℕ
  pub tree : Value
  pub observed_at_ms : ℤ
  pub generation : ℕ
  pub observation_id : String

abbrev pub observation_of : Reading → ℤ → List SemanticElement → SemanticObservation
observation_of r deadline elements = record {
  protocol_version = protocol_version;
  observation_id = r.observation_id;
  generation = r.generation;
  provenance = record {
    backend = SemanticBackend.dom;
    backend_name = backend_name;
    process_id = r.config.browser_process_id;
    process_generation = r.config.process_generation;
    window_id = r.config.target_id;
    document_id = some r.document_id;
    display_geometry_hash = r.display_geometry_hash;
    host_opt_ins = [];
  };
  observed_at_ms = r.observed_at_ms;
  expires_at_ms = min_ℤ deadline (sat_add_i64 r.observed_at_ms max_semantic_observation_age_ms);
  truncated = false;
  elements = elements;
}
