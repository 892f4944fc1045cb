-- ===== src/Browser/Observe.antt =====
-- `CdpExecutor::semantic_observation` of src/cdp.rs: it reads the page, parses its accessibility tree,
-- and stores what it observed.
pub mod Fresh
pub mod Numbered
pub mod Reader
pub mod Stored
use praefectus.Prelude.{
  ℕ, ◌+◌, ◌%◌, ◌^◌, ℤ, Bool, true, false, not, String, Option, none, some, List, [], ◌∷◌, and_then,
  keep_if, ltb,
}
use praefectus.Prelude.Try.{Try, ok, err, map_err, ok_or}
use praefectus.Json.{Value, get, pointer}
use praefectus.Semantic.Observation.{SemanticElement, SemanticObservation}
use praefectus.Semantic.Resolve.{Hashing, validate}
use praefectus.Browser.Page.{
  CdpConfig, CdpError, CdpNode, Command, Page, StoredObservation, backend_name, capture_snapshot,
  create_isolated_world, get_frame_tree, get_full_ax_tree, get_layout_metrics, get_target_info,
  protocol, stale_target,
}
use praefectus.Browser.Session.{Exec, Session, ask, gets, lift, pure, raise, send, ◌>>=◌, ◌>>◌}
use praefectus.Browser.Accessibility.{as_u64}
use praefectus.Browser.Boundary.{boundary, raise_if, verify_process}
use praefectus.Browser.Query.{answer, need, required_string, viewport_of}
use praefectus.Browser.Tree.{parse_ax_tree}
use praefectus.Browser.Snapshot.{
  Reading, frame_changed, observation_of, root_backend_node_ids, target_is_stale,
}

module _ {page : Page} where
  unfoldable pub command : Command → ℤ → Exec page CdpError Value
  command c deadline = do
    boundary deadline
    locked ← ask page.lock
    raise_if protocol (not locked)
    reply ← send c deadline
    boundary deadline
    answer protocol reply

  -- `self.generation.fetch_add(1) + 1`.
  unfoldable pub next_generation : Exec page CdpError ℕ
  next_generation s =
      (ok ((s.generation + 1) % 2 ^ 64), record s { generation = (s.generation + 1) % 2 ^ 64 })

  unfoldable pub set_latest : StoredObservation → Exec page CdpError (Unit {0})
  set_latest stored s = (ok tt, record s { latest = some stored })

  -- Up to the parse of the tree.
  unfoldable pub read_page : ℤ → Exec page CdpError Reading
  unfolding command next_generation root_backend_node_ids
  read_page deadline = do
    boundary deadline
    verify_process
    config ← gets (λ s. s.config)
    target ← command (get_target_info config.target_id) deadline
    target_info ← need protocol (get "targetInfo" target)
    raise_if stale_target (target_is_stale target_info config)
    frame_tree ← command get_frame_tree deadline
    frame ← need protocol (pointer ("frameTree" ∷ "frame" ∷ []) frame_tree)
    frame_id ← need protocol (required_string "id" frame)
    loader_id ← need protocol (required_string "loaderId" frame)
    document_id ←
        need protocol (page.hash_document backend_name config.target_id frame_id loader_id)
    execution_context ← command (create_isolated_world frame_id) deadline
    execution_context_id ← need protocol (
        keep_if (λ n. ltb 0 n)
          (as_u64 page.number_u64 (get "executionContextId" execution_context)))
    layout ← command get_layout_metrics deadline
    viewport ← need protocol (viewport_of layout)
    display_geometry_hash ← need protocol (page.hash_value viewport)
    dom_snapshot ← command capture_snapshot deadline
    roots ← lift (root_backend_node_ids page.number_u64 dom_snapshot frame_id)
    tree ← command (get_full_ax_tree frame_id) deadline
    final_frame_tree ← command get_frame_tree deadline
    final_frame ← need protocol (pointer ("frameTree" ∷ "frame" ∷ []) final_frame_tree)
    changed ← lift (frame_changed final_frame frame_id loader_id)
    raise_if stale_target changed
    boundary deadline
    observed_at_ms ← ask page.now_ms
    generation ← next_generation
    observation_id ←
        need protocol (
          page.hash_observation backend_name config.target_id document_id generation observed_at_ms)
    pure (record {
      config = config;
      document_id = document_id;
      execution_context_id = execution_context_id;
      display_geometry_hash = display_geometry_hash;
      roots = roots;
      tree = tree;
      observed_at_ms = observed_at_ms;
      generation = generation;
      observation_id = observation_id;
    })

  -- From the elements and the nodes of the tree.
  unfoldable pub store :
      Hashing
      → ℤ
      → Reading
      → List SemanticElement × List (String × CdpNode)
      → Exec page CdpError SemanticObservation
  unfolding set_latest
  store h deadline r found = do
    let observation = observation_of r deadline found.0
    lift (map_err (validate h observation r.observed_at_ms) (λ e. protocol))
    writable ← ask page.write_latest
    raise_if protocol (not writable)
    set_latest (record {
      observation = observation;
      execution_context_id = r.execution_context_id;
      nodes = found.1;
    })
    pure observation

  unfoldable pub after_parse :
      Hashing
      → ℤ
      → Reading
      → Option (Try CdpError (List SemanticElement × List (String × CdpNode)))
      → Session page
      → Option (Try CdpError SemanticObservation × Session page)
  unfolding store
  after_parse h deadline r none s = none
  after_parse h deadline r (some (err e)) s = some (err e, s)
  after_parse h deadline r (some (ok found)) s = some (store h deadline r found s)

  unfoldable pub after_read :
      Hashing
      → ℕ
      → ℤ
      → Try CdpError Reading
      → Session page
      → Option (Try CdpError SemanticObservation × Session page)
  unfolding after_parse parse_ax_tree
  after_read h fuel deadline (err e) s = some (err e, s)
  after_read h fuel deadline (ok r) s =
      after_parse h deadline r
        (parse_ax_tree h page.number_u64 (page.hash_node r.document_id) fuel r.tree r.observation_id
          r.roots)
        s

  -- `none` when the parse of the tree has used up its fuel.
  unfoldable pub semantic_observation :
      Hashing → ℕ → ℤ → Session page → Option (Try CdpError SemanticObservation × Session page)
  unfolding read_page after_read
  semantic_observation h fuel deadline s =
      let (found, s') = read_page deadline s in after_read h fuel deadline found s'
