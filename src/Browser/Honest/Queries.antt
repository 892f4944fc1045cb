-- ===== src/Browser/Honest/Queries.antt =====
-- What happens before the effect sends no function with an effect, and its errors say so.
use praefectus.Prelude.{
  ℕ, zero, suc, ℤ, ◌≡◌, refl, Bool, true, false, String, Option, none, some, List, [], ◌∷◌, arith,
  and_then,
}
use praefectus.Prelude.Try.{Try, ok, err}
use praefectus.Json.{Value, as_array, get}
use praefectus.Protocol.{DispatchError}
use praefectus.Browser.Page.{
  CdpChannelError, Command, NodeIdentity, Page, call_function_on, get_box_model, get_frame_tree,
  get_layout_metrics, capture_snapshot, create_isolated_world, get_full_ax_tree, get_target_info,
  invoke_effect, set_value_effect, scroll_effect, get_node_for_location, get_partial_ax_tree, probe,
  protected_probe, resolve_node, scroll_probe,
}
use praefectus.Browser.Session.{Sent, record_command, send}
use praefectus.Browser.Accessibility.{live_ax_semantics, live_nodes, only_node, semantics_in}
use praefectus.Browser.Boundary.{
  check, check_effect_boundary, no_effect_on_error, verify_process, verify_process_for_effect,
  wait_for_stability_sample, wait_rounds,
}
use praefectus.Browser.Query.{
  answer, current_document_id, current_document_id_for_effect, or_no_effect, probe_function,
  probe_object_for_effect, query_for_effect, resolve_object, resolve_object_for_effect,
  verify_live_target_for_effect,
}
use praefectus.Browser.Honest.{
  IsQuiet, IsQuiet-ask, IsQuiet-attempt, IsQuiet-bind, IsQuiet-if, IsQuiet-lift, IsQuiet-need,
  IsQuiet-pure, IsQuiet-raise, IsQuiet-raise_if, IsStill, IsStill-ask, IsStill-gets, IsStill-need,
  IsStill-raise_if, IsStill-bind, IsStill-pure, IsStill-raise, is_unknown, still_rules, settled,
}

-- The command runs no function with an effect.
abbrev pub is_read : Command → Bool
is_read (call_function_on object probe) = true
is_read (call_function_on object protected_probe) = true
is_read (call_function_on object scroll_probe) = true
is_read (call_function_on object f) = false
is_read _ = true

is_read-keeps :
    (c : Command) (reply : Try CdpChannelError Value) (sent : List Sent)
    → is_read c ≡ true
    → record_command c reply sent ≡ sent
is_read-keeps get_frame_tree reply sent h = refl
is_read-keeps get_layout_metrics reply sent h = refl
is_read-keeps (resolve_node n c) reply sent h = refl
is_read-keeps (get_partial_ax_tree n) reply sent h = refl
is_read-keeps (get_box_model n) reply sent h = refl
is_read-keeps (get_node_for_location x y) reply sent h = refl
is_read-keeps (get_target_info t) reply sent h = refl
is_read-keeps (create_isolated_world f) reply sent h = refl
is_read-keeps capture_snapshot reply sent h = refl
is_read-keeps (get_full_ax_tree f) reply sent h = refl
is_read-keeps (call_function_on o probe) reply sent h = refl
is_read-keeps (call_function_on o protected_probe) reply sent h = refl
is_read-keeps (call_function_on o scroll_probe) reply sent h = refl
is_read-keeps (call_function_on o invoke_effect) reply sent h = cc
is_read-keeps (call_function_on o (set_value_effect v)) reply sent h = cc
is_read-keeps (call_function_on o (scroll_effect a d)) reply sent h = cc

pub probe-is_read :
    (object : String) (protected reveal : Bool)
    → is_read (call_function_on object (probe_function protected reveal)) ≡ true
probe-is_read object true true = refl
probe-is_read object true false = refl
probe-is_read object false reveal = refl

settled-only_node : (nodes : List Value) → settled (only_node nodes) ≡ true
settled-only_node [] = refl
settled-only_node (v ∷ []) = ground arith
settled-only_node (v ∷ w ∷ vs) = refl

settled-semantics_in :
    (number_u64 : String → Option ℕ) (id : ℕ) (nodes : Option (List Value))
    → settled (semantics_in number_u64 id nodes) ≡ true
settled-semantics_in number_u64 id none = refl
settled-semantics_in number_u64 id (some nodes) = settled-only_node (live_nodes number_u64 id nodes)

settled-live_ax_semantics :
    (number_u64 : String → Option ℕ) (tree : Value) (id : ℕ)
    → settled (live_ax_semantics number_u64 tree id) ≡ true
unfolding live_ax_semantics
settled-live_ax_semantics number_u64 tree id =
    settled-semantics_in number_u64 id (and_then (get "nodes" tree) as_array)

module _ {page : Page} {E : Type 0} where
  pub IsStill-send :
      (c : Command) (deadline : ℤ)
      → is_read c ≡ true
      → IsStill {page = page} {E = E} (send c deadline)
  unfolding send
  IsStill-send c deadline h = record {
    at = λ s. is_read-keeps c (page.command c deadline s.world).0 s.effects h;
  }

  IsStill-answer : (e : E) (t : Try CdpChannelError Value) → IsStill {page = page} (answer e t)
  IsStill-answer e (ok v) = IsStill-pure v
  IsStill-answer e (err x) = IsStill-raise e

  pub IsStill-check :
      (c d : E) (deadline : ℤ) (cancelled : Bool)
      → IsStill {page = page} (check c d deadline cancelled)
  IsStill-check c d deadline true = IsStill-raise c
  IsStill-check c d deadline false = search still_rules depth 8

module _ {page : Page} where
  pub IsStill-verify_process : IsStill {page = page} verify_process
  unfolding verify_process
  IsStill-verify_process =
      IsStill-bind _ _ (IsStill-gets _)
        λ c. IsStill-bind _ _ (IsStill-ask _) λ live. IsStill-raise_if _ _

  IsStill-current_document_id :
      (deadline : ℤ) → IsStill {page = page} (current_document_id deadline)
  unfolding current_document_id
  IsStill-current_document_id deadline = IsStill-bind _ _ (IsStill-ask _) λ locked.
      IsStill-bind _ _ (IsStill-raise_if _ _) λ u. IsStill-bind _ _ (IsStill-send _ _ refl) λ reply.
        IsStill-bind _ _ (IsStill-answer _ _) λ tree.
          IsStill-bind _ _ (IsStill-need _ _)
            λ found. IsStill-bind _ _ (IsStill-gets _) λ config. IsStill-need _ _

  IsStill-resolve_object :
      (node context : ℕ) (deadline : ℤ)
      → IsStill {page = page} (resolve_object node context deadline)
  unfolding resolve_object
  IsStill-resolve_object node context deadline = IsStill-bind _ _ (IsStill-ask _) λ locked.
      IsStill-bind _ _ (IsStill-raise_if _ _) λ u.
        IsStill-bind _ _ (IsStill-send _ _ refl)
          λ reply. IsStill-bind _ _ (IsStill-answer _ _) λ response. IsStill-need _ _

  IsQuiet-check :
      (c d : DispatchError) (deadline : ℤ) (cancelled : Bool)
      → is_unknown c ≡ false
      → is_unknown d ≡ false
      → IsQuiet {page = page} (check c d deadline cancelled)
  IsQuiet-check c d deadline true h k = IsQuiet-raise c h
  IsQuiet-check c d deadline false h k =
      IsQuiet-bind _ _ (IsQuiet-bind _ _ (IsQuiet-ask _) λ now. IsQuiet-pure _)
        λ late. IsQuiet-raise_if d late k

  pub IsQuiet-check_effect_boundary :
      (deadline : ℤ) → IsQuiet {page = page} (check_effect_boundary deadline)
  unfolding check_effect_boundary
  IsQuiet-check_effect_boundary deadline =
      IsQuiet-bind _ _ (IsQuiet-ask _) λ c. IsQuiet-check _ _ deadline c refl refl

  IsQuiet-wait_rounds : (n : ℕ) (deadline : ℤ) → IsQuiet {page = page} (wait_rounds n deadline)
  unfolding wait_rounds
  IsQuiet-wait_rounds zero deadline = IsQuiet-check_effect_boundary deadline
  IsQuiet-wait_rounds (suc n) deadline =
      IsQuiet-bind _ _ (IsQuiet-check_effect_boundary deadline) λ u.
        IsQuiet-bind _ _ (IsQuiet-ask _) λ now.
          IsQuiet-if _ _ _ (IsQuiet-check_effect_boundary deadline) (IsQuiet-wait_rounds n deadline)

  pub IsQuiet-wait_for_stability_sample :
      (deadline : ℤ) → IsQuiet {page = page} (wait_for_stability_sample deadline)
  unfolding wait_for_stability_sample
  IsQuiet-wait_for_stability_sample deadline =
      IsQuiet-bind _ _ (IsQuiet-ask _) λ n. IsQuiet-wait_rounds n deadline

  IsQuiet-no_effect_on_error :
      {E A : Type 0} (m : String) (t : Try E A) → IsQuiet {page = page} (no_effect_on_error m t)
  IsQuiet-no_effect_on_error m (ok a) = IsQuiet-pure a
  IsQuiet-no_effect_on_error m (err e) = IsQuiet-raise _ refl

  IsQuiet-or_no_effect :
      {E A : Type 0} (m : String) (t : Try E A) → IsQuiet {page = page} (or_no_effect m t)
  IsQuiet-or_no_effect m (ok a) = IsQuiet-pure a
  IsQuiet-or_no_effect m (err e) = IsQuiet-raise _ refl

  IsQuiet-answer :
      (e : DispatchError) (t : Try CdpChannelError Value)
      → is_unknown e ≡ false
      → IsQuiet {page = page} (answer e t)
  IsQuiet-answer e (ok v) h = IsQuiet-pure v
  IsQuiet-answer e (err x) h = IsQuiet-raise e h

  pub IsQuiet-verify_process_for_effect :
      (deadline : ℤ) → IsQuiet {page = page} (verify_process_for_effect deadline)
  unfolding verify_process_for_effect
  IsQuiet-verify_process_for_effect deadline =
      IsQuiet-bind _ _ (IsQuiet-check_effect_boundary deadline) λ u.
        IsQuiet-bind _ _ (IsQuiet-attempt _ IsStill-verify_process) λ found.
          IsQuiet-bind _ _ (IsQuiet-check_effect_boundary deadline)
            λ v. IsQuiet-no_effect_on_error _ found

  pub IsQuiet-current_document_id_for_effect :
      (deadline : ℤ) → IsQuiet {page = page} (current_document_id_for_effect deadline)
  unfolding current_document_id_for_effect
  IsQuiet-current_document_id_for_effect deadline =
      IsQuiet-bind _ _ (IsQuiet-check_effect_boundary deadline) λ u.
        IsQuiet-bind _ _ (IsQuiet-attempt _ (IsStill-current_document_id deadline)) λ found.
          IsQuiet-bind _ _ (IsQuiet-check_effect_boundary deadline)
            λ v. IsQuiet-or_no_effect _ found

  pub IsQuiet-resolve_object_for_effect :
      (node context : ℕ) (deadline : ℤ)
      → IsQuiet {page = page} (resolve_object_for_effect node context deadline)
  unfolding resolve_object_for_effect
  IsQuiet-resolve_object_for_effect node context deadline =
      IsQuiet-bind _ _ (IsQuiet-check_effect_boundary deadline) λ u.
        IsQuiet-bind _ _ (IsQuiet-attempt _ (IsStill-resolve_object node context deadline)) λ found.
          IsQuiet-bind _ _ (IsQuiet-check_effect_boundary deadline)
            λ v. IsQuiet-or_no_effect _ found

  IsQuiet-send :
      (c : Command) (deadline : ℤ) → is_read c ≡ true → IsQuiet {page = page} (send c deadline)
  unfolding send
  IsQuiet-send c deadline h = record { still = IsStill-send c deadline h; known = λ s. refl }

  pub IsQuiet-query_for_effect :
      (c : Command) (deadline : ℤ)
      → is_read c ≡ true
      → IsQuiet {page = page} (query_for_effect c deadline)
  unfolding query_for_effect
  IsQuiet-query_for_effect c deadline h =
      IsQuiet-bind _ _ (IsQuiet-check_effect_boundary deadline) λ u.
        IsQuiet-bind _ _ (IsQuiet-ask _) λ locked. IsQuiet-bind _ _ (IsQuiet-raise_if _ _ refl) λ v.
          IsQuiet-bind _ _ (IsQuiet-send c deadline h) λ reply.
            IsQuiet-bind _ _ (IsQuiet-check_effect_boundary deadline)
              λ w. IsQuiet-answer _ reply refl

  pub IsQuiet-probe_object_for_effect :
      (object : String) (protected reveal : Bool) (deadline : ℤ)
      → IsQuiet {page = page} (probe_object_for_effect object protected reveal false deadline)
  unfolding probe_object_for_effect
  IsQuiet-probe_object_for_effect object protected reveal deadline =
      IsQuiet-bind _ _ (IsQuiet-query_for_effect _ deadline (probe-is_read object protected reveal))
        λ response. IsQuiet-bind _ _ (IsQuiet-raise_if _ _ refl) λ u. IsQuiet-need _ _ refl

  pub IsQuiet-verify_live_target_for_effect :
      (target : NodeIdentity) (invokable editable : Bool) (deadline : ℤ)
      → IsQuiet {page = page} (verify_live_target_for_effect target invokable editable deadline)
  unfolding verify_live_target_for_effect
  IsQuiet-verify_live_target_for_effect target invokable editable deadline =
      IsQuiet-bind _ _ (IsQuiet-query_for_effect _ deadline refl) λ layout.
        IsQuiet-bind _ _ (IsQuiet-need _ _ refl) λ viewport.
          IsQuiet-bind _ _ (IsQuiet-need _ _ refl) λ geometry.
            IsQuiet-bind _ _ (IsQuiet-raise_if _ _ refl) λ u.
              IsQuiet-bind _ _ (IsQuiet-current_document_id_for_effect deadline) λ document.
                IsQuiet-bind _ _ (IsQuiet-query_for_effect _ deadline refl) λ tree.
                  IsQuiet-bind _ _
                    (IsQuiet-lift _
                      (settled-live_ax_semantics page.number_u64 tree target.backend_node_id))
                    λ semantics.
                      IsQuiet-bind _ _ (IsQuiet-need _ _ refl) λ hash. IsQuiet-raise_if _ _ refl
