-- ===== src/Outcome/Acks.antt =====
-- Receipts and acknowledgements of src/lib.rs: `ack`, `terminal_ack`, `empty_receipt`,
-- `recovered_context_preservation`, `generate_interrupted_ack` and `persistence_unknown_ack`.
use praefectus.Prelude.{ℕ, ℤ, Bool, false, String, none, [], unwrap_or, str_eq}
use praefectus.Protocol.{
  AckState, ActionAck, ActionRequest, ContextPreservation, Effect, InteractionMode, Receipt,
  SessionIsolation, DeliveryRoute, Terminal, accepted, executing, terminal, succeeded, rejected,
  failed, cancelled_before_effect, expired_before_effect, outcome_unknown, protocol_version,
}
use praefectus.Protocol.Route.{name, request_delivery_route}
use praefectus.Host.{Claim}

abbrev pub interrupted_outcome_message : String
interrupted_outcome_message =
    "a durable claim existed without a terminal receipt; the outcome of this operation was not recorded; verify the actual state before redoing anything with side effects"

abbrev pub recovered_context_preservation : InteractionMode → SessionIsolation → ContextPreservation
recovered_context_preservation InteractionMode.interactive isolation =
    ContextPreservation.not_applicable
recovered_context_preservation InteractionMode.background_only SessionIsolation.host_isolated =
    ContextPreservation.host_isolated
recovered_context_preservation _ _ = ContextPreservation.unavailable

-- The two readings of the clock are arguments.
abbrev pub empty_receipt :
    Bool → ActionRequest → String → Effect → SessionIsolation → ℤ → ℤ → Receipt
empty_receipt macos r action_hash effect isolation started finished = record {
  protocol_version = protocol_version;
  action_name = name r.action;
  action_hash = action_hash;
  started_at_ms = started;
  finished_at_ms = finished;
  backend = "unknown";
  fallback_chain = [];
  delivery_route = request_delivery_route macos r.action r.target;
  session_isolation = isolation;
  interaction_mode = r.interaction_mode;
  context_preservation = recovered_context_preservation r.interaction_mode isolation;
  effect = effect;
  before = none;
  after = none;
  warnings = [];
}

abbrev pub ack : ActionRequest → String → ℕ → AckState → Bool → ActionAck
ack r action_hash sequence state replayed = record {
  protocol_version = protocol_version;
  operation_id = r.operation_id;
  sequence = sequence;
  action_hash = action_hash;
  replayed = replayed;
  state = state;
}

abbrev pub terminal_ack : ActionRequest → String → Terminal → Bool → ActionAck
terminal_ack r action_hash t replayed = ack r action_hash 2 (terminal t) replayed

abbrev pub generate_interrupted_ack : String → Claim → ℤ → ActionAck
generate_interrupted_ack operation_id c finished_at_ms = record {
  protocol_version = protocol_version;
  operation_id = operation_id;
  sequence = 2;
  action_hash = c.action_hash;
  replayed = false;
  state = terminal (
      outcome_unknown
        (record {
          protocol_version = protocol_version;
          action_name = unwrap_or c.action_name "unknown";
          action_hash = c.action_hash;
          started_at_ms = c.claimed_at_ms;
          finished_at_ms = finished_at_ms;
          backend = "unknown";
          fallback_chain = [];
          delivery_route = unwrap_or c.delivery_route DeliveryRoute.unknown;
          session_isolation = unwrap_or c.session_isolation SessionIsolation.unknown;
          interaction_mode = unwrap_or c.interaction_mode InteractionMode.unknown;
          context_preservation =
              recovered_context_preservation (unwrap_or c.interaction_mode InteractionMode.unknown)
                (unwrap_or c.session_isolation SessionIsolation.unknown);
          effect = Effect.unknown;
          before = none;
          after = none;
          warnings = [];
        })
        interrupted_outcome_message);
}

abbrev downgrade : Terminal → Terminal
downgrade (succeeded receipt) =
    outcome_unknown receipt "action completed but terminal receipt durability is unknown"
downgrade t = t

abbrev downgrade_state : AckState → AckState
downgrade_state (terminal t) = terminal (downgrade t)
downgrade_state s = s

abbrev pub persistence_unknown_ack : ActionAck → ActionAck
persistence_unknown_ack a = record a { state = downgrade_state a.state }

-- The state's name in a trajectory line.
abbrev pub terminal_kind : AckState → String
terminal_kind accepted = "accepted"
terminal_kind executing = "executing"
terminal_kind (terminal (succeeded _)) = "succeeded"
terminal_kind (terminal (rejected _ _)) = "rejected"
terminal_kind (terminal (failed _ _)) = "failed"
terminal_kind (terminal cancelled_before_effect) = "cancelled_before_effect"
terminal_kind (terminal expired_before_effect) = "expired_before_effect"
terminal_kind (terminal (outcome_unknown _ _)) = "outcome_unknown"

abbrev pub is_interrupted : AckState → Bool
is_interrupted (terminal (outcome_unknown receipt message)) =
    str_eq message interrupted_outcome_message
is_interrupted _ = false
