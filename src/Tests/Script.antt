-- ===== src/Tests/Script.antt =====
-- An environment in which every call succeeds: the clock stands still, the desktop offers to launch
-- applications, and the file system does not fail.
use praefectus.Prelude.{ap, pos, true, false, none, some, [], ◌∷◌}
use praefectus.Json.{Value}
use praefectus.Json
use praefectus.Protocol.{
  Action, ActionCapability, ActionRequest, ApplicationOperation, AuthorityGrant, BackgroundSupport,
  Capabilities, DeliveryRoute, DispatchReceipt, Evidence, InteractionMode, LedgerDecision,
  Observation, ResolvedTarget, SafetyClass, SessionIsolation, TargetRef, VerificationPolicy, ok,
  application, dispatch,
}
use praefectus.Protocol
use praefectus.Host.{Env, IsCodec, State, done}
use praefectus.Engine.Conclude.{Run}
use praefectus.Tests.Codec.{decode, decode-encode, encode, encode-braced, encode-no_control}

abbrev pub seen : Evidence
seen = record {
  observation_hash = "a";
  target_fingerprint_hash = none;
  display_geometry_hash = "g";
  observed_at_ms = pos 1;
}

abbrev pub desktop : Observation
desktop = record { evidence = seen; found = none; state = Json.null }

abbrev pub launching : ActionCapability
launching = record {
  action = "application";
  delivery_route = DeliveryRoute.pointer;
  background_support = BackgroundSupport.unavailable;
}

abbrev pub offered : Capabilities
offered = record {
  platform = "linux";
  backend = "scripted";
  session_isolation = SessionIsolation.host_isolated;
  supported_actions = "application" ∷ [];
  action_capabilities = launching ∷ [];
  permissions = [];
  display_geometry_hash = "g";
}

abbrev pub delivered : DispatchReceipt
delivered = record { backend = "scripted"; fallback_chain = [] }

abbrev pub script : Env
script = record {
  World = Unit {0};
  now_ms = λ w. (pos 1, w);
  is_cancelled = λ w. (false, w);
  io = λ c w. (none, w);
  written = λ w. (0, w);
  contention = λ w. (0, w);
  verify_authority = λ r h w. (ok (record { expires_at_ms = pos 100 }), w);
  session_isolation = λ w. (SessionIsolation.host_isolated, w);
  capabilities = λ w. (ok offered, w);
  shared_desktop_context_hash = λ d w. (ok "c", w);
  observe = λ t d w. (ok desktop, w);
  resolve = λ t d w. (ok ResolvedTarget.unresolved, w);
  dispatch = λ a t v d w. (done delivered, w);
  begin = λ k w. (ok dispatch, w);
  record_terminal = λ k t w. (ok tt, w);
  encode_record = encode;
  decode_record = decode;
  encode_trajectory = λ l. [];
  is_json = λ l. true;
  utf8 = λ l. some l;
  sha256_hex = λ s. s;
  canonical_hash = λ r. ok "h";
  path_is_absolute = λ p. true;
  path_has_file_name = λ p. true;
  path_extension = λ p. none;
  path_parent_is_dir = λ p. true;
  macos = false;
}

pub script-IsCodec : IsCodec script
script-IsCodec = record {
  no_control = encode-no_control;
  reads_back = decode-encode;
  is_text = λ c. ((encode-braced c).0, ap some (encode-braced c).1);
}

abbrev pub start : State script
start = record { world = tt; ledger = none; trajectory = none; dispatches = [] }

abbrev pub launch : ActionRequest
launch = record {
  protocol_version = 2;
  action_version = 2;
  target_version = 2;
  verification_version = 2;
  operation_id = "op";
  subject = "me";
  session_id = "s";
  authority = record {
    grant = record {
      protocol_version = 2;
      issuer = "i";
      key_id = "k";
      operation_id = "op";
      subject = "me";
      session_id = "s";
      risk = SafetyClass.reversible;
      expires_at_ms = pos 100;
      policy_generation = "p";
      action_hash = "h";
    };
    signature =
        "00000000000000000000000000000000000000000000000000000000000000000000000000000000000000000000000000000000000000000000000000000000";
  };
  action = application ApplicationOperation.launch "Terminal";
  target = Protocol.untargeted;
  interaction_mode = InteractionMode.interactive;
  deadline_at_ms = pos 100;
  verification = Protocol.unverified;
  safety = SafetyClass.reversible;
}

-- The same desktop with a known target.
abbrev pub focused : Observation
focused = record {
  evidence = record seen { target_fingerprint_hash = some "f" };
  found = none;
  state = Json.null;
}

abbrev pub launch_run : Run
launch_run = record {
  request = launch;
  action_hash = "h";
  effect_deadline_at_ms = pos 100;
  session_isolation = SessionIsolation.host_isolated;
}
