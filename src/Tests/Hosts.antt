-- ===== src/Tests/Hosts.antt =====
-- Witnesses for the outcome ledger and the verifier of authorities that a host may use.
use praefectus.Prelude.{ℕ, zero, suc, ◌≤◌, ◌≡◌, refl, All, pos, true, false, some, List, [], ◌∷◌}
use praefectus.Protocol
use praefectus.Protocol.{ActionAck, ActionRequest, OutcomeKey, cancelled_before_effect, ok}
use praefectus.Validate.Identifiers.{is_hash, valid_identifier}
use praefectus.Authority.{Crypto, Issuer, find_issuer, new, verify}
use praefectus.Authority.Bound.{IsBound, IsSigned, verify-IsSigned}
use praefectus.Authority.Keyring.{new-All}
use praefectus.Ledgers.{begin}
use praefectus.Ledgers.Grants.{grants, grants_once}
use praefectus.Ledgers.Promise.{Call, after, begin-promise, begin_call, promise, record_call}
use praefectus.Tests.Page.{hash}
use praefectus.Ledger.{finish, finish_after_effect}
use praefectus.Ledger.Durable.{finish_after_effect-Reported, is_succeeded}
use praefectus.Tests.Script.{launch, script, start}

abbrev key : OutcomeKey
key = record { operation_id = "op"; action_hash = "h" }

abbrev calls : List Call
calls = begin_call key ∷ record_call key cancelled_before_effect ∷ begin_call key ∷ []

begin-promise_example : (begin key (after calls)).0 ≡ ok (promise calls key)
begin-promise_example = begin-promise calls key

grants_once_example : grants calls key ≤ 1
grants_once_example = grants_once calls key

abbrev zeros : ℕ → List ℕ
zeros zero = []
zeros (suc n) = 0 ∷ zeros n

abbrev crypto : Crypto
crypto = record {
  VerifyingKey = ℕ;
  hex_decode = λ s. some (zeros 64);
  canonical_authority_bytes = λ g. ok [];
  verify_strict = λ k b s. true;
}

abbrev issuer : Issuer crypto
issuer = record { issuer = "i"; key_id = "k"; policy_generation = "p"; key = 1 }

abbrev signed_launch : ActionRequest
signed_launch = record launch {
  authority = record launch.authority {
    grant = record launch.authority.grant { action_hash = hash };
  };
}

accepts_key : new crypto (issuer ∷ []) ≡ ok (issuer ∷ [])
unfolding new valid_identifier
accepts_key = refl

new-All_example :
    All (λ k. find_issuer crypto k.issuer k.key_id (issuer ∷ []) ≡ some k) (issuer ∷ [])
new-All_example = new-All crypto (issuer ∷ []) (issuer ∷ []) accepts_key

verifies : verify crypto (issuer ∷ []) signed_launch hash ≡ ok (record { expires_at_ms = pos 100 })
unfolding verify valid_identifier is_hash
verifies = refl

verify-IsSigned_example :
    IsBound crypto signed_launch hash
    × IsSigned crypto (issuer ∷ []) signed_launch
    × (pos 100 ≡ pos 100)
verify-IsSigned_example =
    verify-IsSigned crypto (issuer ∷ []) signed_launch hash (record { expires_at_ms = pos 100 })
      verifies

abbrev finished : ActionAck
finished = record {
  protocol_version = 2;
  operation_id = "op";
  sequence = 2;
  action_hash = "h";
  replayed = false;
  state = Protocol.terminal cancelled_before_effect;
}

finish_after_effect-Reported_example :
    (b : ActionAck) × ((finish_after_effect {env = script} finished start).0 ≡ ok b)
    × (is_succeeded b.state ≡ true
        → ((finish {env = script} finished start).0 ≡ ok tt) × (b ≡ finished))
finish_after_effect-Reported_example = finish_after_effect-Reported finished start
