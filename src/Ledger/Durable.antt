-- ===== src/Ledger/Durable.antt =====
-- What `OperationLedger::finish_after_effect` of src/lib.rs reports when the ledger cannot be written.
use praefectus.Prelude.{◌≡◌, refl, Bool, true, false, arith}
use praefectus.Protocol.{ActionAck, AckState, Result, ok, err, succeeded, terminal}
use praefectus.Host.{Env, State, attempt, pure, ◌>>=◌}
use praefectus.Outcome.Acks.{persistence_unknown_ack}
use praefectus.Ledger.{finish, finish_after_effect, finish_again}

abbrev pub is_succeeded : AckState → Bool
is_succeeded (terminal (succeeded receipt)) = true
is_succeeded _ = false

unknown-never_succeeded : (a : ActionAck) → is_succeeded (persistence_unknown_ack a).state ≡ false
unknown-never_succeeded a = ground arith

-- What is reported, after the answer to the first write.
abbrev Reported : ActionAck → Result (Unit {0}) → Result ActionAck → Type 0
Reported a written reported =
    (b : ActionAck) × (reported ≡ ok b)
    × (is_succeeded b.state ≡ true → (written ≡ ok tt) × (b ≡ a))

module _ {env : Env} where
  finish_again-Reported :
      (a : ActionAck) (t : Result (Unit {0})) (s : State env)
      → Reported a t (finish_again {env = env} a t s).0
  unfolding ◌>>=◌ attempt pure
  finish_again-Reported a (ok done) s = (a, refl, λ h. (refl, refl))
  finish_again-Reported a (err e) s =
      (persistence_unknown_ack a, refl, λ h. absurd (ground (arith, h, unknown-never_succeeded a)))

  -- After an effect an acknowledgement is always reported, and it says that the action succeeded only if
  -- it is the one that was given and its write to the ledger returned without an error.
  pub finish_after_effect-Reported :
      (a : ActionAck) (s : State env)
      → (b : ActionAck) × ((finish_after_effect a s).0 ≡ ok b)
        × (is_succeeded b.state ≡ true → ((finish a s).0 ≡ ok tt) × (b ≡ a))
  unfolding finish_after_effect ◌>>=◌ attempt
  finish_after_effect-Reported a s = finish_again-Reported a (finish a s).0 (finish a s).1
