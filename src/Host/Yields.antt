-- ===== src/Host/Yields.antt =====
-- What holds of the ledger file when an action returns: one rule for each way to build an action.
-- A postcondition speaks of the value and of the file.
use praefectus.Prelude.{◌≡◌, refl, Bool, true, false, Option, if◌then◌else◌}
use praefectus.Journal.{Bytes}
use praefectus.Protocol.{Result, ok, err, ProtocolError}
use praefectus.Host.Records.{Env, IoCall}
use praefectus.Host.Monad.{State, Exec, pure, raise, lift, gets, ask, perform, now_ms, ◌>>=◌}

abbrev pub Pre : Type 1
Pre = Option Bytes → Type 0

pub record Yields {env : Env} {A : Type 0} (P : Pre) (m : Exec env A) (Q : A → Pre) : Type 0 where
  pub at : (s : State env) → P s.ledger → (a : A) → (m s).0 ≡ ok a → Q a (m s).1.ledger

module _ {env : Env} {A : Type 0} {P : Pre} where
  pub Yields-pure : (a : A) → Yields {env = env} P (pure a) (λ b l. P l × (b ≡ a))
  unfolding pure
  Yields-pure a = record { at = λ s h b e. (h, cc) }

  pub Yields-raise : (e : ProtocolError) (Q : A → Pre) → Yields {env = env} P (raise e) Q
  unfolding raise
  Yields-raise e Q = record { at = λ s h b p. cc }

  pub Yields-lift : (r : Result A) → Yields {env = env} P (lift r) (λ a l. P l × (r ≡ ok a))
  unfolding lift
  Yields-lift r = record { at = λ s h a e. (h, e) }

  pub Yields-ask : (f : env.World → A × env.World) → Yields {env = env} P (ask f) (λ a. P)
  unfolding ask
  Yields-ask f = record { at = λ s h a e. h }

  pub Yields-gets :
      (f : Option Bytes → A)
      → Yields {env = env} P (gets (λ s. f s.ledger)) (λ a l. P l × (a ≡ f l))
  unfolding gets
  Yields-gets f = record { at = λ s h a e. (h, cc) }

  pub Yields-if :
      (b : Bool) (m n : Exec env A) {Q : A → Pre}
      → (b ≡ true → Yields P m Q)
      → (b ≡ false → Yields P n Q)
      → Yields P (if b then m else n) Q
  Yields-if true m n h k = h refl
  Yields-if false m n h k = k refl

  pub Yields-weaken :
      {m : Exec env A} {Q R : A → Pre}
      → Yields P m Q
      → ((a : A) (l : Option Bytes) → Q a l → R a l)
      → Yields P m R
  Yields-weaken h k = record { at = λ s p a e. k a _ (h.at s p a e) }

module _ {env : Env} {A B : Type 0} where
  continue-Yields :
      (r : Result A) (f : A → Exec env B) (t : State env) {Q : A → Pre} {R : B → Pre}
      → ((a : A) → r ≡ ok a → Q a t.ledger)
      → ((a : A) → Yields (Q a) (f a) R)
      → (b : B) → ((lift r >>= f) t).0 ≡ ok b
      → R b ((lift r >>= f) t).1.ledger
  unfolding ◌>>=◌ lift
  continue-Yields (ok a) f t h k b e = (k a).at t (h a refl) b e
  continue-Yields (err x) f t h k b e = cc

  pub Yields-bind :
      {P : Pre} (m : Exec env A) (f : A → Exec env B) {Q : A → Pre} {R : B → Pre}
      → Yields P m Q
      → ((a : A) → Yields (Q a) (f a) R)
      → Yields P (m >>= f) R
  unfolding ◌>>=◌ lift
  Yields-bind m f h k = record {
    at = λ s p b e. continue-Yields (m s).0 f (m s).1 (h.at s p) k b e;
  }

module _ {env : Env} {P : Pre} where
  pub Yields-perform : (c : IoCall) → Yields {env = env} P (perform c) (λ a. P)
  unfolding perform
  Yields-perform c = record { at = λ s h a e. h }

  pub Yields-now_ms : Yields {env = env} P now_ms (λ a. P)
  unfolding now_ms
  Yields-now_ms = Yields-ask env.now_ms
