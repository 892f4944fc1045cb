-- ===== src/Host/Frame.antt =====
-- What the code keeps when it neither claims nor dispatches: the dispatches so far, and every
-- complete line of the operation ledger. One rule for each way to build an action.
use praefectus.Prelude.{
  ◌≡◌, refl, ◌∙◌, Bool, true, false, Option, none, some, List, [], any, if◌then◌else◌,
}
use praefectus.Journal.{Bytes, complete}
use praefectus.Protocol.{Result, ok, err, ProtocolError}
use praefectus.Host.Records.{Env, IoCall}
use praefectus.Host.Monad.{
  State, Exec, pure, raise, lift, gets, ask, call, attempt, perform, now_ms, is_cancelled, ◌>>=◌,
}

abbrev pub lines_of : Option Bytes → List Bytes
lines_of none = []
lines_of (some bytes) = complete bytes

module _ {env : Env} where
  pub record Grows (s t : State env) : Type 0 where
    pub same_dispatches : t.dispatches ≡ s.dispatches
    pub keeps_lines :
        (p : Bytes → Bool) → any p (lines_of s.ledger) ≡ true → any p (lines_of t.ledger) ≡ true

  pub Grows-refl : (s : State env) → Grows s s
  Grows-refl s = record { same_dispatches = refl; keeps_lines = λ p h. h }

  pub Grows-trans : {s t u : State env} → Grows s t → Grows t u → Grows s u
  Grows-trans g h = record {
    same_dispatches = h.same_dispatches ∙ g.same_dispatches;
    keeps_lines = λ p k. h.keeps_lines p (g.keeps_lines p k);
  }

  -- `m` grows the state, whether it returns or raises.
  pub record IsFrame {A : Type 0} (m : Exec env A) : Type 0 where
    pub at : (s : State env) → Grows s (m s).1

module _ {env : Env} {A : Type 0} where
  pub IsFrame-pure : (a : A) → IsFrame {env = env} (pure a)
  unfolding pure
  IsFrame-pure a = record { at = λ s. Grows-refl s }

  pub IsFrame-raise : (e : ProtocolError) → IsFrame {env = env} {A = A} (raise e)
  unfolding raise
  IsFrame-raise e = record { at = λ s. Grows-refl s }

  pub IsFrame-lift : (r : Result A) → IsFrame {env = env} (lift r)
  unfolding lift
  IsFrame-lift r = record { at = λ s. Grows-refl s }

  pub IsFrame-gets : (f : State env → A) → IsFrame (gets f)
  unfolding gets
  IsFrame-gets f = record { at = λ s. Grows-refl s }

  pub IsFrame-ask : (f : env.World → A × env.World) → IsFrame {env = env} (ask f)
  unfolding ask
  IsFrame-ask f = record { at = λ s. record { same_dispatches = refl; keeps_lines = λ p h. h } }

  pub IsFrame-call : (f : env.World → Result A × env.World) → IsFrame {env = env} (call f)
  unfolding call
  IsFrame-call f = record { at = λ s. record { same_dispatches = refl; keeps_lines = λ p h. h } }

  pub IsFrame-attempt : (m : Exec env A) → IsFrame m → IsFrame (attempt m)
  unfolding attempt
  IsFrame-attempt m h = record { at = λ s. h.at s }

  pub IsFrame-if :
      (b : Bool) (m n : Exec env A) → IsFrame m → IsFrame n → IsFrame (if b then m else n)
  IsFrame-if true m n h k = h
  IsFrame-if false m n h k = k

module _ {env : Env} {A B : Type 0} where
  continue-Grows :
      (r : Result A) (f : A → Exec env B) (s t : State env)
      → Grows s t
      → ((a : A) → IsFrame (f a))
      → Grows s ((lift r >>= f) t).1
  unfolding ◌>>=◌ lift
  continue-Grows (ok a) f s t g h = Grows-trans g ((h a).at t)
  continue-Grows (err e) f s t g h = g

  pub IsFrame-bind :
      (m : Exec env A) (f : A → Exec env B)
      → IsFrame m
      → ((a : A) → IsFrame (f a))
      → IsFrame (m >>= f)
  unfolding ◌>>=◌ lift
  IsFrame-bind m f h k = record { at = λ s. continue-Grows (m s).0 f s (m s).1 (h.at s) k }

module _ {env : Env} where
  pub IsFrame-perform : (c : IoCall) → IsFrame {env = env} (perform c)
  unfolding perform
  IsFrame-perform c = record { at = λ s. record { same_dispatches = refl; keeps_lines = λ p h. h } }

  pub IsFrame-now_ms : IsFrame {env = env} now_ms
  unfolding now_ms
  IsFrame-now_ms = IsFrame-ask env.now_ms

  pub IsFrame-is_cancelled : IsFrame {env = env} is_cancelled
  unfolding is_cancelled
  IsFrame-is_cancelled = IsFrame-ask env.is_cancelled

pub ruleset frame_rules = (
  IsFrame-pure, IsFrame-raise, IsFrame-lift, IsFrame-gets, IsFrame-ask, IsFrame-call,
  IsFrame-attempt, IsFrame-if, IsFrame-bind, IsFrame-perform, IsFrame-now_ms, IsFrame-is_cancelled,
)
