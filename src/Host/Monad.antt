-- ===== src/Host/Monad.antt =====
-- The state of an engine and the exceptions of its methods. What was written before an error stays
-- written, so the state comes back beside the error. `dispatches` records the operation IDs for which
-- `Executor::dispatch` was called, newest first; the code does not keep it, and nothing reads it.
use praefectus.Prelude.{ℤ, Bool, String, Option, none, some, List}
use praefectus.Journal.{Bytes}
use praefectus.Protocol.{ProtocolError, Result, ok, err, io}
use praefectus.Host.Records.{Env, IoCall}

pub record State (env : Env) : Type 0 where
  pub world : env.World
  pub ledger : Option Bytes
  pub trajectory : Option Bytes
  pub dispatches : List String

abbrev pub Exec : Env → Type 0 → Type 0
Exec env A = State env → Result A × State env

module _ {env : Env} {A : Type 0} where
  unfoldable pub pure : A → Exec env A
  pure a s = (ok a, s)

  unfoldable pub raise : ProtocolError → Exec env A
  raise e s = (err e, s)

  unfoldable pub lift : Result A → Exec env A
  lift r s = (r, s)

  unfoldable pub gets : (State env → A) → Exec env A
  gets f s = (ok (f s), s)

  -- A call of the environment that cannot fail, and one that can.
  unfoldable pub ask : (env.World → A × env.World) → Exec env A
  ask f s = let (a, w) = f s.world in (ok a, record s { world = w })

  unfoldable pub call : (env.World → Result A × env.World) → Exec env A
  call f s = let (r, w) = f s.world in (r, record s { world = w })

  -- The result of a call, an error among them, as a value.
  unfoldable pub attempt : Exec env A → Exec env (Result A)
  attempt m s = (ok (m s).0, (m s).1)

module _ {env : Env} {A B : Type 0} where
  abbrev pub continue : Result A → (A → Exec env B) → Exec env B
  continue (ok a) f s = f a s
  continue (err e) f s = (err e, s)

  infixl 5 ◌>>=◌ ◌>>◌
  unfoldable pub ◌>>=◌ : Exec env A → (A → Exec env B) → Exec env B
  ◌>>=◌ m next s = continue (m s).0 next (m s).1

  abbrev pub ◌>>◌ : Exec env A → Exec env B → Exec env B
  m >> k = m >>= λ _. k

abbrev io_result : Option String → Result (Unit {0})
io_result none = ok tt
io_result (some message) = err (io message)

module _ {env : Env} where
  unfoldable pub perform : IoCall → Exec env (Unit {0})
  perform c s = let (failed, w) = env.io c s.world in (io_result failed, record s { world = w })

  unfoldable pub now_ms : Exec env ℤ
  unfolding ask
  now_ms = ask env.now_ms

  unfoldable pub is_cancelled : Exec env Bool
  unfolding ask
  is_cancelled = ask env.is_cancelled
