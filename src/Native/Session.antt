-- ===== src/Native/Session.antt =====
-- The desktop that `NativeExecutor` of src/lib.rs sends input to, as a parameter, and the state and
-- exceptions of its methods. `inputs` records what was sent, newest first; the code does not keep it,
-- and nothing reads it. Texts are lists of their characters.
use Prim.Native.Char.{Char}
use praefectus.Prelude.{ℕ, ℤ, Bool, true, false, String, Option, List, ◌∷◌}
use praefectus.Prelude.Try.{Try, ok, err}
use praefectus.Protocol.{DispatchError, Direction, EffectKnowledge, FailureCode}

-- The calls of the runtime: `type_text`, `press` of one key, and `scroll` by one.
pub data Input : Type 0 where
  type_chunk : List Char → Bool → Bool → Option ℕ → Input
  press_key : String → Input
  scroll_once : Direction → Input

-- `input` answers whether the call succeeded.
pub record Desktop : Type 1 where
  pub World : Type 0
  pub now_ms : World → ℤ × World
  pub is_cancelled : World → Bool × World
  pub sleep : ℕ → World → Unit {0} × World
  pub input : Input → World → Bool × World

pub record Session (desktop : Desktop) : Type 0 where
  pub world : desktop.World
  pub inputs : List Input

abbrev pub Exec : Desktop → Type 0 → Type 0
Exec desktop A = Session desktop → Try DispatchError A × Session desktop

-- `ambiguous_dispatch`.
abbrev pub ambiguous_dispatch : DispatchError
ambiguous_dispatch = record {
  message = "desktop backend failed after dispatch began";
  effect = EffectKnowledge.unknown;
  code = FailureCode.dispatch_failed;
}

abbrev pub sent : Bool → Try DispatchError (Unit {0})
sent true = ok tt
sent false = err ambiguous_dispatch

module _ {desktop : Desktop} {A : Type 0} where
  unfoldable pub pure : A → Exec desktop A
  pure a s = (ok a, s)

  unfoldable pub raise : DispatchError → Exec desktop A
  raise e s = (err e, s)

  unfoldable pub ask : (desktop.World → A × desktop.World) → Exec desktop A
  ask f s = let (a, w) = f s.world in (ok a, record s { world = w })

module _ {desktop : Desktop} where
  unfoldable pub send : Input → Exec desktop (Unit {0})
  send i s =
      let (done, w) = desktop.input i s.world in
      (sent done, record s { world = w; inputs = i ∷ s.inputs })

module _ {desktop : Desktop} {A B : Type 0} where
  abbrev pub continue : Try DispatchError A → (A → Exec desktop B) → Exec desktop B
  continue (ok a) next s = next a s
  continue (err e) next s = (err e, s)

  infixl 5 ◌>>=◌ ◌>>◌
  unfoldable pub ◌>>=◌ : Exec desktop A → (A → Exec desktop B) → Exec desktop B
  ◌>>=◌ m next s = continue (m s).0 next (m s).1

  abbrev pub ◌>>◌ : Exec desktop A → Exec desktop B → Exec desktop B
  m >> k = m >>= λ _. k
