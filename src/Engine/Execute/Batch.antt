-- ===== src/Engine/Execute/Batch.antt =====
-- What `Engine::execute_batch` of src/lib.rs runs and returns.
use praefectus.Prelude.{
  ◌≡◌, refl, ap, ◌∙◌, Bool, true, false, List, [], ◌∷◌, ◌++◌, arith, if◌then◌else◌,
}
use praefectus.Protocol.{
  ActionAck, ActionRequest, AckState, Effect, ExecuteReport, Receipt, Result, ok, err, succeeded,
  terminal, effect_is_verified,
}
use praefectus.Host.{Env, State}
use praefectus.Engine.Conclude.{report}
use praefectus.Engine.Execute.{
  execute, execute_batch, is_verified, last_is_verified, result_is_verified,
}

-- A report whose last acknowledgement says that the effect is verified.
pub record IsVerified (r : Result ExecuteReport) : Type 0 where
  pub init : List ActionAck
  pub last : ActionAck
  pub receipt : Receipt
  pub reported : r ≡ ok (report (init ++ last ∷ []))
  pub state : last.state ≡ terminal (succeeded receipt)
  pub effect : receipt.effect ≡ Effect.verified

-- Where a batch ends, by its results and the requests that it leaves: at its last request, or after
-- the first result that is not verified.
pub data Ends (left : List ActionRequest) : List (Result ExecuteReport) → Type 0 where
  exhausted : left ≡ [] → Ends left []
  stopped : (r : Result ExecuteReport) → (IsVerified r → ⊥) → Ends left (r ∷ [])
  onward :
      (r : Result ExecuteReport) (rs : List (Result ExecuteReport))
      → IsVerified r
      → Ends left rs
      → Ends left (r ∷ rs)

module _ {env : Env} where
  -- All requests in order, whatever their results.
  abbrev pub execute_all : List ActionRequest → State env → List (Result ExecuteReport) × State env
  execute_all [] s = ([], s)
  execute_all (q ∷ qs) s =
      let later = execute_all qs (execute q s).1 in ((execute q s).0 ∷ later.0, later.1)

  -- The requests divide into those that the batch ran, in order and nothing else, and those that it
  -- left.
  pub record IsBatch (requests : List ActionRequest) (s : State env)
      (out : List (Result ExecuteReport) × State env) : Type 0 where
    pub ran : List ActionRequest
    pub left : List ActionRequest
    pub divided : requests ≡ ran ++ left
    pub runs : out ≡ execute_all ran s
    pub ends : Ends left out.0

verified_state :
    (a : ActionAck)
    → is_verified a.state ≡ true
    → (receipt : Receipt) × (a.state ≡ terminal (succeeded receipt))
      × (receipt.effect ≡ Effect.verified)
verified_state a h = by_state a.state h
  where
    by_effect : (e : Effect) → effect_is_verified e ≡ true → e ≡ Effect.verified
    by_effect Effect.verified h = refl
    by_effect Effect.executed_unverified h = cc
    by_effect Effect.unknown h = cc

    by_state :
        (x : AckState)
        → is_verified x ≡ true
        → (receipt : Receipt) × (x ≡ terminal (succeeded receipt))
          × (receipt.effect ≡ Effect.verified)
    by_state (terminal (succeeded receipt)) h = (receipt, refl, by_effect receipt.effect h)
    by_state _ h = ground arith

last_verified :
    (acks : List ActionAck)
    → last_is_verified acks ≡ true
    → (init : List ActionAck) × (last : ActionAck) × (acks ≡ init ++ last ∷ [])
      × (is_verified last.state ≡ true)
last_verified [] h = cc
last_verified (a ∷ []) h = ([], a, refl, h)
last_verified (a ∷ b ∷ acks) h =
    let (init, last, split, good) = last_verified (b ∷ acks) h in
    (a ∷ init, last, ap (λ (l : List ActionAck). a ∷ l) split, good)

result-IsVerified : (r : Result ExecuteReport) → result_is_verified r ≡ true → IsVerified r
result-IsVerified (err e) h = cc
result-IsVerified (ok r) h =
    let (init, last, split, good) = last_verified r.acknowledgements h in
    let (receipt, state, effect) = verified_state last good in
    record {
      init = init;
      last = last;
      receipt = receipt;
      reported = ap (λ (acks : List ActionAck). ok (report acks)) split;
      state = state;
      effect = effect;
    }

last_of_append :
    (init : List ActionAck) (last : ActionAck)
    → last_is_verified (init ++ last ∷ []) ≡ is_verified last.state
last_of_append [] last = refl
last_of_append (a ∷ []) last = refl
last_of_append (a ∷ b ∷ init) last = last_of_append (b ∷ init) last

IsVerified-result : (r : Result ExecuteReport) → IsVerified r → result_is_verified r ≡ true
IsVerified-result r v =
    rw v.reported
      (last_of_append v.init v.last ∙ ap is_verified v.state ∙ ap effect_is_verified v.effect)

module _ {env : Env} where
  if-IsBatch :
      (b : Bool) (q : ActionRequest) (qs : List ActionRequest) (s : State env)
      (out : List (Result ExecuteReport) × State env)
      → result_is_verified (execute q s).0 ≡ b
      → IsBatch qs (execute q s).1 out
      → IsBatch
          (q ∷ qs)
          s
          (if b then ((execute q s).0 ∷ out.0, out.1) else ((execute q s).0 ∷ [], (execute q s).1))
  if-IsBatch true q qs s out e batch = record {
    ran = q ∷ batch.ran;
    left = batch.left;
    divided = ap (λ (l : List ActionRequest). q ∷ l) batch.divided;
    runs =
        ap (λ (o : List (Result ExecuteReport) × State env). ((execute q s).0 ∷ o.0, o.1))
          batch.runs;
    ends = onward (execute q s).0 out.0 (result-IsVerified (execute q s).0 e) batch.ends;
  }
  if-IsBatch false q qs s out e batch = record {
    ran = q ∷ [];
    left = qs;
    divided = refl;
    runs = refl;
    ends = stopped (execute q s).0 λ v. cc (IsVerified-result (execute q s).0 v, e);
  }

  -- A batch runs a prefix of its requests, in order, each once and in the state that the one before it
  -- left, and returns their results and the last state. It goes on after a result exactly if the last
  -- acknowledgement of its report is a success with a verified effect: it ends at the first result
  -- that is not, or when no request is left.
  pub execute_batch-IsBatch :
      (requests : List ActionRequest) (s : State env)
      → IsBatch requests s (execute_batch requests s)
  unfolding execute_batch
  execute_batch-IsBatch [] s = record {
    ran = [];
    left = [];
    divided = refl;
    runs = refl;
    ends = exhausted refl;
  }
  execute_batch-IsBatch (q ∷ qs) s =
      if-IsBatch (result_is_verified (execute q s).0) q qs s (execute_batch qs (execute q s).1) refl
        (execute_batch-IsBatch qs (execute q s).1)
