-- ===== src/Engine/Calls.antt =====
-- The calls that hosts make of an engine, one after another, and how often they dispatch.
use praefectus.Prelude.{
  ◌≤◌, ◌≡◌, ap, Bool, true, false, String, List, [], ◌∷◌, arith, if◌then◌else◌,
}
use praefectus.Protocol.{ActionRequest, ExecuteReport, Result}
use praefectus.Host.{Env, IsCodec, State}
use praefectus.Ledger.Claims.{is_claimed}
use praefectus.Engine.Execute.{execute, execute_batch, result_is_verified, status}
use praefectus.Engine.Once.{AtMostOnce, count}
use praefectus.Engine.Once.Execute.{KeepsOnce-execute, KeepsOnce-status}

pub data Call : Type 0 where
  execute_request : ActionRequest → Call
  execute_requests : List ActionRequest → Call
  ask_status : String → Call

abbrev pub after_call : {env : Env} → Call → State env → State env
after_call (execute_request request) s = (execute request s).1
after_call (execute_requests requests) s = (execute_batch requests s).1
after_call (ask_status op) s = (status op s).1

unfoldable pub after_calls : {env : Env} → List Call → State env → State env
after_calls [] s = s
after_calls (c ∷ cs) s = after_calls cs (after_call c s)

module _ {env : Env} (codec : IsCodec env) (spent : String → Bool) where
  -- The last state of a batch whose first request ended with `r`, verified or not.
  if-IsBatch :
      (b : Bool) (r : Result ExecuteReport) (t u : State env) (rest : List (Result ExecuteReport))
      → AtMostOnce spent t
      → AtMostOnce spent u
      → AtMostOnce spent
          (if◌then◌else◌ {A = List (Result ExecuteReport) × State env} b
            (r ∷ rest, u)
            (r ∷ [], t)).1
  if-IsBatch true r t u rest h k = k
  if-IsBatch false r t u rest h k = h

  batch_once :
      (requests : List ActionRequest) (s : State env)
      → AtMostOnce spent s
      → AtMostOnce spent (execute_batch requests s).1
  unfolding execute_batch
  batch_once [] s h = h
  batch_once (r ∷ rs) s h =
      let k = (KeepsOnce-execute codec r).at spent s h in
      if-IsBatch (result_is_verified (execute r s).0) (execute r s).0 (execute r s).1
        (execute_batch rs (execute r s).1).1 (execute_batch rs (execute r s).1).0 k
        (batch_once rs (execute r s).1 k)

  call_once : (c : Call) (s : State env) → AtMostOnce spent s → AtMostOnce spent (after_call c s)
  call_once (execute_request r) s h = (KeepsOnce-execute codec r).at spent s h
  call_once (execute_requests rs) s h = batch_once rs s h
  call_once (ask_status op) s h = (KeepsOnce-status op).at spent s h

  pub calls_once :
      (cs : List Call) (s : State env) → AtMostOnce spent s → AtMostOnce spent (after_calls cs s)
  unfolding after_calls
  calls_once [] s h = h
  calls_once (c ∷ cs) s h = calls_once cs (after_call c s) (call_once c s h)

-- Whatever the environment answers, and whatever the ledger file holds at the start, a sequence of
-- calls of `execute`, `execute_batch` and `status`, each of them ending with a result or an error,
-- calls `Executor::dispatch` at most once for an operation ID, and not at all for one that a complete
-- line of the ledger claims at the start. It asks of the environment that the JSON codec reads back
-- the records that it writes, without control characters, and that nothing was dispatched before.
pub dispatches_once :
    {env : Env} (codec : IsCodec env) (cs : List Call) (s : State env) (op : String)
    → s.dispatches ≡ []
    → count op (after_calls cs s).dispatches ≤ (if is_claimed op s then 0 else 1)
dispatches_once codec cs s op none_yet =
    let start : AtMostOnce (λ o. is_claimed o s) s = record {
      at = λ o.
          let zero_yet : count o s.dispatches ≡ 0 = ap (count o) none_yet in
          ground (arith, zero_yet);
      spent_claimed = λ o e. e;
    } in
    ground (arith, (calls_once codec (λ o. is_claimed o s) cs s start).at op)
