-- ===== src/Engine/Once.antt =====
-- The invariant behind at most one dispatch, and that `Engine::execute` and `Engine::status` keep it.
pub mod Dispatch
pub mod Execute
use praefectus.Prelude.{
  ℕ, zero, suc, ◌+◌, ◌≤◌, ◌≡◌, refl, sym, ◌∙◌, ap, subst, Bool, true, false, Option, none, some,
  List, [], ◌∷◌, String, arith, any, str_eq, if◌then◌else◌, str_eq_iff, Bool-cases, inl, inr,
}
use praefectus.Protocol.{
  ActionCapability, ActionRequest, Capabilities, DeliveryRoute, ExecuteReport, LedgerDecision,
  Observation, ProtocolError, ResolvedTarget, Result, ok, err, dispatch, recorded, interrupted,
  SessionIsolation, Terminal, invalid_request, conflict, authority_denied, stale_target,
  target_not_found, observation_cancelled, observation_expired, io, json, executor, ledger,
}
use praefectus.Host.{Env, Exec, IsCodec, State, lift, ◌>>=◌}
use praefectus.Host.Frame.{Grows, IsFrame, IsFrame-bind, frame_rules, lines_of}
use praefectus.Ledger.Claims.{claimed_by, is_claimed}
use praefectus.Engine.Conclude.{Run}

abbrev pub count : String → List String → ℕ
count op [] = 0
count op (d ∷ ds) = (if str_eq d op then 1 else 0) + count op ds

-- No operation was dispatched more often than its claim allows, and a spent one not at all.
pub record AtMostOnce {env : Env} (spent : String → Bool) (s : State env) : Type 0 where
  pub at :
      (op : String)
      → count op s.dispatches ≤ (if spent op then 0 else if is_claimed op s then 1 else 0)
  pub spent_claimed : (op : String) → spent op ≡ true → is_claimed op s ≡ true

-- The operation is claimed, and was not dispatched yet.
pub record IsFresh {env : Env} (spent : String → Bool) (op : String) (s : State env) : Type 0 where
  pub once : AtMostOnce spent s
  pub claimed : is_claimed op s ≡ true
  pub undone : count op s.dispatches ≡ 0
  pub unspent : spent op ≡ false

module _ {env : Env} {spent : String → Bool} where
  pub AtMostOnce-Grows : {s t : State env} → Grows s t → AtMostOnce spent s → AtMostOnce spent t
  AtMostOnce-Grows {s} {t} g h = record {
    at = λ op.
        let kept = g.keeps_lines (claimed_by env op) in
        let same : count op t.dispatches ≡ count op s.dispatches =
          ap (count op) g.same_dispatches in
        ground (arith, kept, same, h.at op);
    spent_claimed = λ op e. g.keeps_lines (claimed_by env op) (h.spent_claimed op e);
  }

  pub IsFresh-Grows :
      {op : String} {s t : State env} → Grows s t → IsFresh spent op s → IsFresh spent op t
  IsFresh-Grows {op} g h = record {
    once = AtMostOnce-Grows g h.once;
    claimed = g.keeps_lines (claimed_by env op) h.claimed;
    undone = ap (count op) g.same_dispatches ∙ h.undone;
    unspent = h.unspent;
  }

module _ {env : Env} where
  -- From a fresh operation, `m` leaves no operation dispatched twice.
  pub record IsOnce {A : Type 0} (op : String) (m : Exec env A) : Type 0 where
    pub at : (spent : String → Bool) (s : State env) → IsFresh spent op s → AtMostOnce spent (m s).1

  pub IsOnce-frame : {A : Type 0} (op : String) (m : Exec env A) → IsFrame m → IsOnce op m
  IsOnce-frame op m h = record { at = λ spent s f. AtMostOnce-Grows (h.at s) f.once }

  pub IsOnce-if :
      {A : Type 0} (op : String) (b : Bool) (m n : Exec env A)
      → IsOnce op m
      → IsOnce op n
      → IsOnce op (if b then m else n)
  IsOnce-if op true m n h k = h
  IsOnce-if op false m n h k = k

  continue-once :
      {A B : Type 0} (op : String) (r : Result A) (f : A → Exec env B) (t : State env)
      {spent : String → Bool}
      → IsFresh spent op t
      → ((a : A) → IsOnce op (f a))
      → AtMostOnce spent ((lift r >>= f) t).1
  unfolding ◌>>=◌ lift
  continue-once op (ok a) f t {spent} h k = (k a).at spent t h
  continue-once op (err e) f t h k = h.once

  pub IsOnce-bind :
      {A B : Type 0} (op : String) (m : Exec env A) (f : A → Exec env B)
      → IsFrame m
      → ((a : A) → IsOnce op (f a))
      → IsOnce op (m >>= f)
  unfolding ◌>>=◌ lift
  IsOnce-bind op m f h k = record {
    at = λ spent s p. continue-once op (m s).0 f (m s).1 (IsFresh-Grows (h.at s) p) k;
  }

  continue-frame :
      {A B : Type 0} (r : Result A) (f : A → Exec env B) (t : State env) {spent : String → Bool}
      → AtMostOnce spent t
      → ((a : A) → IsFrame (f a))
      → AtMostOnce spent ((lift r >>= f) t).1
  unfolding ◌>>=◌ lift
  continue-frame (ok a) f t h k = AtMostOnce-Grows ((k a).at t) h
  continue-frame (err e) f t h k = h

  -- After the dispatch nothing more is dispatched.
  pub IsOnce-then :
      {A B : Type 0} (op : String) (m : Exec env A) (f : A → Exec env B)
      → IsOnce op m
      → ((a : A) → IsFrame (f a))
      → IsOnce op (m >>= f)
  unfolding ◌>>=◌ lift
  IsOnce-then op m f h k = record {
    at = λ spent s p. continue-frame (m s).0 f (m s).1 (h.at spent s p) k;
  }

-- `m` keeps the invariant from every state.
pub record KeepsOnce {env : Env} {A : Type 0} (m : Exec env A) : Type 0 where
  pub at : (spent : String → Bool) (s : State env) → AtMostOnce spent s → AtMostOnce spent (m s).1

module _ {env : Env} where
  pub KeepsOnce-frame : {A : Type 0} (m : Exec env A) → IsFrame m → KeepsOnce m
  KeepsOnce-frame m h = record { at = λ spent s p. AtMostOnce-Grows (h.at s) p }

  continue-keeps :
      {A B : Type 0} (r : Result A) (f : A → Exec env B) (t : State env) {spent : String → Bool}
      → AtMostOnce spent t
      → ((a : A) → KeepsOnce (f a))
      → AtMostOnce spent ((lift r >>= f) t).1
  unfolding ◌>>=◌ lift
  continue-keeps (ok a) f t {spent} h k = (k a).at spent t h
  continue-keeps (err e) f t h k = h

  pub KeepsOnce-bind :
      {A B : Type 0} (m : Exec env A) (f : A → Exec env B)
      → KeepsOnce m
      → ((a : A) → KeepsOnce (f a))
      → KeepsOnce (m >>= f)
  unfolding ◌>>=◌ lift
  KeepsOnce-bind m f h k = record {
    at = λ spent s p. continue-keeps (m s).0 f (m s).1 (h.at spent s p) k;
  }
