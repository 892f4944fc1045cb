-- ===== src/Ledgers/Grants.antt =====
-- How often `MemoryOutcomeLedger` of src/lib.rs grants a dispatch.
use praefectus.Prelude.{
  ℕ, ◌≤◌, ◌+◌, ap, ◌∙◌, Bool, true, false, ◌&&◌, List, [], ◌∷◌, arith, Bool-cases, inl, inr,
  if◌then◌else◌,
}
use praefectus.Protocol.{LedgerDecision, OutcomeKey, Result, dispatch, interrupted, recorded, ok}
use praefectus.Ledgers.{MemoryOutcomeLedger, begin, key_eq}
use praefectus.Ledgers.Promise.{
  Call, after, begin-promise, begin_call, key_eq_iff, promise, record_call,
}

-- How often `begin` granted the key a dispatch.
abbrev is_grant : Result LedgerDecision → Bool
is_grant (ok dispatch) = true
is_grant _ = false

abbrev grant_of : OutcomeKey → Call → MemoryOutcomeLedger → ℕ
grant_of key (begin_call k) l = if key_eq k key && is_grant (begin k l).0 then 1 else 0
grant_of key (record_call k t) l = 0

unfoldable pub grants : List Call → OutcomeKey → ℕ
grants [] key = 0
grants (c ∷ calls) key = grant_of key c (after calls) + grants calls key

abbrev settled : LedgerDecision → ℕ
settled dispatch = 0
settled _ = 1

at_most_one : (d : LedgerDecision) (n : ℕ) → n ≤ settled d → n ≤ 1
at_most_one dispatch n h = ground (arith, h)
at_most_one interrupted n h = h
at_most_one (recorded t) n h = h

grants-settled :
    (calls : List Call) (key : OutcomeKey) → grants calls key ≤ settled (promise calls key)
unfolding grants promise
grants-settled [] key = ground arith
grants-settled (begin_call k ∷ calls) key = elim (Bool-cases (key_eq k key)) [
  | inl e ↦
      let answer =
        ap (λ x. (begin x (after calls)).0) (key_eq_iff k key e) ∙ begin-promise calls key in
      rw e (rw answer (granted (promise calls key) (grants-settled calls key)))
  | inr e ↦ rw e (ground (arith, grants-settled calls key))
]
  where
    granted :
        (d : LedgerDecision)
        → grants calls key ≤ settled d
        → (if is_grant (ok d) then 1 else 0) + grants calls key
          ≤ settled (elim d [ dispatch ↦ interrupted | x ↦ x ])
    granted dispatch h = ground (arith, h)
    granted interrupted h = ground (arith, h)
    granted (recorded t) h = ground (arith, h)
grants-settled (record_call k t ∷ calls) key = elim (Bool-cases (key_eq k key)) [
  | inl e ↦ rw e (ground (arith, at_most_one (promise calls key) _ (grants-settled calls key)))
  | inr e ↦ rw e (ground (arith, grants-settled calls key))
]

-- In any calls of a new memory ledger, `begin` grants a key its dispatch at most once.
pub grants_once : (calls : List Call) (key : OutcomeKey) → grants calls key ≤ 1
grants_once calls key = at_most_one (promise calls key) _ (grants-settled calls key)
