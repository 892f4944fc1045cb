-- ===== src/Ledgers/Promise.antt =====
-- What `OutcomeLedger` of src/lib.rs promises, and that `MemoryOutcomeLedger` keeps it.
use praefectus.Prelude.{
  ◌≡◌, refl, ap, sym, ◌∙◌, true, false, Option, none, some, List, [], ◌∷◌, arith, str_eq_iff, subst,
  Bool-cases, inl, inr, if◌then◌else◌,
}
use praefectus.Protocol.{LedgerDecision, OutcomeKey, Terminal, dispatch, interrupted, recorded, ok}
use praefectus.Ledgers.{
  MemoryOutcomeLedger, begin, begin_entry, find_entry, insert, key_eq, new, poison, record_outcome,
}

pub data Call : Type 0 where
  begin_call : OutcomeKey → Call
  record_call : OutcomeKey → Terminal → Call

-- What `begin` owes a key after the calls, newest first: the last terminal recorded for it, or that it
-- was interrupted if `begin` was called for it, or else to dispatch it.
unfoldable pub promise : List Call → OutcomeKey → LedgerDecision
promise [] key = dispatch
promise (begin_call k ∷ calls) key =
    let earlier = promise calls key in
    if key_eq k key then elim earlier [ dispatch ↦ interrupted | d ↦ d ] else earlier
promise (record_call k t ∷ calls) key =
    let earlier = promise calls key in if key_eq k key then recorded t else earlier

unfoldable pub run : Call → MemoryOutcomeLedger → MemoryOutcomeLedger
unfolding begin record_outcome
run (begin_call k) l = (begin k l).1
run (record_call k t) l = (record_outcome k t l).1

unfoldable pub after : List Call → MemoryOutcomeLedger
unfolding run
after [] = new
after (c ∷ calls) = run c (after calls)

abbrev decision : Option (Option Terminal) → LedgerDecision
decision none = dispatch
decision (some none) = interrupted
decision (some (some t)) = recorded t

pub key_eq_iff : (a b : OutcomeKey) → key_eq a b ≡ true → a ≡ b
key_eq_iff a b h =
    let p = (str_eq_iff a.operation_id b.operation_id).0 (ground (arith, h)) in
    let q = (str_eq_iff a.action_hash b.action_hash).0 (ground (arith, h)) in
    λ i. record { operation_id = p i; action_hash = q i }

key_eq_self : (a : OutcomeKey) → key_eq a a ≡ true
key_eq_self a = ground (
  arith,
  (str_eq_iff a.operation_id a.operation_id).1 refl,
  (str_eq_iff a.action_hash a.action_hash).1 refl,
)

keys_apart :
    (j k key : OutcomeKey) → key_eq j k ≡ false → key_eq j key ≡ true → key_eq k key ≡ false
keys_apart j k key h p = elim (Bool-cases (key_eq k key)) [
  | inl q ↦
      let same = key_eq_iff j key p ∙ sym (key_eq_iff k key q) in
      absurd (ground (arith, h, subst (λ x. key_eq j x ≡ true) same (key_eq_self j)))
  | inr q ↦ q
]

find_entry-insert :
    (key k : OutcomeKey) (t : Option Terminal) (entries : List (OutcomeKey × Option Terminal))
    → find_entry key (insert k t entries)
      ≡ (if key_eq k key then some t else find_entry key entries)
find_entry-insert key k t [] = refl
find_entry-insert key k t ((j, old) ∷ entries) = elim (Bool-cases (key_eq j k)) [
  | inl e ↦
      let same = ap (λ (x : OutcomeKey). key_eq x key) (key_eq_iff j k e) in
      rw e (rw same (ground arith))
  | inr e ↦
      let earlier = find_entry-insert key k t entries in
      elim (Bool-cases (key_eq j key)) [
        | inl p ↦ rw e (rw p (rw (keys_apart j k key e p) refl))
        | inr p ↦ rw e (rw p earlier)
      ]
]

-- A ledger answers with what it has of the key, if no holder of its mutex has panicked.
abbrev Keeps : MemoryOutcomeLedger → List Call → Type 0
Keeps l calls =
    (l.poisoned ≡ false)
    × ((key : OutcomeKey) → decision (find_entry key l.entries) ≡ promise calls key)

decision-begin_entry :
    (k key : OutcomeKey) (l : MemoryOutcomeLedger) (found : Option (Option Terminal))
    → find_entry k l.entries ≡ found
    → decision (find_entry key (begin_entry k l found).1.entries) ≡ (
        if key_eq k key
        then elim (decision (find_entry key l.entries)) [ dispatch ↦ interrupted | d ↦ d ]
        else decision (find_entry key l.entries))
decision-begin_entry k key l found h = elim (Bool-cases (key_eq k key)) [
  | inl e ↦
      let here = ap (λ x. find_entry x l.entries) (sym (key_eq_iff k key e)) ∙ h in
      rw e (
        found_here found e here
        ∙ ap (λ x. elim (decision x) [ dispatch ↦ interrupted | d ↦ d ]) (sym here))
  | inr e ↦ rw e (found_elsewhere found e)
]
  where
    found_here :
        (found : Option (Option Terminal))
        → key_eq k key ≡ true
        → find_entry key l.entries ≡ found
        → decision (find_entry key (begin_entry k l found).1.entries)
          ≡ elim (decision found) [ dispatch ↦ interrupted | d ↦ d ]
    found_here none e here = rw (find_entry-insert key k none l.entries) (rw e refl)
    found_here (some none) e here = rw here refl
    found_here (some (some t)) e here = rw here refl

    found_elsewhere :
        (found : Option (Option Terminal))
        → key_eq k key ≡ false
        → decision (find_entry key (begin_entry k l found).1.entries)
          ≡ decision (find_entry key l.entries)
    found_elsewhere none e = rw (find_entry-insert key k none l.entries) (rw e refl)
    found_elsewhere (some none) e = refl
    found_elsewhere (some (some t)) e = refl

begin_open :
    (k : OutcomeKey) (l : MemoryOutcomeLedger)
    → l.poisoned ≡ false
    → begin k l ≡ (
      ok (begin_entry k l (find_entry k l.entries)).0,
      (begin_entry k l (find_entry k l.entries)).1,
    )
unfolding begin
begin_open k l p =
    ap
      (λ b. if b then (poison, l) else (
        ok (begin_entry k l (find_entry k l.entries)).0,
        (begin_entry k l (find_entry k l.entries)).1,
      ))
      p

record_open :
    (k : OutcomeKey) (t : Terminal) (l : MemoryOutcomeLedger)
    → l.poisoned ≡ false
    → record_outcome k t l ≡ (ok tt, record l { entries = insert k (some t) l.entries })
unfolding record_outcome
record_open k t l p =
    ap (λ b. if b then (poison, l) else (ok tt, record l { entries = insert k (some t) l.entries }))
      p

Keeps-begin :
    (k : OutcomeKey) (l : MemoryOutcomeLedger) (calls : List Call)
    → Keeps l calls
    → Keeps (run (begin_call k) l) (begin_call k ∷ calls)
unfolding promise run
Keeps-begin k l calls (p, h) =
    subst (λ r. Keeps r.1 (begin_call k ∷ calls)) (sym (begin_open k l p))
      (
        still_sound (find_entry k l.entries),
        λ key.
            decision-begin_entry k key l (find_entry k l.entries) refl
            ∙ ap (λ d. if key_eq k key then elim d [ dispatch ↦ interrupted | d ↦ d ] else d)
                (h key),
      )
  where
    still_sound : (found : Option (Option Terminal)) → (begin_entry k l found).1.poisoned ≡ false
    still_sound none = p
    still_sound (some none) = p
    still_sound (some (some t)) = p

Keeps-record :
    (k : OutcomeKey) (t : Terminal) (l : MemoryOutcomeLedger) (calls : List Call)
    → Keeps l calls
    → Keeps (run (record_call k t) l) (record_call k t ∷ calls)
unfolding promise run
Keeps-record k t l calls (p, h) =
    subst (λ r. Keeps r.1 (record_call k t ∷ calls)) (sym (record_open k t l p))
      (
        p,
        λ key.
            rw (find_entry-insert key k (some t) l.entries)
              (elim (Bool-cases (key_eq k key)) [ inl e ↦ rw e refl | inr e ↦ rw e (h key) ]),
      )

Keeps-after : (calls : List Call) → Keeps (after calls) calls
unfolding after promise
Keeps-after [] = (refl, λ key. refl)
Keeps-after (begin_call k ∷ calls) = Keeps-begin k (after calls) calls (Keeps-after calls)
Keeps-after (record_call k t ∷ calls) = Keeps-record k t (after calls) calls (Keeps-after calls)

answer-decision :
    (k : OutcomeKey) (l : MemoryOutcomeLedger) (found : Option (Option Terminal))
    → (begin_entry k l found).0 ≡ decision found
answer-decision k l none = refl
answer-decision k l (some none) = refl
answer-decision k l (some (some t)) = refl

-- After any calls of a new memory ledger, `begin` answers a key with what the contract of
-- `OutcomeLedger` owes it: the last terminal recorded for the key since, or else that it was
-- interrupted if `begin` was called for it before, or else to dispatch it.
pub begin-promise :
    (calls : List Call) (key : OutcomeKey) → (begin key (after calls)).0 ≡ ok (promise calls key)
begin-promise calls key =
    let kept = Keeps-after calls in
    ap (λ r. r.0) (begin_open key (after calls) kept.0)
    ∙ ap ok (answer-decision key (after calls) _ ∙ kept.1 key)
