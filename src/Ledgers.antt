-- ===== src/Ledgers.antt =====
-- The outcome ledgers that src/lib.rs offers a host: `MemoryOutcomeLedger`, whose map is a list of its
-- entries, newest first, and `NullOutcomeLedger`. A mutex is poisoned when a holder has panicked.
pub mod Promise
pub mod Grants
use praefectus.Prelude.{
  Bool, true, false, ◌&&◌, Option, none, some, List, [], ◌∷◌, str_eq, if◌then◌else◌,
}
use praefectus.Protocol.{
  LedgerDecision, OutcomeKey, Result, Terminal, dispatch, interrupted, recorded, ok, err,
}
use praefectus.Protocol

pub record MemoryOutcomeLedger : Type 0 where
  pub poisoned : Bool
  pub entries : List (OutcomeKey × Option Terminal)

abbrev pub new : MemoryOutcomeLedger
new = record { poisoned = false; entries = [] }

abbrev pub key_eq : OutcomeKey → OutcomeKey → Bool
key_eq a b = str_eq a.operation_id b.operation_id && str_eq a.action_hash b.action_hash

abbrev pub find_entry : OutcomeKey → List (OutcomeKey × Option Terminal) → Option (Option Terminal)
find_entry key [] = none
find_entry key ((k, found) ∷ entries) = if key_eq k key then some found else find_entry key entries

abbrev pub insert :
    OutcomeKey
    → Option Terminal
    → List (OutcomeKey × Option Terminal)
    → List (OutcomeKey × Option Terminal)
insert key ended [] = (key, ended) ∷ []
insert key ended ((k, old) ∷ entries) =
    if key_eq k key then (k, ended) ∷ entries else (k, old) ∷ insert key ended entries

abbrev pub poison : {A : Type 0} → Result A
poison = err (Protocol.ledger "outcome ledger is poisoned")

abbrev pub begin_entry :
    OutcomeKey
    → MemoryOutcomeLedger
    → Option (Option Terminal)
    → LedgerDecision × MemoryOutcomeLedger
begin_entry key l none = (dispatch, record l { entries = insert key none l.entries })
begin_entry key l (some none) = (interrupted, l)
begin_entry key l (some (some terminal)) = (recorded terminal, l)

unfoldable pub begin :
    OutcomeKey → MemoryOutcomeLedger → Result LedgerDecision × MemoryOutcomeLedger
begin key l =
    if l.poisoned
    then (poison, l)
    else (let (d, l') = begin_entry key l (find_entry key l.entries) in (ok d, l'))

unfoldable pub record_outcome :
    OutcomeKey → Terminal → MemoryOutcomeLedger → Result (Unit {0}) × MemoryOutcomeLedger
record_outcome key terminal l =
    if l.poisoned
    then (poison, l)
    else (ok tt, record l { entries = insert key (some terminal) l.entries })

unfoldable pub null_begin : OutcomeKey → Result LedgerDecision
null_begin key = ok dispatch

unfoldable pub null_record : OutcomeKey → Terminal → Result (Unit {0})
null_record key terminal = ok tt
