-- ===== src/Ledger/Claims.antt =====
-- The claims of an operation in the ledger file, as the reading loop of `OperationLedger::records`
-- sees them.
pub mod Seen
pub mod New
use praefectus.Prelude.{Bool, false, String, str_eq, any}
use praefectus.Journal.{Bytes, strip_cr}
use praefectus.Journal.Read.{line_holds}
use praefectus.Host.{Env, LedgerRecord, State, claim, terminal}
use praefectus.Host.Frame.{lines_of}

-- A record that claims `op`.
abbrev pub claims : String → LedgerRecord → Bool
claims op (claim c) = str_eq c.operation_id op
claims op (terminal a) = false

-- A complete line that the loop reads as a claim of `op`.
abbrev pub claimed_by : (env : Env) → String → Bytes → Bool
claimed_by env op line = line_holds env.utf8 env.decode_record (claims op) (strip_cr line)

abbrev pub is_claimed : {env : Env} → String → State env → Bool
is_claimed {env} op s = any (claimed_by env op) (lines_of s.ledger)
