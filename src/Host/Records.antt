-- ===== src/Host/Records.antt =====
-- The records of the operation ledger (`LedgerRecord`) and of the trajectory file of src/lib.rs, the
-- input of `normalized_action_hash`, and the environment.
use praefectus.Prelude.{ℕ, ℤ, Bool, String, Option, List, ◌≡◌, ◌≤◌, some, ◌∷◌, All}
use praefectus.Journal.{Bytes}
use praefectus.Protocol.{
  Action, ActionAck, ActionRequest, Capabilities, DeliveryRoute, DispatchError, DispatchReceipt,
  InteractionMode, LedgerDecision, Observation, OutcomeKey, ResolvedTarget, Result, SafetyClass,
  SessionIsolation, TargetRef, Terminal, VerificationPolicy, VerifiedAuthority,
}

pub record Claim : Type 0 where
  pub operation_id : String
  pub action_hash : String
  pub claimed_at_ms : ℤ
  pub action_name : Option String
  pub delivery_route : Option DeliveryRoute
  pub session_isolation : Option SessionIsolation
  pub interaction_mode : Option InteractionMode

pub data LedgerRecord : Type 0 where
  claim : Claim → LedgerRecord
  terminal : ActionAck → LedgerRecord

-- The JSON object of one line of the trajectory file.
pub record TrajectoryLine : Type 0 where
  pub protocol_version : ℕ
  pub operation_id_hash : String
  pub action_hash : String
  pub sequence : ℕ
  pub state : String
  pub recorded_at_ms : ℤ

-- The tuple that `normalized_action_hash` serialises.
pub record NormalizedRequest : Type 0 where
  pub protocol_version : ℕ
  pub action_version : ℕ
  pub target_version : ℕ
  pub verification_version : ℕ
  pub subject : String
  pub session_id : String
  pub action : Action
  pub target : TargetRef
  pub interaction_mode : InteractionMode
  pub deadline_at_ms : ℤ
  pub verification : VerificationPolicy
  pub safety : SafetyClass

-- `Result<DispatchReceipt, DispatchError>`.
pub data Dispatched : Type 0 where
  done : DispatchReceipt → Dispatched
  refused : DispatchError → Dispatched

-- The calls of the file system, in the order in which the code makes them.
pub data IoCall : Type 0 where
  private_storage ensure_directory open_lock restrict_lock sync_lock_parent lock_file : IoCall
  open_repair read_repair truncate : IoCall
  open_read restrict_read read_all : IoCall
  open_append restrict_append write sync sync_parent : IoCall

-- `io` answers `none` for success or the message of the error. After a failed `write`, `written` says
-- how many bytes reached the file. `contention` is the number of times that `try_lock` will answer
-- `WouldBlock` before it answers otherwise.
pub record Env : Type 1 where
  pub World : Type 0
  pub now_ms : World → ℤ × World
  pub is_cancelled : World → Bool × World
  pub io : IoCall → World → Option String × World
  pub written : World → ℕ × World
  pub contention : World → ℕ × World
  pub verify_authority : ActionRequest → String → World → Result VerifiedAuthority × World
  pub session_isolation : World → SessionIsolation × World
  pub capabilities : World → Result Capabilities × World
  pub shared_desktop_context_hash : ℤ → World → Result String × World
  pub observe : TargetRef → ℤ → World → Result Observation × World
  pub resolve : TargetRef → ℤ → World → Result ResolvedTarget × World
  pub dispatch : Action → ResolvedTarget → VerificationPolicy → ℤ → World → Dispatched × World
  pub begin : OutcomeKey → World → Result LedgerDecision × World
  pub record_terminal : OutcomeKey → Terminal → World → Result (Unit {0}) × World
  pub encode_record : LedgerRecord → Bytes
  pub decode_record : Bytes → Option LedgerRecord
  pub encode_trajectory : TrajectoryLine → Bytes
  pub is_json : Bytes → Bool
  pub utf8 : Bytes → Option (List ℕ)
  pub sha256_hex : String → String
  pub canonical_hash : NormalizedRequest → Result String
  pub path_is_absolute : String → Bool
  pub path_has_file_name : String → Bool
  pub path_extension : String → Option String
  pub path_parent_is_dir : String → Bool
  pub macos : Bool

-- What the ledger relies on of the JSON codec, for claims: the compact form has no control
-- characters, it is UTF-8 text that begins with a brace, and it is read back as a claim of the same
-- operation.
pub record IsCodec (env : Env) : Type 0 where
  pub no_control : (c : Claim) → All (λ b. 32 ≤ b) (env.encode_record (claim c))
  pub reads_back :
      (c : Claim)
      → (d : Claim) × ((env.decode_record (env.encode_record (claim c)) ≡ some (claim d))
          × (d.operation_id ≡ c.operation_id))
  pub is_text :
      (c : Claim) → (rest : List ℕ) × (env.utf8 (env.encode_record (claim c)) ≡ some (b'{' ∷ rest))
