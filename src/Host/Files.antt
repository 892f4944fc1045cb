-- ===== src/Host/Files.antt =====
-- The file operations of the ledger in src/lib.rs: `acquire_ledger_lock`, `repair_jsonl_tail` on a
-- file, the appending half of `OperationLedger::append` and `OperationLedger::trajectory`, and the
-- reading half of `OperationLedger::records`. Opening, permissions and syncing succeed or fail as the
-- environment says; a failed write may leave any prefix of the line in the file. The path guards of
-- Windows are left out.
pub mod Laws
pub mod Append
use praefectus.Prelude.{
  ℕ, zero, suc, ℤ, Bool, String, Option, none, some, List, [], ◌∷◌, ◌++◌, ◌==◌, if◌then◌else◌,
  leb_ℤ, length, take, unwrap_or, is_some,
}
use praefectus.Journal.{Bytes, durable_len, repair_jsonl_tail, read_records}
use praefectus.Protocol
use praefectus.Protocol.{ok, ledger}
use praefectus.Host.Records.{
  Env, LedgerRecord, private_storage, ensure_directory, open_lock, restrict_lock, sync_lock_parent,
  lock_file, open_repair, read_repair, truncate, open_read, restrict_read, read_all, open_append,
  restrict_append, write, sync, sync_parent,
}
use praefectus.Host.Monad.{
  State, Exec, pure, raise, lift, gets, ask, perform, now_ms, is_cancelled, ◌>>=◌, ◌>>◌,
}

pub data FileId : Type 0 where
  operations trajectory_log : FileId

abbrev interrupted_wait : String
interrupted_wait = "ledger lock wait interrupted; another attempt may have an unknown outcome"

module _ {env : Env} where
  abbrev pub file_of : FileId → State env → Option Bytes
  file_of operations s = s.ledger
  file_of trajectory_log s = s.trajectory

  -- The file after `open` with `create`, a write at its end, and `set_len`.
  unfoldable pub change_file : FileId → (Bytes → Bytes) → Exec env (Unit {0})
  change_file operations f s = (ok tt, record s { ledger = some (f (unwrap_or s.ledger [])) })
  change_file trajectory_log f s =
      (ok tt, record s { trajectory = some (f (unwrap_or s.trajectory [])) })

  -- After `WouldBlock`: the wait ends at a cancellation or at the deadline.
  abbrev poll : ℤ → Exec env (Unit {0}) → Exec env (Unit {0})
  poll deadline again = do
    cancelled ← is_cancelled
    if cancelled
        then raise (ledger interrupted_wait)
        else do now ← now_ms; if leb_ℤ deadline now then raise (ledger interrupted_wait) else again

  -- The loop of `try_lock`, on the number of times that the lock is still held by another.
  unfoldable pub wait_for_lock : ℕ → ℤ → Exec env (Unit {0})
  wait_for_lock zero deadline = perform lock_file
  wait_for_lock (suc n) deadline = poll deadline (wait_for_lock n deadline)

  abbrev lock_within : Option ℤ → ℕ → Exec env (Unit {0})
  lock_within none n = perform lock_file
  lock_within (some deadline) n = wait_for_lock n deadline

  unfoldable pub acquire_ledger_lock : Option ℤ → Exec env (Unit {0})
  unfolding wait_for_lock
  acquire_ledger_lock boundary = do
    perform private_storage
    perform ensure_directory
    perform open_lock
    perform restrict_lock
    perform sync_lock_parent
    held ← ask env.contention
    lock_within boundary held

  abbrev set_len : FileId → Bytes → Exec env (Unit {0})
  set_len file bytes =
      if durable_len bytes == length bytes
      then pure tt
      else (do perform truncate; change_file file (λ b. take (durable_len b) b); perform sync)

  abbrev repair_existing : FileId → (Bytes → Bool) → String → Option Bytes → Exec env (Unit {0})
  repair_existing file parses message none = pure tt
  repair_existing file parses message (some bytes) = do
    perform open_repair
    perform restrict_read
    perform read_repair
    lift (repair_jsonl_tail parses message (some bytes))
    set_len file bytes

  unfoldable pub repair_file : FileId → (Bytes → Bool) → String → Exec env (Unit {0})
  repair_file file parses message = gets (file_of file) >>= repair_existing file parses message

  -- A write leaves the whole line behind, or a prefix of it and an error.
  abbrev after_write : FileId → Bytes → Option String → Exec env (Unit {0})
  after_write file line none = change_file file (λ b. b ++ line)
  after_write file line (some message) = do
    n ← ask env.written
    change_file file (λ b. b ++ take n line)
    raise (Protocol.io message)

  unfoldable pub write_line : FileId → Bytes → Exec env (Unit {0})
  write_line file line = ask (env.io write) >>= after_write file line

  -- Appending once the directory is there: open or create, restrict, write, sync.
  unfoldable pub append_opened : FileId → Bytes → Exec env (Unit {0})
  unfolding write_line
  append_opened file line = do
    before ← gets (file_of file)
    perform open_append
    change_file file (λ b. b)
    perform restrict_append
    write_line file (line ++ b'\n' ∷ [])
    perform sync
    if is_some before then pure tt else perform sync_parent

  unfoldable pub append_line : FileId → Bytes → Exec env (Unit {0})
  unfolding append_opened
  append_line file line = do
    perform private_storage
    perform ensure_directory
    append_opened file line

  abbrev read_existing : Option Bytes → Exec env (List LedgerRecord)
  read_existing none = pure []
  read_existing (some bytes) = do
    perform open_read
    perform restrict_read
    perform read_all
    lift (read_records env.utf8 env.decode_record (some bytes))

  unfoldable pub records : Exec env (List LedgerRecord)
  records = gets (file_of operations) >>= read_existing
