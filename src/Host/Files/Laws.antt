-- ===== src/Host/Files/Laws.antt =====
-- The file operations keep the complete lines of the operation ledger, whatever fails.
use praefectus.Prelude.{
  ℕ, zero, suc, ℤ, ◌≡◌, refl, Bool, true, Option, none, some, [], ◌++◌, ◌||◌, String, arith, any,
  any-append, take, unwrap_or,
}
use praefectus.Journal.{Bytes, complete, durable_len}
use praefectus.Journal.Lines.{complete-append, grown, durable-IsCut}
use praefectus.Host.Records.{Env}
use praefectus.Host.Monad.{Exec, is_cancelled, now_ms}
use praefectus.Host.Files.{
  FileId, operations, trajectory_log, change_file, poll, wait_for_lock, lock_within,
  acquire_ledger_lock, set_len, repair_existing, repair_file, after_write, write_line,
  append_opened, append_line, read_existing, records,
}
use praefectus.Host.Frame.{
  IsFrame, IsFrame-bind, IsFrame-is_cancelled, IsFrame-if, IsFrame-raise, IsFrame-now_ms,
  frame_rules, lines_of,
}

-- A change of the file keeps its complete lines.
abbrev KeepsLines : (Bytes → Bytes) → Type 0
KeepsLines f =
    (p : Bytes → Bool) (b : Bytes) → any p (complete b) ≡ true → any p (complete (f b)) ≡ true

kept :
    (f : Bytes → Bytes)
    → KeepsLines f
    → (file : Option Bytes) (p : Bytes → Bool) → any p (lines_of file) ≡ true
    → any p (complete (f (unwrap_or file []))) ≡ true
kept f h none p e = cc
kept f h (some b) p e = h p b e

or_left : (a b : Bool) → a ≡ true → (a || b) ≡ true
or_left a b h = ground arith

KeepsLines-append : (more : Bytes) → KeepsLines (λ b. b ++ more)
KeepsLines-append more p b h =
    rw complete-append (rw any-append (or_left (any p (complete b)) (any p (grown b more)) h))

KeepsLines-cut : KeepsLines (λ b. take (durable_len b) b)
KeepsLines-cut p b h = rw (durable-IsCut b).0 h

KeepsLines-id : KeepsLines (λ b. b)
KeepsLines-id p b h = h

module _ {env : Env} where
  IsFrame-change_file :
      (file : FileId) (f : Bytes → Bytes) → KeepsLines f → IsFrame {env = env} (change_file file f)
  unfolding change_file
  IsFrame-change_file operations f h = record {
    at = λ s. record { same_dispatches = refl; keeps_lines = kept f h s.ledger };
  }
  IsFrame-change_file trajectory_log f h = record {
    at = λ s. record { same_dispatches = refl; keeps_lines = λ p e. e };
  }

  IsFrame-poll : (deadline : ℤ) (m : Exec env (Unit {0})) → IsFrame m → IsFrame (poll deadline m)
  IsFrame-poll deadline m h = IsFrame-bind is_cancelled _ IsFrame-is_cancelled λ c.
      IsFrame-if c _ _ (IsFrame-raise _)
        (IsFrame-bind now_ms _ IsFrame-now_ms λ t. IsFrame-if _ _ _ (IsFrame-raise _) h)

  IsFrame-wait_for_lock : (n : ℕ) (deadline : ℤ) → IsFrame {env = env} (wait_for_lock n deadline)
  unfolding wait_for_lock
  IsFrame-wait_for_lock zero deadline = search frame_rules
  IsFrame-wait_for_lock (suc n) deadline =
      IsFrame-poll deadline (wait_for_lock n deadline) (IsFrame-wait_for_lock n deadline)

  IsFrame-lock_within : (boundary : Option ℤ) (n : ℕ) → IsFrame {env = env} (lock_within boundary n)
  IsFrame-lock_within none n = search frame_rules
  IsFrame-lock_within (some deadline) n = IsFrame-wait_for_lock n deadline

  pub IsFrame-acquire_ledger_lock :
      (boundary : Option ℤ) → IsFrame {env = env} (acquire_ledger_lock boundary)
  unfolding acquire_ledger_lock
  IsFrame-acquire_ledger_lock boundary = search (frame_rules, IsFrame-lock_within) depth 12

  ruleset file_rules =
      (frame_rules, IsFrame-change_file, KeepsLines-append, KeepsLines-cut, KeepsLines-id)

  IsFrame-set_len : (file : FileId) (bytes : Bytes) → IsFrame {env = env} (set_len file bytes)
  IsFrame-set_len file bytes = search file_rules depth 12

  IsFrame-repair_existing :
      (file : FileId) (parses : Bytes → Bool) (message : String) (bytes : Option Bytes)
      → IsFrame {env = env} (repair_existing file parses message bytes)
  IsFrame-repair_existing file parses message none = search frame_rules
  IsFrame-repair_existing file parses message (some bytes) =
      search (frame_rules, IsFrame-set_len) depth 12

  pub IsFrame-repair_file :
      (file : FileId) (parses : Bytes → Bool) (message : String)
      → IsFrame {env = env} (repair_file file parses message)
  unfolding repair_file
  IsFrame-repair_file file parses message = search (frame_rules, IsFrame-repair_existing)

  IsFrame-after_write :
      (file : FileId) (line : Bytes) (failed : Option String)
      → IsFrame {env = env} (after_write file line failed)
  IsFrame-after_write file line none = search file_rules
  IsFrame-after_write file line (some message) = search file_rules depth 12

  pub IsFrame-append_opened :
      (file : FileId) (line : Bytes) → IsFrame {env = env} (append_opened file line)
  unfolding append_opened write_line
  IsFrame-append_opened file line = search (file_rules, IsFrame-after_write) depth 16

  pub IsFrame-append_line :
      (file : FileId) (line : Bytes) → IsFrame {env = env} (append_line file line)
  unfolding append_line
  IsFrame-append_line file line = search (frame_rules, IsFrame-append_opened) depth 8

  IsFrame-read_existing : (bytes : Option Bytes) → IsFrame {env = env} (read_existing bytes)
  IsFrame-read_existing none = search frame_rules
  IsFrame-read_existing (some bytes) = search frame_rules depth 12

  pub IsFrame-records : IsFrame {env = env} records
  unfolding records
  IsFrame-records = search (frame_rules, IsFrame-read_existing)
