-- ===== src/Host/Files/Append.antt =====
-- A repaired ledger has no torn tail, and a successful append adds its line.
use praefectus.Prelude.{
  ◌≡◌, refl, sym, ◌∙◌, ap, subst, true, Option, none, some, List, [], ◌∷◌, ◌++◌, String, unwrap_or,
  take, length, ◌==◌, ==_iff, is_some, Bool,
}
use praefectus.Journal.{Bytes, durable_len, read_records, tail_of}
use praefectus.Journal.Lines.{durable-IsCut, take-length}
use praefectus.Protocol.{ok}
use praefectus.Host.Records.{Env, LedgerRecord}
use praefectus.Host.Files.{
  after_write, append_line, append_opened, change_file, operations, read_existing, records,
  repair_existing, repair_file, set_len,
}
use praefectus.Host.Yields.{
  Pre, Yields, Yields-ask, Yields-bind, Yields-gets, Yields-if, Yields-lift, Yields-perform,
  Yields-pure, Yields-raise, Yields-weaken,
}

-- The file has no torn tail.
abbrev pub IsWhole : Pre
IsWhole none = Unit
IsWhole (some bytes) = tail_of bytes ≡ []

whole_length : (bytes : Bytes) → (durable_len bytes == length bytes) ≡ true → tail_of bytes ≡ []
whole_length bytes e =
    let p : durable_len bytes ≡ length bytes = (==_iff _ _).0 e in
    subst (λ (b : Bytes). tail_of b ≡ []) (ap (λ n. take n bytes) p ∙ take-length bytes)
      (durable-IsCut bytes).1

module _ {env : Env} where
  Yields-change_file :
      {P : Pre} (f : Bytes → Bytes)
      → Yields {env = env} P
          (change_file operations f)
          (λ a l. (l₀ : Option Bytes) × P l₀ × (l ≡ some (f (unwrap_or l₀ []))))
  unfolding change_file
  Yields-change_file f = record { at = λ s h a e. (s.ledger, h, refl) }

  -- The change of a file that is known.
  Yields-change_known :
      (f : Bytes → Bytes) (file : Option Bytes)
      → Yields {env = env}
          (λ l. l ≡ file)
          (change_file operations f)
          (λ a l. l ≡ some (f (unwrap_or file [])))
  Yields-change_known f file =
      Yields-weaken (Yields-change_file f)
        (λ a l (l₀, p, q). q ∙ ap (λ (k : Option Bytes). some (f (unwrap_or k []))) p)

  Yields-after_write :
      (bytes line : Bytes) (failed : Option String)
      → Yields {env = env}
          (λ l. l ≡ some bytes)
          (after_write operations line failed)
          (λ a l. l ≡ some (bytes ++ line))
  Yields-after_write bytes line none = Yields-change_known (λ b. b ++ line) (some bytes)
  Yields-after_write bytes line (some message) =
      Yields-bind _ _ (Yields-ask env.written)
        λ n. Yields-bind _ _ (Yields-change_file _) λ a. Yields-raise _ _

  Yields-append_opened :
      (file : Option Bytes) (line : Bytes)
      → Yields {env = env}
          (λ l. l ≡ file)
          (append_opened operations line)
          (λ a l. l ≡ some (unwrap_or file [] ++ (line ++ b'\n' ∷ [])))
  unfolding append_opened
  Yields-append_opened file line =
      Yields-bind _ _ (Yields-weaken (Yields-gets (λ l. l)) (λ a l h. h.0)) λ before.
        Yields-bind _ _ (Yields-perform _) λ a.
          Yields-bind _ _ (Yields-change_known (λ b. b) file) λ a.
            Yields-bind _ _ (Yields-perform _) λ a.
              Yields-bind _ _
                (Yields-bind _ _ (Yields-ask _) (Yields-after_write (unwrap_or file []) _))
                λ a. Yields-bind _ _ (Yields-perform _) λ a.
                  Yields-if (is_some before) _ _
                    (λ e. Yields-weaken (Yields-pure tt) (λ a l h. h.0)) (λ e. Yields-perform _)

  -- A successful append adds the line and a newline to what the file held.
  pub Yields-append_line :
      (file : Option Bytes) (line : Bytes)
      → Yields {env = env}
          (λ l. l ≡ file)
          (append_line operations line)
          (λ a l. l ≡ some (unwrap_or file [] ++ (line ++ b'\n' ∷ [])))
  unfolding append_line
  Yields-append_line file line =
      Yields-bind _ _ (Yields-perform _)
        λ a. Yields-bind _ _ (Yields-perform _) λ a. Yields-append_opened file line

  Yields-set_len :
      (bytes : Bytes)
      → Yields {env = env} (λ l. l ≡ some bytes) (set_len operations bytes) (λ a. IsWhole)
  Yields-set_len bytes =
      Yields-if (durable_len bytes == length bytes) _ _
        (λ e.
          Yields-weaken (Yields-pure tt) (λ a l h. subst IsWhole (sym h.0) (whole_length bytes e)))
        (λ e. Yields-bind _ _ (Yields-perform _) λ a.
          Yields-bind _ _ (Yields-weaken (Yields-change_known _ (some bytes)) whole)
            λ a. Yields-perform _)
    where
      whole :
          (a : Unit {0}) (l : Option Bytes) → l ≡ some (take (durable_len bytes) bytes) → IsWhole l
      whole a l h = subst IsWhole (sym h) (durable-IsCut bytes).1

  Yields-repair_existing :
      (parses : Bytes → Bool) (message : String) (file : Option Bytes)
      → Yields {env = env}
          (λ l. l ≡ file)
          (repair_existing operations parses message file)
          (λ a. IsWhole)
  Yields-repair_existing parses message none =
      Yields-weaken (Yields-pure tt) (λ a l h. subst IsWhole (sym h.0) tt)
  Yields-repair_existing parses message (some bytes) = Yields-bind _ _ (Yields-perform _) λ a.
      Yields-bind _ _ (Yields-perform _) λ a. Yields-bind _ _ (Yields-perform _) λ a.
        Yields-bind _ _ (Yields-weaken (Yields-lift _) (λ a l h. h.0)) λ a. Yields-set_len bytes

  -- After a successful repair the ledger has no torn tail.
  pub Yields-repair_file :
      (parses : Bytes → Bool) (message : String)
      → Yields {env = env} (λ l. Unit {0}) (repair_file operations parses message) (λ a. IsWhole)
  unfolding repair_file
  Yields-repair_file parses message = record {
    at = λ s h a e.
        (Yields-bind {P = λ l. l ≡ s.ledger} _ _
            (Yields-weaken (Yields-gets (λ l. l)) (λ b l k. sym k.1))
            (λ file. Yields-repair_existing parses message file)).at
          s refl a e;
  }

  Yields-read_existing :
      (file : Option Bytes)
      → Yields {env = env}
          (λ l. l ≡ file)
          (read_existing file)
          (λ rs l. (l ≡ file) × (read_records env.utf8 env.decode_record file ≡ ok rs))
  unfolding read_records
  Yields-read_existing none =
      Yields-weaken (Yields-pure [])
        (λ a l (h, e). (h, ap (λ (t : List LedgerRecord). ok t) (sym e)))
  Yields-read_existing (some bytes) = Yields-bind _ _ (Yields-perform _) λ a.
      Yields-bind _ _ (Yields-perform _) λ a. Yields-bind _ _ (Yields-perform _) λ a. Yields-lift _

  -- The records are read from the file, which stays as it is.
  pub Yields-records :
      (file : Option Bytes)
      → Yields {env = env}
          (λ l. l ≡ file)
          records
          (λ rs l. (l ≡ file) × (read_records env.utf8 env.decode_record file ≡ ok rs))
  unfolding records
  Yields-records file = record {
    at = λ s h a e.
        (Yields-bind _ _ (Yields-weaken (Yields-gets (λ l. l)) (λ b l k. (k.0, k.1 ∙ k.0)))
            (reads file)).at
          s h a e;
  }
    where
      reads :
          (file before : Option Bytes)
          → Yields {env = env}
              (λ l. (l ≡ file) × (before ≡ file))
              (read_existing before)
              (λ rs l. (l ≡ file) × (read_records env.utf8 env.decode_record file ≡ ok rs))
      reads file before = record {
        at = λ s h a e.
            let (k, q) = (Yields-read_existing before).at s (h.0 ∙ sym h.1) a e in
            (
              k ∙ h.1,
              subst (λ (f : Option Bytes). read_records env.utf8 env.decode_record f ≡ ok a) h.1 q,
            );
      }
