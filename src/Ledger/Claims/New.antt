-- ===== src/Ledger/Claims/New.antt =====
-- When `claim_operation` answers `new` on a repaired ledger: no complete line claimed the operation
-- before, and one does after.
use praefectus.Prelude.{
  ◌≡◌, refl, sym, ◌∙◌, subst, Bool, true, false, Option, none, some, List, [], ◌∷◌, ◌++◌, String,
  arith, any, any-append, str_eq, unwrap_or, not,
}
use praefectus.Journal.{Bytes, complete, read_records}
use praefectus.Journal.Lines.{complete-append_line, complete-line}
use praefectus.Journal.Read.{read_records-any}
use praefectus.Protocol.{ActionAck, ActionRequest, SessionIsolation, ok}
use praefectus.Host.{Claim, Env, IsCodec, LedgerRecord, claim}
use praefectus.Host.Frame.{lines_of}
use praefectus.Host.Files.Append.{IsWhole, Yields-append_line, Yields-records}
use praefectus.Host.Yields.{
  Yields, Yields-bind, Yields-now_ms, Yields-pure, Yields-raise, Yields-weaken, Yields-if,
}
use praefectus.Ledger.{append, claim_operation, new, known_claim, settle_claim, scan}
use praefectus.Ledger.Claims.{claimed_by, claims}
use praefectus.Ledger.Claims.Seen.{encode-claimed, encode-IsLine, scan-none}

any-last {ℓ} :
    {A : Type ℓ} (p : A → Bool) (xs : List A) (x : A) → p x ≡ true → any p (xs ++ x ∷ []) ≡ true
any-last p xs x h = ground (arith, any-append p xs (x ∷ []))

known-ne-new : (c : Claim) (ended : Option ActionAck) → known_claim c ended ≡ new → ⊥
known-ne-new c none e = cc
known-ne-new c (some a) e = cc

module _ {env : Env} (codec : IsCodec env) where
  -- The append of a claim, to a file with no torn tail.
  Yields-append_claim :
      (file : Option Bytes) (c : Claim)
      → IsWhole file
      → Yields {env = env}
          (λ l. l ≡ file)
          (append (claim c))
          (λ a l. any (claimed_by env c.operation_id) (lines_of l) ≡ true)
  unfolding append
  Yields-append_claim file c whole =
      Yields-weaken (Yields-append_line file (env.encode_record (claim c))) (λ a l h.
        subst (λ (f : Option Bytes). any (claimed_by env c.operation_id) (lines_of f) ≡ true)
          (sym h) (claimed file whole))
    where
      claimed :
          (file : Option Bytes)
          → IsWhole file
          → any
              (claimed_by env c.operation_id)
              (complete (unwrap_or file [] ++ (env.encode_record (claim c) ++ b'\n' ∷ [])))
            ≡ true
      claimed none w = rw (complete-line (env.encode_record (claim c)) (encode-IsLine codec c)) (
          any-last (claimed_by env c.operation_id) [] (env.encode_record (claim c))
            (encode-claimed codec c))
      claimed (some bytes) w =
          rw (complete-append_line bytes (env.encode_record (claim c)) w (encode-IsLine codec c)) (
            any-last (claimed_by env c.operation_id) (complete bytes) (env.encode_record (claim c))
              (encode-claimed codec c))

  Yields-settle_claim :
      (r : ActionRequest) (h : String) (i : SessionIsolation) (file : Option Bytes)
      (found : Option Claim × Option ActionAck)
      → IsWhole file
      → (found.0 ≡ none → any (claimed_by env r.operation_id) (lines_of file) ≡ false)
      → Yields {env = env}
          (λ l. l ≡ file)
          (settle_claim r h i found)
          (λ res l.
            res ≡ new
            → (any (claimed_by env r.operation_id) (lines_of file) ≡ false)
              × (any (claimed_by env r.operation_id) (lines_of l) ≡ true))
  Yields-settle_claim r h i file (none, ended) whole free = Yields-bind _ _ Yields-now_ms λ now.
      Yields-bind _ _ (Yields-append_claim file _ whole)
        λ a. Yields-weaken (Yields-pure new) (λ res l k e. (free refl, k.0))
  Yields-settle_claim r h i file (some c, ended) whole free =
      Yields-if (not (str_eq c.action_hash h)) _ _ (λ e. Yields-raise _ _)
        (λ e.
          Yields-weaken (Yields-pure (known_claim c ended))
            (λ res l k n. absurd (known-ne-new c ended (sym k.1 ∙ n))))

  -- `new` means that the operation was not claimed, and is claimed now.
  pub Yields-claim_operation :
      (r : ActionRequest) (h : String) (i : SessionIsolation) (file : Option Bytes)
      → IsWhole file
      → Yields {env = env}
          (λ l. l ≡ file)
          (claim_operation r h i)
          (λ res l.
            res ≡ new
            → (any (claimed_by env r.operation_id) (lines_of file) ≡ false)
              × (any (claimed_by env r.operation_id) (lines_of l) ≡ true))
  unfolding claim_operation
  Yields-claim_operation r h i file whole = Yields-bind _ _ (Yields-records file) λ rs. record {
    at = λ t q b e.
        (Yields-settle_claim r h i file (scan r.operation_id (none, none) rs) whole
            (free file rs q.1)).at
          t q.0 b e;
  }
    where
      free :
          (file : Option Bytes) (rs : List LedgerRecord)
          → read_records env.utf8 env.decode_record file ≡ ok rs
          → (scan r.operation_id (none, none) rs).0 ≡ none
          → any (claimed_by env r.operation_id) (lines_of file) ≡ false
      free none rs e n = refl
      free (some bytes) rs e n =
          read_records-any env.utf8 env.decode_record (claims r.operation_id) bytes rs e
            (scan-none r.operation_id none rs n)
