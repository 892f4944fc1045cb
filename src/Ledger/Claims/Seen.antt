-- ===== src/Ledger/Claims/Seen.antt =====
-- A scan that finds no claim has met none, and an encoded claim is seen as one.
use praefectus.Prelude.{
  ◌≤◌, ◌≡◌, refl, ap, true, false, Option, none, some, List, [], ◌∷◌, String, arith, any, All,
  str_eq_iff,
}
use praefectus.Journal.{Bytes, strip_cr}
use praefectus.Journal.Lines.{IsLine}
use praefectus.Protocol.{ActionAck}
use praefectus.Host.{Claim, Env, IsCodec, LedgerRecord, claim, terminal}
use praefectus.Ledger.{scan}
use praefectus.Ledger.Claims.{claimed_by, claims}

module _ (op : String) where
  scan_keeps :
      (c : Claim) (a : Option ActionAck) (rs : List LedgerRecord)
      → (scan op (some c, a) rs).0 ≡ none
      → ⊥
  unfolding scan
  scan_keeps c a [] h = cc
  scan_keeps c a (claim d ∷ rs) h = ground (arith, scan_keeps d a rs, scan_keeps c a rs)
  scan_keeps c a (terminal t ∷ rs) h = ground (arith, scan_keeps c (some t) rs, scan_keeps c a rs)

  pub scan-none :
      (a : Option ActionAck) (rs : List LedgerRecord)
      → (scan op (none, a) rs).0 ≡ none
      → any (claims op) rs ≡ false
  unfolding scan
  scan-none a [] h = refl
  scan-none a (claim d ∷ rs) h = ground (arith, scan_keeps d a rs, scan-none a rs)
  scan-none a (terminal t ∷ rs) h = ground (arith, scan-none (some t) rs, scan-none a rs)

strip_cr-id : (l : Bytes) → All (λ b. 32 ≤ b) l → strip_cr l ≡ l
strip_cr-id [] h = refl
strip_cr-id (b ∷ []) h = ground arith
strip_cr-id (b ∷ c ∷ l) h = ap (λ (t : Bytes). b ∷ t) (strip_cr-id (c ∷ l) h.1)

IsLine-of : (l : Bytes) → All (λ b. 32 ≤ b) l → IsLine l
IsLine-of [] h = refl
IsLine-of (b ∷ l) h = ground (arith, IsLine-of l h.1)

module _ {env : Env} (codec : IsCodec env) where
  pub encode-IsLine : (c : Claim) → IsLine (env.encode_record (claim c))
  encode-IsLine c = IsLine-of (env.encode_record (claim c)) (codec.no_control c)

  pub encode-claimed :
      (c : Claim) → claimed_by env c.operation_id (env.encode_record (claim c)) ≡ true
  encode-claimed c =
      let back = codec.reads_back c in
      rw (strip_cr-id (env.encode_record (claim c)) (codec.no_control c)) (
        rw ((codec.is_text c).1, back.1.0)
          ((str_eq_iff back.0.operation_id c.operation_id).1 back.1.1))
