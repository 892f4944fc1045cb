-- ===== src/Tests/Codec.antt =====
-- A codec for the claims of an environment that is written down here: a brace, and the code points of
-- the operation ID, each raised by 32.
use Prim.Native.Char.{Char, char, code, IsLt, IsScalar}
use Prim.Native.Nat.{Ordering, compare as compare_ℕ}
use praefectus.Prelude.{
  ℕ, ◌+◌, ◌-◌, ◌≤◌, ◌≡◌, refl, ap, ◌∙◌, Option, none, some, List, [], ◌∷◌, String, arith, All, pos,
}
use praefectus.Journal.{Bytes}
use praefectus.Host.{Claim, LedgerRecord, claim, terminal}

abbrev Both : Ordering → Ordering → Type 0
Both Ordering.lt o = IsLt o
Both Ordering.eq _ = ⊥
Both Ordering.gt _ = ⊥

abbrev Scalar : Ordering → Ordering → Ordering → Type 0
Scalar Ordering.lt _ _ = Unit
Scalar Ordering.eq o p = Both o p
Scalar Ordering.gt o p = Both o p

unfoldable both? : (o p : Ordering) → Option (Both o p)
both? Ordering.lt Ordering.lt = some tt
both? Ordering.lt Ordering.eq = none
both? Ordering.lt Ordering.gt = none
both? Ordering.eq p = none
both? Ordering.gt p = none

unfoldable scalar? : (o p q : Ordering) → Option (Scalar o p q)
unfolding both?
scalar? Ordering.lt p q = some tt
scalar? Ordering.eq p q = both? p q
scalar? Ordering.gt p q = both? p q

both?-some : (o p : Ordering) (x : Both o p) → both? o p ≡ some x
unfolding both?
both?-some Ordering.lt Ordering.lt x = refl
both?-some Ordering.lt Ordering.eq x = absurd x
both?-some Ordering.lt Ordering.gt x = absurd x
both?-some Ordering.eq p x = absurd x
both?-some Ordering.gt p x = absurd x

scalar?-some : (o p q : Ordering) (x : Scalar o p q) → scalar? o p q ≡ some x
unfolding scalar?
scalar?-some Ordering.lt p q x = refl
scalar?-some Ordering.eq p q x = both?-some p q x
scalar?-some Ordering.gt p q x = both?-some p q x

abbrev char_or_mark : (n : ℕ) → Option (IsScalar n) → Char
char_or_mark n none = "?"
char_or_mark n (some p) = char n p

unfoldable to_char : ℕ → Char
unfolding scalar?
to_char n = char_or_mark n (scalar? (compare_ℕ n 55296) (compare_ℕ 57343 n) (compare_ℕ n 1114112))

to_char-code : (c : Char) → to_char (code c) ≡ c
unfolding to_char
to_char-code (char n p) =
    ap (char_or_mark n)
      (scalar?-some (compare_ℕ n 55296) (compare_ℕ 57343 n) (compare_ℕ n 1114112) p)

unfoldable text_of : Bytes → String
unfolding to_char
text_of [] = ""
text_of (n ∷ ns) = String.◌∷◌ (to_char (n - 32)) (text_of ns)

abbrev raised : String → Bytes
raised String.[] = []
raised (String.◌∷◌ c s) = (32 + code c) ∷ raised s

raised-text : (s : String) → text_of (raised s) ≡ s
unfolding text_of
raised-text String.[] = refl
raised-text (String.◌∷◌ c s) =
    let same : 32 + code c - 32 ≡ code c = omega arith in
    let one : to_char (32 + code c - 32) ≡ c = ap to_char same ∙ to_char-code c in
    rw one (ap (String.◌∷◌ c) (raised-text s))

raised-printable : (s : String) → All (λ b. 32 ≤ b) (raised s)
raised-printable String.[] = tt
raised-printable (String.◌∷◌ c s) = (omega arith, raised-printable s)

unfoldable pub encode : LedgerRecord → Bytes
encode (claim c) = b'{' ∷ raised c.operation_id
encode (terminal a) = []

unfoldable pub decode : Bytes → Option LedgerRecord
unfolding text_of
decode [] = none
decode (b ∷ bs) = some (
    claim (record {
      operation_id = text_of bs;
      action_hash = "";
      claimed_at_ms = pos 0;
      action_name = none;
      delivery_route = none;
      session_isolation = none;
      interaction_mode = none;
    }))

pub encode-no_control : (c : Claim) → All (λ b. 32 ≤ b) (encode (claim c))
unfolding encode
encode-no_control c = (omega arith, raised-printable c.operation_id)

pub decode-encode :
    (c : Claim)
    → (d : Claim) × ((decode (encode (claim c)) ≡ some (claim d))
        × (d.operation_id ≡ c.operation_id))
unfolding decode encode
decode-encode c = (
  record {
    operation_id = text_of (raised c.operation_id);
    action_hash = "";
    claimed_at_ms = pos 0;
    action_name = none;
    delivery_route = none;
    session_isolation = none;
    interaction_mode = none;
  },
  (refl, raised-text c.operation_id),
)

pub encode-braced : (c : Claim) → (rest : List ℕ) × (encode (claim c) ≡ b'{' ∷ rest)
unfolding encode
encode-braced c = (raised c.operation_id, refl)
