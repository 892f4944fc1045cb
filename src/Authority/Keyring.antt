-- ===== src/Authority/Keyring.antt =====
-- The keyring that `Ed25519AuthorityVerifier::new` of src/lib.rs accepts.
use praefectus.Prelude.{
  ◌≡◌, refl, sym, ap, ◌∙◌, Bool, true, false, not, ◌&&◌, ◌||◌, String, Option, none, some, List, [],
  ◌∷◌, All, arith, str_eq, str_eq_iff, is_some, Bool-cases, inl, inr, if◌then◌else◌,
}
use praefectus.Protocol.{Result, ok, err, invalid_request}
use praefectus.Authority.{Crypto, Issuer, add_keys, find_issuer, new}
use praefectus.Validate.Identifiers.{valid_identifier}
use praefectus.Authority.Bound.{ok_injective}

if-passes :
    {A : Type 0} (b : Bool) (m : String) (rest : Result A) (a : A)
    → (if b then err (invalid_request m) else rest) ≡ ok a
    → (b ≡ false) × (rest ≡ ok a)
if-passes true m rest a h = cc
if-passes false m rest a h = (refl, h)

none-if_is_some : {A : Type 0} (o : Option A) → is_some o ≡ false → o ≡ none
none-if_is_some none h = refl
none-if_is_some (some a) h = cc

module _ (crypto : Crypto) where
  -- The guard of one key.
  abbrev refused : Issuer crypto → List (Issuer crypto) → Bool
  refused k issuers =
      not (valid_identifier k.issuer)
      || (not (valid_identifier k.key_id)
          || (not (valid_identifier k.policy_generation)
              || is_some (find_issuer crypto k.issuer k.key_id issuers)))

  find_issuer-added :
      (k x : Issuer crypto) (issuer key_id : String) (issuers : List (Issuer crypto))
      → refused k issuers ≡ false
      → find_issuer crypto issuer key_id issuers ≡ some x
      → find_issuer crypto issuer key_id (k ∷ issuers) ≡ some x
  find_issuer-added k x issuer key_id issuers h p =
      elim (Bool-cases (str_eq k.issuer issuer && str_eq k.key_id key_id)) [
        | inr e ↦ rw e p
        | inl e ↦
            let same = (str_eq_iff k.issuer issuer).0 (ground (arith, e)) in
            let same' = (str_eq_iff k.key_id key_id).0 (ground (arith, e)) in
            let absent =
              none-if_is_some (find_issuer crypto k.issuer k.key_id issuers) (ground (arith, h)) in
            let absent' = ap (λ i. find_issuer crypto i key_id issuers) (sym same) in
            let absent'' = ap (λ i. find_issuer crypto k.issuer i issuers) (sym same') in cc
      ]

  find_issuer-kept :
      (keys issuers out : List (Issuer crypto)) (x : Issuer crypto) (issuer key_id : String)
      → add_keys crypto issuers keys ≡ ok out
      → find_issuer crypto issuer key_id issuers ≡ some x
      → find_issuer crypto issuer key_id out ≡ some x
  find_issuer-kept [] issuers out x issuer key_id h p =
      let same = ok_injective issuers out h in
      ap (λ l. find_issuer crypto issuer key_id l) (sym same) ∙ p
  find_issuer-kept (k ∷ keys) issuers out x issuer key_id h p =
      let passed = if-passes (refused k issuers) "invalid authority keyring" _ out h in
      find_issuer-kept keys (k ∷ issuers) out x issuer key_id passed.1
        (find_issuer-added k x issuer key_id issuers passed.0 p)

  find_issuer-first :
      (k : Issuer crypto) (issuers : List (Issuer crypto))
      → find_issuer crypto k.issuer k.key_id (k ∷ issuers) ≡ some k
  find_issuer-first k issuers =
      rw ((str_eq_iff k.issuer k.issuer).1 refl) (rw ((str_eq_iff k.key_id k.key_id).1 refl) refl)

  add_keys-All :
      (keys issuers out : List (Issuer crypto))
      → add_keys crypto issuers keys ≡ ok out
      → All (λ k. find_issuer crypto k.issuer k.key_id out ≡ some k) keys
  add_keys-All [] issuers out h = tt
  add_keys-All (k ∷ keys) issuers out h =
      let passed = if-passes (refused k issuers) "invalid authority keyring" _ out h in
      (
        find_issuer-kept keys (k ∷ issuers) out k k.issuer k.key_id passed.1
            (find_issuer-first k issuers),
        add_keys-All keys (k ∷ issuers) out passed.1,
      )

  -- A keyring that is accepted finds every one of its keys under the issuer and the ID of the key.
  pub new-All :
      (keys issuers : List (Issuer crypto))
      → new crypto keys ≡ ok issuers
      → All (λ k. find_issuer crypto k.issuer k.key_id issuers ≡ some k) keys
  unfolding new
  new-All keys issuers h = add_keys-All keys [] issuers h
