-- ===== src/Authority/Bound.antt =====
-- What `Ed25519AuthorityVerifier::verify` of src/lib.rs has checked when it accepts.
use praefectus.Prelude.{
  ℕ, ◌≡◌, refl, Bool, true, false, not, String, Option, none, some, List, arith, str_eq, str_eq_iff,
  pos, leb_ℤ, ap, sym,
}
use praefectus.Protocol.{
  ActionRequest, Result, SafetyClass, VerifiedAuthority, ok, err, safety_eq, ◌>>=◌, ◌>>◌,
}
use praefectus.Authority.{
  Crypto, Issuer, decode_signature, deny_if, find_issuer, grant_differs, granted_or_denied, verify,
}

deny-passes :
    {A : Type 0} (b : Bool) (rest : Result A) (a : A)
    → (deny_if b >> rest) ≡ ok a
    → (b ≡ false) × (rest ≡ ok a)
deny-passes true rest a h = cc
deny-passes false rest a h = (refl, h)

granted-passes :
    {A B : Type 0} (o : Option A) (next : A → Result B) (b : B)
    → (granted_or_denied o >>= next) ≡ ok b
    → (a : A) × (o ≡ some a) × (next a ≡ ok b)
granted-passes none next b h = cc
granted-passes (some a) next b h = (a, refl, h)

bind-passes :
    {A B : Type 0} (o : Result A) (next : A → Result B) (b : B)
    → (o >>= next) ≡ ok b
    → (a : A) × (o ≡ ok a) × (next a ≡ ok b)
bind-passes (err e) next b h = cc
bind-passes (ok a) next b h = (a, refl, h)

pub ok_injective : {A : Type 0} (a b : A) → Result.ok a ≡ ok b → a ≡ b
ok_injective a b h = cc

safety_eq→≡ : (a b : SafetyClass) → safety_eq a b ≡ true → a ≡ b
safety_eq→≡ a b h = ground arith

module _ (crypto : Crypto) where
  -- An issuer of the keyring whose key signed the bytes of the grant.
  pub record IsSigned (issuers : List (Issuer crypto)) (r : ActionRequest) : Type 0 where
    pub issuer : Issuer crypto
    pub known :
        find_issuer crypto r.authority.grant.issuer r.authority.grant.key_id issuers ≡ some issuer
    pub current : issuer.policy_generation ≡ r.authority.grant.policy_generation
    pub signature : List ℕ
    pub decoded : decode_signature crypto r.authority.signature ≡ some signature
    pub bytes : List ℕ
    pub canonical : crypto.canonical_authority_bytes r.authority.grant ≡ ok bytes
    pub signed : crypto.verify_strict issuer.key bytes signature ≡ true

  -- The grant is of this action of this request.
  pub record IsBound (r : ActionRequest) (action_hash : String) : Type 0 where
    pub same_action : r.authority.grant.action_hash ≡ action_hash
    pub same_operation : r.authority.grant.operation_id ≡ r.operation_id
    pub same_subject : r.authority.grant.subject ≡ r.subject
    pub same_session : r.authority.grant.session_id ≡ r.session_id
    pub same_risk : r.authority.grant.risk ≡ r.safety
    pub lasting : leb_ℤ r.authority.grant.expires_at_ms (pos 0) ≡ false

  IsBound-grant_differs :
      (r : ActionRequest) (action_hash : String)
      → grant_differs r action_hash ≡ false
      → IsBound r action_hash
  IsBound-grant_differs r action_hash h = record {
    same_action = (str_eq_iff _ _).0 (ground (arith, h));
    same_operation = (str_eq_iff _ _).0 (ground (arith, h));
    same_subject = (str_eq_iff _ _).0 (ground (arith, h));
    same_session = (str_eq_iff _ _).0 (ground (arith, h));
    same_risk = safety_eq→≡ _ _ (ground (arith, h));
    lasting = ground (arith, h);
  }

  -- If the verifier accepts a request, its grant names the action hash, the operation, the subject,
  -- the session and the risk of the request, an issuer of the keyring with the grant's policy
  -- generation has signed the canonical bytes of the grant, and the authority expires with the grant.
  pub verify-IsSigned :
      (issuers : List (Issuer crypto)) (r : ActionRequest) (action_hash : String)
      (a : VerifiedAuthority)
      → verify crypto issuers r action_hash ≡ ok a
      → IsBound r action_hash
        × IsSigned issuers r
        × (a.expires_at_ms ≡ r.authority.grant.expires_at_ms)
  unfolding verify
  verify-IsSigned issuers r action_hash a h =
      let b = deny-passes (grant_differs r action_hash) _ a h in
      let c =
        granted-passes
          (find_issuer crypto r.authority.grant.issuer r.authority.grant.key_id issuers) _ a b.1 in
      let d =
        deny-passes (not (str_eq c.0.policy_generation r.authority.grant.policy_generation)) _ a
          c.2 in
      let e = granted-passes (decode_signature crypto r.authority.signature) _ a d.1 in
      let f = bind-passes (crypto.canonical_authority_bytes r.authority.grant) _ a e.2 in
      let g = deny-passes (not (crypto.verify_strict c.0.key f.0 e.0)) _ a f.2 in
      (
        IsBound-grant_differs r action_hash b.0,
        record {
          issuer = c.0;
          known = c.1;
          current = (str_eq_iff _ _).0 (ground (arith, d.0));
          signature = e.0;
          decoded = e.1;
          bytes = f.0;
          canonical = f.1;
          signed = ground (arith, g.0);
        },
        ap (λ (x : VerifiedAuthority). x.expires_at_ms) (ok_injective a _ (sym g.1)),
      )
