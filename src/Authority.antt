-- ===== src/Authority.antt =====
-- `Ed25519AuthorityVerifier` and `DenyAuthority` of src/lib.rs. Hexadecimal text, the canonical bytes
-- of a grant and the check of an Ed25519 signature are parameters.
pub mod Bound
pub mod Keyring
use praefectus.Prelude.{
  ℕ, ℤ, pos, Bool, true, false, not, ◌&&◌, ◌||◌, String, Option, none, some, List, [], ◌∷◌, str_eq,
  length, leb_ℤ, ◌==◌, is_some, and_then, keep_if, if◌then◌else◌,
}
use praefectus.Protocol.{
  ActionRequest, AuthorityGrant, Result, SafetyClass, VerifiedAuthority, ok, err, authority_denied,
  invalid_request, protocol_version, safety_eq, ◌>>=◌, ◌>>◌,
}
use praefectus.Validate.Identifiers.{is_hash, valid_identifier}

pub record Crypto : Type 1 where
  pub VerifyingKey : Type 0
  pub hex_decode : String → Option (List ℕ)
  pub canonical_authority_bytes : AuthorityGrant → Result (List ℕ)
  pub verify_strict : VerifyingKey → List ℕ → List ℕ → Bool

abbrev pub deny_if : Bool → Result (Unit {0})
deny_if true = err authority_denied
deny_if false = ok tt

abbrev pub granted_or_denied : {A : Type 0} → Option A → Result A
granted_or_denied none = err authority_denied
granted_or_denied (some a) = ok a

-- The guard of `verify` on the grant alone.
abbrev pub grant_differs : ActionRequest → String → Bool
grant_differs r action_hash =
    let g = r.authority.grant in
    not (g.protocol_version == protocol_version)
    || (not (str_eq g.operation_id r.operation_id)
        || (not (str_eq g.subject r.subject)
            || (not (str_eq g.session_id r.session_id)
                || (not (safety_eq g.risk r.safety)
                    || (not (str_eq g.action_hash action_hash)
                        || (leb_ℤ g.expires_at_ms (pos 0)
                            || (not (valid_identifier g.issuer)
                                || (not (valid_identifier g.key_id)
                                    || (not (valid_identifier g.policy_generation)
                                        || not (is_hash g.action_hash))))))))))

module _ (crypto : Crypto) where
  pub record Issuer : Type 0 where
    pub issuer : String
    pub key_id : String
    pub policy_generation : String
    pub key : crypto.VerifyingKey

  -- The map of `Ed25519AuthorityVerifier`, as its entries.
  abbrev pub find_issuer : String → String → List Issuer → Option Issuer
  find_issuer issuer key_id [] = none
  find_issuer issuer key_id (i ∷ is) =
      if str_eq i.issuer issuer && str_eq i.key_id key_id
      then some i
      else find_issuer issuer key_id is

  -- The loop of `new`.
  abbrev pub add_keys : List Issuer → List Issuer → Result (List Issuer)
  add_keys issuers [] = ok issuers
  add_keys issuers (k ∷ keys) =
      let rest = add_keys (k ∷ issuers) keys in
      if not (valid_identifier k.issuer)
        || (not (valid_identifier k.key_id)
            || (not (valid_identifier k.policy_generation)
                || is_some (find_issuer k.issuer k.key_id issuers)))
      then err (invalid_request "invalid authority keyring")
      else rest

  unfoldable pub new : List Issuer → Result (List Issuer)
  new keys = add_keys [] keys

  abbrev pub decode_signature : String → Option (List ℕ)
  decode_signature text = keep_if (λ bytes. length bytes == 64) (crypto.hex_decode text)

  unfoldable pub verify : List Issuer → ActionRequest → String → Result VerifiedAuthority
  verify issuers r action_hash = do
    deny_if (grant_differs r action_hash)
    found ←
        granted_or_denied (find_issuer r.authority.grant.issuer r.authority.grant.key_id issuers)
    deny_if (not (str_eq found.policy_generation r.authority.grant.policy_generation))
    signature ← granted_or_denied (decode_signature r.authority.signature)
    bytes ← crypto.canonical_authority_bytes r.authority.grant
    deny_if (not (crypto.verify_strict found.key bytes signature))
    ok (record { expires_at_ms = r.authority.grant.expires_at_ms })

  -- `DenyAuthority`.
  abbrev pub deny : ActionRequest → String → Result VerifiedAuthority
  deny r action_hash = err authority_denied
