-- ===== src/Outcome/Verdict/Laws.antt =====
-- When `verify` of src/lib.rs answers that an effect is verified.
use praefectus.Prelude.{
  ◌≡◌, refl, ap, true, Option, none, some, String, arith, str_eq_iff, &&_split, ◌&&◌,
}
use praefectus.Json.{Value, as_str, get}
use praefectus.Json.Equality.{unsigned, value_eq, value_eq→≡}
use praefectus.Protocol.{
  Observation, VerificationPolicy, effect_is_verified, unverified, snapshot_changed, target_state,
  target_value_hash,
}
use praefectus.Outcome.Verdict.{option_str_eq, same_target, verify}

-- The observation shows what the policy names. Numbers are compared as `f64`, to which a zero has no
-- sign.
abbrev pub Shows : VerificationPolicy → Observation → Type 0
Shows unverified o = ⊥
Shows snapshot_changed o = ⊥
Shows (target_state value) o = unsigned o.state ≡ unsigned value
Shows (target_value_hash sha256) o = as_str (get "value_hash" o.state) ≡ some sha256

same_text : (a b : Option String) → option_str_eq a b ≡ true → a ≡ b
same_text none none h = refl
same_text none (some t) h = cc
same_text (some s) none h = cc
same_text (some s) (some t) h = ap some ((str_eq_iff s t).0 h)

state_shown :
    (v : Value) (before o : Observation) (expected : Option String)
    → effect_is_verified (verify (target_state v) before (some o) expected).0 ≡ true
    → (value_eq o.state v && same_target before.evidence o.evidence expected) ≡ true
unfolding verify
state_shown v before o expected h = ground arith

hash_shown :
    (d : String) (before o : Observation) (expected : Option String)
    → effect_is_verified (verify (target_value_hash d) before (some o) expected).0 ≡ true
    → (option_str_eq (as_str (get "value_hash" o.state)) (some d)
        && same_target before.evidence o.evidence expected)
      ≡ true
unfolding verify
hash_shown d before o expected h = ground arith

-- An effect is verified only with an observation after it that shows what the policy names, the whole
-- state of the target (up to the sign of a zero in it) or the hash of its value, and with evidence before and after of the expected
-- target on one display geometry.
pub verified_same_target :
    (p : VerificationPolicy) (before : Observation) (after : Option Observation)
    (expected : Option String)
    → effect_is_verified (verify p before after expected).0 ≡ true
    → (o : Observation) × ((after ≡ some o)
        × (Shows p o × (same_target before.evidence o.evidence expected ≡ true)))
unfolding verify
verified_same_target unverified before after expected h = cc
verified_same_target snapshot_changed before none expected h = cc
verified_same_target snapshot_changed before (some o) expected h = absurd (ground arith)
verified_same_target (target_state v) before none expected h = cc
verified_same_target (target_state v) before (some o) expected h =
    let (e, t) = &&_split _ _ (state_shown v before o expected h) in
    (o, (refl, (value_eq→≡ o.state v e, t)))
verified_same_target (target_value_hash d) before none expected h = cc
verified_same_target (target_value_hash d) before (some o) expected h =
    let (e, t) = &&_split _ _ (hash_shown d before o expected h) in
    (o, (refl, (same_text _ (some d) e, t)))
