-- ===== src/Semantic/Roundtrip.antt =====
-- A reference that an observation gives out for one of its tags is resolved to that element, as long
-- as the observation is valid; and what is resolved is what the reference names.
use praefectus.Prelude.{
  ℤ, ◌≡◌, refl, ap, ◌∙◌, true, String, some, List, [], ◌∷◌, All, str_eq, str_eq_iff, arith, ==_iff,
  subst, Bool-cases, inl, inr, Option-cases, &&_split,
}
use praefectus.Prelude.Try.{Try-cases, ok}
use praefectus.Protocol.{SemanticTargetRef}
use praefectus.Semantic.Observation.{SemanticElement, SemanticObservation, is_hash, valid_element}
use praefectus.Semantic.Mapping.{build_mapping}
use praefectus.Semantic.Resolve.{
  Hashing, key_of, matching, only, resolve, same_observation, target, validate, with_id, with_tag,
}
use praefectus.Semantic.Forest.{Rooted, mapping-Rooted}
use praefectus.Semantic.Unique.{str_eq_self, In, all-In, here, mapping-apart, matching-one, there}

-- A valid observation has a mapping.
pub valid-mapping :
    (h : Hashing) (o : SemanticObservation) (now_ms : ℤ)
    → validate h o now_ms ≡ ok tt
    → (m : List SemanticElement) × (build_mapping o.elements ≡ ok m)
unfolding validate
valid-mapping h o now_ms v = elim (Try-cases (build_mapping o.elements)) [
  | inl found ↦ found
  | inr (x, e) ↦ absurd (ground (arith, e, v))
]

-- In a valid observation the chain of parents of every element ends at an element with no parent.
pub valid-Rooted :
    (h : Hashing) (o : SemanticObservation) (now_ms : ℤ)
    → validate h o now_ms ≡ ok tt
    → (m : List SemanticElement) × ((build_mapping o.elements ≡ ok m)
        × All (λ e. Rooted m e.parent_id) o.elements)
valid-Rooted h o now_ms v =
    let (m, b) = valid-mapping h o now_ms v in (m, (b, mapping-Rooted o.elements m b))

abbrev reference : SemanticObservation → SemanticElement → String → SemanticTargetRef
reference o e hash = record {
  observation_id = o.observation_id;
  generation = o.generation;
  provenance_hash = hash;
  element_id = e.element_id;
  fingerprint_hash = e.fingerprint_hash;
}

valid-hashes :
    (e : SemanticElement)
    → valid_element e ≡ true
    → (is_hash e.element_id ≡ true) × (is_hash e.fingerprint_hash ≡ true)
unfolding valid_element
valid-hashes e h = ground (arith, h)

-- The reference that a valid observation gives out for the tag of one of its elements is resolved to
-- that element while the observation stays valid, if the provenance has a hash.
pub resolve-target :
    (h : Hashing) (o : SemanticObservation) (now_ms : ℤ) (e : SemanticElement) (hash : String)
    → validate h o now_ms ≡ ok tt
    → h.hash_provenance (key_of o) ≡ some hash
    → In e o.elements
    → (t : SemanticTargetRef) × ((target h o e.tag ≡ ok t) × (resolve h o t now_ms ≡ ok e))
unfolding target resolve
resolve-target h o now_ms e hash v p i =
    let (m, b) = valid-mapping h o now_ms v in
    let (tags, (ids, valid)) = mapping-apart o.elements m b in
    let by_tag : with_tag e.tag o.elements ≡ e ∷ [] = matching-one (λ x. x.tag) i tags in
    let by_id : with_id e.element_id o.elements ≡ e ∷ [] = matching-one (λ x. x.element_id) i ids in
    let hashes = valid-hashes e (all-In valid_element i valid) in
    (
      reference o e hash,
      (
        rw (by_tag, p) refl,
        rw
            (
              v,
              str_eq_self o.observation_id,
              (==_iff o.generation o.generation).1 refl,
              p,
              str_eq_self hash,
              hashes.0,
              hashes.1,
              by_id,
              str_eq_self e.fingerprint_hash,
            )
            refl,
      ),
    )

only-In :
    (key : SemanticElement → String) (wanted : String) (es : List SemanticElement)
    (e : SemanticElement)
    → matching key wanted es ≡ e ∷ []
    → In e es × (key e ≡ wanted)
only-In key wanted [] e h = cc
only-In key wanted (d ∷ es) e h = elim (Bool-cases (str_eq (key d) wanted)) [
  | inl same ↦
      let q : d ≡ e = ground (arith, same) in
      subst (λ (x : SemanticElement). In x (d ∷ es) × (key x ≡ wanted)) q
        (here es, (str_eq_iff (key d) wanted).0 same)
  | inr other ↦ let (i, k) = only-In key wanted es e (ground (arith, other)) in (there d es i, k)
]

one_of_only : (es : List SemanticElement) (e : SemanticElement) → only es ≡ ok e → es ≡ e ∷ []
one_of_only [] e h = cc
one_of_only (d ∷ []) e h = cc
one_of_only (d ∷ f ∷ es) e h = cc

-- The steps of a resolution that succeeds.
resolve-steps :
    (h : Hashing) (o : SemanticObservation) (t : SemanticTargetRef) (now_ms : ℤ)
    (e : SemanticElement)
    → resolve h o t now_ms ≡ ok e
    → (validate h o now_ms ≡ ok tt)
      × ((same_observation h o t ≡ true)
          × ((only (with_id t.element_id o.elements) ≡ ok e)
              × (str_eq e.fingerprint_hash t.fingerprint_hash ≡ true)))
unfolding resolve
resolve-steps h o t now_ms e r = elim (Try-cases (validate h o now_ms)) [
  | inr (x, v) ↦ absurd (ground (arith, v, r))
  | inl (u, v) ↦ elim (Option-cases (h.hash_provenance (key_of o))) [
    | inl n ↦ absurd (ground (arith, v, n, r))
    | inr (hash, p) ↦ elim (Try-cases (only (with_id t.element_id o.elements))) [
      | inr (x, f) ↦ absurd (ground (arith, v, p, f, r))
      | inl (d, f) ↦
          let same : d ≡ e = ground (arith, v, p, f, r) in
          let near : same_observation h o t ≡ true = ground (arith, v, p, f, r) in
          let print : str_eq d.fingerprint_hash t.fingerprint_hash ≡ true =
            ground (arith, v, p, f, r) in
          (
            v,
            (
              near,
              (
                f ∙ ap ok same,
                subst (λ (x : SemanticElement). str_eq x.fingerprint_hash t.fingerprint_hash ≡ true)
                    same print,
              ),
            ),
          )
    ]
  ]
]

-- What is resolved stands in the observation, which is valid and is the one that the reference names,
-- and has the ID and the fingerprint of the reference.
pub resolve-named :
    (h : Hashing) (o : SemanticObservation) (t : SemanticTargetRef) (now_ms : ℤ)
    (e : SemanticElement)
    → resolve h o t now_ms ≡ ok e
    → (validate h o now_ms ≡ ok tt)
      × (In e o.elements
          × ((t.observation_id ≡ o.observation_id)
              × ((t.generation ≡ o.generation)
                  × ((e.element_id ≡ t.element_id) × (e.fingerprint_hash ≡ t.fingerprint_hash)))))
resolve-named h o t now_ms e r =
    let (v, (near, (f, print))) = resolve-steps h o t now_ms e r in
    let (i, k) =
      only-In (λ x. x.element_id) t.element_id o.elements e
        (one_of_only (with_id t.element_id o.elements) e f) in
    let (a, b) = &&_split _ _ near in
    (
      v,
      (
        i,
        (
          (str_eq_iff t.observation_id o.observation_id).0 a,
          (
            (==_iff t.generation o.generation).0 b,
            (k, (str_eq_iff e.fingerprint_hash t.fingerprint_hash).0 print),
          ),
        ),
      ),
    )
