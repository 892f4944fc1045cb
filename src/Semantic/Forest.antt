-- ===== src/Semantic/Forest.antt =====
-- A mapping that `build_mapping` accepts: the walk along the parents ends, and it ends at a root.
use praefectus.Prelude.{
  ℕ, zero, suc, ◌+◌, ◌≤◌, ◌≡◌, refl, sym, ap, ◌∙◌, Bool, true, false, not, ◌||◌, ◌&&◌, String,
  Option, none, some, List, [], ◌∷◌, all, All, length, str_eq, str_eq_iff, is_some_and, unwrap_or,
  if◌then◌else◌, arith, Bool-cases, Option-cases, inl, inr, subst,
}
use praefectus.Prelude.Try.{Try, ok, err, ◌>>=◌}
use praefectus.Semantic.Observation.{SemanticElement, SemanticError}
use praefectus.Semantic.Mapping.{
  build_mapping, check_parents, collect, find_id, has_id, has_text, parent_is_invalid, parent_in,
  parent_of_id, repeats, rounds_for, walk,
}

-- The elements whose ID the walk has not met.
abbrev unmet : List String → List SemanticElement → ℕ
unmet ancestors [] = 0
unmet ancestors (e ∷ es) = (if has_text e.element_id ancestors then 0 else 1) + unmet ancestors es

unmet-shrinks :
    (id : String) (ancestors : List String) (es : List SemanticElement)
    → unmet (id ∷ ancestors) es ≤ unmet ancestors es
unmet-shrinks id ancestors [] = omega arith
unmet-shrinks id ancestors (e ∷ es) = ground (arith, unmet-shrinks id ancestors es)

unmet-falls :
    (id : String) (ancestors : List String) (es : List SemanticElement) (found : SemanticElement)
    → has_text id ancestors ≡ false
    → find_id id es ≡ some found
    → unmet (id ∷ ancestors) es + 1 ≤ unmet ancestors es
unmet-falls id ancestors [] found new h = cc
unmet-falls id ancestors (e ∷ es) found new h = elim (Bool-cases (str_eq e.element_id id)) [
  | inl same ↦
      let p : id ≡ e.element_id = sym ((str_eq_iff e.element_id id).0 same) in
      let fresh : has_text e.element_id ancestors ≡ false =
        subst (λ (s : String). has_text s ancestors ≡ false) p new in
      let met : str_eq id e.element_id ≡ true = (str_eq_iff id e.element_id).1 p in
      ground (arith, fresh, met, unmet-shrinks id ancestors es)
  | inr other ↦
      let more : find_id id es ≡ some found = ground (arith, other) in
      let apart : str_eq id e.element_id ≡ false =
        ground (arith, str_eq_iff id e.element_id, str_eq_iff e.element_id id) in
      let rest = unmet-falls id ancestors es found new more in ground (arith, apart, rest)
]

abbrev Ends : ℕ → List SemanticElement → List String → Option String → Type 0
Ends rounds es ancestors id = (b : Bool) × (walk rounds es ancestors id ≡ some b)

-- With a round for each unmet element and two more, the walk does not run out of rounds.
walk-runs :
    (rounds : ℕ) (es : List SemanticElement) (ancestors : List String) (id : Option String)
    → unmet ancestors es + 2 ≤ rounds
    → Ends rounds es ancestors id
unfolding walk
walk-runs rounds es ancestors none h = (false, refl)
walk-runs zero es ancestors (some id) h = absurd (omega arith)
walk-runs (suc rounds) es ancestors (some id) h = elim (Bool-cases (has_text id ancestors)) [
  | inl met ↦ (true, rw met refl)
  | inr new ↦ rw new (elim (Option-cases (find_id id es)) [
    | inl missing ↦
        subst (Ends rounds es (id ∷ ancestors)) (sym (ap parent_in missing)) (false, refl)
    | inr (found, e) ↦ subst (Ends rounds es (id ∷ ancestors)) (sym (ap parent_in e)) (
        walk-runs rounds es (id ∷ ancestors) found.parent_id
          (omega (arith, unmet-falls id ancestors es found new e, h)))
  ])
]

unmet-le-length : (es : List SemanticElement) → unmet [] es ≤ length es
unmet-le-length [] = omega arith
unmet-le-length (e ∷ es) = omega (arith, unmet-le-length es)

-- The rounds that `build_mapping` gives to a walk suffice: the walk along the parents of an element
-- ends, whatever the parents are.
pub walk-ends :
    (es : List SemanticElement) (id : Option String)
    → (b : Bool) × (walk (rounds_for es) es [] id ≡ some b)
walk-ends es id = walk-runs (rounds_for es) es [] id (omega (arith, unmet-le-length es))

-- The chain of parents from an ID ends at an element with no parent.
pub data Rooted (es : List SemanticElement) : Option String → Type 0 where
  root : Rooted es none
  up :
      (id : String) (e : SemanticElement)
      → find_id id es ≡ some e
      → Rooted es e.parent_id
      → Rooted es (some id)

abbrev known : List SemanticElement → Option String → Bool
known es none = true
known es (some id) = has_id id es

find_of_has :
    (id : String) (es : List SemanticElement)
    → has_id id es ≡ true
    → (e : SemanticElement) × (find_id id es ≡ some e)
find_of_has id [] h = cc
find_of_has id (e ∷ es) h = elim (Bool-cases (str_eq e.element_id id)) [
  | inl same ↦ (e, rw same refl)
  | inr other ↦ rw other (find_of_has id es (ground (arith, other)))
]

all-find :
    (p : SemanticElement → Bool) (id : String) (es : List SemanticElement) (e : SemanticElement)
    → all p es ≡ true
    → find_id id es ≡ some e
    → p e ≡ true
all-find p id [] e h f = cc
all-find p id (d ∷ es) e h f = elim (Bool-cases (str_eq d.element_id id)) [
  | inl same ↦
      let q : d ≡ e = ground (arith, same) in
      subst (λ (x : SemanticElement). p x ≡ true) q (ground arith)
  | inr other ↦ all-find p id es e (ground arith) (ground (arith, other))
]

module _ (es : List SemanticElement) (closed : all (λ e. known es e.parent_id) es ≡ true) where
  walk-Rooted :
      (rounds : ℕ) (ancestors : List String) (id : Option String)
      → known es id ≡ true
      → walk rounds es ancestors id ≡ some false
      → Rooted es id
  unfolding walk
  walk-Rooted rounds ancestors none k h = root
  walk-Rooted zero ancestors (some id) k h = cc
  walk-Rooted (suc rounds) ancestors (some id) k h =
      let (e, f) = find_of_has id es k in
      let on : known es e.parent_id ≡ true =
        all-find (λ x. known es x.parent_id) id es e closed f in
      let step : parent_of_id es id ≡ e.parent_id = ap parent_in f in
      let more : walk rounds es (id ∷ ancestors) (parent_of_id es id) ≡ some false =
        ground (arith, h) in
      let rest : walk rounds es (id ∷ ancestors) e.parent_id ≡ some false =
        subst (λ (x : Option String). walk rounds es (id ∷ ancestors) x ≡ some false) step more in
      up id e f (walk-Rooted rounds (id ∷ ancestors) e.parent_id on rest)

-- What the second loop checks of one element.
abbrev parent_is_sound : List SemanticElement → SemanticElement → Bool
parent_is_sound m e = known m e.parent_id && not (repeats m e.parent_id)

known_of_valid :
    (m : List SemanticElement) (e : SemanticElement) (p : Option String)
    → is_some_and p (λ parent. str_eq parent e.element_id || not (has_id parent m)) ≡ false
    → known m p ≡ true
known_of_valid m e none h = refl
known_of_valid m e (some id) h = ground arith

checked :
    (m rest : List SemanticElement) (u : Unit {0})
    → check_parents m rest ≡ ok u
    → all (parent_is_sound m) rest ≡ true
unfolding check_parents
checked m [] u h = refl
checked m (e ∷ rest) u h = elim (Bool-cases (parent_is_invalid m e)) [
  | inl bad ↦ absurd (ground (arith, bad, h))
  | inr good ↦ elim (Bool-cases (repeats m e.parent_id)) [
    | inl bad ↦ absurd (ground (arith, good, bad, h))
    | inr once ↦
        let rest_ok : check_parents m rest ≡ ok u = ground (arith, good, once, h) in
        ground (arith, known_of_valid m e e.parent_id good, once, checked m rest u rest_ok)
  ]
]

-- The mapping holds what the slice holds.
collect-all :
    (p : SemanticElement → Bool) (tags : List String) (met rest m : List SemanticElement)
    → collect tags met rest ≡ ok m
    → all p met ≡ true
    → all p rest ≡ true
    → all p m ≡ true
unfolding collect
collect-all p tags met [] m e h k = ground arith
collect-all p tags met (d ∷ rest) m e h k =
    let more : collect (d.tag ∷ tags) (d ∷ met) rest ≡ ok m = ground (arith, e) in
    collect-all p (d.tag ∷ tags) (d ∷ met) rest m more (ground (arith, h, k)) (ground (arith, k))

all-weaken :
    (p q : SemanticElement → Bool) (es : List SemanticElement)
    → ((e : SemanticElement) → (p e && q e) ≡ true → p e ≡ true)
    → all (λ e. p e && q e) es ≡ true
    → all p es ≡ true
all-weaken p q [] f h = refl
all-weaken p q (e ∷ es) f h = ground (arith, all-weaken p q es f, h)

-- A walk that met nothing twice.
no_repeat :
    (m : List SemanticElement) (id : Option String)
    → repeats m id ≡ false
    → walk (rounds_for m) m [] id ≡ some false
no_repeat m id h =
    let (b, e) = walk-ends m id in
    let same : repeats m id ≡ b = ap (λ (o : Option Bool). unwrap_or o true) e in
    ground (arith, e, same, h)

all-Rooted :
    (m : List SemanticElement) (closed : all (λ e. known m e.parent_id) m ≡ true)
    (es : List SemanticElement)
    → all (parent_is_sound m) es ≡ true
    → All (λ e. Rooted m e.parent_id) es
all-Rooted m closed [] h = tt
all-Rooted m closed (e ∷ es) h = (
  walk-Rooted m closed (rounds_for m) [] e.parent_id (ground (arith, h))
      (no_repeat m e.parent_id (ground (arith, h))),
  all-Rooted m closed es (ground (arith, h)),
)

pub mapping-checked :
    (es m : List SemanticElement)
    → build_mapping es ≡ ok m
    → (collect [] [] es ≡ ok m) × (check_parents m es ≡ ok tt)
unfolding build_mapping
mapping-checked es m h = split (collect [] [] es) refl h
  where
    split :
        (c : Try SemanticError (List SemanticElement))
        → collect [] [] es ≡ c
        → (c >>= λ es'. check_parents es' es >>= λ u. ok es') ≡ ok m
        → (collect [] [] es ≡ ok m) × (check_parents m es ≡ ok tt)
    split (err x) e k = cc
    split (ok n) e k = parents n e (check_parents n es) refl k
      where
        parents :
            (n : List SemanticElement)
            → collect [] [] es ≡ ok n
            → (c : Try SemanticError (Unit {0})) → check_parents n es ≡ c
            → (c >>= λ u. ok n) ≡ ok m
            → (collect [] [] es ≡ ok m) × (check_parents m es ≡ ok tt)
        parents n e (err x) f k = cc
        parents n e (ok u) f k =
            let same : n ≡ m = cc in
            (
              e ∙ ap ok same,
              subst (λ (x : List SemanticElement). check_parents x es ≡ ok tt) same f,
            )

-- In a mapping that is accepted, the chain of parents of every element ends at an element with no
-- parent: the elements are a forest, with no cycle and no unknown parent.
pub mapping-Rooted :
    (es m : List SemanticElement) → build_mapping es ≡ ok m → All (λ e. Rooted m e.parent_id) es
mapping-Rooted es m h =
    let (c, p) = mapping-checked es m h in
    let sound = checked m es tt p in
    let closed_es : all (λ e. known m e.parent_id) es ≡ true =
      all-weaken (λ e. known m e.parent_id) (λ e. not (repeats m e.parent_id)) es
        (λ e k. ground (arith, k)) sound in
    all-Rooted m (collect-all (λ e. known m e.parent_id) [] [] es m c refl closed_es) es sound
