-- ===== src/Semantic/Unique.antt =====
-- In a mapping that is accepted, no two elements share a tag or an ID, so that a filter by one of
-- them finds one element.
use praefectus.Prelude.{
  ◌≡◌, refl, Bool, true, false, not, ◌||◌, ◌&&◌, String, List, [], ◌∷◌, any, all, str_eq,
  str_eq_iff, arith,
}
use praefectus.Prelude.Try.{ok}
use praefectus.Semantic.Observation.{SemanticElement, valid_element}
use praefectus.Semantic.Mapping.{build_mapping, collect, has_id, has_text}
use praefectus.Semantic.Resolve.{matching}
use praefectus.Semantic.Forest.{mapping-checked}

-- The element stands in the list.
pub data In (e : SemanticElement) : List SemanticElement → Type 0 where
  here : (es : List SemanticElement) → In e (e ∷ es)
  there : (d : SemanticElement) (es : List SemanticElement) → In e es → In e (d ∷ es)

pub all-In :
    (p : SemanticElement → Bool) {e : SemanticElement} {es : List SemanticElement}
    → In e es
    → all p es ≡ true
    → p e ≡ true
all-In p (here es) h = ground arith
all-In p (there d es i) h = all-In p i (ground arith)

any-In :
    (p : SemanticElement → Bool) {e : SemanticElement} {es : List SemanticElement}
    → In e es
    → any p es ≡ false
    → p e ≡ false
any-In p (here es) h = ground arith
any-In p (there d es i) h = any-In p i (ground arith)

any-or :
    (p q : SemanticElement → Bool) (es : List SemanticElement)
    → any (λ e. p e || q e) es ≡ false
    → (any p es ≡ false) × (any q es ≡ false)
any-or p q [] h = (refl, refl)
any-or p q (e ∷ es) h = ground (arith, any-or p q es)

pub str_eq_self : (s : String) → str_eq s s ≡ true
str_eq_self s = (str_eq_iff s s).1 refl

str_eq_comm : (s t : String) → str_eq s t ≡ false → str_eq t s ≡ false
str_eq_comm s t h = ground (arith, str_eq_iff s t, str_eq_iff t s)

module _ (key : SemanticElement → String) where
  -- No two elements have one key.
  abbrev pub apart : List SemanticElement → Bool
  apart [] = true
  apart (e ∷ es) = not (any (λ f. str_eq (key e) (key f)) es) && apart es

  matching-none :
      (wanted : String) (es : List SemanticElement)
      → any (λ f. str_eq wanted (key f)) es ≡ false
      → matching key wanted es ≡ []
  matching-none wanted [] h = refl
  matching-none wanted (e ∷ es) h =
      let other : str_eq (key e) wanted ≡ false = str_eq_comm wanted (key e) (ground arith) in
      ground (arith, other, matching-none wanted es)

  pub matching-one :
      {e : SemanticElement} {es : List SemanticElement}
      → In e es
      → apart es ≡ true
      → matching key (key e) es ≡ e ∷ []
  matching-one {e} (here es) h =
      let rest = matching-none (key e) es (ground arith) in
      ground (arith, str_eq_self (key e), rest)
  matching-one {e} (there d es i) h =
      let other : str_eq (key d) (key e) ≡ false =
        any-In (λ f. str_eq (key d) (key f)) i (ground arith) in
      let rest = matching-one i (ground arith) in ground (arith, other, rest)

collect-tags :
    (tags : List String) (met rest m : List SemanticElement)
    → collect tags met rest ≡ ok m
    → (any (λ f. has_text f.tag tags) rest ≡ false) × (apart (λ e. e.tag) rest ≡ true)
unfolding collect
collect-tags tags met [] m h = (refl, refl)
collect-tags tags met (e ∷ rest) m h =
    let more : collect (e.tag ∷ tags) (e ∷ met) rest ≡ ok m = ground (arith, h) in
    let (a, b) = collect-tags (e.tag ∷ tags) (e ∷ met) rest m more in
    let (c, d) = any-or (λ f. str_eq e.tag f.tag) (λ f. has_text f.tag tags) rest a in
    ground (arith, h, b, c, d)

collect-ids :
    (tags : List String) (met rest m : List SemanticElement)
    → collect tags met rest ≡ ok m
    → (any (λ f. has_id f.element_id met) rest ≡ false) × (apart (λ e. e.element_id) rest ≡ true)
unfolding collect
collect-ids tags met [] m h = (refl, refl)
collect-ids tags met (e ∷ rest) m h =
    let more : collect (e.tag ∷ tags) (e ∷ met) rest ≡ ok m = ground (arith, h) in
    let (a, b) = collect-ids (e.tag ∷ tags) (e ∷ met) rest m more in
    let (c, d) =
      any-or (λ f. str_eq e.element_id f.element_id) (λ f. has_id f.element_id met) rest a in
    ground (arith, h, b, c, d)

collect-valid :
    (tags : List String) (met rest m : List SemanticElement)
    → collect tags met rest ≡ ok m
    → all valid_element rest ≡ true
unfolding collect
collect-valid tags met [] m h = refl
collect-valid tags met (e ∷ rest) m h =
    let more : collect (e.tag ∷ tags) (e ∷ met) rest ≡ ok m = ground (arith, h) in
    ground (arith, h, collect-valid (e.tag ∷ tags) (e ∷ met) rest m more)

pub mapping-apart :
    (es m : List SemanticElement)
    → build_mapping es ≡ ok m
    → (apart (λ e. e.tag) es ≡ true)
      × ((apart (λ e. e.element_id) es ≡ true) × (all valid_element es ≡ true))
mapping-apart es m h =
    let (c, p) = mapping-checked es m h in
    ((collect-tags [] [] es m c).1, ((collect-ids [] [] es m c).1, collect-valid [] [] es m c))
