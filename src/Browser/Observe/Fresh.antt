-- ===== src/Browser/Observe/Fresh.antt =====
-- What `CdpExecutor::semantic_observation` of src/cdp.rs makes of the references to earlier
-- observations.
use praefectus.Prelude.{
  ℕ, suc, ◌^◌, ◌<◌, ◌≤◌, ℤ, ◌≡◌, ◌≢◌, refl, sym, ◌∙◌, subst, not, String, Option, none, some, List,
  arith,
}
use praefectus.Prelude.Try.{Try, ok, err, map_err}
use praefectus.Protocol.{SemanticTargetRef}
use praefectus.Semantic.Observation.{SemanticElement, SemanticObservation}
use praefectus.Semantic.Resolve.{Hashing, resolve, validate}
use praefectus.Semantic.Roundtrip.{resolve-named}
use praefectus.Browser.Page.{CdpError, CdpNode, Page, protocol}
use praefectus.Browser.Session.{Exec, Session, ask, lift, pure, ◌>>=◌}
use praefectus.Browser.Boundary.{raise_if}
use praefectus.Browser.Snapshot.{Reading, observation_of}
use praefectus.Browser.Observe.{
  after_parse, after_read, read_page, semantic_observation, set_latest, store,
}
use praefectus.Browser.Observe.Numbered.{IsReading-read_page, following}
use praefectus.Browser.Observe.Reader.{IsReader, IsReader-ask, IsReader-lift, IsReader-raise_if}

-- An observation of generation n, which the executor then has too; an error says nothing.
abbrev IsNext : {page : Page} → ℕ → Try CdpError SemanticObservation × Session page → Type 0
IsNext n (ok o, s) = (o.generation ≡ n) × (s.generation ≡ n)
IsNext n (err e, s) = Unit

abbrev IsNextOrNone :
    {page : Page} → ℕ → Option (Try CdpError SemanticObservation × Session page) → Type 0
IsNextOrNone n none = Unit
IsNextOrNone n (some out) = IsNext n out

module _ {page : Page} {A : Type 0} where
  continue-IsNext :
      (n : ℕ) (t : Try CdpError A) (next : A → Exec page CdpError SemanticObservation)
      (s : Session page)
      → ((a : A) → IsNext n (next a s))
      → IsNext n ((lift t >>= next) s)
  unfolding ◌>>=◌ lift
  continue-IsNext n (ok a) next s k = k a
  continue-IsNext n (err e) next s k = tt

  IsNext-bind :
      (n : ℕ) (m : Exec page CdpError A) (next : A → Exec page CdpError SemanticObservation)
      (s : Session page)
      → IsReader m
      → s.generation ≡ n
      → ((a : A) (s' : Session page) → s'.generation ≡ n → IsNext n (next a s'))
      → IsNext n ((m >>= next) s)
  unfolding ◌>>=◌ lift
  IsNext-bind n m next s reads p k =
      continue-IsNext n (m s).0 next (m s).1 λ a. k a (m s).1 (reads.counted s ∙ p)

module _ {page : Page} where
  store-IsNext :
      (h : Hashing) (deadline : ℤ) (r : Reading)
      (found : List SemanticElement × List (String × CdpNode)) (s : Session page)
      → s.generation ≡ r.generation
      → IsNext r.generation (store h deadline r found s)
  unfolding store set_latest pure ◌>>=◌
  store-IsNext h deadline r found s p =
      IsNext-bind r.generation
        (lift (
          map_err (validate h (observation_of r deadline found.0) r.observed_at_ms)
            (λ e. protocol)))
        _ s (IsReader-lift _) p
        λ u s1 p1.
          IsNext-bind r.generation (ask page.write_latest) _ s1 (IsReader-ask _) p1
            λ writable s2 p2.
              IsNext-bind r.generation (raise_if protocol (not writable)) _ s2
                (IsReader-raise_if _ _) p2 λ w s3 p3. (refl, p3)

  after_parse-IsNext :
      (h : Hashing) (deadline : ℤ) (r : Reading)
      (parsed : Option (Try CdpError (List SemanticElement × List (String × CdpNode))))
      (s : Session page)
      → s.generation ≡ r.generation
      → IsNextOrNone r.generation (after_parse h deadline r parsed s)
  unfolding after_parse
  after_parse-IsNext h deadline r none s p = tt
  after_parse-IsNext h deadline r (some (err e)) s p = tt
  after_parse-IsNext h deadline r (some (ok found)) s p = store-IsNext h deadline r found s p

  after_read-IsNext :
      (h : Hashing) (fuel n : ℕ) (deadline : ℤ) (t : Try CdpError Reading) (s : Session page)
      → ((r : Reading) → t ≡ ok r → (r.generation ≡ n) × (s.generation ≡ n))
      → IsNextOrNone n (after_read h fuel deadline t s)
  unfolding after_read after_parse
  after_read-IsNext h fuel n deadline (err e) s k = tt
  after_read-IsNext h fuel n deadline (ok r) s k =
      let (p, q) = k r refl in
      subst (λ (x : ℕ). IsNextOrNone x (after_read h fuel deadline (ok r) s)) p
        (after_parse-IsNext h deadline r _ s (q ∙ sym p))

  next_of_some :
      (n : ℕ) (o : SemanticObservation) (after : Session page)
      (out : Option (Try CdpError SemanticObservation × Session page))
      → out ≡ some (ok o, after)
      → IsNextOrNone n out
      → (o.generation ≡ n) × (after.generation ≡ n)
  next_of_some n o after out e holds = subst (IsNextOrNone n) e holds

  observed_next :
      (h : Hashing) (fuel : ℕ) (deadline : ℤ) (o : SemanticObservation)
      (before after : Session page)
      → semantic_observation h fuel deadline before ≡ some (ok o, after)
      → (o.generation ≡ following before.generation)
        × (after.generation ≡ following before.generation)
  unfolding semantic_observation
  observed_next h fuel deadline o before after ended =
      next_of_some (following before.generation) o after _ ended (
        after_read-IsNext h fuel (following before.generation) deadline
          (read_page deadline before).0 (read_page deadline before).1
          ((IsReading-read_page deadline).numbered before))

following-suc : (n : ℕ) → suc n < 2 ^ 64 → following n ≡ suc n
following-suc n room = omega arith

module _ {page : Page} where
  -- A successful observation and the executor after it have the generation after that of the executor
  -- before, and no reference of a generation up to that one resolves in the observation. This holds
  -- until the counter of 64 bits wraps around.
  pub stale_reference-refused :
      (h : Hashing) (fuel : ℕ) (deadline now_ms : ℤ) (o : SemanticObservation)
      (before after : Session page) (t : SemanticTargetRef) (e : SemanticElement)
      → semantic_observation h fuel deadline before ≡ some (ok o, after)
      → suc before.generation < 2 ^ 64
      → t.generation ≤ before.generation
      → (o.generation ≡ suc before.generation)
        × (after.generation ≡ suc before.generation)
        × (resolve h o t now_ms ≢ ok e)
  stale_reference-refused h fuel deadline now_ms o before after t e ended room old =
      let (first, second) = observed_next h fuel deadline o before after ended in
      let step = following-suc before.generation room in
      (
        first ∙ step,
        second ∙ step,
        λ r.
            let same = (resolve-named h o t now_ms e r).1.1.1.0 in
            ground (arith, same, first, step, old),
      )
