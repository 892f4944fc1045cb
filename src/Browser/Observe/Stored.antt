-- ===== src/Browser/Observe/Stored.antt =====
-- What `CdpExecutor::semantic_observation` of src/cdp.rs leaves in the executor.
use praefectus.Prelude.{
  ℕ, ℤ, ◌≤ℤ◌, min_ℤ, ◌≡◌, refl, ◌∙◌, subst, not, String, Option, none, some, List, arith,
}
use praefectus.Prelude.Try.{Try, ok, err, map_err}
use praefectus.Semantic.Observation.{SemanticElement, SemanticError, SemanticObservation}
use praefectus.Semantic.Resolve.{Hashing, validate}
use praefectus.Browser.Page.{CdpError, CdpNode, Page, StoredObservation, protocol}
use praefectus.Browser.Session.{Exec, Session, ask, lift, pure, ◌>>=◌}
use praefectus.Browser.Boundary.{raise_if}
use praefectus.Browser.Snapshot.{Reading, observation_of}
use praefectus.Browser.Observe.{
  after_parse, after_read, read_page, semantic_observation, set_latest, store,
}
use praefectus.Browser.Observe.Reader.{IsReader, IsReader-ask, IsReader-lift, IsReader-raise_if}
use praefectus.Browser.Observe.Numbered.{IsReading-read_page}

min_ℤ-below : (a b : ℤ) → min_ℤ a b ≤ℤ a
min_ℤ-below a b = ground arith

validated :
    (t : Try SemanticError (Unit {0})) (u : Unit {0}) → map_err t (λ e. protocol) ≡ ok u → t ≡ ok tt
validated (ok tt) u h = refl
validated (err e) u h = cc

-- What an executor has stored after an observation that returned.
abbrev pub Stored :
    {page : Page}
    → Hashing
    → ℤ
    → Try CdpError SemanticObservation
    → Session page
    → Session page
    → Type 0
Stored h deadline (ok o) before after =
    (stored : StoredObservation) × (after.latest ≡ some stored)
    × (stored.observation ≡ o)
    × (validate h o o.observed_at_ms ≡ ok tt)
    × (o.expires_at_ms ≤ℤ deadline)
Stored h deadline (err e) before after = after.latest ≡ before.latest

module _ {page : Page} {A : Type 0} where
  continue-Stored :
      (h : Hashing) (deadline : ℤ) (t : Try CdpError A)
      (next : A → Exec page CdpError SemanticObservation) (before s : Session page)
      → s.latest ≡ before.latest
      → ((a : A) → t ≡ ok a → Stored h deadline (next a s).0 before (next a s).1)
      → Stored h deadline ((lift t >>= next) s).0 before ((lift t >>= next) s).1
  unfolding ◌>>=◌ lift
  continue-Stored h deadline (ok a) next before s p k = k a refl
  continue-Stored h deadline (err e) next before s p k = p

  Stored-bind :
      (h : Hashing) (deadline : ℤ) (m : Exec page CdpError A)
      (next : A → Exec page CdpError SemanticObservation) (before s : Session page)
      → IsReader m
      → s.latest ≡ before.latest
      → ((a : A) (s' : Session page)
          → s'.latest ≡ before.latest
          → (m s).0 ≡ ok a
          → Stored h deadline (next a s').0 before (next a s').1)
      → Stored h deadline ((m >>= next) s).0 before ((m >>= next) s).1
  unfolding ◌>>=◌ lift
  Stored-bind h deadline m next before s reads p k =
      continue-Stored h deadline (m s).0 next before (m s).1 (reads.at s ∙ p)
        λ a e. k a (m s).1 (reads.at s ∙ p) e

abbrev stored_of :
    Hashing → ℤ → Reading → List SemanticElement × List (String × CdpNode) → StoredObservation
stored_of h deadline r found = record {
  observation = observation_of r deadline found.0;
  execution_context_id = r.execution_context_id;
  nodes = found.1;
}

module _ {page : Page} where
  set_latest-Stored :
      (h : Hashing) (deadline : ℤ) (r : Reading)
      (found : List SemanticElement × List (String × CdpNode)) (before s : Session page)
      (u : Unit {0})
      → map_err (validate h (observation_of r deadline found.0) r.observed_at_ms) (λ e. protocol)
        ≡ ok u
      → Stored h deadline
          ((set_latest (stored_of h deadline r found) >>= λ w.
              pure (observation_of r deadline found.0))
            s).0
          before
          ((set_latest (stored_of h deadline r found) >>= λ w.
              pure (observation_of r deadline found.0))
            s).1
  unfolding ◌>>=◌ set_latest pure
  set_latest-Stored h deadline r found before s u valid =
      (stored_of h deadline r found, refl, refl, validated _ u valid, min_ℤ-below deadline _)

  store-Stored :
      (h : Hashing) (deadline : ℤ) (r : Reading)
      (found : List SemanticElement × List (String × CdpNode)) (before s : Session page)
      → s.latest ≡ before.latest
      → Stored h deadline (store h deadline r found s).0 before (store h deadline r found s).1
  unfolding store lift
  store-Stored h deadline r found before s p =
      Stored-bind h deadline
        (lift (
          map_err (validate h (observation_of r deadline found.0) r.observed_at_ms)
            (λ e. protocol)))
        _ before s (IsReader-lift _) p
        λ u s1 p1 valid.
          Stored-bind h deadline (ask page.write_latest) _ before s1 (IsReader-ask _) p1
            λ writable s2 p2 e.
              Stored-bind h deadline (raise_if protocol (not writable)) _ before s2
                (IsReader-raise_if _ _) p2
                λ w s3 p3 e'. set_latest-Stored h deadline r found before s3 u valid

  -- What an observation leaves, if it ends.
  abbrev IsOutcome :
      Hashing → ℤ → Session page → Option (Try CdpError SemanticObservation × Session page) → Type 0
  IsOutcome h deadline before none = Unit
  IsOutcome h deadline before (some (t, after)) = Stored h deadline t before after

  after_parse-IsOutcome :
      (h : Hashing) (deadline : ℤ) (r : Reading)
      (parsed : Option (Try CdpError (List SemanticElement × List (String × CdpNode))))
      (before s : Session page)
      → s.latest ≡ before.latest
      → IsOutcome h deadline before (after_parse h deadline r parsed s)
  unfolding after_parse
  after_parse-IsOutcome h deadline r none before s p = tt
  after_parse-IsOutcome h deadline r (some (err e)) before s p = p
  after_parse-IsOutcome h deadline r (some (ok found)) before s p =
      store-Stored h deadline r found before s p

  after_read-IsOutcome :
      (h : Hashing) (fuel : ℕ) (deadline : ℤ) (t : Try CdpError Reading) (before s : Session page)
      → s.latest ≡ before.latest
      → IsOutcome h deadline before (after_read h fuel deadline t s)
  unfolding after_read
  after_read-IsOutcome h fuel deadline (err e) before s p = p
  after_read-IsOutcome h fuel deadline (ok r) before s p =
      after_parse-IsOutcome h deadline r _ before s p

  outcome_of_some :
      (h : Hashing) (deadline : ℤ) (before after : Session page)
      (t : Try CdpError SemanticObservation)
      (o : Option (Try CdpError SemanticObservation × Session page))
      → o ≡ some (t, after)
      → IsOutcome h deadline before o
      → Stored h deadline t before after
  outcome_of_some h deadline before after t o e =
      λ holds. subst (IsOutcome h deadline before) e holds

  -- An observation that ends with an error leaves the stored observation as it was. One that succeeds
  -- has stored the observation that it returns, which is valid at the time that it was observed and
  -- expires no later than the deadline.
  pub semantic_observation-Stored :
      (h : Hashing) (fuel : ℕ) (deadline : ℤ) (t : Try CdpError SemanticObservation)
      (before after : Session page)
      → semantic_observation h fuel deadline before ≡ some (t, after)
      → Stored h deadline t before after
  unfolding semantic_observation
  semantic_observation-Stored h fuel deadline t before after e =
      outcome_of_some h deadline before after t _ e (
        after_read-IsOutcome h fuel deadline (read_page deadline before).0 before
          (read_page deadline before).1 ((IsReading-read_page deadline).at before))
