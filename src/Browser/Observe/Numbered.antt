-- ===== src/Browser/Observe/Numbered.antt =====
-- The reading of the page by `CdpExecutor::semantic_observation` of src/cdp.rs: it leaves the stored
-- observation alone and takes the next generation.
use praefectus.Prelude.{ℕ, ℤ, ◌+◌, ◌%◌, ◌^◌, ◌≡◌, refl, sym, ◌∙◌, ap, String, Option, none, some}
use praefectus.Prelude.Try.{Try, ok, err}
use praefectus.Browser.Page.{CdpError, Page, protocol}
use praefectus.Browser.Session.{Exec, Session, lift, pure, raise, ◌>>=◌}
use praefectus.Browser.Query.{need}
use praefectus.Browser.Snapshot.{Reading}
use praefectus.Browser.Observe.{next_generation, read_page}
use praefectus.Browser.Observe.Reader.{
  IsReader, IsReader-ask, IsReader-boundary, IsReader-command, IsReader-gets, IsReader-lift,
  IsReader-need, IsReader-raise_if, IsReader-verify_process,
}

abbrev pub following : ℕ → ℕ
following n = (n + 1) % 2 ^ 64

-- The stored observation stays. A reading has the generation after that of the executor, which the
-- executor has then too.
pub record IsReading {page : Page} (m : Exec page CdpError Reading) : Type 0 where
  pub at : (s : Session page) → (m s).1.latest ≡ s.latest
  pub numbered :
      (s : Session page) (r : Reading)
      → (m s).0 ≡ ok r
      → (r.generation ≡ following s.generation) × ((m s).1.generation ≡ following s.generation)

abbrev answered : Reading → Try CdpError Reading
answered r = ok r

abbrev generation_of : Try CdpError Reading → ℕ
generation_of (ok r) = r.generation
generation_of (err e) = 0

module _ {page : Page} {A : Type 0} where
  continue-IsReading :
      (t : Try CdpError A) (next : A → Exec page CdpError Reading) (s : Session page)
      → ((a : A) → IsReading (next a))
      → (((lift t >>= next) s).1.latest ≡ s.latest)
        × ((r : Reading)
            → ((lift t >>= next) s).0 ≡ ok r
            → (r.generation ≡ following s.generation)
              × (((lift t >>= next) s).1.generation ≡ following s.generation))
  unfolding ◌>>=◌ lift
  continue-IsReading (ok a) next s k = ((k a).at s, (k a).numbered s)
  continue-IsReading (err e) next s k = (refl, λ r h. cc)

  IsReading-bind :
      (m : Exec page CdpError A) (next : A → Exec page CdpError Reading)
      → IsReader m
      → ((a : A) → IsReading (next a))
      → IsReading (m >>= next)
  unfolding ◌>>=◌ lift
  IsReading-bind m next h k = record {
    at = λ s. (continue-IsReading (m s).0 next (m s).1 k).0 ∙ h.at s;
    numbered = λ s r e.
        let found = (continue-IsReading (m s).0 next (m s).1 k).1 r e in
        let same = ap following (h.counted s) in (found.0 ∙ same, found.1 ∙ same);
  }

module _ {page : Page} where
  named :
      (n : ℕ) (id : Option String) (reading : String → Reading) (s : Session page)
      → ((text : String) → (reading text).generation ≡ n)
      → (((need protocol id >>= λ text. pure (reading text)) s).1 ≡ s)
        × ((r : Reading)
            → ((need protocol id >>= λ text. pure (reading text)) s).0 ≡ ok r
            → r.generation ≡ n)
  unfolding ◌>>=◌ pure raise
  named n none reading s h = (refl, λ r e. cc)
  named n (some text) reading s h = (refl, λ r e. numbered_as r e)
    where
      numbered_as : (r : Reading) → answered (reading text) ≡ answered r → r.generation ≡ n
      numbered_as r e = sym (ap generation_of e) ∙ h text

  -- The last lines: the generation is taken, and the ID computed from it.
  IsReading-numbered :
      (id_of : ℕ → Option String) (reading : ℕ → String → Reading)
      → ((n : ℕ) (text : String) → (reading n text).generation ≡ n)
      → IsReading {page = page}
          (next_generation >>= λ n. need protocol (id_of n) >>= λ text. pure (reading n text))
  unfolding ◌>>=◌ next_generation
  IsReading-numbered id_of reading h = record {
    at = λ s.
        ap (λ (x : Session page). x.latest)
          (named (following s.generation) (id_of (following s.generation))
            (reading (following s.generation)) (record s { generation = following s.generation })
            (h (following s.generation))).0;
    numbered = λ s r e.
        let found =
          named (following s.generation) (id_of (following s.generation))
            (reading (following s.generation)) (record s { generation = following s.generation })
            (h (following s.generation)) in
        (found.1 r e, ap (λ (x : Session page). x.generation) found.0);
  }

  pub IsReading-read_page : (deadline : ℤ) → IsReading {page = page} (read_page deadline)
  unfolding read_page
  IsReading-read_page deadline = IsReading-bind _ _ (IsReader-boundary deadline) λ a.
      IsReading-bind _ _ IsReader-verify_process λ b. IsReading-bind _ _ (IsReader-gets _) λ config.
        IsReading-bind _ _ (IsReader-command _ deadline) λ target.
          IsReading-bind _ _ (IsReader-need _ _) λ info.
            IsReading-bind _ _ (IsReader-raise_if _ _) λ c.
              IsReading-bind _ _ (IsReader-command _ deadline) λ tree.
                IsReading-bind _ _ (IsReader-need _ _) λ frame.
                  IsReading-bind _ _ (IsReader-need _ _) λ frame_id.
                    IsReading-bind _ _ (IsReader-need _ _) λ loader_id.
                      IsReading-bind _ _ (IsReader-need _ _) λ document_id.
                        IsReading-bind _ _ (IsReader-command _ deadline) λ context.
                          IsReading-bind _ _ (IsReader-need _ _) λ context_id.
                            IsReading-bind _ _ (IsReader-command _ deadline) λ layout.
                              IsReading-bind _ _ (IsReader-need _ _) λ viewport.
                                IsReading-bind _ _ (IsReader-need _ _) λ geometry.
                                  IsReading-bind _ _ (IsReader-command _ deadline) λ snapshot.
                                    IsReading-bind _ _ (IsReader-lift _) λ roots.
                                      IsReading-bind _ _ (IsReader-command _ deadline) λ ax.
                                        IsReading-bind _ _ (IsReader-command _ deadline) λ final.
                                          IsReading-bind _ _ (IsReader-need _ _) λ final_frame.
                                            IsReading-bind _ _ (IsReader-lift _) λ changed.
                                              IsReading-bind _ _ (IsReader-raise_if _ _) λ d.
                                                IsReading-bind _ _ (IsReader-boundary deadline) λ e.
                                                  IsReading-bind _ _ (IsReader-ask _)
                                                    λ now. IsReading-numbered _ _ λ n text. refl
