-- ===== src/Journal/Lines.antt =====
-- Complete lines and the tail of a file, under an append and under the cut at `durable_len`.
use praefectus.Prelude.{
  ℕ, suc, ◌≡◌, refl, sym, ap, ◌∙◌, true, List, [], ◌∷◌, ◌++◌, none, some, arith, ◌==◌, length, take,
  all, append_assoc, Bool-cases, Option-cases, inl, inr, not,
}
use praefectus.Journal.{Bytes, complete, tail_of, last_newline, ends_with_newline, durable_len}

-- The lines that an append completes.
pub grown : Bytes → Bytes → List Bytes
grown bytes more = complete (tail_of bytes ++ more)

pub complete-append :
    (bytes more : Bytes) → complete (bytes ++ more) ≡ complete bytes ++ grown bytes more
unfolding complete tail_of grown
complete-append [] more = refl
complete-append (b ∷ bs) more = ground (arith, complete-append bs more)

-- A line holds no newline.
abbrev pub IsLine : Bytes → Type 0
IsLine l = all (λ b. not (b == b'\n')) l ≡ true

pub complete-line : (l : Bytes) → IsLine l → complete (l ++ b'\n' ∷ []) ≡ l ∷ []
unfolding complete
complete-line [] h = refl
complete-line (b ∷ l) h = ground (arith, complete-line l)

-- Without a torn tail, an appended line is one more complete line.
pub complete-append_line :
    (bytes l : Bytes)
    → tail_of bytes ≡ []
    → IsLine l
    → complete (bytes ++ (l ++ b'\n' ∷ [])) ≡ complete bytes ++ l ∷ []
unfolding grown
complete-append_line bytes l e h =
    complete-append bytes (l ++ b'\n' ∷ [])
    ∙ ap (λ (t : Bytes). complete bytes ++ complete (t ++ (l ++ b'\n' ∷ []))) e
    ∙ ap (λ (ls : List Bytes). complete bytes ++ ls) (complete-line l h)

newline_completes : (bytes : Bytes) → complete (bytes ++ b'\n' ∷ []) ≡ [] → ⊥
unfolding complete
newline_completes [] h = ground arith
newline_completes (b ∷ bs) h = ground (arith, newline_completes bs)

tail_of-newline : (bytes : Bytes) → tail_of (bytes ++ b'\n' ∷ []) ≡ []
unfolding tail_of
tail_of-newline [] = refl
tail_of-newline (b ∷ bs) = ground (arith, tail_of-newline bs, newline_completes bs)

-- A file that ends with a newline has no torn tail.
pub tail_of-append_line : (bytes l : Bytes) → tail_of (bytes ++ (l ++ b'\n' ∷ [])) ≡ []
tail_of-append_line bytes l = rw (← append_assoc) (tail_of-newline (bytes ++ l))

no_newline : (bytes : Bytes) → last_newline bytes ≡ none → complete bytes ≡ []
unfolding complete last_newline
no_newline [] h = refl
no_newline (b ∷ bs) h = ground (arith, no_newline bs)

-- A cut keeps the complete lines, and has no torn tail.
abbrev pub IsCut : Bytes → Bytes → Type 0
IsCut bytes cut = (complete cut ≡ complete bytes) × (tail_of cut ≡ [])

IsCut-at_last :
    (bytes : Bytes) (i : ℕ)
    → last_newline bytes ≡ some i
    → IsCut bytes (take (suc i) bytes) × (complete bytes ≡ [] → ⊥)
unfolding complete tail_of last_newline
IsCut-at_last [] i h = cc
IsCut-at_last (b ∷ bs) i h = elim (Option-cases (last_newline bs)) [
  | inl e ↦ let z : i ≡ 0 = ground arith in rw z (ground (arith, no_newline bs))
  | inr (j, e) ↦ let z : i ≡ suc j = ground arith in rw z (ground (arith, IsCut-at_last bs j e))
]

terminated :
    (bytes : Bytes)
    → ends_with_newline bytes ≡ true
    → (complete bytes ≡ [] → ⊥) × (tail_of bytes ≡ [])
unfolding complete tail_of
terminated [] h = cc
terminated (b ∷ []) h = ground arith
terminated (b ∷ c ∷ bs) h = ground (arith, terminated (c ∷ bs))

pub take-length : (bytes : Bytes) → take (length bytes) bytes ≡ bytes
take-length [] = refl
take-length (b ∷ bs) = ap (λ (t : Bytes). b ∷ t) (take-length bs)

-- What the repair keeps: the file up to its last newline.
pub durable-IsCut : (bytes : Bytes) → IsCut bytes (take (durable_len bytes) bytes)
unfolding durable_len complete tail_of
durable-IsCut bytes = elim (Bool-cases (ends_with_newline bytes)) [
  | inl e ↦ rw e (rw take-length (refl, (terminated bytes e).1))
  | inr e ↦ elim (Option-cases (last_newline bytes)) [
    | inl n ↦ rw (e, n) (sym (no_newline bytes n), refl)
    | inr (i, s) ↦ rw (e, s) (IsCut-at_last bytes i s).0
  ]
]

whole_ends : (b : ℕ) (bs : Bytes) → tail_of (b ∷ bs) ≡ [] → ends_with_newline (b ∷ bs) ≡ true
unfolding complete tail_of
whole_ends b [] h = ground arith
whole_ends b (c ∷ bs) h = whole_ends c bs (ground arith)

-- Without a torn tail the repair keeps every byte.
pub durable_whole : (bytes : Bytes) → tail_of bytes ≡ [] → take (durable_len bytes) bytes ≡ bytes
unfolding durable_len
durable_whole [] h = refl
durable_whole (b ∷ bs) h = rw (whole_ends b bs h) (take-length (b ∷ bs))
