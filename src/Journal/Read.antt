-- ===== src/Journal/Read.antt =====
-- What the reading loop returns, line by line.
use praefectus.Prelude.{
  ℕ, ◌≡◌, refl, ap, Bool, true, false, Option, none, some, List, [], ◌∷◌, arith, any, any-append,
  all, ◌||◌, is_whitespace, inl, inr, Bool-cases, if◌then◌else◌,
}
use praefectus.Journal.{
  Bytes, buffered_lines, complete, is_empty, keep, last_line, read_line, read_lines, read_records,
  strip_all, strip_cr, tail_of,
}
use praefectus.Protocol.{Result, ok, err}

module _ {R : Type 0} where
  -- What the loop makes of one line.
  abbrev pub seen : Option (List ℕ) → Option R → Option R
  seen none r = none
  seen (some text) r = if all is_whitespace text then none else r

  abbrev pub holds : (R → Bool) → Option R → Bool
  holds p none = false
  holds p (some r) = p r

module _ {R : Type 0} (utf8 : Bytes → Option (List ℕ)) (decode : Bytes → Option R)
    (p : R → Bool) where
  keep_step :
      (r : Option R) (is_last : Bool) (rest : Result (List R)) (rs : List R) (later : Bool)
      → (is_last ≡ true → later ≡ false)
      → ((qs : List R) → rest ≡ ok qs → any p qs ≡ later)
      → keep utf8 decode r is_last rest ≡ ok rs
      → any p rs ≡ (holds p r || later)
  keep_step (some r) is_last (ok qs) rs later last ih h = ground (arith, ih qs refl)
  keep_step (some r) is_last (err e) rs later last ih h = cc
  keep_step none true rest rs later last ih h = ground (arith, last refl)
  keep_step none false rest rs later last ih h = cc

  -- One line: the records hold `p` if the line or the rest does.
  line_step :
      (text : Option (List ℕ)) (r : Option R) (is_last : Bool) (rest : Result (List R))
      (rs : List R) (later : Bool)
      → (is_last ≡ true → later ≡ false)
      → ((qs : List R) → rest ≡ ok qs → any p qs ≡ later)
      → read_line utf8 decode text r is_last rest ≡ ok rs
      → any p rs ≡ (holds p (seen text r) || later)
  line_step none r is_last rest rs later last ih h = cc
  line_step (some text) r is_last rest rs later last ih h =
      elim (Bool-cases (all is_whitespace text)) [
        | inl e ↦ ground (arith, ih rs)
        | inr e ↦
            let kept : keep utf8 decode r is_last rest ≡ ok rs = ground arith in
            rw e (keep_step r is_last rest rs later last ih kept)
      ]

  abbrev pub line_holds : Bytes → Bool
  line_holds line = holds p (seen (utf8 line) (decode line))

  empty_later : (ls : List Bytes) → is_empty utf8 decode ls ≡ true → any line_holds ls ≡ false
  empty_later [] h = refl
  empty_later (l ∷ ls) h = cc

  read_lines-any :
      (ls : List Bytes) (rs : List R)
      → read_lines utf8 decode ls ≡ ok rs
      → any p rs ≡ any line_holds ls
  unfolding read_lines
  read_lines-any [] rs h = ground arith
  read_lines-any (l ∷ ls) rs h =
      line_step (utf8 l) (decode l) (is_empty utf8 decode ls) (read_lines utf8 decode ls) rs
        (any line_holds ls) (empty_later ls) (read_lines-any ls) h

any-strip_all :
    (p : Bytes → Bool) (ls : List Bytes) → any p (strip_all ls) ≡ any (λ l. p (strip_cr l)) ls
any-strip_all p [] = refl
any-strip_all p (l ∷ ls) = ap (λ b. p (strip_cr l) || b) (any-strip_all p ls)

module _ {R : Type 0} (utf8 : Bytes → Option (List ℕ)) (decode : Bytes → Option R)
    (p : R → Bool) where
  -- What a complete line holds, less its carriage return, is among the records returned.
  pub read_records-any :
      (bytes : Bytes) (rs : List R)
      → read_records utf8 decode (some bytes) ≡ ok rs
      → any p rs ≡ false
      → any (λ l. line_holds utf8 decode p (strip_cr l)) (complete bytes) ≡ false
  unfolding read_records buffered_lines
  read_records-any bytes rs h none_held =
      let all_lines = read_lines-any utf8 decode p (buffered_lines bytes) rs h in
      let split =
        any-append (line_holds utf8 decode p) (strip_all (complete bytes))
          (last_line (tail_of bytes)) in
      ground (arith, all_lines, split, any-strip_all (line_holds utf8 decode p) (complete bytes))
