-- ===== src/Journal/Repair.antt =====
-- What `repair_jsonl_tail` of src/lib.rs makes of a file whose last append was torn.
use praefectus.Prelude.{
  ℕ, ◌≡◌, refl, ap, Bool, true, false, some, [], ◌∷◌, ◌++◌, append-nil, arith, length, take, all,
  String,
}
use praefectus.Protocol.{ok}
use praefectus.Journal.{
  Bytes, complete, durable_len, ends_with_newline, last_newline, line_is_valid, repair_jsonl_tail,
  tail_of,
}
use praefectus.Journal.Lines.{durable_whole, IsLine}

last-append : (bytes part : Bytes) → IsLine part → last_newline (bytes ++ part) ≡ last_newline bytes
unfolding last_newline
last-append [] [] h = refl
last-append [] (c ∷ part) h = ground (arith, last-append [] part)
last-append (b ∷ bs) part h = ground (arith, last-append bs part h)

last-whole : (b : ℕ) (bs : Bytes) → tail_of (b ∷ bs) ≡ [] → last_newline (b ∷ bs) ≡ some (length bs)
unfolding last_newline tail_of complete
last-whole b [] h = ground arith
last-whole b (c ∷ bs) h = let more = last-whole c bs (ground arith) in rw more refl

take-append : (xs ys : Bytes) → take (length xs) (xs ++ ys) ≡ xs
take-append [] [] = refl
take-append [] (y ∷ ys) = refl
take-append (x ∷ xs) ys = ap (λ (t : Bytes). x ∷ t) (take-append xs ys)

ends-part :
    (bytes : Bytes) (c : ℕ) (part : Bytes)
    → IsLine (c ∷ part)
    → ends_with_newline (bytes ++ c ∷ part) ≡ false
ends-part [] c [] h = ground arith
ends-part [] c (d ∷ part) h = ends-part [] d part (ground arith)
ends-part (b ∷ []) c part h = ends-part [] c part h
ends-part (b ∷ d ∷ bs) c part h = ends-part (d ∷ bs) c part h

-- The repair cuts off what an interrupted append left of its line.
torn_cut :
    (bytes part : Bytes)
    → tail_of bytes ≡ []
    → IsLine part
    → take (durable_len (bytes ++ part)) (bytes ++ part) ≡ bytes
unfolding durable_len
torn_cut bytes [] w h = rw append-nil (durable_whole bytes w)
torn_cut [] (c ∷ part) w h = rw (ends-part [] c part h, last-append [] (c ∷ part) h) refl
torn_cut (b ∷ bs) (c ∷ part) w h =
    rw (ends-part (b ∷ bs) c part h, last-append (b ∷ bs) (c ∷ part) h, last-whole b bs w)
      (take-append (b ∷ bs) (c ∷ part))

-- A file of complete lines that all parse, followed by the part of a line that an interrupted append
-- left behind, is repaired to the file before the append.
pub repair-torn :
    (valid : Bytes → Bool) (message : String) (bytes part : Bytes)
    → tail_of bytes ≡ []
    → IsLine part
    → all (line_is_valid valid) (complete bytes) ≡ true
    → repair_jsonl_tail valid message (some (bytes ++ part)) ≡ ok (some bytes)
unfolding repair_jsonl_tail
repair-torn valid message bytes part w h v = rw (torn_cut bytes part w h, v) refl
