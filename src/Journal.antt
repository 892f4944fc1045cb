-- ===== src/Journal.antt =====
-- A JSON-lines file of src/lib.rs, as bytes: the tail repair of `repair_jsonl_tail` and the reading
-- loop of `OperationLedger::records`. The parser of a record (`serde_json`) and the UTF-8 decoder of
-- the standard library are parameters. The position arithmetic of the source is `durable_len`; the
-- slices between newlines are `complete`.
pub mod Lines
pub mod Repair
pub mod Read
use praefectus.Prelude.{
  ℕ, suc, Bool, true, false, ◌&&◌, ◌||◌, List, [], ◌∷◌, ◌++◌, Option, none, some, String, ◌==◌,
  if◌then◌else◌, length, take, all, is_ascii_whitespace, is_whitespace,
}
use praefectus.Protocol.{Result, ok, err, invalid_request, io, json, ◌>>=◌}

abbrev pub Bytes : Type 0
Bytes = List ℕ

-- A byte in front of the first line.
abbrev pub push : ℕ → List Bytes → List Bytes
push b [] = []
push b (l ∷ ls) = (b ∷ l) ∷ ls

-- The lines that a newline ends, without it.
unfoldable pub complete : Bytes → List Bytes
complete [] = []
complete (b ∷ bs) = if b == b'\n' then [] ∷ complete bs else push b (complete bs)

-- What follows the last newline.
unfoldable pub tail_of : Bytes → Bytes
tail_of [] = []
tail_of (b ∷ bs) =
    let t = tail_of bs in if b == b'\n' then t else elim (complete bs) [ [] ↦ b ∷ t | _ ∷ _ ↦ t ]

-- `iter().rposition(|byte| *byte == b'\n')`.
unfoldable pub last_newline : Bytes → Option ℕ
last_newline [] = none
last_newline (b ∷ bs) = elim (last_newline bs) [
  | some i ↦ some (suc i)
  | none ↦ if b == b'\n' then some 0 else none
]

abbrev ends_with_newline : Bytes → Bool
ends_with_newline [] = false
ends_with_newline (b ∷ []) = b == b'\n'
ends_with_newline (b ∷ c ∷ bs) = ends_with_newline (c ∷ bs)

unfoldable pub durable_len : Bytes → ℕ
unfolding last_newline
durable_len bytes =
    if ends_with_newline bytes
    then length bytes
    else elim (last_newline bytes) [ none ↦ 0 | some i ↦ suc i ]

module _ (parses : Bytes → Bool) where
  abbrev line_is_valid : Bytes → Bool
  line_is_valid line = all is_ascii_whitespace line || parses line

  -- The file after the repair; no file is no error.
  unfoldable pub repair_jsonl_tail : String → Option Bytes → Result (Option Bytes)
  unfolding durable_len complete
  repair_jsonl_tail message none = ok none
  repair_jsonl_tail message (some bytes) =
      if all line_is_valid (complete (take (durable_len bytes) bytes))
      then ok (some (take (durable_len bytes) bytes))
      else err (invalid_request message)

-- `BufRead::lines` drops a carriage return before the newline.
abbrev pub strip_cr : Bytes → Bytes
strip_cr [] = []
strip_cr (b ∷ []) = if b == b'\r' then [] else b ∷ []
strip_cr (b ∷ c ∷ bs) = b ∷ strip_cr (c ∷ bs)

abbrev strip_all : List Bytes → List Bytes
strip_all [] = []
strip_all (l ∷ ls) = strip_cr l ∷ strip_all ls

abbrev last_line : Bytes → List Bytes
last_line [] = []
last_line (b ∷ bs) = (b ∷ bs) ∷ []

unfoldable pub buffered_lines : Bytes → List Bytes
unfolding complete tail_of
buffered_lines bytes = strip_all (complete bytes) ++ last_line (tail_of bytes)

module _ {R : Type 0} (utf8 : Bytes → Option (List ℕ)) (decode : Bytes → Option R) where
  abbrev keep : Option R → Bool → Result (List R) → Result (List R)
  keep (some r) is_last rest = do rs ← rest; ok (r ∷ rs)
  keep none true rest = ok []
  keep none false rest = err (json "invalid record")

  abbrev read_line : Option (List ℕ) → Option R → Bool → Result (List R) → Result (List R)
  read_line none record? is_last rest = err (io "stream did not contain valid UTF-8")
  read_line (some text) record? is_last rest =
      if all is_whitespace text then rest else keep record? is_last rest

  abbrev is_empty : List Bytes → Bool
  is_empty [] = true
  is_empty (_ ∷ _) = false

  -- A last line that does not parse is dropped, any other is an error.
  unfoldable pub read_lines : List Bytes → Result (List R)
  read_lines [] = ok []
  read_lines (line ∷ rest) = read_line (utf8 line) (decode line) (is_empty rest) (read_lines rest)

  unfoldable pub read_records : Option Bytes → Result (List R)
  unfolding read_lines buffered_lines
  read_records none = ok []
  read_records (some bytes) = read_lines (buffered_lines bytes)
