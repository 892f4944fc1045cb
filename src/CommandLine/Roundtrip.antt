-- ===== src/CommandLine/Roundtrip.antt =====
-- What `parse_arguments` of src/main.rs reads of a command line is what was written there.
use praefectus.Prelude.{
  ◌≡◌, refl, sym, ap, ◌∙◌, Bool, true, false, not, ◌&&◌, ◌||◌, String, Option, none, some, List, [],
  ◌∷◌, ◌++◌, append_assoc, append-nil, arith, is_some, or_else, str_eq, str_eq_iff, subst,
  unwrap_or, Bool-cases, &&_split, inl, inr,
}
use praefectus.Prelude.Try.{Try, ok}
use praefectus.CommandLine.{
  CliError, Parsed, finished, is_dashed, parse_arguments, parse_from, plain_argument, with_default,
}

-- The parts of a command line, in any order.
pub data Piece : Type 0 where
  positional : String → Piece
  no_yolo_flag : Piece
  ledger_option : String → Piece

abbrev pub print : List Piece → List String
print [] = []
print (positional v ∷ pieces) = v ∷ print pieces
print (no_yolo_flag ∷ pieces) = "--no-yolo" ∷ print pieces
print (ledger_option path ∷ pieces) = "--ledger" ∷ path ∷ print pieces

abbrev pub positionals : List Piece → List String
positionals [] = []
positionals (positional v ∷ pieces) = v ∷ positionals pieces
positionals (_ ∷ pieces) = positionals pieces

abbrev pub has_no_yolo : List Piece → Bool
has_no_yolo [] = false
has_no_yolo (no_yolo_flag ∷ pieces) = true
has_no_yolo (_ ∷ pieces) = has_no_yolo pieces

abbrev pub ledger_of : List Piece → Option String
ledger_of [] = none
ledger_of (ledger_option path ∷ pieces) = some path
ledger_of (_ ∷ pieces) = ledger_of pieces

-- No argument starts with a dash, and the ledger is named at most once.
abbrev pub is_plain : Bool → List Piece → Bool
is_plain named [] = true
is_plain named (positional v ∷ pieces) = not (is_dashed v) && is_plain named pieces
is_plain named (no_yolo_flag ∷ pieces) = is_plain named pieces
is_plain named (ledger_option path ∷ pieces) =
    (not named && not (is_dashed path)) && is_plain true pieces

not_option :
    (v option : String) → is_dashed option ≡ true → is_dashed v ≡ false → str_eq v option ≡ false
not_option v option d h = elim (Bool-cases (str_eq v option)) [
  | inr e ↦ e
  | inl e ↦
      absurd
        (ground (arith, h, subst (λ x. is_dashed x ≡ true) (sym ((str_eq_iff v option).0 e)) d))
]

plain_step :
    (v : String) (next : Option String → List String → Bool → Try CliError Parsed)
    (ledger : Option String) (values : List String) (no_yolo : Bool)
    → is_dashed v ≡ false
    → plain_argument v next ledger values no_yolo ≡ next ledger (values ++ (v ∷ [])) no_yolo
plain_step v next ledger values no_yolo h = rw (not_option v "--no-yolo" refl h) (rw h refl)

positional_step :
    (v : String) (rest : List String) (ledger : Option String) (values : List String)
    (no_yolo : Bool)
    → is_dashed v ≡ false
    → parse_from (v ∷ rest) ledger values no_yolo
      ≡ parse_from rest ledger (values ++ (v ∷ [])) no_yolo
unfolding parse_from
positional_step v [] ledger values no_yolo h =
    rw (not_option v "--ledger" refl h) (plain_step v finished ledger values no_yolo h)
positional_step v (b ∷ rest) ledger values no_yolo h =
    rw (not_option v "--ledger" refl h)
      (plain_step v (parse_from (b ∷ rest)) ledger values no_yolo h)

flag_step :
    (rest : List String) (ledger : Option String) (values : List String) (no_yolo : Bool)
    → parse_from ("--no-yolo" ∷ rest) ledger values no_yolo ≡ parse_from rest ledger values true
unfolding parse_from
flag_step [] ledger values no_yolo = refl
flag_step (b ∷ rest) ledger values no_yolo = refl

ledger_step :
    (path : String) (rest values : List String) (no_yolo : Bool)
    → is_dashed path ≡ false
    → parse_from ("--ledger" ∷ path ∷ rest) none values no_yolo
      ≡ parse_from rest (some path) values no_yolo
unfolding parse_from
ledger_step path rest values no_yolo h = rw h refl

-- The first ledger that is named.
abbrev found : Option String → List Piece → Option String
found ledger pieces = or_else ledger (ledger_of pieces)

or_true : (b : Bool) → (b || true) ≡ true
or_true true = refl
or_true false = refl

nothing_left :
    (ledger : Option String) (values : List String) (no_yolo : Bool)
    → finished ledger values no_yolo ≡ ok (found ledger [], values ++ [], no_yolo || false)
nothing_left none values true = ap (λ x. ok (none, x, true)) (sym (append-nil values))
nothing_left none values false = ap (λ x. ok (none, x, false)) (sym (append-nil values))
nothing_left (some l) values true = ap (λ x. ok (some l, x, true)) (sym (append-nil values))
nothing_left (some l) values false = ap (λ x. ok (some l, x, false)) (sym (append-nil values))

parse_from-print :
    (pieces : List Piece) (ledger : Option String) (values : List String) (no_yolo : Bool)
    → is_plain (is_some ledger) pieces ≡ true
    → parse_from (print pieces) ledger values no_yolo
      ≡ ok (found ledger pieces, values ++ positionals pieces, no_yolo || has_no_yolo pieces)
unfolding parse_from
parse_from-print [] ledger values no_yolo h = nothing_left ledger values no_yolo
parse_from-print (positional v ∷ pieces) ledger values no_yolo h =
    let (plain, rest) = &&_split (not (is_dashed v)) (is_plain (is_some ledger) pieces) h in
    positional_step v (print pieces) ledger values no_yolo (ground (arith, plain))
    ∙ (parse_from-print pieces ledger (values ++ (v ∷ [])) no_yolo rest
        ∙ ap (λ x. ok (found ledger pieces, x, no_yolo || has_no_yolo pieces))
            (append_assoc values (v ∷ []) (positionals pieces)))
parse_from-print (no_yolo_flag ∷ pieces) ledger values no_yolo h =
    flag_step (print pieces) ledger values no_yolo
    ∙ (parse_from-print pieces ledger values true h
        ∙ ap (λ x. ok (found ledger pieces, values ++ positionals pieces, x))
            (sym (or_true no_yolo)))
parse_from-print (ledger_option path ∷ pieces) none values no_yolo h =
    let (plain, rest) = &&_split (not (is_dashed path)) (is_plain true pieces) h in
    ledger_step path (print pieces) values no_yolo (ground (arith, plain))
    ∙ parse_from-print pieces (some path) values no_yolo rest
parse_from-print (ledger_option path ∷ pieces) (some other) values no_yolo h = cc

-- A command line of positional arguments that do not start with a dash, of flags, and of at most one
-- ledger whose path does not start with a dash, in any order, is read as its ledger or else the default
-- one, its positional arguments in order, and whether the flag stands in it.
pub parse_arguments-print :
    (default_ledger_path program : String) (pieces : List Piece)
    → is_plain false pieces ≡ true
    → parse_arguments default_ledger_path (program ∷ print pieces)
      ≡ ok
          (unwrap_or (ledger_of pieces) default_ledger_path, positionals pieces, has_no_yolo pieces)
unfolding parse_arguments
parse_arguments-print default_ledger_path program pieces h =
    ap (λ t. with_default default_ledger_path t) (parse_from-print pieces none [] false h)
