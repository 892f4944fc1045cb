-- ===== src/CommandLine.antt =====
-- `parse_arguments` of src/main.rs: the ledger's path, the positional arguments and `--no-yolo`. The
-- path of the default ledger depends on the host, and is a parameter.
pub mod Roundtrip
use Prim.Native.Char.{code}
use praefectus.Prelude.{
  Bool, true, false, String, Option, none, some, List, [], ◌∷◌, ◌++◌, is_some, str_eq, unwrap_or,
  ◌==◌, if◌then◌else◌,
}
use praefectus.Prelude.Try.{Try, ok, err}

-- The messages of `usage`.
pub data CliError : Type 0 where
  repeated_ledger missing_path : CliError
  unknown_option : String → CliError

-- `starts_with('-')`.
abbrev pub is_dashed : String → Bool
is_dashed String.[] = false
is_dashed (String.◌∷◌ c s) = code c == b'-'

abbrev pub Parsed : Type 0
Parsed = Option String × List String × Bool

-- An argument that is no `--ledger`, before the others.
abbrev pub plain_argument :
    String
    → (Option String → List String → Bool → Try CliError Parsed)
    → Option String
    → List String
    → Bool
    → Try CliError Parsed
plain_argument a next ledger values no_yolo =
    if str_eq a "--no-yolo"
    then next ledger values true
    else if is_dashed a
    then err (unknown_option a)
    else next ledger (values ++ (a ∷ [])) no_yolo

abbrev pub finished : Option String → List String → Bool → Try CliError Parsed
finished ledger values no_yolo = ok (ledger, values, no_yolo)

-- The loop, from the argument at `index`.
unfoldable pub parse_from : List String → Option String → List String → Bool → Try CliError Parsed
parse_from [] ledger values no_yolo = finished ledger values no_yolo
parse_from (a ∷ []) ledger values no_yolo =
    if str_eq a "--ledger"
    then err (if is_some ledger then repeated_ledger else missing_path)
    else plain_argument a finished ledger values no_yolo
parse_from (a ∷ b ∷ rest) ledger values no_yolo =
    let after_path = parse_from rest in
    let next = parse_from (b ∷ rest) in
    if str_eq a "--ledger"
    then if is_some ledger
      then err repeated_ledger
      else if is_dashed b
      then err missing_path
      else after_path (some b) values no_yolo
    else plain_argument a next ledger values no_yolo

abbrev pub with_default : String → Try CliError Parsed → Try CliError (String × List String × Bool)
with_default default_ledger_path (ok (ledger, values, no_yolo)) =
    ok (unwrap_or ledger default_ledger_path, values, no_yolo)
with_default default_ledger_path (err e) = err e

-- The first argument is the program.
unfoldable pub parse_arguments : String → List String → Try CliError (String × List String × Bool)
unfolding parse_from
parse_arguments default_ledger_path [] = ok (default_ledger_path, [], false)
parse_arguments default_ledger_path (program ∷ arguments) =
    with_default default_ledger_path (parse_from arguments none [] false)
