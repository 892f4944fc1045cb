-- ===== src/Tests/Arguments.antt =====
-- A witness for the command line.
use praefectus.Prelude.{◌≡◌, refl, true, [], ◌∷◌}
use praefectus.Prelude.Try.{ok}
use praefectus.CommandLine.{parse_arguments}
use praefectus.CommandLine.Roundtrip.{
  ledger_option, no_yolo_flag, parse_arguments-print, positional, print,
}

parse_arguments-print_example :
    parse_arguments "default" (
      "praefectus"
      ∷ print
          (positional "run" ∷ no_yolo_flag ∷ ledger_option "l" ∷ positional "request.json" ∷ []))
    ≡ ok ("l", "run" ∷ "request.json" ∷ [], true)
parse_arguments-print_example =
    parse_arguments-print "default" "praefectus"
      (positional "run" ∷ no_yolo_flag ∷ ledger_option "l" ∷ positional "request.json" ∷ []) refl
