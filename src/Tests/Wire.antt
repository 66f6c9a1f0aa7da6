-- ===== src/Tests/Wire.antt =====
-- Tests of the line grammar of pkg/ynca/client.go.
use yamaha_cli.Prelude.{◌≡◌, refl, arith}
use yamaha_cli.Text.{codes, index_byte}
use yamaha_cli.Ynca.Errors.{ok, err, protocol, restricted}
use yamaha_cli.Ynca.Wire.{Line, cut_line, parse_line, classify_reply}
use yamaha_cli.Ynca.Wire.Grammar.{line_of, IsLine, parse_line-line_of}

abbrev main_input : Line
main_input = record { subunit = codes "MAIN"; function = codes "INP"; value = codes "a:b=c" }

parse_main_input : parse_line (codes "@MAIN:INP=a:b=c") ≡ ok main_input
unfolding parse_line index_byte cut_line
parse_main_input = refl

parse_no_colon : parse_line (codes "@MAIN=INP:x") ≡ err (protocol (codes "@MAIN=INP:x"))
unfolding parse_line index_byte cut_line
parse_no_colon = refl

classify_restricted :
    classify_reply (codes "@MAIN:PWR=On") (codes "@RESTRICTED")
    ≡ err (restricted (codes "@MAIN:PWR=On") (codes "@RESTRICTED"))
unfolding classify_reply
classify_restricted = refl

main_input-IsLine : IsLine main_input
main_input-IsLine = record {
  subunit_ne_nil = cc;
  function_ne_nil = cc;
  subunit_colon = omega arith;
  subunit_equals = omega arith;
  function_equals = omega arith;
}

parse_line-line_of_example : parse_line (line_of main_input) ≡ ok main_input
parse_line-line_of_example = parse_line-line_of main_input main_input-IsLine
