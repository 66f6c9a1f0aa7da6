-- ===== src/Tests/Session.antt =====
-- Tests of the push stream, and the theorem about it at a concrete input.
use mathlib.Core.List.{flatten}
use yamaha_cli.Prelude.{not, List, [], ◌∷◌, ◌≡◌, refl, arith, keep, map}
use yamaha_cli.Text.{Bytes, codes}
use yamaha_cli.Ynca.Session.{connected, closed, end_error, is_echo, run}
use yamaha_cli.Ynca.Session.Delivery.{report_of, IsPushed, run-pushed}
use yamaha_cli.Ynca.Wire.{Line}

abbrev echo : Line
echo = record { subunit = codes "SYS"; function = codes "MODELNAME"; value = codes "RX" }

abbrev volume : Line
volume = record { subunit = codes "MAIN"; function = codes "VOL"; value = codes "-40.0" }

echo-IsPushed : IsPushed echo
echo-IsPushed = (
  record {
    subunit_ne_nil = cc;
    function_ne_nil = cc;
    subunit_colon = omega arith;
    subunit_equals = omega arith;
    function_equals = omega arith;
  },
  omega arith,
)

volume-IsPushed : IsPushed volume
volume-IsPushed = (
  record {
    subunit_ne_nil = cc;
    function_ne_nil = cc;
    subunit_colon = omega arith;
    subunit_equals = omega arith;
    function_equals = omega arith;
  },
  omega arith,
)

abbrev pushed_chunks : List Bytes
pushed_chunks = codes "@SYS:MODELNAME=RX\r" ∷ codes "\n@MAIN:VOL=-40.0\r\n" ∷ []

run-pushed_example :
    run (connected pushed_chunks closed)
    ≡ (map report_of (keep (λ l. not (is_echo l)) (echo ∷ volume ∷ [])), end_error closed)
unfolding flatten
run-pushed_example =
    run-pushed (echo ∷ volume ∷ []) pushed_chunks closed (echo-IsPushed, (volume-IsPushed, tt))
      (omega arith, (omega arith, tt)) refl
