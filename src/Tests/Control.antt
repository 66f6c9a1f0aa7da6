-- ===== src/Tests/Control.antt =====
-- Tests of the typed calls, and the theorems about them at concrete inputs.
use mathlib.Core.List.{flatten}
use yamaha_cli.Prelude.{false, [], ◌∷◌, ◌++◌, none, ◌≡◌, refl, arith}
use yamaha_cli.Text.{Bytes, codes, IsOneLine}
use yamaha_cli.Ynca.Client.{Client, line}
use yamaha_cli.Ynca.Client.Healthy.{on_healthy}
use yamaha_cli.Ynca.Control.{put, get}
use yamaha_cli.Ynca.Control.OnWire.{put-on_wire, get_next_report, acknowledged, query}
use yamaha_cli.Ynca.Errors.{ok}
use yamaha_cli.Ynca.Framing.{crlf, scan, all_read}
use yamaha_cli.Ynca.Wire.{Line, parse_line, classify_reply}
use yamaha_cli.Ynca.Wire.Grammar.{line_of, IsLine}

abbrev client : Client
client = record { wake_on_connect = false; conn = none; dials = []; wire = [] }

abbrev mute_on : Line
mute_on = record { subunit = codes "MAIN"; function = codes "MUTE"; value = codes "On" }

mute_on-IsLine : IsLine mute_on
mute_on-IsLine = record {
  subunit_ne_nil = cc;
  function_ne_nil = cc;
  subunit_colon = omega arith;
  subunit_equals = omega arith;
  function_equals = omega arith;
}

abbrev mute_reply : Bytes
mute_reply = codes "@MAIN:MUTE=On"

mute_on_one : IsOneLine (line_of mute_on)
mute_on_one = (
  refl,
  (
    refl,
    (refl, (refl, (refl, (refl, (refl, (refl, (refl, (refl, (refl, (refl, (refl, tt))))))))))),
  ),
)

query_one : IsOneLine (line_of (query (codes "MAIN") (codes "VOL")))
query_one =
    (refl, (refl, (refl, (refl, (refl, (refl, (refl, (refl, (refl, (refl, (refl, tt)))))))))))

put-on_wire_example :
    (put mute_on.subunit mute_on.function mute_on.value
        (on_healthy client (line mute_reply ∷ []) [])
      ≡ (
        acknowledged mute_on mute_reply,
        on_healthy client [] ([] ++ (line_of mute_on ++ crlf) ∷ []),
      ))
    × (scan [] (codes "@MAIN:M" ∷ codes "UTE=On\r\n" ∷ []) ≡ (line_of mute_on ∷ [], all_read))
    × (parse_line (line_of mute_on) ≡ ok mute_on)
unfolding flatten
put-on_wire_example =
    put-on_wire mute_on mute_reply [] client [] (codes "@MAIN:M" ∷ codes "UTE=On\r\n" ∷ [])
      mute_on-IsLine mute_on_one (omega arith) refl

get_next_report_example :
    get (codes "MAIN") (codes "VOL") (on_healthy client (line (line_of mute_on) ∷ []) []) ≡ (
      ok (codes "On"),
      on_healthy client [] ([] ++ (line_of (query (codes "MAIN") (codes "VOL")) ++ crlf) ∷ []),
    )
unfolding classify_reply
get_next_report_example =
    get_next_report (codes "MAIN") (codes "VOL") mute_on [] client [] query_one mute_on-IsLine refl
