-- ===== src/Tests/Framing.antt =====
-- Tests of the reader of pkg/ynca/client.go.
use mathlib.Core.List.{flatten}
use yamaha_cli.Prelude.{List, [], ◌∷◌, ◌++◌, ◌≡◌, refl}
use yamaha_cli.Text.{Bytes, codes}
use yamaha_cli.Ynca.Framing.{scan, drain, crlf, all_read}
use yamaha_cli.Ynca.Framing.Lines.{IsScanned, scan-lines_of}

abbrev sent : List Bytes
sent = codes "@MAIN:PWR=On" ∷ codes "@MAIN:VOL=-40.0" ∷ []

-- The first chunk ends between the carriage return and the line feed.
abbrev chunks : List Bytes
chunks =
    (codes "@MAIN:PWR=On" ++ b'\r' ∷ [])
    ∷ (b'\n' ∷ codes "@MAIN:VO")
    ∷ (codes "L=-40.0" ++ crlf)
    ∷ []

scan-chunks : scan [] chunks ≡ (sent, all_read)
unfolding scan drain
scan-chunks = refl

scan_unterminated :
    scan [] (codes "@SYS:VERSION=2.87\r" ∷ []) ≡ (codes "@SYS:VERSION=2.87" ∷ [], all_read)
unfolding scan drain
scan_unterminated = refl

scan-lines_of_example : IsScanned ([] ++ flatten chunks) (scan [] chunks)
scan-lines_of_example = scan-lines_of [] chunks
