-- ===== src/Cli/Dump/ReadBack.antt =====
-- `ynca diff` reads what `ynca dump` writes.
use yamaha_cli.Prelude.{◌++◌, List, [], ◌∷◌, if◌then◌else◌, All}
use yamaha_cli.Text.{Bytes, Lacks}
use yamaha_cli.Ynca.Errors.{Result, ok, err}
use yamaha_cli.Ynca.Client.{Client}
use yamaha_cli.Cli.Dump.{is_value}

-- The report lines among some replies.
abbrev pub values : List Bytes → List Bytes
values [] = []
values (ln ∷ lines) = if is_value ln then ln ∷ values lines else values lines

-- The report lines that the receiver answered with.
abbrev pub answered : List (Bytes × Result (List Bytes)) → List Bytes
answered [] = []
answered ((request, ok lines) ∷ log) = values lines ++ answered log
answered ((request, err e) ∷ log) = answered log

abbrev RequestsLack : List (Bytes × Result (List Bytes)) → Type 0
RequestsLack = All (λ (x : Bytes × Result (List Bytes)). Lacks 10 x.0)
