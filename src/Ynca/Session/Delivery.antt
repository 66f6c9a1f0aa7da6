-- ===== src/Ynca/Session/Delivery.antt =====
-- Every pushed report reaches the handler.
use mathlib.Core.List.{flatten}
use yamaha_cli.Prelude.{
  not, List, [], ◌∷◌, some, ◌≡◌, refl, ap, ◌∙◌, inl, inr, Bool-cases, keep, map, All,
}
use yamaha_cli.Text.{Bytes, Lacks}
use yamaha_cli.Ynca.Framing.Lines.{framed, IsShort, scan-framed}
use yamaha_cli.Ynca.Session.{
  End, connected, end_error, scan_error, is_echo, handled_line, handled, run,
}
use yamaha_cli.Ynca.Wire.{Line, Report, Status, parse_report}
use yamaha_cli.Ynca.Wire.Grammar.{line_of, IsLine, parse_line-line_of}

-- The report of a line as it is pushed.
abbrev pub report_of : Line → Report
report_of l = record { line = l; status = Status.value; raw = line_of l }

-- A line of the grammar that can be framed.
abbrev pub IsPushed : Line → Type 0
IsPushed l = IsLine l × Lacks b'\n' (line_of l)

parse_report-line_of : (l : Line) → IsLine l → parse_report (line_of l) ≡ some (report_of l)
unfolding parse_report
parse_report-line_of l h = rw (parse_line-line_of l h, parse_report) refl

handled-pushed :
    (ls : List Line)
    → All IsPushed ls
    → handled (map line_of ls) ≡ map report_of (keep (λ l. not (is_echo l)) ls)
unfolding handled handled_line
handled-pushed [] h = refl
handled-pushed (l ∷ ls) h =
    ap (λ r. handled_line r (handled (map line_of ls))) (parse_report-line_of l h.0.0)
    ∙ elim (Bool-cases (is_echo l)) [
      | inl e ↦ rw e (handled-pushed ls h.1)
      | inr e ↦ rw e (ap (λ rs. report_of l ∷ rs) (handled-pushed ls h.1))
    ]

pushed-Lacks : (ls : List Line) → All IsPushed ls → All (Lacks b'\n') (map line_of ls)
pushed-Lacks [] h = tt
pushed-Lacks (l ∷ ls) h = (h.0.1, pushed-Lacks ls h.1)

-- Reports that the receiver pushes, each in a line that fits the reader's 64 KiB with its line end,
-- reach the handler, whatever chunks they arrive in: all of them, in order, with their subunits,
-- functions and values, but for the echoes of the keep-alive ping. Then the session ends with the
-- error that the end of the stream stands for.
pub run-pushed :
    (ls : List Line) (chunks : List Bytes) (end : End)
    → All IsPushed ls
    → All IsShort (map line_of ls)
    → flatten chunks ≡ framed (map line_of ls)
    → run (connected chunks end) ≡ (map report_of (keep (λ l. not (is_echo l)) ls), end_error end)
unfolding run scan_error
run-pushed ls chunks end h short e =
    ap (λ x. (handled x.0, scan_error x.1 end))
      (scan-framed (map line_of ls) chunks (pushed-Lacks ls h) short e)
    ∙ ap (λ rs. (rs, end_error end)) (handled-pushed ls h)
