-- ===== src/Ynca/Control/OnWire.antt =====
-- What a typed call writes, and what it makes of the reply.
use mathlib.Core.List.{flatten}
use yamaha_cli.Prelude.{[], ◌∷◌, ◌++◌, List, ◌≡◌, subst, ap, ◌∙◌, arith, append-nil, cons-ne-nil}
use yamaha_cli.Text.{Bytes, Lacks, codes, IsOneLine, trim_crlf-IsOneLine}
use yamaha_cli.Ynca.Client.{Client, Read, line, send, normalise}
use yamaha_cli.Ynca.Client.Healthy.{on_healthy, send-on_healthy}
use yamaha_cli.Ynca.Control.{get, put, followed_by}
use yamaha_cli.Ynca.Errors.{Result, ok, ◌>>=◌}
use yamaha_cli.Ynca.Framing.{crlf, scan, all_read}
use yamaha_cli.Ynca.Framing.Lines.{IsShort, scan-framed}
use yamaha_cli.Ynca.Wire.{Line, parse_line, classify_reply}
use yamaha_cli.Ynca.Wire.Grammar.{line_of, IsLine, parse_line-line_of}

normalise-line_of : (l : Line) → IsOneLine (line_of l) → normalise (line_of l) ≡ line_of l
unfolding normalise
normalise-line_of l h = trim_crlf-IsOneLine (line_of l) h

IsOneLine-Lacks : (s : Bytes) → IsOneLine s → Lacks b'\n' s
IsOneLine-Lacks [] h = tt
IsOneLine-Lacks (c ∷ s) h = (ground arith, IsOneLine-Lacks s h.1)

-- What the call makes of the line that the receiver answers.
abbrev pub acknowledged : Line → Bytes → Result (Unit {0})
acknowledged l reply = classify_reply (line_of l) reply >>= λ _. ok tt

send-line_of :
    (l : Line) (reply : Bytes) (rest : List Read) (c : Client) (sent : List Bytes)
    → IsOneLine (line_of l)
    → send (line_of l) (on_healthy c (line reply ∷ rest) sent)
      ≡ (classify_reply (line_of l) reply, on_healthy c rest (sent ++ (line_of l ++ crlf) ∷ []))
send-line_of l reply rest c sent h =
    subst
      (λ s.
        send (line_of l) (on_healthy c (line reply ∷ rest) sent)
        ≡ (classify_reply s reply, on_healthy c rest (sent ++ (s ++ crlf) ∷ [])))
      (normalise-line_of l h) (send-on_healthy (line_of l) reply rest c sent (cons-ne-nil _ _))

put-on_healthy :
    (l : Line) (reply : Bytes) (rest : List Read) (c : Client) (sent : List Bytes)
    → IsOneLine (line_of l)
    → put l.subunit l.function l.value (on_healthy c (line reply ∷ rest) sent)
      ≡ (acknowledged l reply, on_healthy c rest (sent ++ (line_of l ++ crlf) ∷ []))
unfolding put
put-on_healthy l reply rest c sent h =
    ap (λ x. followed_by x (λ _. ok tt)) (send-line_of l reply rest c sent h)

-- A setter on a healthy connection writes one line. A receiver that reads it, in whatever chunks,
-- sees that one line, if the line fits the reader's 64 KiB with its line end, and takes it apart into
-- the subunit, the function and the value that the setter was given.
pub put-on_wire :
    (l : Line) (reply : Bytes) (rest : List Read) (c : Client) (sent chunks : List Bytes)
    → IsLine l
    → IsOneLine (line_of l)
    → IsShort (line_of l)
    → flatten chunks ≡ line_of l ++ crlf
    → (put l.subunit l.function l.value (on_healthy c (line reply ∷ rest) sent)
        ≡ (acknowledged l reply, on_healthy c rest (sent ++ (line_of l ++ crlf) ∷ [])))
      × (scan [] chunks ≡ (line_of l ∷ [], all_read))
      × (parse_line (line_of l) ≡ ok l)
put-on_wire l reply rest c sent chunks valid one_line short e = (
  put-on_healthy l reply rest c sent one_line,
  scan-framed (line_of l ∷ []) chunks (IsOneLine-Lacks (line_of l) one_line, tt) (short, tt)
      (e ∙ ap (λ s. line_of l ++ s) (rw append-nil)),
  parse_line-line_of l valid,
)

-- The query of a getter.
abbrev pub query : Bytes → Bytes → Line
query subunit function = record { subunit = subunit; function = function; value = codes "?" }

-- A getter on a healthy connection returns the value of the next line on the wire, if that is a
-- report: it does not compare the subunit and the function of the report with those it asked for.
pub get_next_report :
    (subunit function : Bytes) (report : Line) (rest : List Read) (c : Client) (sent : List Bytes)
    → IsOneLine (line_of (query subunit function))
    → IsLine report
    → classify_reply (line_of (query subunit function)) (line_of report) ≡ ok (line_of report)
    → get subunit function (on_healthy c (line (line_of report) ∷ rest) sent) ≡ (
      ok report.value,
      on_healthy c rest (sent ++ (line_of (query subunit function) ++ crlf) ∷ []),
    )
unfolding get
get_next_report subunit function report rest c sent one_line valid plain =
    ap (λ x. followed_by x (λ reply. parse_line reply >>= λ l. ok l.value))
      (send-line_of (query subunit function) (line_of report) rest c sent one_line)
    ∙ rw (plain, parse_line-line_of report valid)
