-- ===== src/Ynca/Reports.antt =====
-- The loop that every decoder of a fan-out runs (control.go, zone_control.go, tuner.go and
-- nowplaying.go of pkg/ynca): lines that are malformed or of another subunit are skipped.
use yamaha_cli.Prelude.{
  Option-cases, ap, List, [], ◌∷◌, Option, none, some, ◌≡◌, refl, ◌∙◌, arith, if◌then◌else◌, inl,
  inr,
}
use yamaha_cli.Text.{Bytes, equal, equal_fold, to_upper, Table, lookup, insert, lookup-insert}
use yamaha_cli.Ynca.Errors.{ok, err}
use yamaha_cli.Ynca.Wire.{Line, parse_line}

unfoldable pub report_of : Bytes → Bytes → Option Line
unfolding parse_line equal_fold
report_of subunit text = elim (parse_line text) [
  | err _ ↦ none
  | ok l ↦ if equal_fold l.subunit subunit then some l else none
]

-- The reports of a subunit among the lines.
unfoldable pub reports_of : Bytes → List Bytes → List Line
unfolding report_of
reports_of subunit [] = []
reports_of subunit (text ∷ texts) =
    let rest = reports_of subunit texts in
    elim (report_of subunit text) [ none ↦ rest | some l ↦ l ∷ rest ]

module _ {S : Type 0} (step : Line → S → S) where
  -- The decoder's loop over the lines.
  unfoldable pub fold_reports : Bytes → List Bytes → S → S
  unfolding report_of
  fold_reports subunit [] st = st
  fold_reports subunit (text ∷ texts) st =
      fold_reports subunit texts (elim (report_of subunit text) [ none ↦ st | some l ↦ step l st ])

  pub run : List Line → S → S
  run [] st = st
  run (l ∷ ls) st = run ls (step l st)

  pub fold_reports-run :
      (subunit : Bytes) (texts : List Bytes) (st : S)
      → fold_reports subunit texts st ≡ run (reports_of subunit texts) st
  unfolding fold_reports reports_of run
  fold_reports-run subunit [] st = refl
  fold_reports-run subunit (text ∷ texts) st = elim (Option-cases (report_of subunit text)) [
    | inl e ↦ rw (e, reports_of) (fold_reports-run subunit texts st)
    | inr (l, e) ↦ rw (e, reports_of) (fold_reports-run subunit texts (step l st))
  ]

-- The last report of a function, in any case, whose value can be read.
abbrev pub last_value : {V : Type 0} → (Bytes → Option V) → Bytes → List Line → Option V
last_value read key [] = none
last_value read key (l ∷ ls) = elim (last_value read key ls) [
  | some v ↦ some v
  | none ↦ if equal (to_upper l.function) key then read l.value else none
]

abbrev pub or_else : {V : Type 0} → Option V → V → V
or_else none d = d
or_else (some v) d = v

module _ {S V : Type 0} (step : Line → S → S) (field : S → V) (read : Bytes → Option V)
    (key : Bytes) where
  -- The step writes this field from the reports of one function only.
  abbrev pub Writes : Type 0
  Writes =
      (l : Line) (st : S)
      → field (step l st)
        ≡ (if equal (to_upper l.function) key then or_else (read l.value) (field st) else field st)

  pub run-last :
      Writes
      → (ls : List Line) (st : S)
      → field (run step ls st) ≡ or_else (last_value read key ls) (field st)
  unfolding run
  run-last writes [] st = refl
  run-last writes (l ∷ ls) st = ground (arith, run-last writes ls (step l st), writes l st)

  -- The field ends with the last value that could be read.
  pub fold_reports-last :
      Writes
      → (subunit : Bytes) (texts : List Bytes) (st : S)
      → field (fold_reports step subunit texts st)
        ≡ or_else (last_value read key (reports_of subunit texts)) (field st)
  fold_reports-last writes subunit texts st =
      ap field (fold_reports-run step subunit texts st)
      ∙ run-last writes (reports_of subunit texts) st

-- The value of the last report whose function is spelt so.
abbrev pub last_spelt : Bytes → List Line → Option Bytes
last_spelt function [] = none
last_spelt function (l ∷ ls) = elim (last_spelt function ls) [
  | some v ↦ some v
  | none ↦ if equal l.function function then some l.value else none
]

abbrev pub or_old : {V : Type 0} → Option V → Option V → Option V
or_old none d = d
or_old (some v) d = some v

module _ {S : Type 0} (step : Line → S → S) (raw : S → Table) where
  -- The step records each report in the table under its function.
  abbrev pub Records : Type 0
  Records = (l : Line) (st : S) → raw (step l st) ≡ insert l.function l.value (raw st)

  pub lookup-run :
      Records
      → (function : Bytes) (ls : List Line) (st : S)
      → lookup function (raw (run step ls st))
        ≡ or_old (last_spelt function ls) (lookup function (raw st))
  unfolding run
  lookup-run records function [] st = refl
  lookup-run records function (l ∷ ls) st = ground (
    arith,
    lookup-run records function ls (step l st),
    records l st,
    lookup-insert l.function function l.value (raw st),
  )

  -- From an empty table, a function is looked up just if it was reported, with its last value.
  pub lookup-fold_reports :
      Records
      → (subunit function : Bytes) (texts : List Bytes) (st : S) → raw st ≡ []
      → lookup function (raw (fold_reports step subunit texts st))
        ≡ last_spelt function (reports_of subunit texts)
  unfolding lookup
  lookup-fold_reports records subunit function texts st empty =
      ap (λ s. lookup function (raw s)) (fold_reports-run step subunit texts st)
      ∙ lookup-run records function (reports_of subunit texts) st
      ∙ from_empty (last_spelt function (reports_of subunit texts))
    where
      from_empty : (v : Option Bytes) → or_old v (lookup function (raw st)) ≡ v
      from_empty none = rw (empty, lookup)
      from_empty (some v) = refl
