-- ===== src/Ynca/Wire.antt =====
-- The line grammar of pkg/ynca/client.go and session.go: `parseLine`, `classifyReply`,
-- `parseReport`.
pub mod Grammar
use yamaha_cli.Prelude.{
  ℕ, suc, ◌+◌, ◌-◌, Bool, true, false, ◌&&◌, ◌||◌, List, [], ◌∷◌, ◌++◌, Option, none, some, ltb,
  ◌==◌, if◌then◌else◌, take, drop,
}
use yamaha_cli.Text.{Bytes, codes, equal, has_prefix, index_byte}
use yamaha_cli.Ynca.Errors.{Error, protocol, Result, ok, err}

-- A line `@SUBUNIT:FUNCTION=value`.
pub record Line : Type 0 where
  pub subunit : Bytes
  pub function : Bytes
  pub value : Bytes

-- The slices of a body at the places of its first colon and its first equals sign.
unfoldable pub cut_line : Bytes → Bytes → ℕ → ℕ → Result Line
unfolding equal
cut_line line body colon eq =
    let subunit = take colon body in
    let function = take (eq - suc colon) (drop (suc colon) body) in
    if equal subunit [] || equal function []
    then err (protocol line)
    else ok (record { subunit = subunit; function = function; value = drop (suc eq) body })

parse_body : Bytes → Bytes → Option ℕ → Option ℕ → Result Line
parse_body line body (some colon) (some eq) =
    if ltb eq colon then err (protocol line) else cut_line line body colon eq
parse_body line body _ _ = err (protocol line)

unfoldable pub parse_line : Bytes → Result Line
unfolding parse_body has_prefix
parse_line line =
    if has_prefix line (codes "@")
    then (let body = drop 1 line in
        parse_body line body (index_byte body b':') (index_byte body b'='))
    else err (protocol line)

unfoldable pub classify_reply : Bytes → Bytes → Result Bytes
unfolding has_prefix
classify_reply request reply =
    if has_prefix reply (codes "@UNDEFINED")
    then err (Error.undefined request reply)
    else if has_prefix reply (codes "@RESTRICTED")
    then err (Error.restricted request reply)
    else ok reply

pub data Status : Type 0 where
  value undefined restricted : Status

-- One parsed line of the push stream.
pub record Report : Type 0 where
  pub line : Line
  pub status : Status
  pub raw : Bytes

abbrev no_line : Line
no_line = record { subunit = []; function = []; value = [] }

-- A bare control line, or nothing.
parse_control : Bytes → Option Report
parse_control line =
    if has_prefix line (codes "@UNDEFINED")
    then some (record { line = no_line; status = Status.undefined; raw = line })
    else if has_prefix line (codes "@RESTRICTED")
    then some (record { line = no_line; status = Status.restricted; raw = line })
    else none

unfoldable pub parse_report : Bytes → Option Report
unfolding parse_control has_prefix
parse_report line = elim (parse_line line) [
  | ok l ↦ some (record { line = l; status = Status.value; raw = line })
  | err _ ↦ parse_control line
]
