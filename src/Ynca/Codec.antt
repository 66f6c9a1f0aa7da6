-- ===== src/Ynca/Codec.antt =====
-- pkg/ynca/codec.go: numbers on a grid. A `float64` and its operations are a parameter.
use yamaha_cli.Prelude.{ℕ, Bool, ◌||◌, Option, none, some, if◌then◌else◌, ℤ}
use yamaha_cli.Text.{Bytes, trim_space}
use yamaha_cli.Ynca.Errors.{invalid, Result, ok, err}

-- What the code uses of `float64`, `math` and `strconv`.
pub record Floats : Type 1 where
  pub F : Type 0
  pub zero_float : F
  pub half : F
  pub fifth : F
  pub ten : F
  -- `float64(n)`
  pub of_int : ℤ → F
  pub is_positive : F → Bool
  pub is_zero : F → Bool
  pub is_nan : F → Bool
  pub is_inf : F → Bool
  pub div : F → F → F
  pub mul : F → F → F
  -- `math.Round`
  pub round : F → F
  -- `strconv.ParseFloat(s, 64)`, and `FormatFloat` with 'f' and so many decimals
  pub parse_float : Bytes → Option F
  pub format_float : F → ℕ → Bytes

module _ (fl : Floats) where
  open fl use {
    F, zero_float, half, is_positive, is_zero, is_nan, is_inf, div, mul, round, parse_float,
    format_float,
  }

  rounded : F → F → F
  rounded value step = if is_positive step then mul (round (div value step)) step else value

  unfoldable pub format_stepped : F → ℕ → F → Bytes
  unfolding rounded
  format_stepped value decimals step =
      format_float (if is_zero (rounded value step) then zero_float else rounded value step)
        decimals

  finite : Bytes → Option F → Result F
  finite v none = err (invalid v)
  finite v (some f) = if is_nan f || is_inf f then err (invalid v) else ok f

  unfoldable pub parse_number : Bytes → Result F
  unfolding finite
  parse_number v = finite v (parse_float (trim_space v))

  unfoldable pub format_volume : F → Bytes
  unfolding format_stepped
  format_volume db = format_stepped db 1 half
