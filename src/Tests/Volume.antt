-- ===== src/Tests/Volume.antt =====
-- Tests of the volume's arguments, and the theorem about them at concrete inputs.
use yamaha_cli.Prelude.{
  ℕ, true, false, some, pos, negsuc, ◌≡◌, refl, arith, pos_part, ltb, leb, if◌then◌else◌,
}
use yamaha_cli.Text.{codes, unsigned, max_int}
use yamaha_cli.Cli.Volume.{Scale, usage, parse_volume_arg, signed_volume, abs_int}
use yamaha_cli.Cli.Volume.Range.{IsSafe, parse_volume_arg-IsSafe}

-- Whole numbers as floats, on a scale of one step a dB.
abbrev whole : Scale
whole = record {
  F = ℕ;
  parse_float = unsigned;
  is_nan = λ n. false;
  is_no_percent = λ n. ltb 100 n;
  min_float = λ a b. if ltb b a then b else a;
  max_float = λ a b. if ltb a b then b else a;
  is_at_least = λ a b. leb b a;
  is_above = λ a b. ltb b a;
  of_int = pos_part;
  to_int = pos;
  interpolate = λ f lo hi. f;
  int_to_db = pos_part;
  db_to_int = pos;
}

-- The least integer is refused.
least_integer : signed_volume (some (negsuc max_int)) (pos 0) ≡ usage
unfolding signed_volume abs_int
least_integer = refl

parse_volume_arg-IsSafe_example :
    IsSafe
      (some (some (pos 0, pos 161)))
      (parse_volume_arg whole (codes "999") true false (pos 0) (some (some (pos 0, pos 161))))
parse_volume_arg-IsSafe_example =
    parse_volume_arg-IsSafe whole (codes "999") true false (pos 0) (some (some (pos 0, pos 161)))
      (omega arith)
