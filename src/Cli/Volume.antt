-- ===== src/Cli/Volume.antt =====
-- internal/cli/volume.go: the volume that the arguments of a command ask for. Floats, and the scale
-- of a zone (pkg/yxc/scale.go), are a parameter.
pub mod Range
use yamaha_cli.Prelude.{
  ℕ, zero, suc, Bool, true, false, ◌||◌, ◌&&◌, not, List, [], ◌∷◌, Option, none, some, ℤ, pos,
  negsuc, ltb_ℤ, ◌==◌, if◌then◌else◌,
}
use yamaha_cli.Text.{Bytes, codes, equal, atoi, max_int}
use yamaha_cli.Yxc.Zone.{VolumeArg, absolute, up, down}

-- What the code uses of `float64`, `math` and `strconv`.
pub record Scale : Type 1 where
  pub F : Type 0
  -- `strconv.ParseFloat(s, 64)`
  pub parse_float : Bytes → Option F
  pub is_nan : F → Bool
  -- below 0, or above 100
  pub is_no_percent : F → Bool
  pub min_float : F → F → F
  pub max_float : F → F → F
  -- `>=` and `>`
  pub is_at_least : F → F → Bool
  pub is_above : F → F → Bool
  -- `float64(n)` and `int(f)`
  pub of_int : ℤ → F
  pub to_int : F → ℤ
  -- `float64(lo) + math.Round(f/100*(float64(hi)-float64(lo)))`
  pub interpolate : F → F → F → F
  -- `VolumeIntToDB` and `VolumeDBToInt` of the zone
  pub int_to_db : ℤ → F
  pub db_to_int : F → ℤ

pub data Parsed : Type 0 where
  ok : VolumeArg → Parsed
  usage : Parsed
  -- the features cannot be loaded, or give no range
  no_features : Parsed
  no_range : Parsed

unfoldable pub clamp_int : ℤ → ℤ → ℤ → ℤ
clamp_int n lo hi = if ltb_ℤ n lo then lo else if ltb_ℤ hi n then hi else n

unfoldable pub step_if_positive : ℤ → ℤ
step_if_positive (pos (suc n)) = pos (suc n)
step_if_positive _ = pos 0

-- `-n` wraps around for the least integer.
unfoldable pub abs_int : ℤ → ℤ
abs_int (pos n) = pos n
abs_int (negsuc n) = if n == max_int then negsuc n else pos (suc n)

abbrev one_of : Bytes → Bytes → Bytes → Bytes → Bool
one_of a b c s = equal s a || equal s b || equal s c

unfoldable pub is_up : Bytes → Bool
unfolding equal
is_up = one_of (codes "up") (codes "UP") (codes "Up")

unfoldable pub is_down : Bytes → Bool
unfolding equal
is_down = one_of (codes "down") (codes "DOWN") (codes "Down")

-- A sign in front of something. With `--db`, a minus belongs to the value.
unfoldable pub is_signed : Bytes → Bool → Bool
is_signed (c ∷ d ∷ s) db = c == b'+' || (c == b'-' && not db)
is_signed _ db = false

abbrev step_or : ℤ → ℤ → ℤ
step_or step (pos (suc n)) = pos (suc n)
step_or step _ = step

towards : ℤ → ℤ → VolumeArg
towards (pos n) step = up step
towards (negsuc n) step = down step

-- A delta whose size is positive.
delta_of : ℤ → ℤ → ℤ → Parsed
unfolding towards
delta_of n (pos (suc size)) step_flag = ok (towards n (step_or (pos (suc size)) step_flag))
delta_of n _ step_flag = usage

unfoldable pub signed_volume : Option ℤ → ℤ → Parsed
unfolding delta_of abs_int
signed_volume none step_flag = usage
signed_volume (some n) step_flag = delta_of n (abs_int n) step_flag

module _ (sc : Scale) where
  open sc use {
    F, parse_float, is_nan, is_no_percent, min_float, max_float, is_at_least, is_above, of_int,
    to_int, interpolate, int_to_db, db_to_int,
  }

  db_volume : Option F → ℤ → ℤ → Parsed
  unfolding clamp_int
  db_volume none lo hi = usage
  db_volume (some f) lo hi =
      if is_nan f
      then usage
      else ok (
          absolute
            (clamp_int (db_to_int (max_float (int_to_db lo) (min_float f (int_to_db hi)))) lo hi))

  percent_int : F → ℤ → ℤ → ℤ
  percent_int v lo hi =
      if is_at_least v (of_int hi) then hi else if is_above v (of_int lo) then to_int v else lo

  percent_volume : Option F → ℤ → ℤ → Parsed
  unfolding clamp_int percent_int
  percent_volume none lo hi = usage
  percent_volume (some f) lo hi =
      if is_nan f || is_no_percent f
      then usage
      else ok
          (absolute (clamp_int (percent_int (interpolate f (of_int lo) (of_int hi)) lo hi) lo hi))

  plain_volume : Option ℤ → ℤ → ℤ → Parsed
  unfolding clamp_int
  plain_volume none lo hi = usage
  plain_volume (some n) lo hi = ok (absolute (clamp_int n lo hi))

  -- The range of the zone: the features may be missing, and the range in them.
  pub absolute_volume : Bytes → Bool → Bool → Option (Option (ℤ × ℤ)) → Parsed
  unfolding db_volume percent_volume plain_volume atoi
  absolute_volume raw db percent none = no_features
  absolute_volume raw db percent (some none) = no_range
  absolute_volume raw db percent (some (some (lo, hi))) =
      if db
      then db_volume (parse_float raw) lo hi
      else if percent
      then percent_volume (parse_float raw) lo hi
      else plain_volume (atoi raw) lo hi

  unfoldable pub parse_volume_arg : Bytes → Bool → Bool → ℤ → Option (Option (ℤ × ℤ)) → Parsed
  unfolding is_up is_down is_signed step_if_positive signed_volume absolute_volume atoi
  parse_volume_arg raw db percent step_flag range =
      if is_up raw
      then (if db || percent then usage else ok (up (step_if_positive step_flag)))
      else if is_down raw
      then (if db || percent then usage else ok (down (step_if_positive step_flag)))
      else if is_signed raw db
      then (if db || percent then usage else signed_volume (atoi raw) step_flag)
      else absolute_volume raw db percent range
