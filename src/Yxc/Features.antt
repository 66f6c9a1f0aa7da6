-- ===== src/Yxc/Features.antt =====
-- pkg/yxc/types.go and scale.go: the lookups in what a receiver says of itself, and the scale of a
-- zone's volume, over a record that stands for float64.
pub mod Scales
use yamaha_cli.Prelude.{
  ℕ, ◌^◌, ◌-◌, ◌≡◌, refl, sym, ◌∙◌, ap, Bool, true, false, List, [], ◌∷◌, Option, none, some, ℤ,
  pos, if◌then◌else◌, arith, Bool-cases, inl, inr, map, sub_ℕ,
}
use yamaha_cli.Text.{Bytes, codes, equal, equal_fold, has}

-- What the code uses of `float64`: `saturating_int` is its function over `is_at_least` and `truncate`.
pub record Floats : Type 1 where
  pub F : Type 0
  -- `>=` and `<=`; both are false at NaN
  pub is_at_least : F → F → Bool
  pub is_at_most : F → F → Bool
  pub is_nan : F → Bool
  -- `f > 0` and `f == 0`
  pub is_positive : F → Bool
  pub is_zero : F → Bool
  -- `math.MaxInt` and `math.MinInt` as floats, -80.5 and 0.5
  pub max_int_float : F
  pub min_int_float : F
  pub default_baseline : F
  pub default_step : F
  -- `int(f)` of an f that fits
  pub truncate : F → ℤ
  -- `float64(n)`, `a + b*c` and `math.Round((a - b) / c)`
  pub of_int : ℤ → F
  pub multiply_add : F → F → F → F
  pub round_quotient : F → F → F → F

module _ (fl : Floats) where
  pub record RangeStep : Type 0 where
    pub id : Bytes
    pub lowest : fl.F
    pub highest : fl.F
    pub step : fl.F

  pub record ZoneFeatures : Type 0 where
    pub zone_id : Bytes
    pub func_list : List Bytes
    pub input_list : List Bytes
    pub sound_program_list : List Bytes
    pub range_step : List RangeStep

  -- `none` is the nil pointer.
  pub record Features : Type 0 where
    pub system_inputs : List Bytes
    pub zones : List ZoneFeatures

  zone_in : Bytes → List ZoneFeatures → Option ZoneFeatures
  zone_in id [] = none
  zone_in id (z ∷ zs) = let rest = zone_in id zs in if equal_fold z.zone_id id then some z else rest

  -- `ZoneByID`
  unfoldable pub zone_by_id : Option Features → Bytes → Option ZoneFeatures
  unfolding zone_in
  zone_by_id none id = none
  zone_by_id (some f) id = zone_in id f.zones

  range_in : Bytes → List RangeStep → Option RangeStep
  unfolding equal
  range_in id [] = none
  range_in id (r ∷ rs) = let rest = range_in id rs in if equal r.id id then some r else rest

  zone_range : Bytes → Option ZoneFeatures → Option RangeStep
  unfolding range_in
  zone_range id none = none
  zone_range id (some z) = range_in id z.range_step

  -- `saturatingInt`
  unfoldable pub saturating_int : fl.F → ℤ
  saturating_int f =
      if fl.is_at_least f fl.max_int_float
      then pos (2 ^ 63 - 1)
      else if fl.is_at_most f fl.min_int_float
      then sub_ℕ 0 (2 ^ 63)
      else if fl.is_nan f
      then pos 0
      else fl.truncate f

  abbrev int_range : Option RangeStep → Option (ℤ × ℤ × ℤ)
  int_range none = none
  int_range (some r) =
      some (saturating_int r.lowest, saturating_int r.highest, saturating_int r.step)

  -- `VolumeRange`
  unfoldable pub volume_range : Option Features → Bytes → Option (ℤ × ℤ × ℤ)
  unfolding zone_range zone_by_id saturating_int
  volume_range f zone = int_range (zone_range (codes "volume") (zone_by_id f zone))

  -- `VolumeRangeDB`
  unfoldable pub volume_range_db : Option Features → Bytes → Option RangeStep
  unfolding zone_range zone_by_id
  volume_range_db f zone = zone_range (codes "actual_volume_db") (zone_by_id f zone)

  abbrev scale_of : Option RangeStep → fl.F × fl.F × Bool
  scale_of none = (fl.default_baseline, fl.default_step, false)
  scale_of (some r) =
      if fl.is_positive r.step
      then (r.lowest, r.step, true)
      else (fl.default_baseline, fl.default_step, false)

  -- `VolumeDBScale`
  unfoldable pub volume_db_scale : Option Features → Bytes → fl.F × fl.F × Bool
  unfolding volume_range_db
  volume_db_scale f zone = scale_of (volume_range_db f zone)

  -- `VolumeIntToDB`
  unfoldable pub volume_int_to_db : Option Features → Bytes → ℤ → fl.F
  unfolding volume_db_scale
  volume_int_to_db f zone n =
      let (baseline, step, exact) = volume_db_scale f zone in
      fl.multiply_add baseline step (fl.of_int n)

  -- `VolumeDBToInt`
  unfoldable pub volume_db_to_int : Option Features → Bytes → fl.F → ℤ
  unfolding volume_db_scale saturating_int
  volume_db_to_int f zone db =
      let (baseline, step, exact) = volume_db_scale f zone in
      if fl.is_zero step then pos 0 else saturating_int (fl.round_quotient db baseline step)

  -- `SystemInputIDs`
  unfoldable pub system_input_ids : Option Features → List Bytes
  system_input_ids none = []
  system_input_ids (some f) = f.system_inputs

  abbrev zone_has : Bytes → Option ZoneFeatures → Bool
  zone_has fn none = false
  zone_has fn (some z) = has fn z.func_list

  -- `ZoneHasFunc`
  unfoldable pub zone_has_func : Option Features → Bytes → Bytes → Bool
  unfolding zone_by_id has
  zone_has_func f zone fn = zone_has fn (zone_by_id f zone)

  abbrev inputs_of : Option ZoneFeatures → List Bytes
  inputs_of none = []
  inputs_of (some z) = z.input_list

  -- `ZoneInputs`
  unfoldable pub zone_inputs : Option Features → Bytes → List Bytes
  unfolding zone_by_id
  zone_inputs f zone = inputs_of (zone_by_id f zone)

  abbrev sound_programs_of : Option ZoneFeatures → List Bytes
  sound_programs_of none = []
  sound_programs_of (some z) = z.sound_program_list

  -- `ZoneSoundPrograms`
  unfoldable pub zone_sound_programs : Option Features → Bytes → List Bytes
  unfolding zone_by_id
  zone_sound_programs f zone = sound_programs_of (zone_by_id f zone)
