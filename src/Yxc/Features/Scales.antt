-- ===== src/Yxc/Features/Scales.antt =====
-- Bounds of the numbers that a receiver's features give.
use yamaha_cli.Prelude.{
  ◌^◌, ◌-◌, ◌≤◌, ◌≡◌, true, false, Option, none, some, ℤ, pos, negsuc, arith, Bool-cases, inl, inr,
}
use yamaha_cli.Text.{Bytes}
use yamaha_cli.Yxc.Features.{
  Floats, Features, RangeStep, saturating_int, volume_db_scale, volume_range_db, scale_of,
}

-- An `int` of 64 bits.
abbrev FitsInt : ℤ → Type 0
FitsInt (pos n) = n ≤ 2 ^ 63 - 1
FitsInt (negsuc n) = n ≤ 2 ^ 63 - 1

module _ (fl : Floats)
    (fits : (f : fl.F)
      → fl.is_at_least f fl.max_int_float ≡ false
      → fl.is_at_most f fl.min_int_float ≡ false
      → fl.is_nan f ≡ false
      → FitsInt (fl.truncate f)) where
  -- Whatever number the receiver reports, the result fits an int, if truncation does between the bounds.
  saturating_int-FitsInt : (f : fl.F) → FitsInt (saturating_int fl f)
  unfolding saturating_int
  saturating_int-FitsInt f = elim (Bool-cases (fl.is_at_least f fl.max_int_float)) [
    | inl a ↦ rw a (omega arith)
    | inr a ↦ elim (Bool-cases (fl.is_at_most f fl.min_int_float)) [
      | inl b ↦ rw (a, b) (omega arith)
      | inr b ↦ elim (Bool-cases (fl.is_nan f)) [
        | inl c ↦ rw (a, b, c) (omega arith)
        | inr c ↦ rw (a, b, c) (fits f a b c)
      ]
    ]
  ]

module _ (fl : Floats) (default : fl.is_positive fl.default_step ≡ true) where
  scale_of-positive : (r : Option (RangeStep fl)) → fl.is_positive (scale_of fl r).1 ≡ true
  scale_of-positive none = default
  scale_of-positive (some r) = elim (Bool-cases (fl.is_positive r.step)) [
    | inl e ↦ rw e e
    | inr e ↦ rw e default
  ]

  -- The step of a zone's scale is positive, whatever the features say.
  volume_db_scale-positive :
      (f : Option (Features fl)) (zone : Bytes)
      → fl.is_positive (volume_db_scale fl f zone).1 ≡ true
  unfolding volume_db_scale
  volume_db_scale-positive f zone = scale_of-positive (volume_range_db fl f zone)
