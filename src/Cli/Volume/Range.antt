-- ===== src/Cli/Volume/Range.antt =====
-- Which volumes a command can ask for.
use yamaha_cli.Prelude.{
  zero, suc, Bool, true, false, ◌||◌, Option, none, some, ℤ, pos, negsuc, ◌≤ℤ◌, arith, inl, inr,
  Bool-cases, if◌then◌else◌,
}
use yamaha_cli.Text.{Bytes, atoi}
use yamaha_cli.Cli.Volume.{
  Scale, Parsed, ok, usage, clamp_int, step_if_positive, signed_volume, delta_of, towards, abs_int,
  absolute_volume, db_volume, percent_volume, percent_int, plain_volume, parse_volume_arg, is_up,
  is_down, is_signed,
}
use yamaha_cli.Yxc.Zone.{absolute, up, down, empty}

-- The range is known, and the volume is in it.
abbrev pub InRange : Option (Option (ℤ × ℤ)) → ℤ → Type 0
InRange (some (some (lo, hi))) n = (lo ≤ℤ n) × (n ≤ℤ hi)
InRange _ n = ⊥

-- An absolute volume in the range of the zone, or a relative one whose step is not negative.
abbrev pub IsSafe : Option (Option (ℤ × ℤ)) → Parsed → Type 0
IsSafe range (ok (absolute n)) = InRange range n
IsSafe range (ok (up step)) = pos 0 ≤ℤ step
IsSafe range (ok (down step)) = pos 0 ≤ℤ step
IsSafe range (ok empty) = ⊥
IsSafe range _ = Unit

unless-IsSafe :
    (b : Bool) (range : Option (Option (ℤ × ℤ))) (p : Parsed)
    → IsSafe range p
    → IsSafe range (if b then usage else p)
unless-IsSafe true range p h = tt
unless-IsSafe false range p h = h

clamp_int_range : (n lo hi : ℤ) → lo ≤ℤ hi → (lo ≤ℤ clamp_int n lo hi) × (clamp_int n lo hi ≤ℤ hi)
unfolding clamp_int
clamp_int_range n lo hi h = (ground arith, ground arith)

delta_of-IsSafe :
    (range : Option (Option (ℤ × ℤ))) (n size step_flag : ℤ)
    → IsSafe range (delta_of n size step_flag)
unfolding delta_of towards
delta_of-IsSafe range (pos n) (pos (suc size)) (pos (suc s)) = omega arith
delta_of-IsSafe range (pos n) (pos (suc size)) (pos zero) = omega arith
delta_of-IsSafe range (pos n) (pos (suc size)) (negsuc s) = omega arith
delta_of-IsSafe range (negsuc n) (pos (suc size)) (pos (suc s)) = omega arith
delta_of-IsSafe range (negsuc n) (pos (suc size)) (pos zero) = omega arith
delta_of-IsSafe range (negsuc n) (pos (suc size)) (negsuc s) = omega arith
delta_of-IsSafe range n (pos zero) step_flag = tt
delta_of-IsSafe range n (negsuc size) step_flag = tt

signed_volume-IsSafe :
    (range : Option (Option (ℤ × ℤ))) (o : Option ℤ) (step_flag : ℤ)
    → IsSafe range (signed_volume o step_flag)
unfolding signed_volume
signed_volume-IsSafe range none step_flag = tt
signed_volume-IsSafe range (some n) step_flag = delta_of-IsSafe range n (abs_int n) step_flag

-- The bounds of a range are in order.
abbrev pub Ordered : Option (Option (ℤ × ℤ)) → Type 0
Ordered (some (some (lo, hi))) = lo ≤ℤ hi
Ordered _ = Unit

module _ (sc : Scale) where
  open sc use {
    F, parse_float, is_nan, is_no_percent, db_to_int, max_float, min_float, int_to_db, interpolate,
    of_int,
  }

  db_volume-IsSafe :
      (o : Option F) (lo hi : ℤ) → lo ≤ℤ hi → IsSafe (some (some (lo, hi))) (db_volume sc o lo hi)
  unfolding db_volume
  db_volume-IsSafe none lo hi h = tt
  db_volume-IsSafe (some f) lo hi h =
      unless-IsSafe (is_nan f) (some (some (lo, hi))) _ (
        clamp_int_range (db_to_int (max_float (int_to_db lo) (min_float f (int_to_db hi)))) lo hi h)

  percent_volume-IsSafe :
      (o : Option F) (lo hi : ℤ)
      → lo ≤ℤ hi
      → IsSafe (some (some (lo, hi))) (percent_volume sc o lo hi)
  unfolding percent_volume
  percent_volume-IsSafe none lo hi h = tt
  percent_volume-IsSafe (some f) lo hi h =
      unless-IsSafe (is_nan f || is_no_percent f) (some (some (lo, hi))) _
        (clamp_int_range (percent_int sc (interpolate f (of_int lo) (of_int hi)) lo hi) lo hi h)

  plain_volume-IsSafe :
      (o : Option ℤ) (lo hi : ℤ)
      → lo ≤ℤ hi
      → IsSafe (some (some (lo, hi))) (plain_volume sc o lo hi)
  unfolding plain_volume
  plain_volume-IsSafe none lo hi h = tt
  plain_volume-IsSafe (some n) lo hi h = clamp_int_range n lo hi h

  absolute_volume-IsSafe :
      (raw : Bytes) (db percent : Bool) (range : Option (Option (ℤ × ℤ)))
      → Ordered range
      → IsSafe range (absolute_volume sc raw db percent range)
  unfolding absolute_volume
  absolute_volume-IsSafe raw db percent none h = tt
  absolute_volume-IsSafe raw db percent (some none) h = tt
  absolute_volume-IsSafe raw true percent (some (some (lo, hi))) h =
      db_volume-IsSafe (parse_float raw) lo hi h
  absolute_volume-IsSafe raw false true (some (some (lo, hi))) h =
      percent_volume-IsSafe (parse_float raw) lo hi h
  absolute_volume-IsSafe raw false false (some (some (lo, hi))) h =
      plain_volume-IsSafe (atoi raw) lo hi h

  step_if_positive-IsSafe :
      (range : Option (Option (ℤ × ℤ))) (n : ℤ)
      → IsSafe range (ok (up (step_if_positive n))) × IsSafe range (ok (down (step_if_positive n)))
  unfolding step_if_positive
  step_if_positive-IsSafe range (pos (suc n)) = (omega arith, omega arith)
  step_if_positive-IsSafe range (pos zero) = (omega arith, omega arith)
  step_if_positive-IsSafe range (negsuc n) = (omega arith, omega arith)

  -- Whatever the arguments, the flags and the floats are: an absolute volume that a command asks for
  -- lies in the zone's range, if that has its bounds in order, and comes from a range that is known;
  -- a relative one has no negative step, not even for the least integer, whose negation wraps around.
  pub parse_volume_arg-IsSafe :
      (raw : Bytes) (db percent : Bool) (step_flag : ℤ) (range : Option (Option (ℤ × ℤ)))
      → Ordered range
      → IsSafe range (parse_volume_arg sc raw db percent step_flag range)
  unfolding parse_volume_arg
  parse_volume_arg-IsSafe raw db percent step_flag range h = elim (Bool-cases (is_up raw)) [
    | inl e ↦ rw e (
        unless-IsSafe (db || percent) range (ok (up (step_if_positive step_flag)))
          (step_if_positive-IsSafe range step_flag).0)
    | inr e ↦ rw e (elim (Bool-cases (is_down raw)) [
      | inl e' ↦ rw e' (
          unless-IsSafe (db || percent) range (ok (down (step_if_positive step_flag)))
            (step_if_positive-IsSafe range step_flag).1)
      | inr e' ↦ rw e' (elim (Bool-cases (is_signed raw db)) [
        | inl e'' ↦ rw e'' (
            unless-IsSafe (db || percent) range (signed_volume (atoi raw) step_flag)
              (signed_volume-IsSafe range (atoi raw) step_flag))
        | inr e'' ↦ rw e'' (absolute_volume-IsSafe raw db percent range h)
      ])
    ])
  ]
