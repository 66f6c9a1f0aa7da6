-- ===== src/Yxc/Validate/Suggest.antt =====
-- `DidYouMean` answers with the closest candidates.
use yamaha_cli.Prelude.{ℕ, ◌≡◌, List, [], ◌∷◌, ◌++◌, length, false, map, All, min}
use yamaha_cli.Text.{Bytes}
use yamaha_cli.Yxc.Validate.{Scored, less, score}
use mathlib.Core.List.{Perm}
use mathlib.Core.List.Perm as Perms

-- `s` need not stand behind `t`.
abbrev pub NotAfter : Scored → Scored → Type 0
NotAfter s t = less t s ≡ false

abbrev pub IsSorted : List Scored → Type 0
IsSorted [] = Unit
IsSorted (s ∷ ss) = All (NotAfter s) ss × IsSorted ss

-- A choice of suggestions: the candidates, each with its distance, in the order of the answer, of
-- which the first `n` are given.
pub record IsClosest (unknown : Bytes) (candidates : List Bytes) (n : ℕ) (answer : List Bytes)
    : Type 0 where
  pub given : List Scored
  pub left_out : List Scored
  pub answer_is : answer ≡ map (λ s. s.text) given
  pub all_scored : Perm (given ++ left_out) (score unknown candidates)
  pub sorted : IsSorted (given ++ left_out)
  pub given_length : length given ≡ min n (length candidates)
