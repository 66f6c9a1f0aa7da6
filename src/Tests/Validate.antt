-- ===== src/Tests/Validate.antt =====
-- Tests of pkg/yxc/validate.go.
use yamaha_cli.Prelude.{ℕ, ◌≤◌, ◌≡◌, refl, List, [], ◌∷◌}
use yamaha_cli.Text.{Bytes, codes}
use yamaha_cli.Yxc.Validate.{levenshtein, did_you_mean}
use yamaha_cli.Yxc.Validate.Distance.{levenshtein_least}
use yamaha_cli.Yxc.Validate.Edit.{Edit}

kitten : levenshtein (codes "kitten") (codes "sitting") ≡ 3
unfolding levenshtein
kitten = refl

abbrev inputs : List Bytes
inputs = codes "hdmi1" ∷ codes "tuner" ∷ codes "hdmi2" ∷ []

suggest_hdmi : did_you_mean (codes "hdm1") inputs 2 ≡ codes "hdmi1" ∷ codes "hdmi2" ∷ []
unfolding did_you_mean
suggest_hdmi = refl

levenshtein_least_example :
    Edit (codes "kitten") (codes "sitting") (levenshtein (codes "kitten") (codes "sitting"))
    × ((n : ℕ)
        → Edit (codes "kitten") (codes "sitting") n
        → levenshtein (codes "kitten") (codes "sitting") ≤ n)
levenshtein_least_example = levenshtein_least (codes "kitten") (codes "sitting")
