-- ===== src/Text/Trim.antt =====
-- Laws of trimming.
use mathlib.Core.List.{reverse, reverse_aux, reverse-reverse}
use yamaha_cli.Prelude.{ℕ, Bool, false, ◌||◌, [], ◌∷◌, ◌≡◌, refl, ap, ◌∙◌, ◌==◌, All}
use yamaha_cli.Text.Equal.{Bytes}
use yamaha_cli.Text.Search.{drop_while, trim_right_by, trim_crlf}

abbrev pub is_line_end : ℕ → Bool
is_line_end c = c == b'\r' || c == b'\n'

-- A text without a carriage return or a line feed.
abbrev pub IsOneLine : Bytes → Type 0
IsOneLine = All (λ c. is_line_end c ≡ false)

module _ (p : ℕ → Bool) where
  All-reverse_aux :
      (s r : Bytes)
      → All (λ c. p c ≡ false) s
      → All (λ c. p c ≡ false) r
      → All (λ c. p c ≡ false) (reverse_aux s r)
  All-reverse_aux [] r hs hr = hr
  All-reverse_aux (c ∷ s) r hs hr = All-reverse_aux s (c ∷ r) hs.1 (hs.0, hr)

  drop_while-none : (s : Bytes) → All (λ c. p c ≡ false) s → drop_while p s ≡ s
  unfolding drop_while
  drop_while-none [] h = refl
  drop_while-none (c ∷ s) h = rw h.0

  pub trim_right_by-none : (s : Bytes) → All (λ c. p c ≡ false) s → trim_right_by p s ≡ s
  unfolding trim_right_by
  trim_right_by-none s h =
      ap reverse (drop_while-none (reverse s) (All-reverse_aux s [] h tt)) ∙ reverse-reverse s

pub trim_crlf-IsOneLine : (s : Bytes) → IsOneLine s → trim_crlf s ≡ s
unfolding trim_crlf
trim_crlf-IsOneLine s h = trim_right_by-none is_line_end s h
