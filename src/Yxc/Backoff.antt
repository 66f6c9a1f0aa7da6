-- ===== src/Yxc/Backoff.antt =====
-- The backoff of pkg/yxc/events.go: a `time.Duration` is a 64-bit integer that wraps around.
use yamaha_cli.Prelude.{
  ℕ, zero, suc, ◌-◌, ◌*◌, ◌%◌, ◌^◌, ◌≤◌, ◌<◌, Bool, true, false, ◌≡◌, arith, ltb, leb, ℤ, pos,
  negsuc, ltb_ℤ, if◌then◌else◌, Bool-cases, inl, inr, ap, ◌∙◌,
}
use yamaha_cli.Text.{max_int}

-- The signed value of a residue modulo 2 ^ 64.
abbrev signed : ℕ → ℤ
signed n = if leb n max_int then pos n else negsuc (2 ^ 64 - n - 1)

-- `cur * 2`
unfoldable pub double : ℤ → ℤ
double (pos n) = signed (2 * n % 2 ^ 64)
double (negsuc n) = signed ((2 ^ 64 - 2 * suc n % 2 ^ 64) % 2 ^ 64)

abbrev is_positive : ℤ → Bool
is_positive (pos (suc n)) = true
is_positive _ = false

bounded : ℤ → ℤ → ℤ
bounded next max = if ltb_ℤ max next then max else if is_positive next then next else max

unfoldable pub next_backoff : ℤ → ℤ → ℤ
unfolding double bounded
next_backoff cur max = bounded (double cur) max

-- What doubling a duration up to a bound is without a bound on integers.
abbrev pub doubled : ℕ → ℕ → ℕ
doubled cur max = if ltb max (2 * cur) then max else 2 * cur

double_pos : (cur : ℕ) → 1 ≤ cur → 2 * cur ≤ max_int → double (pos cur) ≡ pos (2 * cur)
unfolding double
double_pos cur low high = ground arith

double_over :
    (cur : ℕ) → cur ≤ max_int → max_int < 2 * cur → double (pos cur) ≡ negsuc (2 ^ 64 - 2 * cur - 1)
unfolding double
double_over cur low high = ground arith

bounded_pos : (n max : ℕ) → 1 ≤ n → bounded (pos n) (pos max) ≡ pos (if ltb max n then max else n)
unfolding bounded
bounded_pos zero max h = absurd (omega arith)
bounded_pos (suc n) max h = ground arith

bounded_negsuc : (n max : ℕ) → bounded (negsuc n) (pos max) ≡ pos max
unfolding bounded
bounded_negsuc n max = ground arith

-- The product may wrap around, but the answer does not show it.
pub next_backoff-doubled :
    (cur max : ℕ)
    → 1 ≤ cur
    → cur ≤ max
    → max ≤ max_int
    → next_backoff (pos cur) (pos max) ≡ pos (doubled cur max)
unfolding next_backoff
next_backoff-doubled cur max low le high = elim (Bool-cases (leb (2 * cur) max_int)) [
  | inl e ↦
      ap (λ z. bounded z (pos max)) (double_pos cur low (ground arith))
      ∙ bounded_pos (2 * cur) max (omega arith)
  | inr e ↦
      ap (λ z. bounded z (pos max)) (double_over cur (omega arith) (ground arith))
      ∙ bounded_negsuc (2 ^ 64 - 2 * cur - 1) max
      ∙ ap pos (ground arith)
]
