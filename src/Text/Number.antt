-- ===== src/Text/Number.antt =====
-- `strconv.Itoa` and `strconv.Atoi`, for 64-bit integers.
use yamaha_cli.Prelude.{
  ℕ, zero, suc, ◌+◌, ◌-◌, ◌*◌, ◌/◌, ◌%◌, ◌^◌, ◌≤◌, ◌<◌, ◌≡◌, refl, ◌∙◌, Bool, ◌&&◌, [], ◌∷◌, Option,
  none, some, arith, ltb, leb, ◌==◌, if◌then◌else◌, ℤ, pos, sub_ℕ, Bool-cases, inl, inr,
}
use yamaha_cli.Text.Equal.{Lacks, Bytes}
use yamaha_cli.Text.Search.{upper, to_upper}

abbrev pub max_int : ℕ
max_int = 2 ^ 63 - 1

-- The digits of `n` in front of `out`; the fuel is above `n`.
itoa_digits : ℕ → ℕ → Bytes → Bytes
itoa_digits zero n out = out
itoa_digits (suc fuel) n out =
    let rest = itoa_digits fuel (n / 10) ((b'0' + n % 10) ∷ out) in
    if ltb n 10 then (b'0' + n) ∷ out else rest

unfoldable pub itoa : ℕ → Bytes
unfolding itoa_digits
itoa n = itoa_digits (suc n) n []

abbrev pub is_digit : ℕ → Bool
is_digit c = leb b'0' c && leb c b'9'

-- The value of digits behind `n`, with no bound.
unfoldable pub scan_digits : Bytes → ℕ → Option ℕ
scan_digits [] n = some n
scan_digits (c ∷ s) n = if is_digit c then scan_digits s (n * 10 + (c - b'0')) else none

-- One digit at least.
unfoldable pub unsigned : Bytes → Option ℕ
unfolding scan_digits
unsigned [] = none
unsigned (c ∷ s) = scan_digits (c ∷ s) 0

in_range : Option ℕ → Option ℤ
in_range none = none
in_range (some n) = if leb n max_int then some (pos n) else none

in_range_neg : Option ℕ → Option ℤ
in_range_neg none = none
in_range_neg (some n) = if leb n (max_int + 1) then some (sub_ℕ 0 n) else none

unfoldable pub atoi : Bytes → Option ℤ
unfolding unsigned in_range in_range_neg
atoi [] = none
atoi (c ∷ s) =
    if c == b'-'
    then in_range_neg (unsigned s)
    else if c == b'+'
    then in_range (unsigned s)
    else in_range (unsigned (c ∷ s))

scan_digits-itoa_digits :
    (fuel n : ℕ) (out : Bytes)
    → n < fuel
    → scan_digits (itoa_digits fuel n out) 0 ≡ scan_digits out n
unfolding itoa_digits scan_digits
scan_digits-itoa_digits zero n out h = absurd (omega arith)
scan_digits-itoa_digits (suc fuel) n out h =
    ground (arith, scan_digits-itoa_digits fuel (n / 10) ((b'0' + n % 10) ∷ out))

-- A text that starts with a digit.
abbrev pub StartsDigit : Bytes → Type 0
StartsDigit [] = ⊥
StartsDigit (c ∷ s) = (b'0' ≤ c) × (c ≤ b'9')

itoa_digits-StartsDigit :
    (fuel n : ℕ) (out : Bytes) → n < fuel → StartsDigit (itoa_digits fuel n out)
unfolding itoa_digits
itoa_digits-StartsDigit zero n out h = absurd (omega arith)
itoa_digits-StartsDigit (suc fuel) n out h = elim (Bool-cases (ltb n 10)) [
  | inl e ↦ rw e (ground arith)
  | inr e ↦ rw e (itoa_digits-StartsDigit fuel (n / 10) _ (ground arith))
]

pub itoa-StartsDigit : (n : ℕ) → StartsDigit (itoa n)
unfolding itoa
itoa-StartsDigit n = itoa_digits-StartsDigit (suc n) n [] (omega arith)

atoi-StartsDigit :
    (s : Bytes) {n : ℕ}
    → StartsDigit s
    → scan_digits s 0 ≡ some n
    → n ≤ max_int
    → atoi s ≡ some (pos n)
unfolding atoi
atoi-StartsDigit [] h e le = absurd h
atoi-StartsDigit (c ∷ s) h e le = ground arith

-- Every integer from 0 up is read back from its decimal print.
pub atoi-itoa : (n : ℕ) → n ≤ max_int → atoi (itoa n) ≡ some (pos n)
unfolding itoa
atoi-itoa n le =
    atoi-StartsDigit (itoa n) (itoa-StartsDigit n)
      (scan_digits-itoa_digits (suc n) n [] (omega arith) ∙ unfold scan_digits in refl) le

itoa_digits-upper :
    (fuel n : ℕ) (out : Bytes)
    → n < fuel
    → to_upper out ≡ out
    → to_upper (itoa_digits fuel n out) ≡ itoa_digits fuel n out
unfolding itoa_digits to_upper upper
itoa_digits-upper zero n out h e = absurd (omega arith)
itoa_digits-upper (suc fuel) n out h e =
    ground (arith, itoa_digits-upper fuel (n / 10) ((b'0' + n % 10) ∷ out))

pub to_upper-itoa : (n : ℕ) → to_upper (itoa n) ≡ itoa n
unfolding itoa to_upper
to_upper-itoa n = itoa_digits-upper (suc n) n [] (omega arith) refl

itoa_digits-Lacks : (fuel n : ℕ) (out : Bytes) → Lacks 10 out → Lacks 10 (itoa_digits fuel n out)
unfolding itoa_digits
itoa_digits-Lacks zero n out h = h
itoa_digits-Lacks (suc fuel) n out h = elim (Bool-cases (ltb n 10)) [
  | inl e ↦ rw e (ground arith, h)
  | inr e ↦ rw e (itoa_digits-Lacks fuel (n / 10) _ (ground arith, h))
]

-- A number stands on one line.
pub itoa-Lacks : (n : ℕ) → Lacks 10 (itoa n)
unfolding itoa
itoa-Lacks n = itoa_digits-Lacks (suc n) n [] tt
