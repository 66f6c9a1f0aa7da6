-- ===== src/Text/Search.antt =====
-- Searching, trimming and case: `strings.IndexByte`, `TrimRight`, `TrimSpace`, `ToUpper`,
-- `ToLower`, `EqualFold`, `HasSuffix`. Case and space are those of ASCII.
use yamaha_cli.Prelude.{
  ℕ, suc, ◌+◌, ◌-◌, ◌≡◌, Bool, ◌&&◌, ◌||◌, [], ◌∷◌, map, Option, none, some, arith, leb, ◌==◌,
  if◌then◌else◌,
}
use yamaha_cli.Text.Equal.{Bytes, equal, has_prefix}
use mathlib.Core.List.{reverse}
use mathlib.Core.Option as Maybe

-- `strings.IndexByte`; `none` is -1
unfoldable pub index_byte : Bytes → ℕ → Option ℕ
index_byte [] b = none
index_byte (c ∷ s) b = if c == b then some 0 else Maybe.map suc (index_byte s b)

-- `strings.Contains`
unfoldable pub contains : Bytes → Bytes → Bool
unfolding has_prefix
contains [] t = has_prefix [] t
contains (c ∷ s) t = has_prefix (c ∷ s) t || contains s t

unfoldable pub drop_while : (ℕ → Bool) → Bytes → Bytes
drop_while p [] = []
drop_while p (c ∷ s) = if p c then drop_while p s else c ∷ s

unfoldable pub trim_right_by : (ℕ → Bool) → Bytes → Bytes
unfolding drop_while
trim_right_by p s = reverse (drop_while p (reverse s))

-- `strings.TrimRight(s, "\r\n")`
unfoldable pub trim_crlf : Bytes → Bytes
unfolding trim_right_by
trim_crlf = trim_right_by (λ c. c == b'\r' || c == b'\n')

abbrev pub is_space : ℕ → Bool
is_space c = (leb 9 c && leb c 13) || c == 32

-- `strings.TrimSpace`
unfoldable pub trim_space : Bytes → Bytes
unfolding trim_right_by
trim_space s = trim_right_by is_space (drop_while is_space s)

unfoldable pub upper : ℕ → ℕ
upper c = if leb b'a' c && leb c b'z' then c - 32 else c

unfoldable pub lower : ℕ → ℕ
lower c = if leb b'A' c && leb c b'Z' then c + 32 else c

-- `strings.ToUpper`
unfoldable pub to_upper : Bytes → Bytes
unfolding upper
to_upper = map upper

-- `strings.ToLower`
unfoldable pub to_lower : Bytes → Bytes
unfolding lower
to_lower = map lower

-- `strings.EqualFold`
unfoldable pub equal_fold : Bytes → Bytes → Bool
unfolding to_lower equal
equal_fold s t = equal (to_lower s) (to_lower t)

-- `strings.HasSuffix(s, p)`
unfoldable pub has_suffix : Bytes → Bytes → Bool
unfolding has_prefix
has_suffix s p = has_prefix (reverse s) (reverse p)

pub upper_idem : (c : ℕ) → upper (upper c) ≡ upper c
unfolding upper
upper_idem c = ground arith
