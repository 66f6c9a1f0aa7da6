-- ===== src/Cli/Args.antt =====
-- Checks of arguments in internal/cli: `canonicalZone` of zone.go, `validateConfigHost` and
-- `isHostname` of config_cmd.go.
pub mod Host
use yamaha_cli.Prelude.{
  ℕ, suc, ◌++◌, Bool, true, false, ◌||◌, ◌&&◌, not, List, [], ◌∷◌, Option, none, some, length,
  if◌then◌else◌, leb, ltb, ◌==◌,
}
use yamaha_cli.Text.{
  Bytes, codes, is_empty, equal, to_lower, trim_space, unsigned, is_digit, split_by,
}
use mathlib.Core.List.{reverse}

-- `canonicalZone`; none is a usage error.
unfoldable pub canonical_zone : Bytes → Option Bytes
unfolding equal
canonical_zone zone =
    let z = to_lower (trim_space zone) in
    if equal z (codes "main")
    then some (codes "main")
    else if equal z (codes "zone2")
    then some (codes "zone2")
    else if equal z (codes "zone3")
    then some (codes "zone3")
    else if equal z (codes "zone4")
    then some (codes "zone4")
    else none

unfoldable pub all_bytes : (ℕ → Bool) → Bytes → Bool
all_bytes p [] = true
all_bytes p (c ∷ s) = p c && all_bytes p s

-- What may stand in a label.
abbrev pub is_label_byte : ℕ → Bool
is_label_byte c =
    (leb 97 c && leb c 122)
    || (leb 65 c && leb c 90)
    || (leb 48 c && leb c 57)
    || c == 45
    || c == 95

abbrev starts_dash : Bytes → Bool
starts_dash [] = false
starts_dash (c ∷ s) = c == 45

unfoldable pub is_label : Bytes → Bool
unfolding all_bytes
is_label label =
    not (is_empty label)
    && leb (length label) 63
    && not (starts_dash label)
    && not (starts_dash (reverse label))
    && all_bytes is_label_byte label

unfoldable pub all_labels : (Bytes → Bool) → List Bytes → Bool
all_labels p [] = true
all_labels p (l ∷ labels) = p l && all_labels p labels

-- The last label has something that is no digit.
unfoldable pub last_is_name : List Bytes → Bool
unfolding all_bytes
last_is_name [] = false
last_is_name (l ∷ []) = not (all_bytes is_digit l)
last_is_name (l ∷ m ∷ labels) = last_is_name (m ∷ labels)

-- `isHostname`
unfoldable pub is_hostname : Bytes → Bool
unfolding all_labels is_label last_is_name split_by
is_hostname s =
    if is_empty s || ltb 253 (length s)
    then false
    else all_labels is_label (split_by 46 s) && last_is_name (split_by 46 s)

-- A field of an IPv4 address: up to 255, without a needless zero in front.
abbrev at_most : ℕ → Option ℕ → Bool
at_most m none = false
at_most m (some n) = leb n m

abbrev padded_zero : Bytes → Bool
padded_zero (c ∷ d ∷ s) = c == 48
padded_zero _ = false

unfoldable pub is_octet : Bytes → Bool
unfolding all_bytes unsigned
is_octet s =
    not (is_empty s)
    && leb (length s) 3
    && all_bytes is_digit s
    && not (padded_zero s)
    && at_most 255 (unsigned s)

-- `netip.ParseAddr` gives an address, and `Is4`.
unfoldable pub is_ipv4 : Bytes → Bool
unfolding all_labels is_octet split_by
is_ipv4 s = length (split_by 46 s) == 4 && all_labels is_octet (split_by 46 s)

-- `validateConfigHost`; false is a usage error.
unfoldable pub validate_config_host : Bytes → Bool
unfolding is_hostname is_ipv4
validate_config_host host = is_ipv4 host || is_hostname host
