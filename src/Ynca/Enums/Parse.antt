-- ===== src/Ynca/Enums/Parse.antt =====
-- What the parsers of wire values accept.
use yamaha_cli.Prelude.{true, false, List, ◌≡◌, refl, ◌⊎◌, arith}
use yamaha_cli.Text.{Bytes, trim_space}
use yamaha_cli.Ynca.Enums.{unknown_value, contains_text, parse_known, parse_mute, Mute, mute_wire}

-- A value of the closed set is kept as it is, all else becomes the sentinel.
parse_known-cases :
    (known : List Bytes) (s : Bytes)
    → ((contains_text known (trim_space s) ≡ true) × (parse_known known s ≡ trim_space s))
      ⊎ ((contains_text known (trim_space s) ≡ false) × (parse_known known s ≡ unknown_value))
unfolding parse_known
parse_known-cases known s = ground arith

-- A mute state is read back from its wire spelling.
parse_mute-mute_wire : (m : Mute) → parse_mute (mute_wire m) ≡ m
unfolding parse_mute
parse_mute-mute_wire Mute.off = refl
parse_mute-mute_wire Mute.on = refl
parse_mute-mute_wire _ = refl
