-- ===== src/Tests/Diff.antt =====
-- A run of `ynca diff`.
use yamaha_cli.Prelude.{◌≡◌, refl, ◌&&◌, not, List, [], ◌∷◌, none, some}
use yamaha_cli.Text.{Bytes, codes, has, lookup, Unrepeated}
use yamaha_cli.Cli.Diff.{diff, reported_key, or_nil}
use yamaha_cli.Cli.Diff.Exact.{reports, parts, diff-IsExact}

abbrev known : List Bytes
known = codes "# RX-V583" ∷ codes "@MAIN:PWR=On" ∷ codes "#@MAIN:HDMIOUT=@UNDEFINED" ∷ []

abbrev newer : List Bytes
newer =
    codes "@MAIN:PWR=Standby\","
    ∷ codes "@main:vol=-40.0"
    ∷ codes "@TUN:BAND=FM"
    ∷ codes "@MAIN=:"
    ∷ []

abbrev again : List Bytes
again = codes "@TUN:BAND=AM" ∷ codes "@MAIN:PWR=On" ∷ codes "@MAIN:VOL=0.0" ∷ []

quoted : reported_key (codes " @Main:Pwr=Standby\",") ≡ some (codes "@MAIN:PWR")
unfolding reported_key
quoted = refl

leading_quote : reported_key (codes "\"@MAIN:PWR=Standby\",") ≡ none
unfolding reported_key
leading_quote = refl

late_colon : reported_key (codes "@MAIN=:") ≡ none
unfolding reported_key
late_colon = refl

newer_added : (diff known newer).added ≡ codes "@MAIN:VOL" ∷ codes "@TUN:BAND" ∷ []
unfolding diff
newer_added = refl

diff-IsExact_example :
    ((t : Bytes) → has t (diff known newer).added ≡ (reports t newer && not (reports t known)))
    × Unrepeated (diff known newer).added
    × ((su fn : Bytes)
        → has fn (or_nil (lookup su (diff known newer).by_subunit))
          ≡ parts su fn (diff known newer).added)
    × (((t : Bytes) → reports t known ≡ reports t known)
        → ((t : Bytes) → reports t newer ≡ reports t again)
        → (diff known newer).added ≡ (diff known again).added)
diff-IsExact_example = diff-IsExact known newer known again
