-- ===== src/Tests/Media.antt =====
-- Runs of the calls of pkg/yxc/tuner.go and netusb.go, of pkg/yxc/cache.go, and of `ynca watch`.
use yamaha_cli.Prelude.{◌≡◌, refl, true, false, [], ◌∷◌, Option, none, some, ℤ, pos}
use yamaha_cli.Text.{Bytes, codes, itoa, to_lower, trim_right_by, equal}
use yamaha_cli.Yxc.Media.{freq_values}
use yamaha_cli.Yxc.Media.Posts.{Posts}
use yamaha_cli.Yxc.Errors.{ok}
use yamaha_cli.Yxc.Cache.{path_for, base, aged, File, cached, load_or_fetch, features_cache_ttl}
use yamaha_cli.Yxc.Cache.Fresh.{IsFresh, load_or_fetch-IsFresh}

abbrev code_zero : Bytes → Option ℤ
code_zero raw = some (pos 0)

freq_runs :
    freq_values (codes "FM") (pos 106500)
    ≡ ok (
        (codes "band", codes "fm")
        ∷ (codes "tuning", codes "direct")
        ∷ (codes "num", codes "106500")
        ∷ [])
unfolding freq_values to_lower itoa
freq_runs = refl

climbs_out : path_for (codes "/cache") (codes "../x") ≡ none
unfolding path_for base trim_right_by equal
climbs_out = refl

abbrev week_old : File
week_old = record { stat = aged features_cache_ttl; content = some (codes "{}") }

abbrev as_it_is : Bytes → Option Bytes
as_it_is raw = some raw

still_fresh :
    load_or_fetch as_it_is features_cache_ttl false week_old none true ≡ cached (codes "{}")
unfolding load_or_fetch
still_fresh = refl

load_or_fetch-IsFresh_example :
    IsFresh as_it_is features_cache_ttl week_old false none true
      (load_or_fetch as_it_is features_cache_ttl false week_old none true)
load_or_fetch-IsFresh_example =
    load_or_fetch-IsFresh as_it_is features_cache_ttl week_old false none true
