-- ===== src/Yxc/Media.antt =====
-- pkg/yxc/system.go, tuner.go and netusb.go: the calls on the device, the tuner and the network
-- player, as the parameters that they ask with.
pub mod Posts
use yamaha_cli.Prelude.{
  ℕ, zero, suc, Bool, true, false, ◌||◌, List, [], ◌∷◌, ◌++◌, Option, ℤ, pos, negsuc, if◌then◌else◌,
}
use yamaha_cli.Text.{Bytes, codes, equal, is_empty, has, itoa, to_lower, Table}
use yamaha_cli.Yxc.Errors.{Error, invalid, Result, ok, err}
use yamaha_cli.Yxc.Zone.{Call, one, itoa_ℤ, valid_zone}
use yamaha_cli.Yxc.Dist.{submit}

abbrev pub bands : List Bytes
bands = codes "fm" ∷ codes "am" ∷ codes "dab" ∷ []

abbrev pub band_named : Bytes → Result Bytes
unfolding has
band_named b = if has b bands then ok b else err (invalid (codes "band"))

-- `validTunerBand`
unfoldable pub valid_tuner_band : Bytes → Result Bytes
unfolding band_named to_lower
valid_tuner_band band = band_named (to_lower band)

abbrev pub playbacks : List Bytes
playbacks =
    codes "play"
    ∷ codes "stop"
    ∷ codes "pause"
    ∷ codes "play_pause"
    ∷ codes "previous"
    ∷ codes "next"
    ∷ codes "fast_reverse_start"
    ∷ codes "fast_reverse_end"
    ∷ codes "fast_forward_start"
    ∷ codes "fast_forward_end"
    ∷ []

unfoldable pub valid_playback : Bytes → Bool
unfolding has
valid_playback p = has p playbacks

abbrev pub freq_table : Result Bytes → ℤ → Result Table
freq_table (err e) freq = err e
freq_table (ok b) (pos (suc n)) =
    ok ((codes "band", b) ∷ (codes "tuning", codes "direct") ∷ (codes "num", itoa (suc n)) ∷ [])
freq_table (ok b) _ = err (invalid (codes "freq"))

unfoldable pub freq_values : Bytes → ℤ → Result Table
unfolding valid_tuner_band
freq_values band freq = freq_table (valid_tuner_band band) freq

abbrev pub preset_table : Result Bytes → Result Bytes → ℤ → Result Table
preset_table (err e) band num = err e
preset_table (ok z) (err e) num = err e
preset_table (ok z) (ok b) (pos (suc n)) =
    ok ((codes "zone", z) ∷ (codes "band", b) ∷ (codes "num", itoa (suc n)) ∷ [])
preset_table (ok z) (ok b) _ = err (invalid (codes "num"))

unfoldable pub tuner_preset_values : Bytes → Bytes → ℤ → Result Table
unfolding valid_zone valid_tuner_band
tuner_preset_values zone band num = preset_table (valid_zone zone) (valid_tuner_band band) num

abbrev pub band_table : Result Bytes → Result Table
band_table (err e) = err e
band_table (ok b) = ok (one (codes "band") b)

abbrev pub numbered_table : Result Bytes → ℤ → Result Table
numbered_table (err e) num = err e
numbered_table (ok z) (pos (suc n)) = ok ((codes "zone", z) ∷ (codes "num", itoa (suc n)) ∷ [])
numbered_table (ok z) _ = err (invalid (codes "num"))

unfoldable pub netusb_preset_values : Bytes → ℤ → Result Table
unfolding valid_zone
netusb_preset_values zone num = numbered_table (valid_zone zone) num

unfoldable pub playback_values : Bytes → Result Table
unfolding valid_playback
playback_values p =
    if valid_playback p then ok (one (codes "playback") p) else err (invalid (codes "playback"))

abbrev pub with_lang : Bytes → Table
with_lang [] = []
with_lang (c ∷ s) = one (codes "lang") (c ∷ s)

unfoldable pub list_values : Bytes → ℤ → ℤ → Bytes → Result Table
unfolding itoa
list_values [] index size lang = err (invalid (codes "input"))
list_values (c ∷ input) index (pos (suc size)) lang = elim index [
  | negsuc i ↦ err (invalid (codes "index"))
  | pos i ↦ ok (
      (codes "input", c ∷ input)
      ∷ (codes "index", itoa i)
      ∷ (codes "size", itoa (suc size))
      ∷ with_lang lang)
]
list_values (c ∷ input) index _ lang = err (invalid (codes "size"))

module _ (response_code : Bytes → Option ℤ) where
  unfoldable pub get_device_info : Call
  unfolding submit
  get_device_info = submit response_code (codes "system/getDeviceInfo") (ok [])

  unfoldable pub get_features : Call
  unfolding submit
  get_features = submit response_code (codes "system/getFeatures") (ok [])

  unfoldable pub get_network_status : Call
  unfolding submit
  get_network_status = submit response_code (codes "system/getNetworkStatus") (ok [])

  unfoldable pub request_system_reboot : Call
  unfolding submit
  request_system_reboot = submit response_code (codes "system/requestSystemReboot") (ok [])

  unfoldable pub get_tuner_status : Call
  unfolding submit
  get_tuner_status = submit response_code (codes "tuner/getPlayInfo") (ok [])

  unfoldable pub set_tuner_freq : Bytes → ℤ → Call
  unfolding submit freq_values
  set_tuner_freq band freq = submit response_code (codes "tuner/setFreq") (freq_values band freq)

  unfoldable pub recall_tuner_preset : Bytes → Bytes → ℤ → Call
  unfolding submit tuner_preset_values
  recall_tuner_preset zone band num =
      submit response_code (codes "tuner/recallPreset") (tuner_preset_values zone band num)

  unfoldable pub get_tuner_preset_info : Bytes → Call
  unfolding submit valid_tuner_band
  get_tuner_preset_info band =
      submit response_code (codes "tuner/getPresetInfo") (band_table (valid_tuner_band band))

  unfoldable pub set_playback : Bytes → Call
  unfolding submit playback_values
  set_playback p = submit response_code (codes "netusb/setPlayback") (playback_values p)

  unfoldable pub get_play_info : Call
  unfolding submit
  get_play_info = submit response_code (codes "netusb/getPlayInfo") (ok [])

  unfoldable pub recall_netusb_preset : Bytes → ℤ → Call
  unfolding submit netusb_preset_values
  recall_netusb_preset zone num =
      submit response_code (codes "netusb/recallPreset") (netusb_preset_values zone num)

  unfoldable pub get_list_info : Bytes → ℤ → ℤ → Bytes → Call
  unfolding submit list_values
  get_list_info input index size lang =
      submit response_code (codes "netusb/getListInfo") (list_values input index size lang)

  unfoldable pub set_playback_repeat : Call
  unfolding submit
  set_playback_repeat = submit response_code (codes "netusb/toggleRepeat") (ok [])

  unfoldable pub set_playback_shuffle : Call
  unfolding submit
  set_playback_shuffle = submit response_code (codes "netusb/toggleShuffle") (ok [])

  unfoldable pub get_preset_info : Call
  unfolding submit
  get_preset_info = submit response_code (codes "netusb/getPresetInfo") (ok [])
