-- ===== src/Ynca/Control.antt =====
-- pkg/ynca/control.go, zone_control.go and tuner.go: the typed calls over `Send`.
pub mod Sleep
pub mod OnWire
pub mod Arguments
use yamaha_cli.Prelude.{
  ℕ, zero, suc, ◌+◌, ◌/◌, Bool, true, false, ◌||◌, [], ◌∷◌, ◌++◌, Option, none, some, ltb, ◌==◌,
  if◌then◌else◌, ℤ, pos, negsuc,
}
use yamaha_cli.Text.{Bytes, codes, equal, trim_space, itoa, atoi}
use yamaha_cli.Ynca.Client.{Client, send}
use yamaha_cli.Ynca.Codec.{Floats, parse_number, format_stepped, format_volume}
use yamaha_cli.Ynca.Enums.{
  Mute, parse_mute, muted, Power, power_wire, parse_power, Band, band_wire, parse_band, Playback,
  playback_wire, parse_two_ch_decoder,
}
use yamaha_cli.Ynca.Errors.{Error, invalid, Result, ok, err, ◌>>=◌}
use yamaha_cli.Ynca.Wire.{Line, parse_line}

-- A call's outcome, and the client after it.
abbrev pub Call : Type 0 → Type 0
Call A = Client → Result A × Client

-- The pure steps behind a call.
abbrev pub followed_by {ℓ} :
    {A : Type 0} {B : Type ℓ} → Result A × Client → (A → Result B) → Result B × Client
followed_by (r, c) f = (r >>= f, c)

abbrev pub refuse {ℓ} : {A : Type ℓ} → Bytes → Client → Result A × Client
refuse why c = (err (invalid why), c)

abbrev pub command : Bytes → Bytes → Bytes → Bytes
command subunit function value = b'@' ∷ (subunit ++ b':' ∷ (function ++ b'=' ∷ value))

unfoldable pub get : Bytes → Bytes → Call Bytes
get subunit function c =
    followed_by (send (command subunit function (codes "?")) c)
      (λ reply. parse_line reply >>= λ l. ok l.value)

unfoldable pub put : Bytes → Bytes → Bytes → Call (Unit {0})
put subunit function value c = followed_by (send (command subunit function value) c) (λ _. ok tt)

unfoldable pub get_model_name : Call Bytes
unfolding get
get_model_name = get (codes "SYS") (codes "MODELNAME")

unfoldable pub get_power : Bytes → Call Power
unfolding get parse_power
get_power subunit c = followed_by (get subunit (codes "PWR") c) parse_power

unfoldable pub set_power : Bytes → Power → Call (Unit {0})
unfolding put
set_power subunit p = put subunit (codes "PWR") (power_wire p)

unfoldable pub get_mute_state : Bytes → Call Mute
unfolding get parse_mute
get_mute_state subunit c = followed_by (get subunit (codes "MUTE") c) (λ v. ok (parse_mute v))

unfoldable pub get_mute : Bytes → Call Bool
unfolding get_mute_state muted
get_mute subunit c = followed_by (get_mute_state subunit c) (λ m. ok (muted m))

unfoldable pub set_mute : Bytes → Bool → Call (Unit {0})
unfolding put
set_mute subunit on = put subunit (codes "MUTE") (if on then codes "On" else codes "Off")

-- The step in tenths of a dB.
unfoldable pub vol_nudge : Bytes → ℕ → Bytes
unfolding itoa
vol_nudge dir step =
    if step == 10 || step == 20 || step == 50
    then dir ++ b' ' ∷ (itoa (step / 10) ++ codes " dB")
    else dir

unfoldable pub volume_up : Bytes → ℕ → Call (Unit {0})
unfolding put vol_nudge
volume_up subunit step = put subunit (codes "VOL") (vol_nudge (codes "Up") step)

unfoldable pub volume_down : Bytes → ℕ → Call (Unit {0})
unfolding put vol_nudge
volume_down subunit step = put subunit (codes "VOL") (vol_nudge (codes "Down") step)

-- `strings.TrimSpace(s) == ""`
abbrev blank : Bytes → Bool
blank s = equal (trim_space s) []

unfoldable pub get_input : Bytes → Call Bytes
unfolding get
get_input subunit = get subunit (codes "INP")

unfoldable pub set_input : Bytes → Bytes → Call (Unit {0})
unfolding put equal trim_space
set_input subunit input c =
    if blank input then refuse (codes "empty input") c else put subunit (codes "INP") input c

unfoldable pub get_sound_program : Bytes → Call Bytes
unfolding get
get_sound_program subunit = get subunit (codes "SOUNDPRG")

unfoldable pub set_sound_program : Bytes → Bytes → Call (Unit {0})
unfolding put equal trim_space
set_sound_program subunit program c =
    if blank program
    then refuse (codes "empty program") c
    else put subunit (codes "SOUNDPRG") program c

unfoldable pub get_decoder : Bytes → Call Bytes
unfolding get parse_two_ch_decoder
get_decoder subunit c =
    followed_by (get subunit (codes "2CHDECODER") c) (λ v. ok (parse_two_ch_decoder v))

unfoldable pub set_decoder : Bytes → Bytes → Call (Unit {0})
unfolding put equal trim_space
set_decoder subunit decoder c =
    if blank decoder
    then refuse (codes "empty decoder") c
    else put subunit (codes "2CHDECODER") decoder c

-- A number that must be at least 1, and the value that it makes.
numbered : Bytes → Bytes → Bytes → ℤ → Call (Unit {0})
unfolding put itoa
numbered subunit function prefix (pos zero) c = refuse (codes "number") c
numbered subunit function prefix (pos (suc n)) c = put subunit function (prefix ++ itoa (suc n)) c
numbered subunit function prefix (negsuc n) c = refuse (codes "number") c

unfoldable pub recall_scene : Bytes → ℤ → Call (Unit {0})
unfolding numbered
recall_scene subunit = numbered subunit (codes "SCENE") (codes "Scene ")

unfoldable pub recall_preset : ℤ → Call (Unit {0})
unfolding numbered
recall_preset = numbered (codes "TUN") (codes "PRESET") []

unfoldable pub preset_up : Call (Unit {0})
unfolding put
preset_up = put (codes "TUN") (codes "PRESET") (codes "Up")

unfoldable pub preset_down : Call (Unit {0})
unfolding put
preset_down = put (codes "TUN") (codes "PRESET") (codes "Down")

unfoldable pub get_zone_switch : Bytes → Bytes → Call Bytes
unfolding get
get_zone_switch = get

unfoldable pub set_zone_switch : Bytes → Bytes → Bytes → Bool → Call (Unit {0})
unfolding put
set_zone_switch subunit function on_value on =
    put subunit function (if on then on_value else codes "Off")

unfoldable pub get_band : Call Band
unfolding get parse_band
get_band c = followed_by (get (codes "TUN") (codes "BAND") c) (λ v. ok (parse_band v))

put_band : Band → Call (Unit {0})
unfolding put
put_band Band.unknown c = refuse (codes "want am|fm") c
put_band b c = put (codes "TUN") (codes "BAND") (band_wire b) c

unfoldable pub set_band : Bytes → Call (Unit {0})
unfolding put_band parse_band
set_band band = put_band (parse_band band)

abbrev am_frequency : Bytes → Result ℤ
am_frequency v = elim (atoi (trim_space v)) [ some n ↦ ok n | none ↦ err (invalid v) ]

unfoldable pub get_am_freq : Call ℤ
unfolding get atoi trim_space
get_am_freq c = followed_by (get (codes "TUN") (codes "AMFREQ") c) am_frequency

unfoldable pub set_playback : Bytes → Playback → Call (Unit {0})
unfolding put
set_playback subunit action = put subunit (codes "PLAYBACK") (playback_wire action)

unfoldable pub play : Bytes → Call (Unit {0})
unfolding set_playback
play subunit = set_playback subunit Playback.play

unfoldable pub pause : Bytes → Call (Unit {0})
unfolding set_playback
pause subunit = set_playback subunit Playback.pause

unfoldable pub stop : Bytes → Call (Unit {0})
unfolding set_playback
stop subunit = set_playback subunit Playback.stop

unfoldable pub next : Bytes → Call (Unit {0})
unfolding set_playback
next subunit = set_playback subunit Playback.skip_fwd

unfoldable pub prev : Bytes → Call (Unit {0})
unfolding set_playback
prev subunit = set_playback subunit Playback.skip_rev

-- The calls that carry a number on a grid.
module _ (fl : Floats) where
  open fl use {F, half, fifth, ten, of_int}

  unfoldable pub get_volume : Bytes → Call F
  unfolding get parse_number
  get_volume subunit c = followed_by (get subunit (codes "VOL") c) (parse_number fl)

  unfoldable pub set_volume : Bytes → F → Call (Unit {0})
  unfolding put format_volume
  set_volume subunit db = put subunit (codes "VOL") (format_volume fl db)

  unfoldable pub get_tone : Bytes → Bytes → Call F
  unfolding get parse_number
  get_tone subunit function c = followed_by (get subunit function c) (parse_number fl)

  unfoldable pub set_tone : Bytes → Bytes → F → Call (Unit {0})
  unfolding put format_stepped
  set_tone subunit function db = put subunit function (format_stepped fl db 1 half)

  unfoldable pub get_fm_freq : Call F
  unfolding get parse_number
  get_fm_freq c = followed_by (get (codes "TUN") (codes "FMFREQ") c) (parse_number fl)

  unfoldable pub set_fm_freq : F → Call (Unit {0})
  unfolding put format_stepped
  set_fm_freq mhz = put (codes "TUN") (codes "FMFREQ") (format_stepped fl mhz 2 fifth)

  unfoldable pub set_am_freq : ℤ → Call (Unit {0})
  unfolding put format_stepped
  set_am_freq khz = put (codes "TUN") (codes "AMFREQ") (format_stepped fl (of_int khz) 0 ten)
