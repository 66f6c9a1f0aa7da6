-- ===== src/Ynca/Enums.antt =====
-- pkg/ynca/enums.go, and the power states of pkg/ynca/control.go: the closed sets of wire values.
pub mod Names
pub mod Parse
use yamaha_cli.Prelude.{Bool, true, false, ◌||◌, List, [], ◌∷◌, Option, none, some, if◌then◌else◌}
use yamaha_cli.Text.{Bytes, codes, equal, trim_space, to_lower, to_upper}
use Names.{all_inputs, all_sound_programs, all_two_ch_decoders}
use yamaha_cli.Ynca.Errors.{Error, invalid, Result, ok, err}

abbrev pub unknown_value : Bytes
unknown_value = codes "< UNKNOWN >"

-- `slices.Contains`
unfoldable pub contains_text : List Bytes → Bytes → Bool
unfolding equal
contains_text [] s = false
contains_text (t ∷ ts) s = equal t s || contains_text ts s

-- The value without the space around it if it is one of the set, or else the sentinel.
unfoldable pub parse_known : List Bytes → Bytes → Bytes
unfolding contains_text trim_space
parse_known known s = if contains_text known (trim_space s) then trim_space s else unknown_value

unfoldable pub parse_input : Bytes → Bytes
unfolding parse_known
parse_input = parse_known all_inputs

unfoldable pub parse_sound_program : Bytes → Bytes
unfolding parse_known
parse_sound_program = parse_known all_sound_programs

unfoldable pub parse_two_ch_decoder : Bytes → Bytes
unfolding parse_known
parse_two_ch_decoder = parse_known all_two_ch_decoders

pub data Mute : Type 0 where
  off on att20 att40 unknown : Mute

abbrev pub mute_wire : Mute → Bytes
mute_wire Mute.off = codes "Off"
mute_wire Mute.on = codes "On"
mute_wire Mute.att20 = codes "Att -20 dB"
mute_wire Mute.att40 = codes "Att -40 dB"
mute_wire Mute.unknown = unknown_value

-- `Muted`: on, or one of the attenuations.
unfoldable pub muted : Mute → Bool
muted Mute.on = true
muted Mute.att20 = true
muted Mute.att40 = true
muted _ = false

mute_of : Bytes → Mute
unfolding equal to_lower
mute_of t =
    if equal (to_lower t) (codes "off")
    then Mute.off
    else if equal (to_lower t) (codes "on")
    then Mute.on
    else if equal t (mute_wire Mute.att20)
    then Mute.att20
    else if equal t (mute_wire Mute.att40)
    then Mute.att40
    else Mute.unknown

unfoldable pub parse_mute : Bytes → Mute
unfolding mute_of trim_space
parse_mute s = mute_of (trim_space s)

pub data Power : Type 0 where
  on standby unknown : Power

abbrev pub power_wire : Power → Bytes
power_wire Power.on = codes "On"
power_wire Power.standby = codes "Standby"
power_wire Power.unknown = unknown_value

unfoldable pub parse_power : Bytes → Result Power
unfolding equal to_lower trim_space
parse_power v =
    if equal (to_lower (trim_space v)) (codes "on")
    then ok Power.on
    else if equal (to_lower (trim_space v)) (codes "standby")
    then ok Power.standby
    else err (invalid v)

unfoldable pub parse_power_state : Bytes → Power
unfolding parse_power
parse_power_state v = elim (parse_power v) [ ok p ↦ p | err _ ↦ Power.unknown ]

pub data Band : Type 0 where
  fm am unknown : Band

abbrev pub band_wire : Band → Bytes
band_wire Band.fm = codes "FM"
band_wire Band.am = codes "AM"
band_wire Band.unknown = unknown_value

unfoldable pub parse_band : Bytes → Band
unfolding equal to_upper trim_space
parse_band s =
    if equal (to_upper (trim_space s)) (codes "FM")
    then Band.fm
    else if equal (to_upper (trim_space s)) (codes "AM")
    then Band.am
    else Band.unknown

-- The transport verbs.
pub data Playback : Type 0 where
  stop pause play skip_rev skip_fwd : Playback

abbrev pub playback_wire : Playback → Bytes
playback_wire Playback.stop = codes "Stop"
playback_wire Playback.pause = codes "Pause"
playback_wire Playback.play = codes "Play"
playback_wire Playback.skip_rev = codes "Skip Rev"
playback_wire Playback.skip_fwd = codes "Skip Fwd"

pub data PlaybackInfo : Type 0 where
  stop pause play unknown : PlaybackInfo

unfoldable pub parse_playback_info : Bytes → PlaybackInfo
unfolding equal trim_space
parse_playback_info s =
    if equal (trim_space s) (codes "Stop")
    then PlaybackInfo.stop
    else if equal (trim_space s) (codes "Pause")
    then PlaybackInfo.pause
    else if equal (trim_space s) (codes "Play")
    then PlaybackInfo.play
    else PlaybackInfo.unknown
