-- ===== src/Ynca/Playing.antt =====
-- pkg/ynca/nowplaying.go: the source subunits, and what one of them plays.
pub mod Names
pub mod Fields
pub mod Sources
use yamaha_cli.Prelude.{Bool, true, false, List, [], ◌∷◌, ◌++◌, Option, none, some, if◌then◌else◌}
use yamaha_cli.Text.{Bytes, codes, equal, to_upper, trim_space, Table, insert}
use yamaha_cli.Ynca.Client.{Client, send_multi}
use yamaha_cli.Ynca.Control.{Call, command, get}
use yamaha_cli.Ynca.Enums.{PlaybackInfo, parse_playback_info, parse_input, contains_text}
use yamaha_cli.Ynca.Errors.{Result, ok, err}
use yamaha_cli.Ynca.Reports.{fold_reports}
use yamaha_cli.Ynca.Wire.{Line}
use Names.{source_subunits, input_subunits}

unfoldable pub is_source_subunit : Bytes → Bool
unfolding contains_text to_upper trim_space
is_source_subunit id = contains_text source_subunits (to_upper (trim_space id))

-- The subunit of the first pair with this input, or nothing.
pub subunit_of : List (Bytes × Bytes) → Bytes → Bytes
unfolding equal
subunit_of [] input = []
subunit_of ((i, s) ∷ pairs) input = if equal i input then s else subunit_of pairs input

unfoldable pub subunit_for_input : Bytes → Bytes
unfolding subunit_of parse_input
subunit_for_input input = subunit_of input_subunits (parse_input input)

pub record NowPlaying : Type 0 where
  pub subunit : Bytes
  pub artist : Bytes
  pub album : Bytes
  pub song : Bytes
  pub track : Bytes
  pub station : Bytes
  pub channel_name : Bytes
  pub playback_info : PlaybackInfo
  pub elapsed_raw : Bytes
  pub total_raw : Bytes
  pub raw : Table

abbrev pub empty_playing : Bytes → NowPlaying
empty_playing subunit = record {
  subunit = subunit;
  artist = [];
  album = [];
  song = [];
  track = [];
  station = [];
  channel_name = [];
  playback_info = PlaybackInfo.unknown;
  elapsed_raw = [];
  total_raw = [];
  raw = [];
}

-- The switch on the function's name.
pub meta_field : Bytes → Bytes → NowPlaying → NowPlaying
unfolding equal
meta_field key value np =
    if equal key (codes "ARTIST")
    then record np { artist = value }
    else if equal key (codes "ALBUM")
    then record np { album = value }
    else if equal key (codes "SONG")
    then record np { song = value }
    else if equal key (codes "TRACK")
    then record np { track = value }
    else if equal key (codes "CHNAME")
    then record np { channel_name = value }
    else if equal key (codes "STATION")
    then record np { station = value }
    else np

unfoldable pub meta_step : Line → NowPlaying → NowPlaying
unfolding meta_field insert to_upper
meta_step l np =
    meta_field (to_upper l.function) l.value (record np { raw = insert l.function l.value np.raw })

unfoldable pub decode_meta_info : Bytes → List Bytes → NowPlaying
unfolding fold_reports meta_step
decode_meta_info subunit lines = fold_reports meta_step subunit lines (empty_playing subunit)

abbrev playback_info_key : Bytes
playback_info_key = codes "PLAYBACKINFO"

abbrev station_key : Bytes
station_key = codes "STATION"

abbrev elapsed_key : Bytes
elapsed_key = codes "ELAPSEDTIME"

abbrev total_key : Bytes
total_key = codes "TOTALTIME"

-- What is read beyond the fan-out is kept if the read succeeds.
abbrev best_effort :
    Result Bytes × Client → (Bytes → NowPlaying → NowPlaying) → NowPlaying → NowPlaying × Client
best_effort (err _, c) keep np = (np, c)
best_effort (ok v, c) keep np = (keep v np, c)

with_playback_info : Bytes → NowPlaying × Client → NowPlaying × Client
unfolding get parse_playback_info insert
with_playback_info subunit (np, c) =
    best_effort (get subunit playback_info_key c)
      (λ v np. record np {
        playback_info = parse_playback_info v;
        raw = insert playback_info_key v np.raw;
      })
      np

-- A station that is known, or that cannot be read, or is blank, is left.
with_station : Bytes → NowPlaying × Client → NowPlaying × Client
unfolding get insert equal trim_space
with_station subunit (np, c) =
    if equal np.station []
    then best_effort (get subunit station_key c)
        (λ v np.
          if equal (trim_space v) []
          then np
          else record np { station = v; raw = insert station_key v np.raw })
        np
    else (np, c)

with_elapsed : Bytes → NowPlaying × Client → NowPlaying × Client
unfolding get insert
with_elapsed subunit (np, c) =
    best_effort (get subunit elapsed_key c)
      (λ v np. record np { elapsed_raw = v; raw = insert elapsed_key v np.raw }) np

with_total : Bytes → NowPlaying × Client → NowPlaying × Client
unfolding get insert
with_total subunit (np, c) =
    best_effort (get subunit total_key c)
      (λ v np. record np { total_raw = v; raw = insert total_key v np.raw }) np

with_extras : Bytes → NowPlaying × Client → NowPlaying × Client
unfolding with_playback_info with_station with_elapsed with_total
with_extras subunit x =
    with_total subunit (with_elapsed subunit (with_station subunit (with_playback_info subunit x)))

pub now_playing_of : Bytes → Result (List Bytes) × Client → Result NowPlaying × Client
unfolding with_extras decode_meta_info
now_playing_of subunit (err e, c) = (err e, c)
now_playing_of subunit (ok lines, c) =
    let (np, c') = with_extras subunit (decode_meta_info subunit lines, c) in (ok np, c')

unfoldable pub get_now_playing : Bytes → Call NowPlaying
unfolding send_multi now_playing_of
get_now_playing subunit c =
    now_playing_of subunit (send_multi (command subunit (codes "METAINFO") (codes "?")) c)
