-- ===== src/Ynca/Playing/Fields.antt =====
-- What the fields of the decoded metadata are.
use yamaha_cli.Prelude.{List, [], some, ◌≡◌, refl, arith}
use yamaha_cli.Text.{Bytes, codes, equal_iff, to_upper, lookup}
use yamaha_cli.Ynca.Reports.{
  fold_reports-last, last_value, or_else, last_spelt, Records, lookup-fold_reports, reports_of,
  Writes,
}
use yamaha_cli.Ynca.Playing.{NowPlaying, empty_playing, decode_meta_info, meta_step, meta_field}

artist-Writes : Writes meta_step (λ x. x.artist) some (codes "ARTIST")
unfolding meta_step meta_field
artist-Writes l x = ground (arith, equal_iff (to_upper l.function) (codes "ARTIST"))

album-Writes : Writes meta_step (λ x. x.album) some (codes "ALBUM")
unfolding meta_step meta_field
album-Writes l x = ground (
  arith,
  equal_iff (to_upper l.function) (codes "ARTIST"),
  equal_iff (to_upper l.function) (codes "ALBUM"),
)

song-Writes : Writes meta_step (λ x. x.song) some (codes "SONG")
unfolding meta_step meta_field
song-Writes l x = ground (
  arith,
  equal_iff (to_upper l.function) (codes "ARTIST"),
  equal_iff (to_upper l.function) (codes "ALBUM"),
  equal_iff (to_upper l.function) (codes "SONG"),
)

track-Writes : Writes meta_step (λ x. x.track) some (codes "TRACK")
unfolding meta_step meta_field
track-Writes l x = ground (
  arith,
  equal_iff (to_upper l.function) (codes "ARTIST"),
  equal_iff (to_upper l.function) (codes "ALBUM"),
  equal_iff (to_upper l.function) (codes "SONG"),
  equal_iff (to_upper l.function) (codes "TRACK"),
)

channel_name-Writes : Writes meta_step (λ x. x.channel_name) some (codes "CHNAME")
unfolding meta_step meta_field
channel_name-Writes l x = ground (
  arith,
  equal_iff (to_upper l.function) (codes "ARTIST"),
  equal_iff (to_upper l.function) (codes "ALBUM"),
  equal_iff (to_upper l.function) (codes "SONG"),
  equal_iff (to_upper l.function) (codes "TRACK"),
  equal_iff (to_upper l.function) (codes "CHNAME"),
)

station-Writes : Writes meta_step (λ x. x.station) some (codes "STATION")
unfolding meta_step meta_field
station-Writes l x = ground (
  arith,
  equal_iff (to_upper l.function) (codes "ARTIST"),
  equal_iff (to_upper l.function) (codes "ALBUM"),
  equal_iff (to_upper l.function) (codes "SONG"),
  equal_iff (to_upper l.function) (codes "TRACK"),
  equal_iff (to_upper l.function) (codes "CHNAME"),
  equal_iff (to_upper l.function) (codes "STATION"),
)

raw-Records : Records meta_step (λ x. x.raw)
unfolding meta_step meta_field
raw-Records l x = ground arith

-- Whatever lines came, each field of the metadata is the last value of its function, in any case,
-- that the subunit reported, and empty if there is none. A function is looked up in the table of raw
-- values just if it was reported in that spelling, with its last value.
pub decode_meta_info-last_value :
    (subunit : Bytes) (function : Bytes) (lines : List Bytes)
    → (let x = decode_meta_info subunit lines in
        let ls = reports_of subunit lines in
        (x.artist ≡ or_else (last_value some (codes "ARTIST") ls) [])
        × (x.album ≡ or_else (last_value some (codes "ALBUM") ls) [])
        × (x.song ≡ or_else (last_value some (codes "SONG") ls) [])
        × (x.track ≡ or_else (last_value some (codes "TRACK") ls) [])
        × (x.channel_name ≡ or_else (last_value some (codes "CHNAME") ls) [])
        × (x.station ≡ or_else (last_value some (codes "STATION") ls) [])
        × (lookup function x.raw ≡ last_spelt function ls))
unfolding decode_meta_info
decode_meta_info-last_value subunit function lines = (
  last (λ x. x.artist) (codes "ARTIST") artist-Writes,
  last (λ x. x.album) (codes "ALBUM") album-Writes,
  last (λ x. x.song) (codes "SONG") song-Writes,
  last (λ x. x.track) (codes "TRACK") track-Writes,
  last (λ x. x.channel_name) (codes "CHNAME") channel_name-Writes,
  last (λ x. x.station) (codes "STATION") station-Writes,
  lookup-fold_reports meta_step (λ x. x.raw) raw-Records subunit function lines
      (empty_playing subunit) refl,
)
  where
    last :
        (field : NowPlaying → Bytes) (key : Bytes)
        → Writes meta_step field some key
        → field (decode_meta_info subunit lines)
          ≡ or_else (last_value some key (reports_of subunit lines)) (field (empty_playing subunit))
    last field key writes =
        fold_reports-last meta_step field some key writes subunit lines (empty_playing subunit)
