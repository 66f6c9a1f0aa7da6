-- ===== src/Ynca/Tuner.antt =====
-- pkg/ynca/tuner.go: the tuner's snapshot, and the radio data of a station.
pub mod Fields
use yamaha_cli.Prelude.{
  Bool, true, false, List, [], ◌∷◌, ◌++◌, Option, none, some, if◌then◌else◌, ℤ, pos,
}
use yamaha_cli.Text.{Bytes, codes, equal, to_upper, trim_space, atoi, Table, insert}
use yamaha_cli.Ynca.Client.{Client, send_multi}
use yamaha_cli.Ynca.Codec.{Floats, parse_number}
use yamaha_cli.Ynca.Control.{Call, command, followed_by, get}
use yamaha_cli.Ynca.Enums.{Band, parse_band}
use yamaha_cli.Ynca.Errors.{Result, ok, err}
use yamaha_cli.Ynca.Reports.{fold_reports}
use yamaha_cli.Ynca.Wire.{Line}

pub record RdsInfo : Type 0 where
  pub program_service : Bytes
  pub program_type : Bytes
  pub radio_text_a : Bytes
  pub radio_text_b : Bytes
  pub raw : Table

abbrev pub empty_rds : RdsInfo
empty_rds = record {
  program_service = [];
  program_type = [];
  radio_text_a = [];
  radio_text_b = [];
  raw = [];
}

-- The switch on the function's name.
pub rds_field : Bytes → Bytes → RdsInfo → RdsInfo
unfolding equal
rds_field key value info =
    if equal key (codes "RDSPRGSERVICE")
    then record info { program_service = value }
    else if equal key (codes "RDSPRGTYPE")
    then record info { program_type = value }
    else if equal key (codes "RDSTXTA")
    then record info { radio_text_a = value }
    else if equal key (codes "RDSTXTB")
    then record info { radio_text_b = value }
    else info

unfoldable pub rds_step : Line → RdsInfo → RdsInfo
unfolding rds_field insert to_upper
rds_step l info =
    rds_field (to_upper l.function) l.value
      (record info { raw = insert l.function l.value info.raw })

abbrev pub tuner : Bytes
tuner = codes "TUN"

unfoldable pub decode_rds_info : List Bytes → RdsInfo
unfolding fold_reports rds_step
decode_rds_info lines = fold_reports rds_step tuner lines empty_rds

unfoldable pub get_rds_info : Call RdsInfo
unfolding send_multi decode_rds_info
get_rds_info c =
    followed_by (send_multi (command tuner (codes "RDSINFO") (codes "?")) c)
      (λ lines. ok (decode_rds_info lines))

pub record TunerStatus (F : Type 0) : Type 0 where
  pub band : Band
  pub freq_mhz : F
  pub freq_khz : ℤ
  pub preset : Bytes
  pub raw : Table

abbrev band_key : Bytes
band_key = codes "BAND"

abbrev fm_key : Bytes
fm_key = codes "FMFREQ"

abbrev am_key : Bytes
am_key = codes "AMFREQ"

abbrev preset_key : Bytes
preset_key = codes "PRESET"

module _ (fl : Floats) where
  open fl use {F, zero_float}

  -- What is read beyond the band is kept if the read succeeds.
  abbrev best_effort :
      Result Bytes × Client
      → (Bytes → TunerStatus F → TunerStatus F)
      → TunerStatus F
      → TunerStatus F × Client
  best_effort (err _, c) keep st = (st, c)
  best_effort (ok v, c) keep st = (keep v st, c)

  with_mhz : Result F → TunerStatus F → TunerStatus F
  with_mhz (err _) st = st
  with_mhz (ok f) st = record st { freq_mhz = f }

  with_khz : Option ℤ → TunerStatus F → TunerStatus F
  with_khz none st = st
  with_khz (some n) st = record st { freq_khz = n }

  -- The frequency of the band.
  with_frequency : Band → TunerStatus F × Client → TunerStatus F × Client
  unfolding get insert parse_number atoi trim_space with_mhz with_khz
  with_frequency Band.fm (st, c) =
      best_effort (get tuner fm_key c)
        (λ v st. with_mhz (parse_number fl v) (record st { raw = insert fm_key v st.raw })) st
  with_frequency Band.am (st, c) =
      best_effort (get tuner am_key c)
        (λ v st. with_khz (atoi (trim_space v)) (record st { raw = insert am_key v st.raw })) st
  with_frequency Band.unknown (st, c) = (st, c)

  with_preset : TunerStatus F × Client → TunerStatus F × Client
  unfolding get insert
  with_preset (st, c) =
      best_effort (get tuner preset_key c)
        (λ v st. record st { preset = v; raw = insert preset_key v st.raw }) st

  abbrev initial_status : Bytes → TunerStatus F
  initial_status v = record {
    band = parse_band v;
    freq_mhz = zero_float;
    freq_khz = pos 0;
    preset = [];
    raw = (band_key, v) ∷ [];
  }

  pub tuner_status_of : Result Bytes × Client → Result (TunerStatus F) × Client
  unfolding with_frequency with_preset parse_band
  tuner_status_of (err e, c) = (err e, c)
  tuner_status_of (ok v, c) =
      let (st, c') = with_preset (with_frequency (parse_band v) (initial_status v, c)) in
      (ok st, c')

  unfoldable pub get_tuner_status : Call (TunerStatus F)
  unfolding get tuner_status_of
  get_tuner_status c = tuner_status_of (get tuner band_key c)
