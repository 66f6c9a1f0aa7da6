-- ===== src/Ynca/Status.antt =====
-- pkg/ynca/control.go: the decoded state of one subunit, from one fan-out.
pub mod Fields
use yamaha_cli.Prelude.{Bool, true, false, List, [], ◌∷◌, ◌++◌, Option, none, some, if◌then◌else◌}
use yamaha_cli.Text.{Bytes, codes, equal, to_upper, Table, insert}
use yamaha_cli.Ynca.Client.{Client, send_multi}
use yamaha_cli.Ynca.Codec.{Floats, parse_number}
use yamaha_cli.Ynca.Control.{Call, command, followed_by}
use yamaha_cli.Ynca.Enums.{Mute, parse_mute, muted, Power, parse_power_state}
use yamaha_cli.Ynca.Errors.{Result, ok, err}
use yamaha_cli.Ynca.Reports.{fold_reports}
use yamaha_cli.Ynca.Wire.{Line}

pub record Status (F : Type 0) : Type 0 where
  pub subunit : Bytes
  pub power : Power
  pub volume : F
  -- the wire value behind `volume`, empty if there is none
  pub volume_raw : Bytes
  pub mute : Bool
  pub mute_state : Mute
  pub input : Bytes
  pub sound_prg : Bytes
  pub raw : Table

module _ (fl : Floats) where
  open fl use {F, zero_float}

  abbrev pub empty_status : Bytes → Status F
  empty_status subunit = record {
    subunit = subunit;
    power = Power.unknown;
    volume = zero_float;
    volume_raw = [];
    mute = false;
    mute_state = Mute.unknown;
    input = [];
    sound_prg = [];
    raw = [];
  }

  pub with_volume : Bytes → Result F → Status F → Status F
  with_volume value (err _) st = st
  with_volume value (ok db) st = record st { volume = db; volume_raw = value }

  -- The switch on the function's name.
  pub status_field : Bytes → Bytes → Status F → Status F
  unfolding equal parse_power_state parse_number parse_mute muted with_volume
  status_field key value st =
      if equal key (codes "PWR")
      then record st { power = parse_power_state value }
      else if equal key (codes "VOL")
      then with_volume value (parse_number fl value) st
      else if equal key (codes "MUTE")
      then record st { mute_state = parse_mute value; mute = muted (parse_mute value) }
      else if equal key (codes "INP")
      then record st { input = value }
      else if equal key (codes "SOUNDPRG")
      then record st { sound_prg = value }
      else st

  unfoldable pub status_step : Line → Status F → Status F
  unfolding status_field insert to_upper
  status_step l st =
      status_field (to_upper l.function) l.value
        (record st { raw = insert l.function l.value st.raw })

  unfoldable pub decode_status : Bytes → List Bytes → Status F
  unfolding fold_reports status_step
  decode_status subunit lines = fold_reports status_step subunit lines (empty_status subunit)

  unfoldable pub get_status : Bytes → Call (Status F)
  unfolding send_multi decode_status
  get_status subunit c =
      followed_by (send_multi (command subunit (codes "BASIC") (codes "?")) c)
        (λ lines. ok (decode_status subunit lines))
