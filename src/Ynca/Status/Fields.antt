-- ===== src/Ynca/Status/Fields.antt =====
-- What the fields of a decoded status are.
use yamaha_cli.Prelude.{Bool, Option, none, some}
use yamaha_cli.Text.{Bytes}
use yamaha_cli.Ynca.Codec.{Floats, parse_number}
use yamaha_cli.Ynca.Enums.{Mute, parse_mute, muted, Power, parse_power_state}
use yamaha_cli.Ynca.Errors.{ok, err}
use yamaha_cli.Ynca.Status.{Status}

module _ (fl : Floats) where
  open fl use {F, zero_float}

  -- A volume that can be read, with its spelling.
  abbrev pub read_volume : Bytes → Option (F × Bytes)
  read_volume v = elim (parse_number fl v) [ err _ ↦ none | ok db ↦ some (db, v) ]

  abbrev volume_of : Status F → F × Bytes
  volume_of st = (st.volume, st.volume_raw)

  abbrev mute_of : Status F → Mute × Bool
  mute_of st = (st.mute_state, st.mute)

  abbrev pub read_mute : Bytes → Option (Mute × Bool)
  read_mute v = some (parse_mute v, muted (parse_mute v))

  abbrev pub read_power : Bytes → Option Power
  read_power v = some (parse_power_state v)
