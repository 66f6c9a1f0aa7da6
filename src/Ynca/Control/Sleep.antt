-- ===== src/Ynca/Control/Sleep.antt =====
-- The sleep timer of pkg/ynca/zone_control.go.
use yamaha_cli.Prelude.{ℕ, ◌||◌, ◌++◌, Option, none, some, ◌==◌, if◌then◌else◌, ℤ, pos, negsuc}
use yamaha_cli.Text.{Bytes, codes, equal, trim_space, itoa}
use yamaha_cli.Ynca.Control.{Call, followed_by, refuse, get, put}
use yamaha_cli.Ynca.Errors.{invalid, Result, ok, err}

-- The minutes of a sleep value, with no space around it.
unfoldable pub minutes_of : Bytes → Option ℕ
unfolding equal
minutes_of w =
    if equal w (codes "Off")
    then some 0
    else if equal w (codes "30 min")
    then some 30
    else if equal w (codes "60 min")
    then some 60
    else if equal w (codes "90 min")
    then some 90
    else if equal w (codes "120 min")
    then some 120
    else none

unfoldable pub sleep_minutes : Bytes → Option ℕ
unfolding minutes_of trim_space
sleep_minutes wire = minutes_of (trim_space wire)

unfoldable pub sleep_wire : ℕ → Option Bytes
unfolding itoa
sleep_wire minutes =
    if minutes == 0
    then some (codes "Off")
    else if minutes == 30 || minutes == 60 || minutes == 90 || minutes == 120
    then some (itoa minutes ++ codes " min")
    else none

abbrev known_sleep : Bytes → Result ℕ
known_sleep v = elim (sleep_minutes v) [ some m ↦ ok m | none ↦ err (invalid v) ]

unfoldable pub get_sleep : Bytes → Call ℕ
unfolding get sleep_minutes
get_sleep subunit c = followed_by (get subunit (codes "SLEEP") c) known_sleep

-- A negative number of minutes is none of those allowed.
unfoldable pub sleep_wire_of : ℤ → Option Bytes
unfolding sleep_wire
sleep_wire_of (pos m) = sleep_wire m
sleep_wire_of (negsuc m) = none

unfoldable pub set_sleep : Bytes → ℤ → Call (Unit {0})
unfolding put sleep_wire_of
set_sleep subunit minutes c = elim (sleep_wire_of minutes) [
  | some wire ↦ put subunit (codes "SLEEP") wire c
  | none ↦ refuse (codes "minutes") c
]
